-- ===== src/Net/ByteOrder.antt =====
-- Reading back what was written, and the value of each field.
use ham_router.Common.{
  ℕ, zero, suc, ◌+◌, ◌*◌, ◌/◌, ◌%◌, ◌^◌, ◌<◌, bit_or, ◌≡◌, refl, sym, ◌∙◌, ap, ap₂, List, [], ◌∷◌,
  ◌++◌, arith, take,
}
use native.Mathlib.Nat.{div-div-eq-div-mul, pow-suc, div-le_self}
use ham_router.Common.Bits.{bit_or_fields}
use ham_router.Net.{
  get_net_short, get_net_long, get_net_long_long, shift_in, put_net_long, put_net_long_long,
}

-- The two bytes are the digits of the value to the base 256, the first one high.
pub get_net_short_value :
    (a b : ℕ) (rest : List ℕ) → a < 256 → b < 256 → get_net_short (a ∷ b ∷ rest) ≡ a * 256 + b
unfolding get_net_short
get_net_short_value a b rest ha hb = omega (arith, bit_or_fields 8 a b hb)

pub get_net_long_value :
    (a b c d : ℕ) (rest : List ℕ)
    → a < 256
    → b < 256
    → c < 256
    → d < 256
    → get_net_long (a ∷ b ∷ c ∷ d ∷ rest) ≡ a * 2 ^ 24 + b * 2 ^ 16 + c * 2 ^ 8 + d
unfolding get_net_long
get_net_long_value a b c d rest ha hb hc hd =
    let one : bit_or (a * 2 ^ 24) (b * 2 ^ 16) ≡ (a * 2 ^ 8 + b) * 2 ^ 16 =
      bit_or_fields 24 a (b * 2 ^ 16) (omega arith) ∙ omega arith in
    let two : bit_or ((a * 2 ^ 8 + b) * 2 ^ 16) (c * 2 ^ 8)
        ≡ ((a * 2 ^ 8 + b) * 2 ^ 8 + c) * 2 ^ 8 =
      bit_or_fields 16 (a * 2 ^ 8 + b) (c * 2 ^ 8) (omega arith) ∙ omega arith in
    let three : bit_or (((a * 2 ^ 8 + b) * 2 ^ 8 + c) * 2 ^ 8) d
        ≡ ((a * 2 ^ 8 + b) * 2 ^ 8 + c) * 2 ^ 8 + d =
      bit_or_fields 8 ((a * 2 ^ 8 + b) * 2 ^ 8 + c) d hd in
    rw (one, two, three) (omega arith)

-- Any 32 bit value that is written in network order is read back.
pub get_net_long-put_net_long :
    (v : ℕ) (rest : List ℕ) → v < 2 ^ 32 → get_net_long (put_net_long v ++ rest) ≡ v
unfolding put_net_long
get_net_long-put_net_long v rest h =
    get_net_long_value (v / 2 ^ 24 % 256) (v / 2 ^ 16 % 256) (v / 2 ^ 8 % 256) (v % 256) rest
      (omega arith) (omega arith) (omega arith) (omega arith)
    ∙ omega arith

-- One round of the loop, while the value still fits.
shift_in_step :
    (n out b : ℕ) (p : List ℕ)
    → b < 256
    → out < 2 ^ 56
    → shift_in (suc n) out (b ∷ p) ≡ shift_in n (out * 256 + b) p
unfolding shift_in
shift_in_step n out b p hb ho =
    let wide : out * 2 ^ 8 % 2 ^ 64 ≡ out * 2 ^ 8 = omega arith in
    ap (λ o. shift_in n o p) (ap (λ o. bit_or o b) wide ∙ bit_or_fields 8 out b hb)

-- The `n` low bytes of a number, the highest first.
big_endian : ℕ → ℕ → List ℕ
big_endian zero v = []
big_endian (suc n) v = v / 256 ^ n % 256 ∷ big_endian n v

pub div_step : (n v : ℕ) → v / 256 ^ suc n ≡ v / 256 ^ n / 256
div_step n v = rw (div-div-eq-div-mul, pow-suc)

-- The bytes still to come are those below the value that was read.
shift_in-big_endian :
    (n v : ℕ) (rest : List ℕ) → v < 2 ^ 64 → shift_in n (v / 256 ^ n) (big_endian n v ++ rest) ≡ v
unfolding big_endian
shift_in-big_endian zero v rest h = unfold shift_in in omega arith
shift_in-big_endian (suc n) v rest h =
    let short : v / 256 ^ suc n < 2 ^ 56 = omega (arith, div_step n v, div-le_self v (256 ^ n)) in
    let out : v / 256 ^ suc n * 256 + v / 256 ^ n % 256 ≡ v / 256 ^ n =
      omega (arith, div_step n v) in
    shift_in_step n (v / 256 ^ suc n) (v / 256 ^ n % 256) (big_endian n v ++ rest) (omega arith)
      short
    ∙ ap (λ o. shift_in n o (big_endian n v ++ rest)) out
    ∙ shift_in-big_endian n v rest h

-- Any 64 bit value that is written in network order is read back.
pub get_net_long_long-put_net_long_long :
    (v : ℕ) (rest : List ℕ) → v < 2 ^ 64 → get_net_long_long (put_net_long_long v ++ rest) ≡ v
unfolding put_net_long_long get_net_long_long big_endian
get_net_long_long-put_net_long_long v rest h =
    let none_read : v / 256 ^ 8 ≡ 0 = omega arith in
    let last : v ≡ v / 256 ^ 0 = omega arith in
    let bytes : put_net_long_long v ++ rest ≡ big_endian 8 v ++ rest =
      ap
        (λ (t : ℕ).
          v / 2 ^ 56 % 256
          ∷ v / 2 ^ 48 % 256
          ∷ v / 2 ^ 40 % 256
          ∷ v / 2 ^ 32 % 256
          ∷ v / 2 ^ 24 % 256
          ∷ v / 2 ^ 16 % 256
          ∷ v / 2 ^ 8 % 256
          ∷ t % 256
          ∷ rest)
        last in
    ap₂ (shift_in 8) (sym none_read) bytes ∙ shift_in-big_endian 8 v rest h

-- Each read looks at its own bytes alone.
pub get_net_short-take : (p : List ℕ) → get_net_short (take 2 p) ≡ get_net_short p
get_net_short-take [] = refl
get_net_short-take (a ∷ []) = refl
get_net_short-take (a ∷ b ∷ p) = unfold get_net_short in refl

pub get_net_long-take : (p : List ℕ) → get_net_long (take 4 p) ≡ get_net_long p
get_net_long-take [] = refl
get_net_long-take (a ∷ []) = refl
get_net_long-take (a ∷ b ∷ []) = refl
get_net_long-take (a ∷ b ∷ c ∷ []) = refl
get_net_long-take (a ∷ b ∷ c ∷ d ∷ p) = unfold get_net_long in refl

shift_in-take : (n out : ℕ) (p : List ℕ) → shift_in n out (take n p) ≡ shift_in n out p
unfolding shift_in
shift_in-take zero out p = refl
shift_in-take (suc n) out [] = refl
shift_in-take (suc n) out (c ∷ p) = shift_in-take n (bit_or (out * 2 ^ 8 % 2 ^ 64) c) p

pub get_net_long_long-take : (p : List ℕ) → get_net_long_long (take 8 p) ≡ get_net_long_long p
unfolding get_net_long_long
get_net_long_long-take p = shift_in-take 8 0 p
