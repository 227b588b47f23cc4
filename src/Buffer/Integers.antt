-- ===== src/Buffer/Integers.antt =====
-- `get_variable_size_integer` of buffer.cpp: any number of bytes, kept to 64 bits.
use ham_router.Common.{
  ℕ, zero, suc, ◌+◌, ◌-◌, ◌*◌, ◌%◌, ◌^◌, ◌≤◌, ◌<◌, bit_or, List, [], ◌∷◌, length, take, drop, arith,
  ltb, if◌then◌else◌, ◌≡◌, refl, sym, ap, ◌∙◌, length-drop, drop_cons, IsByte, All,
}
use ham_router.Common.Bits.{bit_or_fields}
use ham_router.Buffer.{
  Buffer, Outcome, ok, out_of_range, size, remaining, get_byte, shift_in, get_variable_size_integer,
}
use ham_router.Buffer.Reads.{IsValid}

-- The number that a list of digits to the base 256 stands for, the first digit highest.
unfoldable pub digits : ℕ → List ℕ → ℕ
digits high [] = high
digits high (c ∷ cs) = digits (high * 256 + c) cs

digits_mod : (high : ℕ) (cs : List ℕ) → digits (high % 2 ^ 64) cs % 2 ^ 64 ≡ digits high cs % 2 ^ 64
unfolding digits
digits_mod high [] = omega arith
digits_mod high (c ∷ cs) =
    sym (digits_mod (high % 2 ^ 64 * 256 + c) cs)
    ∙ ap (λ h. digits h cs % 2 ^ 64) (omega arith)
    ∙ digits_mod (high * 256 + c) cs

-- One round of the loop.
shifted : (out c : ℕ) → c < 256 → bit_or (out * 2 ^ 8 % 2 ^ 64) c ≡ (out * 256 + c) % 2 ^ 64
shifted out c h =
    let low : out * 2 ^ 8 % 2 ^ 64 ≡ out % 2 ^ 56 * 2 ^ 8 = omega arith in
    ap (λ v. bit_or v c) low ∙ bit_or_fields 8 (out % 2 ^ 56) c h ∙ omega arith

-- What the loop answers when `cs` is left.
abbrev loop_spec : ℕ → ℕ → List ℕ → ℕ → List ℕ → Outcome ℕ
loop_spec n out p o cs =
    if ltb (length cs) n
    then out_of_range (record { p = p; o = length p })
    else ok (digits out (take n cs) % 2 ^ 64) (record { p = p; o = o + n })

shift_in-digits :
    (n out : ℕ) (p : List ℕ) (o : ℕ) (cs : List ℕ)
    → drop o p ≡ cs
    → o ≤ length p
    → All IsByte cs
    → out < 2 ^ 64
    → shift_in n out (record { p = p; o = o }) ≡ loop_spec n out p o cs
unfolding shift_in get_byte
shift_in-digits zero out p o cs e v h ho = unfold digits in ground arith
shift_in-digits (suc n) out p o [] e v h ho =
    let at_end : length p - o ≡ 0 = sym (length-drop o p) ∙ ap length e in ground arith
shift_in-digits (suc n) out p o (c ∷ cs) e v (hc, hcs) ho =
    let (read, rest, inside) = drop_cons p o 0 c cs e in
    let ih =
      shift_in-digits n ((out * 256 + c) % 2 ^ 64) p (suc o) cs rest inside hcs (omega arith) in
    let round : shift_in (suc n) out (record { p = p; o = o })
        ≡ shift_in n ((out * 256 + c) % 2 ^ 64) (record { p = p; o = suc o }) =
      ground (arith, read, shifted out c) in
    let value : digits ((out * 256 + c) % 2 ^ 64) (take n cs) % 2 ^ 64
        ≡ digits out (c ∷ take n cs) % 2 ^ 64 =
      unfold digits in digits_mod (out * 256 + c) (take n cs) in
    round ∙ ih ∙ ground (arith, value)

-- On a valid buffer of bytes: with `len` bytes left or more the result is the number that the next
-- `len` bytes stand for, the first one highest, modulo 2 ^ 64, and the position moves past them;
-- with fewer it throws, and the position is at the end.
pub get_variable_size_integer-digits :
    (b : Buffer) (len : ℕ)
    → IsValid b
    → All IsByte (remaining b)
    → get_variable_size_integer b len ≡ (
        if ltb (length (remaining b)) len
        then out_of_range (record b { o = size b })
        else ok (digits 0 (take len (remaining b)) % 2 ^ 64) (record b { o = b.o + len }))
unfolding get_variable_size_integer
get_variable_size_integer-digits b len v h =
    shift_in-digits len 0 b.p b.o (remaining b) refl v h (omega arith)
