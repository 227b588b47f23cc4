-- ===== src/Common/Bits.antt =====
-- The laws of `^`, `|` and `&` on native numbers, from the recursion on binary digits.
use Prim.Native.Nat.{ℕ, zero, suc, ◌+◌, ◌*◌, ◌/◌, ◌%◌, ◌-◌, ◌^◌, ◌≤◌, ◌<◌, min, max}
use Prim.Native.Nat.{differ, digits, bitwise, bit_and-bitwise, bit_or-bitwise, bit_xor-bitwise}
use Prim.Native.Nat.{bit_and, bit_or, bit_xor}
use mathlib.Core.Path.{◌≡◌, refl, sym, ap, ◌∙◌}
use native.Mathlib.Nat.{le_refl, pow-suc, one-le-pow}
use mathlib.Core.Bool.{Bool, true, ◌&&◌}
use native.Mathlib.Omega.{arith}

-- A `bitwise` operation is a recursion on the digits of its first number, with that number as fuel:
-- `z` is what it makes of the second number where the first is 0.
module _ (z : ℕ → ℕ) (f : ℕ → ℕ → ℕ) where
  digits-zero : (fuel b : ℕ) → digits z f fuel 0 b ≡ z b
  digits-zero zero b = refl
  digits-zero (suc fuel) b = refl

  -- More fuel than the number needs changes nothing.
  digits_enough :
      (a b fuel more : ℕ) → a ≤ fuel → fuel ≤ more → digits z f more a b ≡ digits z f fuel a b
  digits_enough zero b fuel more h k = digits-zero more b ∙ sym (digits-zero fuel b)
  digits_enough (suc a) b zero more h k = absurd (omega arith)
  digits_enough (suc a) b (suc fuel) zero h k = absurd (omega arith)
  digits_enough (suc a) b (suc fuel) (suc more) h k =
      let halves = digits_enough (suc a / 2) (b / 2) fuel more (omega arith) (omega arith) in
      omega arith

  -- The lowest digit, and the rest.
  lowest_digit :
      (a b : ℕ)
      → bitwise z f (suc a) b ≡ f (suc a % 2) (b % 2) + 2 * bitwise z f (suc a / 2) (b / 2)
  lowest_digit a b =
      let half : ℕ = suc a / 2 in
      let rest = digits_enough half (b / 2) half a (omega arith) (omega arith) in omega arith

pub bit_and_step : (a b : ℕ) → bit_and a b ≡ min (a % 2) (b % 2) + 2 * bit_and (a / 2) (b / 2)
bit_and_step zero b = omega (arith, bit_and-bitwise 0 b, bit_and-bitwise 0 (b / 2))
bit_and_step (suc a) b = omega (
  arith,
  bit_and-bitwise (suc a) b,
  bit_and-bitwise (suc a / 2) (b / 2),
  lowest_digit (λ y. 0) min a b,
)

pub bit_or_step : (a b : ℕ) → bit_or a b ≡ max (a % 2) (b % 2) + 2 * bit_or (a / 2) (b / 2)
bit_or_step zero b = omega (arith, bit_or-bitwise 0 b, bit_or-bitwise 0 (b / 2))
bit_or_step (suc a) b = omega (
  arith,
  bit_or-bitwise (suc a) b,
  bit_or-bitwise (suc a / 2) (b / 2),
  lowest_digit (λ y. y) max a b,
)

differ_bits : (x y : ℕ) → x < 2 → y < 2 → differ x y ≡ (x + y) % 2
differ_bits zero zero p q = refl
differ_bits zero (suc zero) p q = refl
differ_bits zero (suc (suc y)) p q = absurd (omega arith)
differ_bits (suc zero) zero p q = refl
differ_bits (suc zero) (suc zero) p q = refl
differ_bits (suc zero) (suc (suc y)) p q = absurd (omega arith)
differ_bits (suc (suc x)) y p q = absurd (omega arith)

pub bit_xor_step : (a b : ℕ) → bit_xor a b ≡ bit_xor (a / 2) (b / 2) * 2 + (a + b) % 2
bit_xor_step zero b = simp bit_xor-bitwise (omega arith)
bit_xor_step (suc a) b = omega (
  arith,
  bit_xor-bitwise (suc a) b,
  bit_xor-bitwise (suc a / 2) (b / 2),
  lowest_digit (λ y. y) differ a b,
  differ_bits (suc a % 2) (b % 2) (omega arith) (omega arith),
)

-- The two halves of the step, one equation each.
pub bit_xor-div : (a b : ℕ) → bit_xor a b / 2 ≡ bit_xor (a / 2) (b / 2)
bit_xor-div a b = omega (arith, bit_xor_step a b)

pub bit_xor-mod : (a b : ℕ) → bit_xor a b % 2 ≡ (a + b) % 2
bit_xor-mod a b = omega (arith, bit_xor_step a b)

comm_upto : (n a b : ℕ) → a + b ≤ n → bit_xor a b ≡ bit_xor b a
comm_upto zero zero zero h = refl
comm_upto zero zero (suc b) h = absurd (omega arith)
comm_upto zero (suc a) b h = absurd (omega arith)
comm_upto (suc n) a b h =
    omega (arith, bit_xor_step a b, bit_xor_step b a, comm_upto n (a / 2) (b / 2) (omega arith))

pub bit_xor_comm : (a b : ℕ) → bit_xor a b ≡ bit_xor b a
bit_xor_comm a b = comm_upto (a + b) a b (le_refl _)

assoc_upto : (n a b c : ℕ) → a + b + c ≤ n → bit_xor (bit_xor a b) c ≡ bit_xor a (bit_xor b c)
assoc_upto zero zero zero zero h = refl
assoc_upto zero zero zero (suc c) h = absurd (omega arith)
assoc_upto zero zero (suc b) c h = absurd (omega arith)
assoc_upto zero (suc a) b c h = absurd (omega arith)
assoc_upto (suc n) a b c h = ground (
  arith,
  bit_xor_step (bit_xor a b) c,
  bit_xor_step a (bit_xor b c),
  bit_xor-div a b,
  bit_xor-div b c,
  bit_xor-mod a b,
  bit_xor-mod b c,
  assoc_upto n (a / 2) (b / 2) (c / 2) (omega arith),
)

pub bit_xor_assoc : (a b c : ℕ) → bit_xor (bit_xor a b) c ≡ bit_xor a (bit_xor b c)
bit_xor_assoc a b c = assoc_upto (a + b + c) a b c (le_refl _)

pub zero-bit_xor : (b : ℕ) → bit_xor 0 b ≡ b
zero-bit_xor b = simp bit_xor-bitwise refl

pub bit_xor-zero : (a : ℕ) → bit_xor a 0 ≡ a
bit_xor-zero a = rw bit_xor_comm (zero-bit_xor a)

self_upto : (n a : ℕ) → a ≤ n → bit_xor a a ≡ 0
self_upto zero zero h = refl
self_upto zero (suc a) h = absurd (omega arith)
self_upto (suc n) a h = omega (arith, bit_xor_step a a, self_upto n (a / 2) (omega arith))

pub bit_xor_self : (a : ℕ) → bit_xor a a ≡ 0
bit_xor_self a = self_upto a a (le_refl _)

pub bit_xor_cancel : (a b : ℕ) → bit_xor a (bit_xor a b) ≡ b
bit_xor_cancel a b = rw (← bit_xor_assoc a a b, bit_xor_self a) (zero-bit_xor b)

pub bit_xor-injective : (a b c : ℕ) → bit_xor a b ≡ bit_xor a c → b ≡ c
bit_xor-injective a b c h = cc (bit_xor_cancel a b, bit_xor_cancel a c)

pub pow_double : (q k : ℕ) → q * 2 ^ suc k ≡ 2 * (q * 2 ^ k)
pow_double q k = omega (arith, ap (λ (t : ℕ). q * t) (pow-suc 2 k))

-- The exclusive or of two numbers, each a high part over `k` low bits, goes part by part.
pub bit_xor_fields :
    (k p q r s : ℕ)
    → r < 2 ^ k
    → s < 2 ^ k
    → bit_xor (p * 2 ^ k + r) (q * 2 ^ k + s) ≡ bit_xor p q * 2 ^ k + bit_xor r s
bit_xor_fields zero p q zero zero h h' = ground (arith, zero-bit_xor 0)
bit_xor_fields zero p q (suc r) s h h' = absurd (omega arith)
bit_xor_fields zero p q zero (suc s) h h' = absurd (omega arith)
bit_xor_fields (suc k) p q r s h h' = ground (
  arith,
  bit_xor_step (p * 2 ^ suc k + r) (q * 2 ^ suc k + s),
  bit_xor_step r s,
  pow_double p k,
  pow_double q k,
  pow_double (bit_xor p q) k,
  bit_xor_fields k p q (r / 2) (s / 2) (omega arith) (omega arith),
)

pub bit_xor_lt : (k a b : ℕ) → a < 2 ^ k → b < 2 ^ k → bit_xor a b < 2 ^ k
bit_xor_lt zero zero zero h h' = omega arith
bit_xor_lt zero (suc a) b h h' = absurd (omega arith)
bit_xor_lt zero zero (suc b) h h' = absurd (omega arith)
bit_xor_lt (suc k) a b h h' = omega (
  arith,
  bit_xor_step a b,
  pow-suc 2 k,
  bit_xor_lt k (a / 2) (b / 2) (omega (arith, pow-suc 2 k)) (omega (arith, pow-suc 2 k)),
)

-- `(q << k) | r` is a sum when `r` fits `k` bits.
or-zero_upto : (n a : ℕ) → a ≤ n → bit_or a 0 ≡ a
or-zero_upto zero zero h = refl
or-zero_upto zero (suc a) h = absurd (omega arith)
or-zero_upto (suc n) a h = omega (arith, bit_or_step a 0, or-zero_upto n (a / 2) (omega arith))

pub bit_or-zero : (a : ℕ) → bit_or a 0 ≡ a
bit_or-zero a = or-zero_upto a a (le_refl _)

pub bit_or_fields : (k q r : ℕ) → r < 2 ^ k → bit_or (q * 2 ^ k) r ≡ q * 2 ^ k + r
bit_or_fields zero high low h = let same = bit_or-zero high in ground arith
bit_or_fields (suc k) high low h =
    let upper = bit_or_fields k high (low / 2) (omega arith) in
    let shifted = pow_double high k in
    let digit = bit_or_step (high * 2 ^ suc k) low in ground arith

and-zero_upto : (n a : ℕ) → a ≤ n → bit_and a 0 ≡ 0
and-zero_upto zero zero h = refl
and-zero_upto zero (suc a) h = absurd (omega arith)
and-zero_upto (suc n) a h = omega (arith, bit_and_step a 0, and-zero_upto n (a / 2) (omega arith))

-- A mask of `k` low ones is the remainder by `2 ^ k`.
mask_fields : (k q r : ℕ) → r < 2 ^ k → bit_and (q * 2 ^ k + r) (2 ^ k - 1) ≡ r
mask_fields zero q r fits = ground (arith, and-zero_upto q q (le_refl _))
mask_fields (suc k) q r fits = ground (
  arith,
  bit_and_step (q * 2 ^ suc k + r) (2 ^ suc k - 1),
  pow_double q k,
  pow-suc 2 k,
  mask_fields k q (r / 2) (omega arith),
)

pub bit_and_mask : (k a : ℕ) → bit_and a (2 ^ k - 1) ≡ a % 2 ^ k
bit_and_mask k a = ground (arith, one-le-pow k 2, mask_fields k (a / 2 ^ k) (a % 2 ^ k))

-- Whether a test holds of each number under a bound, for small bounds. What it found holds there.
unfoldable pub all_below : ℕ → (ℕ → Bool) → Bool
all_below bound test = elim bound [ zero ↦ true | suc (n → below) ↦ below && test n ]

pub all_below_sound :
    (bound : ℕ) (test : ℕ → Bool) (x : ℕ) → all_below bound test ≡ true → x < bound → test x ≡ true
all_below_sound bound test x found small =
    elim bound as (λ n. all_below n test ≡ true → x < n → test x ≡ true) [
      | zero ↦ λ found small. absurd (omega arith)
      | suc (n → below) ↦ λ found small. unfold all_below in ground (arith, below)
    ]
      found small

pub bit_xor_low : (c : ℕ) → bit_xor (c % 2) (2 * (c / 2)) ≡ c
bit_xor_low c =
    let low : c % 2 / 2 ≡ 0 = omega arith in
    let high : 2 * (c / 2) / 2 ≡ c / 2 = omega arith in
    ground (arith, low, high, bit_xor_step (c % 2) (2 * (c / 2)), zero-bit_xor (c / 2))

-- A number with bit `w` set keeps it when a smaller number is added.
pub le-bit_xor : (w x p : ℕ) → x < 2 ^ w → 2 ^ w ≤ p → p < 2 ^ suc w → 2 ^ w ≤ bit_xor x p
le-bit_xor w x p hx lo hi =
    let split : p ≡ 1 * 2 ^ w + (p - 2 ^ w) = omega arith in
    let pad : x ≡ 0 * 2 ^ w + x = omega arith in
    ground (
      arith,
      split,
      pad,
      pow-suc 2 w,
      bit_xor_fields w 0 1 x (p - 2 ^ w) hx (omega (arith, pow-suc 2 w)),
      zero-bit_xor 1,
    )
