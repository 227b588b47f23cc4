-- ===== src/Snmp/Integers.antt =====
-- An integer that is encoded and read back.
use ham_router.Common.{
  ℕ, zero, suc, ◌*◌, ◌/◌, ◌%◌, ◌^◌, ◌<◌, ◌≤◌, bit_or, drop, ◌≡◌, sym, ap, ◌∙◌, arith,
}
use ham_router.Common.Bits.{bit_or_fields}
use ham_router.Net.ByteOrder.{div_step}
use ham_router.Snmp.{IntegerType, integer, integer_bytes, get_payload, integer_loop, get_integer}
use ham_router.Snmp.Encoding.{get_payload-encoding}
use native.Mathlib.Nat.{div-le_self, div-eq_of_lt}

-- The bytes still to come are those below the value that was read.
integer_loop-bytes :
    (n v : ℕ) → n ≤ 8 → v < 2 ^ 64 → integer_loop (v / 256 ^ n) (integer_bytes n v) ≡ v
unfolding integer_loop integer_bytes
integer_loop-bytes zero v k h = omega arith
integer_loop-bytes (suc n) v k h =
    let high : ℕ = v / 256 ^ suc n in
    let digit : ℕ = v / 256 ^ n % 256 in
    let near : n % 8 ≡ n = omega arith in
    let short : high * 2 ^ 8 % 2 ^ 64 ≡ high * 2 ^ 8 =
      omega (arith, div_step n v, div-le_self v (256 ^ n)) in
    let value : bit_or (high * 2 ^ 8 % 2 ^ 64) digit ≡ v / 256 ^ n =
      ap (λ x. bit_or x digit) short
      ∙ bit_or_fields 8 high digit (omega arith)
      ∙ omega (arith, div_step n v) in
    ap (λ i. integer_loop (bit_or (high * 2 ^ 8 % 2 ^ 64) (v / 256 ^ i % 256)) (integer_bytes n v))
      near
    ∙ ap (λ x. integer_loop x (integer_bytes n v)) value
    ∙ integer_loop-bytes n v (omega arith) h

-- A value of 64 bits that fits the length of its integer, of at most eight bytes, is read back from the bytes behind the
-- tag and the length, whatever its type.
pub get_integer-get_payload :
    (type : IntegerType) (v len : ℕ)
    → len ≤ 8
    → v < 2 ^ 64
    → v < 256 ^ len
    → get_integer (drop 2 (get_payload (integer type v len))) ≡ v
unfolding get_integer
get_integer-get_payload type v len small wide fits =
    let nothing : v / 256 ^ len ≡ 0 = div-eq_of_lt fits in
    ap (λ p. integer_loop 0 (drop 2 p)) (get_payload-encoding (integer type v len) small).1
    ∙ ap (λ x. integer_loop x (integer_bytes len v)) (sym nothing)
    ∙ integer_loop-bytes len v small wide
