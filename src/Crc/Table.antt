-- ===== src/Crc/Table.antt =====
-- One step of a table driven checksum with a register of up to 32 bits, against the shift register.
use ham_router.Common.{
  ℕ, ◌*◌, ◌/◌, ◌%◌, ◌+◌, ◌<◌, ◌^◌, bit_xor, bit_and, ◌≡◌, sym, ◌∙◌, ap, ap₂, true, List, arith,
  ◌==◌, ==_iff, get_or,
}
use ham_router.Common.Bits.{
  bit_xor_comm, bit_xor_fields, bit_and_mask, zero-bit_xor, bit_xor-zero, bit_xor_lt, all_below,
  all_below_sound,
}
use ham_router.Crc.Register.{clocks, clocks-xor}

module _ (poly : ℕ) (table : List ℕ) where
  -- Every entry is the register after eight clocks on the index.
  abbrev pub IsTable : Type 0
  IsTable = all_below 256 (λ i. get_or table i 0 == clocks poly 8 i) ≡ true

  eight_clocks : (x : ℕ) → clocks poly 8 x ≡ bit_xor (x / 256) (clocks poly 8 (x % 256))
  eight_clocks x =
      ap (clocks poly 8) (sym parts)
      ∙ clocks-xor poly 8 (x % 256) (x / 256)
      ∙ bit_xor_comm (clocks poly 8 (x % 256)) (x / 256)
    where
      whole : bit_xor 0 (x / 256) * 2 ^ 8 + bit_xor (x % 256) 0 ≡ x
      whole = omega (arith, zero-bit_xor (x / 256), bit_xor-zero (x % 256))

      parts : bit_xor (x % 256) (x / 256 * 2 ^ 8) ≡ x
      parts =
          let low : x % 256 ≡ 0 * 2 ^ 8 + x % 256 = omega arith in
          let high : x / 256 * 2 ^ 8 ≡ x / 256 * 2 ^ 8 + 0 = omega arith in
          ap₂ bit_xor low high
          ∙ bit_xor_fields 8 0 (x / 256) (x % 256) 0 (omega arith) (omega arith)
          ∙ whole

  -- The high half of the register only sees the byte through the table.
  high_half : (reg c : ℕ) → c < 256 → bit_xor reg c / 256 ≡ reg / 256
  high_half reg c h =
      let parts : reg ≡ reg / 256 * 2 ^ 8 + reg % 256 = omega arith in
      let byte : c ≡ 0 * 2 ^ 8 + c = omega arith in
      let low : bit_xor (reg % 256) c < 2 ^ 8 = bit_xor_lt 8 (reg % 256) c (omega arith) h in
      let split : bit_xor reg c ≡ bit_xor (reg / 256) 0 * 2 ^ 8 + bit_xor (reg % 256) c =
        ap₂ bit_xor parts byte ∙ bit_xor_fields 8 (reg / 256) 0 (reg % 256) c (omega arith) h in
      omega (arith, split, low, bit_xor-zero (reg / 256))

  -- `(reg >> 8) ^ table[(reg ^ c) & 0xff]` clocks the register eight times.
  pub table_step :
      (reg c : ℕ)
      → IsTable
      → c < 256
      → bit_xor (reg / 256) (get_or table (bit_and (bit_xor reg c) 0xff) 0)
        ≡ clocks poly 8 (bit_xor reg c)
  table_step reg c t h =
      let index : bit_and (bit_xor reg c) 0xff ≡ bit_xor reg c % 256 =
        bit_and_mask 8 (bit_xor reg c) in
      let entry : get_or table (bit_xor reg c % 256) 0 ≡ clocks poly 8 (bit_xor reg c % 256) =
        (==_iff _ _).0 (all_below_sound 256 _ (bit_xor reg c % 256) t (omega arith)) in
      rw (index, entry, ← high_half reg c h) (sym (eight_clocks (bit_xor reg c)))
