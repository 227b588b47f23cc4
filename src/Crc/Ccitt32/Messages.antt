-- ===== src/Crc/Ccitt32/Messages.antt =====
-- What the checksum of crc_32.c is, and which packets it tells apart.
use ham_router.Common.{
  ℕ, ◌-◌, ◌/◌, ◌^◌, ◌<◌, bit_xor, bit_and, ◌≡◌, refl, ◌∙◌, ap, List, [], ◌∷◌, ◌++◌, arith, get_or,
  IsByte, All, All-append,
}
use ham_router.Common.Bits.{bit_xor_comm}
use ham_router.Crc.Register.{serial, message_bits}
use ham_router.Crc.Bytewise.{bytewise, bytewise-serial, bytewise_lt, bytewise_detects}
use ham_router.Crc.Table.{table_step}
use ham_router.Crc.Ccitt32.{
  crc_32_tab, updc32, crc32_loop, crc32buf, calc_crc32, polynomial, crc_32_tab-IsTable,
}

crc32_loop-bytewise :
    (crc : ℕ) (cs : List ℕ) → All IsByte cs → crc32_loop crc cs ≡ bytewise polynomial crc cs
unfolding crc32_loop bytewise updc32
crc32_loop-bytewise crc [] h = refl
crc32_loop-bytewise crc (c ∷ cs) (hc, hcs) =
    crc32_loop-bytewise (updc32 c crc) cs hcs
    ∙ ap (λ r. bytewise polynomial r cs)
        (bit_xor_comm (get_or crc_32_tab (bit_and (bit_xor crc c) 0xff) 0) (crc / 256)
          ∙ table_step polynomial crc_32_tab crc c crc_32_tab-IsTable hc)

-- The hash of a packet is the complement of the 32 bit shift register that starts from all ones,
-- run over the bits of the packet, the lowest bit of each byte first.
pub calc_crc32-serial :
    (p : List ℕ)
    → All IsByte p
    → calc_crc32 p ≡ 0xffffffff - serial polynomial 0xffffffff (message_bits p)
unfolding calc_crc32 crc32buf
calc_crc32-serial p h =
    ap (λ r. 0xffffffff - r)
      (crc32_loop-bytewise 0xffffffff p h ∙ bytewise-serial polynomial 0xffffffff p h)

register_lt : (p : List ℕ) → All IsByte p → bytewise polynomial 0xffffffff p < 2 ^ 32
register_lt p h =
    bytewise_lt polynomial 31 (omega arith) (omega arith) (omega arith) 0xffffffff p h (omega arith)

-- Two packets of bytes that differ in exactly one byte have different hashes.
pub calc_crc32_detects :
    (xs ys : List ℕ) (a b : ℕ)
    → All IsByte xs
    → All IsByte ys
    → IsByte a × IsByte b
    → calc_crc32 (xs ++ a ∷ ys) ≡ calc_crc32 (xs ++ b ∷ ys)
    → a ≡ b
unfolding calc_crc32 crc32buf
calc_crc32_detects xs ys a b hx hy (ha, hb) e =
    let left : All IsByte (xs ++ a ∷ ys) = All-append IsByte xs (a ∷ ys) hx (ha, hy) in
    let right : All IsByte (xs ++ b ∷ ys) = All-append IsByte xs (b ∷ ys) hx (hb, hy) in
    bytewise_detects polynomial 31 (omega arith) (omega arith) (omega arith) 0xffffffff xs ys a b hx
      hy (omega arith) ha hb
      (omega (
        arith,
        crc32_loop-bytewise 0xffffffff (xs ++ a ∷ ys) left,
        crc32_loop-bytewise 0xffffffff (xs ++ b ∷ ys) right,
        register_lt (xs ++ a ∷ ys) left,
        register_lt (xs ++ b ∷ ys) right,
      ))
