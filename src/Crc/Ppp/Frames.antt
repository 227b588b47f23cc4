-- ===== src/Crc/Ppp/Frames.antt =====
-- What the frame check sequence of crc_ppp.cpp is, and which frames it accepts.
use ham_router.Common.{
  ℕ, ◌+◌, ◌*◌, ◌/◌, ◌%◌, ◌^◌, ◌<◌, bit_xor, bit_and, ◌≡◌, refl, sym, ◌∙◌, ap, ap₂, true, List, [],
  ◌∷◌, ◌++◌, arith, ==_iff, get_or, IsByte, All, All-append,
}
use ham_router.Common.Bits.{
  bit_xor_assoc, bit_xor-zero, zero-bit_xor, bit_xor_lt, bit_xor_fields, bit_xor-injective,
  bit_xor_cancel,
}
use ham_router.Crc.Register.{
  clock, clocks, clocks-xor, serial, message_bits, clocks_lt, clocks-injective,
}
use ham_router.Crc.Bytewise.{
  next, bytewise, bytewise-serial, bytewise_lt, bytewise-append, bytewise-injective,
}
use ham_router.Crc.Table.{table_step}
use ham_router.Crc.Ppp.{
  pppfcs, compute_crc, ok_crc, pppinitfcs, pppgoodfcs, polynomial, fcstab, fcstab-IsTable,
}

pppfcs-bytewise :
    (fcs : ℕ) (cs : List ℕ) → All IsByte cs → pppfcs fcs cs ≡ bytewise polynomial fcs cs
unfolding pppfcs bytewise
pppfcs-bytewise fcs [] h = refl
pppfcs-bytewise fcs (c ∷ cs) (hc, hcs) =
    pppfcs-bytewise (bit_xor (fcs / 256) (get_or fcstab (bit_and (bit_xor fcs c) 0xff) 0)) cs hcs
    ∙ ap (λ r. bytewise polynomial r cs) (table_step polynomial fcstab fcs c fcstab-IsTable hc)

-- The table driven loop is the shift register of the polynomial over the bits of the message, the
-- lowest bit of each byte first, for any start value and any bytes.
pub pppfcs-serial :
    (fcs : ℕ) (cs : List ℕ)
    → All IsByte cs
    → pppfcs fcs cs ≡ serial polynomial fcs (message_bits cs)
pppfcs-serial fcs cs h = pppfcs-bytewise fcs cs h ∙ bytewise-serial polynomial fcs cs h

pub pppfcs_lt : (fcs : ℕ) (cs : List ℕ) → All IsByte cs → fcs < 2 ^ 16 → pppfcs fcs cs < 2 ^ 16
pppfcs_lt fcs cs h l =
    rw (pppfcs-bytewise fcs cs h)
      (bytewise_lt polynomial 15 (omega arith) (omega arith) (omega arith) fcs cs h l)

pub pppfcs-append :
    (fcs : ℕ) (xs ys : List ℕ)
    → All IsByte xs
    → All IsByte ys
    → pppfcs fcs (xs ++ ys) ≡ pppfcs (pppfcs fcs xs) ys
pppfcs-append fcs xs ys hx hy =
    pppfcs-bytewise fcs (xs ++ ys) (All-append IsByte xs ys hx hy)
    ∙ bytewise-append polynomial fcs xs ys
    ∙ sym (pppfcs-bytewise (bytewise polynomial fcs xs) ys hy)
    ∙ ap (λ r. pppfcs r ys) (sym (pppfcs-bytewise fcs xs hx))

-- Two bytes as one word, the first byte low.
abbrev word : ℕ → ℕ → ℕ
word a b = b * 2 ^ 8 + a

word_xor : (a b : ℕ) → a < 256 → bit_xor a (b * 2 ^ 8) ≡ word a b
word_xor a b h =
    let low : a ≡ 0 * 2 ^ 8 + a = omega arith in
    let high : b * 2 ^ 8 ≡ b * 2 ^ 8 + 0 = omega arith in
    ap₂ bit_xor low high
    ∙ bit_xor_fields 8 0 b a 0 h (omega arith)
    ∙ omega (arith, zero-bit_xor b, bit_xor-zero a)

-- The register after two bytes: sixteen clocks on the word.
abbrev next_word : ℕ → ℕ → ℕ
next_word fcs v = clocks polynomial 8 (clocks polynomial 8 (bit_xor fcs v))

two_bytes :
    (fcs a b : ℕ) (cs : List ℕ)
    → a < 256
    → b < 256
    → All IsByte cs
    → pppfcs fcs (a ∷ b ∷ cs) ≡ pppfcs (next_word fcs (word a b)) cs
unfolding bytewise
two_bytes fcs a b cs ha hb h =
    pppfcs-bytewise fcs (a ∷ b ∷ cs) (ha, (hb, h))
    ∙ sym (pppfcs-bytewise (next polynomial (next polynomial fcs a) b) cs h)
    ∙ ap (λ r. pppfcs (clocks polynomial 8 r) cs)
        (sym (clocks-xor polynomial 8 (bit_xor fcs a) b)
          ∙ ap (clocks polynomial 8)
              (bit_xor_assoc fcs a (b * 2 ^ 8) ∙ ap (bit_xor fcs) (word_xor a b ha)))

complement_register : (fcs : ℕ) → next_word fcs (bit_xor fcs 0xffff) ≡ pppgoodfcs
unfolding clocks clock
complement_register fcs = rw (bit_xor_cancel fcs 0xffff) refl

-- A message of any bytes, followed by its check sequence with the low byte first, is accepted.
pub ok_crc-compute_crc :
    (buf : List ℕ)
    → All IsByte buf
    → ok_crc (buf ++ compute_crc buf % 256 ∷ compute_crc buf / 256 ∷ []) ≡ true
unfolding ok_crc compute_crc
ok_crc-compute_crc buf h =
    let fcs : ℕ = pppfcs pppinitfcs buf in
    let crc : ℕ = compute_crc buf in
    let small : fcs < 2 ^ 16 = pppfcs_lt pppinitfcs buf h (omega arith) in
    let crc_small : crc < 2 ^ 16 = bit_xor_lt 16 fcs 0xffff small (omega arith) in
    let whole : word (crc % 256) (crc / 256) ≡ bit_xor fcs 0xffff = omega arith in
    (==_iff _ _).1 (
      pppfcs-append pppinitfcs buf (crc % 256 ∷ crc / 256 ∷ []) h (omega arith)
      ∙ two_bytes fcs (crc % 256) (crc / 256) [] (omega arith) (omega arith) tt
      ∙ ap (λ v. pppfcs (next_word fcs v) []) whole
      ∙ unfold pppfcs in complement_register fcs)

next_word-injective :
    (f g v w : ℕ)
    → f < 2 ^ 16
    → g < 2 ^ 16
    → v < 2 ^ 16
    → w < 2 ^ 16
    → next_word f v ≡ next_word g w
    → bit_xor f v ≡ bit_xor g w
next_word-injective f g v w hf hg hv hw e =
    let lt = clocks_lt polynomial 15 (omega arith) (omega arith) 8 in
    let inj = clocks-injective polynomial 15 (omega arith) (omega arith) 8 in
    let x : bit_xor f v < 2 ^ 16 = bit_xor_lt 16 f v hf hv in
    let y : bit_xor g w < 2 ^ 16 = bit_xor_lt 16 g w hg hw in
    inj _ _ x y (inj _ _ (lt _ x) (lt _ y) e)

pppfcs-injective :
    (f g : ℕ) (cs : List ℕ)
    → All IsByte cs
    → f < 2 ^ 16
    → g < 2 ^ 16
    → pppfcs f cs ≡ pppfcs g cs
    → f ≡ g
pppfcs-injective f g cs h hf hg e =
    bytewise-injective polynomial 15 (omega arith) (omega arith) (omega arith) f g cs h hf hg
      (sym (pppfcs-bytewise f cs h) ∙ e ∙ pppfcs-bytewise g cs h)

-- Of two frames of bytes that differ at most in two bytes side by side, at one place, both are
-- accepted only if those bytes are the same: no damage inside two neighbouring bytes passes.
pub ok_crc_detects :
    (xs ys : List ℕ) (a b a' b' : ℕ)
    → All IsByte xs
    → All IsByte ys
    → IsByte a × IsByte b × IsByte a' × IsByte b'
    → ok_crc (xs ++ a ∷ b ∷ ys) ≡ true
    → ok_crc (xs ++ a' ∷ b' ∷ ys) ≡ true
    → (a ≡ a') × (b ≡ b')
unfolding ok_crc
ok_crc_detects xs ys a b a' b' hx hy (ha, hb, ha', hb') p q =
    let fcs : ℕ = pppfcs pppinitfcs xs in
    let small : fcs < 2 ^ 16 = pppfcs_lt pppinitfcs xs hx (omega arith) in
    let lt = clocks_lt polynomial 15 (omega arith) (omega arith) 8 in
    let reg = λ (v : ℕ) (h : v < 2 ^ 16). lt _ (lt _ (bit_xor_lt 16 fcs v small h)) in
    let run = λ (c d : ℕ) (hc : c < 256) (hd : d < 256).
      pppfcs-append pppinitfcs xs (c ∷ d ∷ ys) hx (hc, (hd, hy)) ∙ two_bytes fcs c d ys hc hd hy in
    let same : pppfcs (next_word fcs (word a b)) ys ≡ pppfcs (next_word fcs (word a' b')) ys =
      sym (run a b ha hb) ∙ (==_iff _ _).0 p ∙ sym ((==_iff _ _).0 q) ∙ run a' b' ha' hb' in
    let words : word a b ≡ word a' b' = bit_xor-injective fcs (word a b) (word a' b') (
      next_word-injective fcs fcs (word a b) (word a' b') small small (omega arith) (omega arith) (
        pppfcs-injective _ _ ys hy (reg (word a b) (omega arith)) (reg (word a' b') (omega arith))
          same)) in
    (omega arith, omega arith)
