-- ===== src/Crc/Bytewise.antt =====
-- A shift register of `w + 1` bits that takes a message byte by byte.
use ham_router.Common.{
  ℕ, suc, ◌^◌, ◌≤◌, ◌<◌, bit_xor, ◌≡◌, refl, sym, ◌∙◌, ap, List, [], ◌∷◌, ◌++◌, arith, IsByte, All,
}
use ham_router.Common.Bits.{bit_xor_comm, bit_xor_lt, bit_xor-injective}
use ham_router.Crc.Register.{
  clocks, serial, serial-append, serial-low_first, low_first, message_bits, clocks_lt,
  clocks-injective,
}

module _ (poly : ℕ) where
  -- The register after one byte.
  abbrev pub next : ℕ → ℕ → ℕ
  next reg c = clocks poly 8 (bit_xor reg c)

  unfoldable pub bytewise : ℕ → List ℕ → ℕ
  bytewise reg [] = reg
  bytewise reg (c ∷ cs) = bytewise (next reg c) cs

  pub bytewise-serial :
      (reg : ℕ) (cs : List ℕ) → All IsByte cs → bytewise reg cs ≡ serial poly reg (message_bits cs)
  unfolding bytewise message_bits
  bytewise-serial reg [] h = unfold serial in refl
  bytewise-serial reg (c ∷ cs) (hc, hcs) =
      bytewise-serial (next reg c) cs hcs
      ∙ ap (λ r. serial poly r (message_bits cs)) (sym (serial-low_first poly 8 reg c hc))
      ∙ sym (serial-append poly reg (low_first 8 c) (message_bits cs))

  pub bytewise-append :
      (reg : ℕ) (xs ys : List ℕ) → bytewise reg (xs ++ ys) ≡ bytewise (bytewise reg xs) ys
  unfolding bytewise
  bytewise-append reg [] ys = refl
  bytewise-append reg (x ∷ xs) ys = bytewise-append (next reg x) xs ys

  module _ (w : ℕ) (wide : 2 ^ 8 ≤ 2 ^ suc w) (top : 2 ^ w ≤ poly) (fits : poly < 2 ^ suc w) where
    next_lt : (reg c : ℕ) → reg < 2 ^ suc w → c < 256 → next reg c < 2 ^ suc w
    next_lt reg c h hc =
        clocks_lt poly w top fits 8 (bit_xor reg c) (bit_xor_lt (suc w) reg c h (omega arith))

    pub bytewise_lt :
        (reg : ℕ) (cs : List ℕ) → All IsByte cs → reg < 2 ^ suc w → bytewise reg cs < 2 ^ suc w
    unfolding bytewise
    bytewise_lt reg [] h l = l
    bytewise_lt reg (c ∷ cs) (hc, hcs) l = bytewise_lt (next reg c) cs hcs (next_lt reg c l hc)

    pub next-injective :
        (f g c d : ℕ)
        → f < 2 ^ suc w
        → g < 2 ^ suc w
        → c < 256
        → d < 256
        → next f c ≡ next g d
        → bit_xor f c ≡ bit_xor g d
    next-injective f g c d hf hg hc hd e =
        clocks-injective poly w top fits 8 (bit_xor f c) (bit_xor g d)
          (bit_xor_lt (suc w) f c hf (omega arith)) (bit_xor_lt (suc w) g d hg (omega arith)) e

    -- Registers that differ still differ after the same bytes.
    pub bytewise-injective :
        (f g : ℕ) (cs : List ℕ)
        → All IsByte cs
        → f < 2 ^ suc w
        → g < 2 ^ suc w
        → bytewise f cs ≡ bytewise g cs
        → f ≡ g
    unfolding bytewise
    bytewise-injective f g [] h hf hg e = e
    bytewise-injective f g (c ∷ cs) (hc, hcs) hf hg e = bit_xor-injective c f g (
        bit_xor_comm c f
        ∙ next-injective f g c c hf hg hc hc (
            bytewise-injective (next f c) (next g c) cs hcs (next_lt f c hf hc) (next_lt g c hg hc)
              e)
        ∙ bit_xor_comm g c)

    -- A register tells apart two messages of one length that differ in one byte.
    pub bytewise_detects :
        (reg : ℕ) (xs ys : List ℕ) (a b : ℕ)
        → All IsByte xs
        → All IsByte ys
        → reg < 2 ^ suc w
        → a < 256
        → b < 256
        → bytewise reg (xs ++ a ∷ ys) ≡ bytewise reg (xs ++ b ∷ ys)
        → a ≡ b
    bytewise_detects reg xs ys a b hx hy h ha hb e =
        let r : ℕ = bytewise reg xs in
        let hr : r < 2 ^ suc w = bytewise_lt reg xs hx h in
        let rest : bytewise r (a ∷ ys) ≡ bytewise r (b ∷ ys) =
          sym (bytewise-append reg xs (a ∷ ys)) ∙ e ∙ bytewise-append reg xs (b ∷ ys) in
        bit_xor-injective r a b (
          next-injective r r a b hr hr ha hb (
            bytewise-injective (next r a) (next r b) ys hy (next_lt r a hr ha) (next_lt r b hr hb)
              (unfold bytewise in rest)))
