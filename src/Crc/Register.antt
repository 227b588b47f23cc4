-- ===== src/Crc/Register.antt =====
-- A shift register with feedback, one bit at a time: what a table driven checksum stands for.
use ham_router.Common.{
  ℕ, zero, suc, ◌*◌, ◌/◌, ◌%◌, ◌^◌, ◌≤◌, ◌<◌, bit_xor, ◌≡◌, refl, List, [], ◌∷◌, ◌++◌, arith, ◌==◌,
  if◌then◌else◌, sym, ◌∙◌, ap,
}
use ham_router.Common.Bits.{
  bit_xor-div, bit_xor-mod, bit_xor_comm, bit_xor_assoc, bit_xor-zero, bit_xor_lt,
  bit_xor-injective, pow_double, bit_xor_low, le-bit_xor,
}
use native.Mathlib.Nat.{pow-suc}

-- The low `k` bits of a number, lowest first: the order in which they go over the line.
unfoldable pub low_first : ℕ → ℕ → List ℕ
low_first zero c = []
low_first (suc k) c = (c % 2) ∷ low_first k (c / 2)

-- The bits of a message of bytes.
unfoldable pub message_bits : List ℕ → List ℕ
message_bits [] = []
message_bits (c ∷ cs) = low_first 8 c ++ message_bits cs

module _ (poly : ℕ) where
  -- One clock of the register: the bit that falls out is fed back through the polynomial.
  unfoldable pub clock : ℕ → ℕ
  clock x = if x % 2 == 1 then bit_xor (x / 2) poly else x / 2

  unfoldable pub clocks : ℕ → ℕ → ℕ
  clocks zero x = x
  clocks (suc k) x = clocks k (clock x)

  -- The bits are added at the low end, and the register is clocked once for each.
  unfoldable pub serial : ℕ → List ℕ → ℕ
  serial reg [] = reg
  serial reg (b ∷ bs) = serial (clock (bit_xor reg b)) bs

  pub serial-append : (reg : ℕ) (bs cs : List ℕ) → serial reg (bs ++ cs) ≡ serial (serial reg bs) cs
  unfolding serial
  serial-append reg [] cs = refl
  serial-append reg (b ∷ bs) cs = serial-append (clock (bit_xor reg b)) bs cs

  -- What lies above the lowest bit goes through a clock unchanged.
  clock-xor : (x y : ℕ) → clock (bit_xor x (2 * y)) ≡ bit_xor (clock x) y
  unfolding clock
  clock-xor x y =
      let half : (2 * y) / 2 ≡ y = omega arith in
      let top : bit_xor x (2 * y) / 2 ≡ bit_xor (x / 2) y =
        bit_xor-div x (2 * y) ∙ ap (bit_xor (x / 2)) half in
      ground (
        arith,
        top,
        bit_xor-mod x (2 * y),
        bit_xor_assoc (x / 2) y poly,
        bit_xor_comm y poly,
        bit_xor_assoc (x / 2) poly y,
      )

  pub clocks-xor : (k x h : ℕ) → clocks k (bit_xor x (h * 2 ^ k)) ≡ bit_xor (clocks k x) h
  unfolding clocks
  clocks-xor zero x h = ap (bit_xor x) (omega arith)
  clocks-xor (suc k) x h = rw (pow_double h k, clock-xor x (h * 2 ^ k)) (clocks-xor k (clock x) h)

  pub serial-low_first :
      (k reg c : ℕ) → c < 2 ^ k → serial reg (low_first k c) ≡ clocks k (bit_xor reg c)
  unfolding serial low_first clocks
  serial-low_first zero reg c h = let e : c ≡ 0 = omega arith in rw e (sym (bit_xor-zero reg))
  serial-low_first (suc k) reg c h =
      serial-low_first k (clock (bit_xor reg (c % 2))) (c / 2) (omega (arith, pow-suc 2 k))
      ∙ ap (clocks k) (
          sym (clock-xor (bit_xor reg (c % 2)) (c / 2))
          ∙ ap clock (bit_xor_assoc reg (c % 2) (2 * (c / 2)) ∙ ap (bit_xor reg) (bit_xor_low c)))

  -- A register of `w + 1` bits whose polynomial has the top bit set.
  module _ (w : ℕ) (top : 2 ^ w ≤ poly) (fits : poly < 2 ^ suc w) where
    pub clock_lt : (x : ℕ) → x < 2 ^ suc w → clock x < 2 ^ suc w
    unfolding clock
    clock_lt x h =
        ground
          (arith, pow-suc 2 w, bit_xor_lt (suc w) (x / 2) poly (omega (arith, pow-suc 2 w)) fits)

    pub clocks_lt : (k x : ℕ) → x < 2 ^ suc w → clocks k x < 2 ^ suc w
    unfolding clocks
    clocks_lt zero x h = h
    clocks_lt (suc k) x h = clocks_lt k (clock x) (clock_lt x h)

    pub clock-injective : (x y : ℕ) → x < 2 ^ suc w → y < 2 ^ suc w → clock x ≡ clock y → x ≡ y
    unfolding clock
    clock-injective x y hx hy e =
        let x' : x / 2 < 2 ^ w = omega (arith, pow-suc 2 w) in
        let y' : y / 2 < 2 ^ w = omega (arith, pow-suc 2 w) in
        ground (
          arith,
          le-bit_xor w (x / 2) poly x' top fits,
          le-bit_xor w (y / 2) poly y' top fits,
          bit_xor_comm (x / 2) poly,
          bit_xor_comm (y / 2) poly,
          bit_xor-injective poly (x / 2) (y / 2),
        )

    pub clocks-injective :
        (k x y : ℕ) → x < 2 ^ suc w → y < 2 ^ suc w → clocks k x ≡ clocks k y → x ≡ y
    unfolding clocks
    clocks-injective zero x y hx hy e = e
    clocks-injective (suc k) x y hx hy e =
        clock-injective x y hx hy
          (clocks-injective k (clock x) (clock y) (clock_lt x hx) (clock_lt y hy) e)
