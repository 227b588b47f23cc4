-- ===== src/Net.antt =====
-- net.cpp: numbers in network byte order. The lookup of interfaces is not modelled. A pointer to
-- bytes is the list of the bytes from there on; each function reads or writes a fixed number of
-- them, and a read past the list (undefined in the source) gives 0.
pub mod ByteOrder
pub mod Write
pub mod Udp
use ham_router.Common.{
  ℕ, zero, suc, ◌+◌, ◌*◌, ◌/◌, ◌%◌, ◌^◌, bit_or, bit_and, List, [], ◌∷◌, ◌++◌, get_or, take, drop,
  ◌==◌, if◌then◌else◌,
}

unfoldable pub get_net_short : List ℕ → ℕ
get_net_short p = bit_or (get_or p 0 0 * 2 ^ 8) (get_or p 1 0) % 2 ^ 16

-- `p[0] << 24` is computed on `int`: the sum of the four fields is read back modulo 2 ^ 32.
unfoldable pub get_net_long : List ℕ → ℕ
get_net_long p =
    bit_or (bit_or (bit_or (get_or p 0 0 * 2 ^ 24) (get_or p 1 0 * 2 ^ 16)) (get_or p 2 0 * 2 ^ 8))
      (get_or p 3 0)
    % 2 ^ 32

-- The loop `for(int i=0; i<8; i++) { out <<= 8; out |= p[i]; }`, by the rounds left.
shift_in : ℕ → ℕ → List ℕ → ℕ
shift_in zero out p = out
shift_in (suc n) out p = shift_in n (bit_or (out * 2 ^ 8 % 2 ^ 64) (get_or p 0 0)) (drop 1 p)

unfoldable pub get_net_long_long : List ℕ → ℕ
unfolding shift_in
get_net_long_long p = shift_in 8 0 p

unfoldable pub put_net_long : ℕ → List ℕ
put_net_long v = v / 2 ^ 24 % 256 ∷ v / 2 ^ 16 % 256 ∷ v / 2 ^ 8 % 256 ∷ v % 256 ∷ []

unfoldable pub put_net_long_long : ℕ → List ℕ
put_net_long_long v =
    v / 2 ^ 56 % 256
    ∷ v / 2 ^ 48 % 256
    ∷ v / 2 ^ 40 % 256
    ∷ v / 2 ^ 32 % 256
    ∷ v / 2 ^ 24 % 256
    ∷ v / 2 ^ 16 % 256
    ∷ v / 2 ^ 8 % 256
    ∷ v % 256
    ∷ []
