-- ===== src/Runs/Lines.antt =====
-- A device that takes one byte at a time.
use ham_router.Common.{ℕ, ◌≤◌, ◌≡◌, List, [], ◌∷◌, ◌++◌, length, take, arith, append-nil}
use ham_router.Common.Int.{ℤ, pos}
use ham_router.Net.Write.{Stream}

abbrev pub one_byte : List ℕ → List ℕ → ℤ × List ℕ
one_byte d [] = (pos 0, d)
one_byte d (x ∷ xs) = (pos 1, d ++ x ∷ [])

pub one_byte_bound : (d d' xs : List ℕ) (n : ℕ) → one_byte d xs ≡ (pos n, d') → n ≤ length xs
one_byte_bound d d' [] n e = ground arith
one_byte_bound d d' (x ∷ xs) n e = ground arith

pub one_byte_sent : (d d' xs : List ℕ) (n : ℕ) → one_byte d xs ≡ (pos n, d') → d' ≡ d ++ take n xs
one_byte_sent d d' [] n e = ground (arith, append-nil d)
one_byte_sent d d' (x ∷ xs) n e = ground arith

abbrev pub slow : Stream
slow = record {
  Device = List ℕ;
  write = one_byte;
  sent = λ d. d;
  write_bound = one_byte_bound;
  write_sent = one_byte_sent;
}
