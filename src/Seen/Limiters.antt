-- ===== src/Seen/Limiters.antt =====
-- The history as a map from hashes to limiters, in which every hash has one.
use ham_router.Common.{
  ℕ, List, [], ◌∷◌, ◌++◌, Bool, true, false, ◌==◌, ==_iff, if◌then◌else◌, Option, some, All, IsByte,
  ◌≡◌, ◌≢◌, refl, ap, ◌∙◌, arith,
}
use ham_router.Crc.Ccitt32.{calc_crc32}
use ham_router.Crc.Ccitt32.Messages.{calc_crc32_detects}
use ham_router.Seen.{
  Doubles, RateLimiter, Seen, Cells, check, check_rate, limiter_of, put_limiter, or_new,
}

limiter_of-put_limiter :
    (k j : ℕ) (l : RateLimiter) (m : List (ℕ × RateLimiter))
    → limiter_of j (put_limiter k l m) ≡ (if k == j then some l else limiter_of j m)
unfolding limiter_of put_limiter
limiter_of-put_limiter k j l [] = refl
limiter_of-put_limiter k j l ((i, w) ∷ m) =
    ground (arith, limiter_of-put_limiter k j l m, ==_iff k j, ==_iff i k, ==_iff i j)

-- The limiter of a hash; one that was never asked is a new one.
abbrev pub limiter_for : Seen → ℕ → RateLimiter
limiter_for s hash = or_new s.max_per_dt s.dt (limiter_of hash s.history)

or_new-if :
    (r dt : ℕ) (b : Bool) (l : RateLimiter) (o : Option RateLimiter)
    → or_new r dt (if b then some l else o) ≡ (if b then l else or_new r dt o)
or_new-if r dt true l o = refl
or_new-if r dt false l o = refl

-- A packet passes if the limiter of its hash lets it, and that limiter alone is changed.
pub check-limiter_for :
    (d : Doubles) (now : ℕ) (p : List ℕ) (s : Seen) (cells : Cells) (h : ℕ)
    → let (answer, s', cells') = check d now p s cells in
      let (rc, l) = check_rate d now (limiter_for s (calc_crc32 p)) in
      (answer ≡ (rc, calc_crc32 p))
      × (limiter_for s' h ≡ (if calc_crc32 p == h then l else limiter_for s h))
unfolding check
check-limiter_for d now p s cells h =
    let l : RateLimiter = (check_rate d now (limiter_for s (calc_crc32 p))).1 in
    (
      refl,
      ap (or_new s.max_per_dt s.dt) (limiter_of-put_limiter (calc_crc32 p) h l s.history)
          ∙ or_new-if s.max_per_dt s.dt (calc_crc32 p == h) l (limiter_of h s.history),
    )

-- A check of a packet changes nothing for the packets that differ from it in exactly one byte.
pub check_independent :
    (d : Doubles) (now : ℕ) (xs ys : List ℕ) (a b : ℕ) (s : Seen) (cells : Cells)
    → All IsByte xs
    → All IsByte ys
    → IsByte a × IsByte b
    → a ≢ b
    → limiter_for (check d now (xs ++ a ∷ ys) s cells).1 (calc_crc32 (xs ++ b ∷ ys))
      ≡ limiter_for s (calc_crc32 (xs ++ b ∷ ys))
check_independent d now xs ys a b s cells hx hy hab ne =
    let same = calc_crc32_detects xs ys a b hx hy hab in
    let other : (calc_crc32 (xs ++ a ∷ ys) == calc_crc32 (xs ++ b ∷ ys)) ≡ false =
      ground (arith, ==_iff (calc_crc32 (xs ++ a ∷ ys)) (calc_crc32 (xs ++ b ∷ ys))) in
    (check-limiter_for d now (xs ++ a ∷ ys) s cells (calc_crc32 (xs ++ b ∷ ys))).1 ∙ rw other refl
