-- ===== src/Net/Write.antt =====
-- WRITE of net.cpp, over the system's `write`, which is a parameter: it takes a device and bytes and
-- returns a count or an error, with the device after it.
use ham_router.Common.{
  ℕ, zero, suc, ◌+◌, ◌-◌, ◌≤◌, ◌<◌, ◌≡◌, refl, sym, ap, ◌∙◌, List, [], ◌∷◌, ◌++◌, length, take,
  drop, arith, append-nil, append_assoc, length-drop, take-append-drop,
}
use ham_router.Common.Int.{ℤ, pos, negsuc}

-- A byte stream: `sent` is all that was written to it. What `write` accepts is a prefix of the bytes.
pub record Stream : Type 1 where
  pub Device : Type 0
  pub write : Device → List ℕ → ℤ × Device
  pub sent : Device → List ℕ
  pub write_bound : (d d' : Device) (xs : List ℕ) (n : ℕ) → write d xs ≡ (pos n, d') → n ≤ length xs
  pub write_sent :
      (d d' : Device) (xs : List ℕ) (n : ℕ)
      → write d xs ≡ (pos n, d')
      → sent d' ≡ sent d ++ take n xs

module _ (s : Stream) where
  open s use {Device, write, sent, write_bound, write_sent}

  -- A round goes on only if something was written.
  abbrev next_round : (ℕ → Device → ℤ × Device) → ℤ × Device → ℤ × Device
  next_round rec (pos zero, d) = (pos zero, d)
  next_round rec (pos (suc n), d) = rec n d
  next_round rec (negsuc n, d) = (negsuc n, d)

  -- The loop of `WRITE`. Each round writes a byte at least, so the number of bytes is fuel enough.
  unfoldable pub write_loop : ℕ → Device → List ℕ → ℕ → ℤ × Device
  write_loop zero d xs cnt = (pos cnt, d)
  write_loop (suc fuel) d [] cnt = (pos cnt, d)
  write_loop (suc fuel) d (x ∷ xs) cnt =
      next_round (λ n d'. write_loop fuel d' (drop n xs) (cnt + suc n)) (write d (x ∷ xs))

  unfoldable pub write_all : Device → List ℕ → ℤ × Device
  unfolding write_loop
  write_all d whereto = write_loop (length whereto) d whereto 0

  -- A full count comes back only if every byte went out.
  loop_sent :
      (fuel : ℕ) (d d' : Device) (xs : List ℕ) (cnt n : ℕ)
      → length xs ≤ fuel
      → 0 < n
      → n ≡ cnt + length xs
      → write_loop fuel d xs cnt ≡ (pos n, d')
      → sent d' ≡ sent d ++ xs
  unfolding write_loop
  loop_sent zero d d' [] cnt n h l k e = rw append-nil (ap sent (sym (ap (λ r. r.1) e)))
  loop_sent zero d d' (x ∷ xs) cnt n h l k e = absurd (omega arith)
  loop_sent (suc fuel) d d' [] cnt n h l k e = rw append-nil (ap sent (sym (ap (λ r. r.1) e)))
  loop_sent (suc fuel) d d' (x ∷ xs) cnt n h l k e =
      go (write d (x ∷ xs)) refl (λ m d''. loop_sent fuel d'' d' (drop m xs) (cnt + suc m) n)
    where
      go :
          (r : ℤ × Device)
          → write d (x ∷ xs) ≡ r
          → ((m : ℕ) (d'' : Device)
              → length (drop m xs) ≤ fuel
              → 0 < n
              → n ≡ cnt + suc m + length (drop m xs)
              → write_loop fuel d'' (drop m xs) (cnt + suc m) ≡ (pos n, d')
              → sent d' ≡ sent d'' ++ drop m xs)
          → sent d' ≡ sent d ++ x ∷ xs
      go (pos zero, d'') r ih = ground (arith, rw r at e)
      go (pos (suc m), d'') r ih =
          let bound : suc m ≤ suc (length xs) = write_bound d d'' (x ∷ xs) (suc m) r in
          let left : length (drop m xs) ≡ length xs - m = length-drop m xs in
          ih m d'' (omega arith) l (omega arith) (rw r at e)
          ∙ ap (λ t. t ++ drop m xs) (write_sent d d'' (x ∷ xs) (suc m) r)
          ∙ append_assoc (sent d) (x ∷ take m xs) (drop m xs)
          ∙ ap (λ t. sent d ++ x ∷ t) (take-append-drop m xs)
      go (negsuc m, d'') r ih = ground (arith, rw r at e)

  -- If WRITE returns the number of the bytes that it was given, and that is not zero, then exactly
  -- those bytes were sent, in order, however `write` splits them.
  pub write_all_sent :
      (d d' : Device) (xs : List ℕ)
      → 0 < length xs
      → write_all d xs ≡ (pos (length xs), d')
      → sent d' ≡ sent d ++ xs
  unfolding write_all
  write_all_sent d d' xs h e =
      loop_sent (length xs) d d' xs 0 (length xs) (omega arith) h (omega arith) e
