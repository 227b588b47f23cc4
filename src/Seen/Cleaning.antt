-- ===== src/Seen/Cleaning.antt =====
-- What the cleaning of a full history leaves.
use ham_router.Common.{
  ℕ, ◌≤◌, Bool, false, not, ◌&&◌, if◌then◌else◌, none, List, [], ◌∷◌, ◌++◌, take, drop, true, false,
  ltb, All, ◌≡◌, arith, take-append-drop, length, length-take, length-map, ◌∙◌, All-map, All-zip,
  All-every, All-append_right, All-append, sym, subst, Bool-cases, inl, inr,
}
use ham_router.Seen.{
  Doubles, RateLimiter, Seen, limiter_of, get_last_ts, Descending, Sorting, has_hash, erase, stamps,
  lower_bound, erased, clean,
}

-- Every entry of the history is at most as recent as every one that is erased.
abbrev pub NotLater : Doubles → List (ℕ × ℕ) → List (ℕ × RateLimiter) → Type 0
NotLater d gone = All (λ e. All (λ x. get_last_ts d e.1 ≤ x.1) gone)

-- An entry whose hash is not among those erased is not later than they are.
abbrev Older : List (ℕ × ℕ) → ℕ × ℕ → Type 0
Older gone y = has_hash y.0 gone ≡ false → All (λ x. y.1 ≤ x.1) gone

has_hash_self : (gone : List (ℕ × ℕ)) → All (λ y. has_hash y.0 gone ≡ true) gone
unfolding has_hash
has_hash_self [] = tt
has_hash_self (x ∷ xs) = (
  ground arith,
  All-map (λ y. has_hash y.0 xs ≡ true) (λ y. has_hash y.0 (x ∷ xs) ≡ true) xs (λ y h. ground arith)
      (has_hash_self xs),
)

Descending-append :
    (xs ys : List (ℕ × ℕ)) → Descending (xs ++ ys) → All (λ y. All (λ x. y.1 ≤ x.1) xs) ys
Descending-append [] ys h = All-every (λ y. Unit) ys (λ y. tt)
Descending-append (x ∷ xs) ys (low, h) =
    All-zip (λ y. y.1 ≤ x.1) (λ y. All (λ x. y.1 ≤ x.1) xs) (λ y. All (λ x. y.1 ≤ x.1) (x ∷ xs)) ys
      (λ y p q. (p, q)) (All-append_right (λ y. y.1 ≤ x.1) xs ys low) (Descending-append xs ys h)

sorted-Older : (xs : List (ℕ × ℕ)) (n : ℕ) → Descending xs → All (Older (take n xs)) xs
sorted-Older xs n h =
    let gone : List (ℕ × ℕ) = take n xs in
    let split : gone ++ drop n xs ≡ xs = take-append-drop n xs in
    let taken : All (Older gone) gone =
      All-map (λ y. has_hash y.0 gone ≡ true) (Older gone) gone (λ y p q. absurd (cc))
        (has_hash_self gone) in
    let left : All (Older gone) (drop n xs) =
      All-map (λ y. All (λ x. y.1 ≤ x.1) gone) (Older gone) (drop n xs) (λ y p q. p)
        (Descending-append gone (drop n xs) (subst Descending (sym split) h)) in
    subst (All (Older gone)) split (All-append (Older gone) gone (drop n xs) taken left)

erase-NotLater :
    (d : Doubles) (gone : List (ℕ × ℕ)) (m : List (ℕ × RateLimiter))
    → All (Older gone) (stamps d m)
    → NotLater d gone (erase gone m)
unfolding erase
erase-NotLater d gone [] h = tt
erase-NotLater d gone ((k, l) ∷ m) (p, h) =
    let rest = erase-NotLater d gone m h in
    elim (Bool-cases (has_hash k gone)) [
      | inl there ↦ rw there rest
      | inr other ↦ rw other (p other, rest)
    ]

-- What is left of a history: the entries whose hashes are not among those erased.
erase-find :
    (h : ℕ) (gone : List (ℕ × ℕ)) (m : List (ℕ × RateLimiter))
    → limiter_of h (erase gone m) ≡ (if has_hash h gone then none else limiter_of h m)
unfolding erase limiter_of
erase-find h gone [] = ground arith
erase-find h gone ((k, l) ∷ m) = let ih = erase-find h gone m in ground (arith, ih)

-- When the history is full, or the program terminates, cleaning takes the hashes of as many entries
-- as it is to erase. The history that is left has exactly those entries, with their limiters, whose
-- hashes it did not take, and none of them is later than any that was taken: it is the most recent
-- entries that are erased.
pub clean-NotLater :
    (o : Sorting) (d : Doubles) (terminate : Bool) (s : Seen)
    → ltb (length s.history) s.max_n && not terminate ≡ false
    → (length (erased o d s) ≡ lower_bound s)
      × ((h : ℕ)
          → limiter_of h (clean o d terminate s).history
            ≡ (if has_hash h (erased o d s) then none else limiter_of h s.history))
      × NotLater d (erased o d s) (clean o d terminate s).history
unfolding clean
clean-NotLater o d terminate s full =
    let sorted : List (ℕ × ℕ) = o.sort (stamps d s.history) in
    let size : length sorted ≡ length s.history =
      o.length_sort (stamps d s.history) ∙ length-map (λ e. (e.0, get_last_ts d e.1)) s.history in
    (
      omega (arith, length-take (lower_bound s) sorted),
      λ h. rw full (erase-find h (erased o d s) s.history),
      rw full (
          erase-NotLater d (erased o d s) s.history (
            o.kept_all (Older (erased o d s)) (stamps d s.history)
              (sorted-Older sorted (lower_bound s) (o.sorted (stamps d s.history))))),
    )
