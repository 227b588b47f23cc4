-- ===== src/Text/Search.antt =====
-- Where a search lands in a string that is given in parts.
use ham_router.Common.{
  ℕ, zero, suc, ◌+◌, ◌-◌, ◌≤◌, ◌<◌, List, [], ◌∷◌, ◌++◌, length, take, drop, Bool, true, false,
  none, some, ◌≡◌, refl, ap, ◌∙◌, arith, All, length-append, drop-append, take-append, take_all,
  Option-cases, ◌⊎◌, inl, inr, get_or,
}
use ham_router.Text.{
  npos, one_of, index_of, from, find_first_of, find_first_not_of, last_end, substr, trim,
}

-- No byte of the string is one of `set`.
abbrev pub Avoids : List ℕ → List ℕ → Type 0
Avoids set = All (λ c. one_of set c ≡ false)

pub index_of-append :
    (p : ℕ → Bool) (xs : List ℕ) (c : ℕ) (rest : List ℕ)
    → All (λ x. p x ≡ false) xs
    → p c ≡ true
    → index_of p (xs ++ c ∷ rest) ≡ some (length xs)
unfolding index_of
index_of-append p [] c rest h e = rw e
index_of-append p (x ∷ xs) c rest (hx, h) e = rw (hx, index_of-append p xs c rest h e)

pub index_of-none : (p : ℕ → Bool) (xs : List ℕ) → All (λ x. p x ≡ false) xs → index_of p xs ≡ none
unfolding index_of
index_of-none p [] h = refl
index_of-none p (x ∷ xs) (hx, h) = rw (hx, index_of-none p xs h)

module _ (pre : List ℕ) where
  pub find_first_of-append :
      (set xs : List ℕ) (c : ℕ) (rest : List ℕ)
      → Avoids set xs
      → one_of set c ≡ true
      → find_first_of (pre ++ (xs ++ c ∷ rest)) set (length pre) ≡ length pre + length xs
  unfolding find_first_of
  find_first_of-append set xs c rest h e =
      ap (λ s. from (length pre) (index_of (one_of set) s)) (drop-append pre (xs ++ c ∷ rest))
      ∙ ap (from (length pre)) (index_of-append (one_of set) xs c rest h e)

  pub find_first_of-none :
      (set xs : List ℕ) → Avoids set xs → find_first_of (pre ++ xs) set (length pre) ≡ npos
  unfolding find_first_of
  find_first_of-none set xs h =
      ap (λ s. from (length pre) (index_of (one_of set) s)) (drop-append pre xs)
      ∙ ap (from (length pre)) (index_of-none (one_of set) xs h)

  pub substr-append :
      (xs rest : List ℕ) (n : ℕ)
      → n ≡ length xs
      → substr (pre ++ (xs ++ rest)) (length pre) n ≡ some xs
  unfolding substr
  substr-append xs rest n e =
      let inside = length-append pre (xs ++ rest) in
      ground (arith, inside, drop-append pre (xs ++ rest), take-append xs rest)

  pub substr-rest :
      (xs : List ℕ) (n : ℕ) → length xs ≤ n → substr (pre ++ xs) (length pre) n ≡ some xs
  unfolding substr
  substr-rest xs n h =
      let inside = length-append pre xs in ground (arith, inside, drop-append pre xs, take_all n xs)

last_end-Avoids : (set xs : List ℕ) → Avoids set xs → last_end xs set ≡ length xs
unfolding last_end
last_end-Avoids set [] h = refl
last_end-Avoids set (x ∷ []) (hx, h) = rw hx
last_end-Avoids set (x ∷ y ∷ xs) (hx, h) = ground (arith, last_end-Avoids set (y ∷ xs) h)

-- A string without the bytes to trim stays as it is.
pub trim-Avoids : (set xs : List ℕ) → Avoids set xs → trim xs set ≡ xs
unfolding trim find_first_not_of index_of
trim-Avoids set [] h = refl
trim-Avoids set (x ∷ xs) (hx, h) =
    let whole : take (last_end (x ∷ xs) set) (x ∷ xs) ≡ x ∷ xs =
      ap (λ n. take n (x ∷ xs)) (last_end-Avoids set (x ∷ xs) (hx, h))
      ∙ take_all (length (x ∷ xs)) (x ∷ xs) (omega arith) in
    ap (λ r. drop (find_first_not_of r set) r) whole ∙ rw hx

index_of_bound : (p : ℕ → Bool) (xs : List ℕ) (i : ℕ) → index_of p xs ≡ some i → i < length xs
unfolding index_of
index_of_bound p [] i e = cc
index_of_bound p (x ∷ xs) i e = elim (Option-cases (index_of p xs)) [
  | inl none_found ↦ ground (arith, none_found)
  | inr (j, found) ↦ ground (arith, found, index_of_bound p xs j found)
]

-- A search that passes over the byte at the position.
pub find_first_of-cons :
    (pre set : List ℕ) (c : ℕ) (xs : List ℕ)
    → one_of set c ≡ false
    → let found = find_first_of (pre ++ c ∷ xs) set (length pre) in
      (found ≡ npos) ⊎ ((i : ℕ) × (found ≡ length pre + suc i) × (i < length xs))
unfolding find_first_of index_of
find_first_of-cons pre set c xs h = elim (Option-cases (index_of (one_of set) xs)) [
  | inl e ↦
      inl (
        ap (λ s. from (length pre) (index_of (one_of set) s)) (drop-append pre (c ∷ xs))
        ∙ rw (h, e))
  | inr (i, e) ↦ inr (
    i,
    ap (λ s. from (length pre) (index_of (one_of set) s)) (drop-append pre (c ∷ xs)) ∙ rw (h, e),
    index_of_bound (one_of set) xs i e,
  )
]

-- Trimming keeps a first byte that is not trimmed.
pub trim-head :
    (set : List ℕ) (c : ℕ) (xs : List ℕ) → one_of set c ≡ false → get_or (trim (c ∷ xs) set) 0 0 ≡ c
unfolding trim last_end find_first_not_of index_of
trim-head set c xs h = ground arith

pub substr-cons :
    (pre : List ℕ) (c : ℕ) (xs : List ℕ) (n : ℕ)
    → 0 < n
    → substr (pre ++ c ∷ xs) (length pre) n ≡ some (c ∷ take (n - 1) xs)
unfolding substr
substr-cons pre c xs zero h = absurd (omega arith)
substr-cons pre c xs (suc n) h =
    let inside = length-append pre (c ∷ xs) in
    let same : suc n - 1 ≡ n = omega arith in ground (arith, inside, drop-append pre (c ∷ xs), same)
