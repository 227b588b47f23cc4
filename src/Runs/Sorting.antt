-- ===== src/Runs/Sorting.antt =====
-- A sorting function with the laws that the cleaning of the history asks of `std::sort`.
use ham_router.Common.{
  ℕ, suc, ◌≤◌, List, [], ◌∷◌, length, leb, if◌then◌else◌, All, All-map, ◌≡◌, refl, ap, ◌∙◌, arith,
  Bool-cases, inl, inr,
}
use ham_router.Seen.{Descending, Sorting}

abbrev Entry : Type 0
Entry = ℕ × ℕ

unfoldable insert : Entry → List Entry → List Entry
insert x [] = x ∷ []
insert x (y ∷ ys) = let rest = insert x ys in if leb y.1 x.1 then x ∷ y ∷ ys else y ∷ rest

unfoldable sort : List Entry → List Entry
sort [] = []
sort (x ∷ xs) = insert x (sort xs)

All-insert :
    (P : Entry → Type 0) (x : Entry) (ys : List Entry) → P x → All P ys → All P (insert x ys)
unfolding insert
All-insert P x [] p h = (p, tt)
All-insert P x (y ∷ ys) p (q, h) = elim (Bool-cases (leb y.1 x.1)) [
  | inl t ↦ rw t (p, (q, h))
  | inr f ↦ rw f (q, All-insert P x ys p h)
]

insert-All :
    (P : Entry → Type 0) (x : Entry) (ys : List Entry) → All P (insert x ys) → P x × All P ys
unfolding insert
insert-All P x [] (p, h) = (p, tt)
insert-All P x (y ∷ ys) h = elim (Bool-cases (leb y.1 x.1)) [
  | inl t ↦ let (p, (q, k)) = rw t at h in (p, (q, k))
  | inr f ↦ let (q, k) = rw f at h in let (p, k') = insert-All P x ys k in (p, (q, k'))
]

All-sort : (P : Entry → Type 0) (xs : List Entry) → All P (sort xs) → All P xs
unfolding sort
All-sort P [] h = tt
All-sort P (x ∷ xs) h = let (p, k) = insert-All P x (sort xs) h in (p, All-sort P xs k)

length-insert : (x : Entry) (ys : List Entry) → length (insert x ys) ≡ suc (length ys)
unfolding insert
length-insert x [] = refl
length-insert x (y ∷ ys) = ground (arith, length-insert x ys)

length-sort : (xs : List Entry) → length (sort xs) ≡ length xs
unfolding sort
length-sort [] = refl
length-sort (x ∷ xs) = length-insert x (sort xs) ∙ ap suc (length-sort xs)

insert-Descending : (x : Entry) (ys : List Entry) → Descending ys → Descending (insert x ys)
unfolding insert
insert-Descending x [] h = (tt, tt)
insert-Descending x (y ∷ ys) (q, h) = elim (Bool-cases (leb y.1 x.1)) [
  | inl t ↦
      let le : y.1 ≤ x.1 = ground arith in
      rw t ((le, All-map (λ z. z.1 ≤ y.1) (λ z. z.1 ≤ x.1) ys (λ z k. omega arith) q), (q, h))
  | inr f ↦ rw f (All-insert (λ z. z.1 ≤ y.1) x ys (ground arith) q, insert-Descending x ys h)
]

sort-Descending : (xs : List Entry) → Descending (sort xs)
unfolding sort
sort-Descending [] = tt
sort-Descending (x ∷ xs) = insert-Descending x (sort xs) (sort-Descending xs)

pub insertion : Sorting
insertion = record {
  sort = sort;
  sorted = sort-Descending;
  length_sort = length-sort;
  kept_all = All-sort;
}
