-- ===== src/Common/Assoc.antt =====
-- `std::map` with strings as keys, as a list of entries. The order of the entries stands for no order
-- of the map's.
use Prim.Native.Nat.{ℕ}
use mathlib.Core.Path.{◌≡◌, refl, ap}
use mathlib.Core.Logic.{inl, inr}
use mathlib.Core.List.{List, [], ◌∷◌}
use mathlib.Core.Option.{Option, none, some, get_or}
use native.Mathlib.Omega.{arith}
use ham_router.Common.Tests.{if◌then◌else◌, Bool-cases}
use ham_router.Common.Lists.{◌==ₛ◌, ==ₛ→eq, ==ₛ_refl}

module _ {ℓ} {V : Type ℓ} where
  unfoldable pub find : List ℕ → List (List ℕ × V) → Option V
  find k [] = none
  find k ((j, v) ∷ m) = if j ==ₛ k then some v else find k m

  -- `m[k] = v`
  unfoldable pub assign : List ℕ → V → List (List ℕ × V) → List (List ℕ × V)
  assign k v [] = (k, v) ∷ []
  assign k v ((j, w) ∷ m) = if j ==ₛ k then (j, v) ∷ m else (j, w) ∷ assign k v m

  -- `m.insert({ k, v })` keeps what is there.
  unfoldable pub insert : List ℕ → V → List (List ℕ × V) → List (List ℕ × V)
  insert k v [] = (k, v) ∷ []
  insert k v ((j, w) ∷ m) = if j ==ₛ k then (j, w) ∷ m else (j, w) ∷ insert k v m

  pub find-assign :
      (k j : List ℕ) (v : V) (m : List (List ℕ × V))
      → find j (assign k v m) ≡ (if k ==ₛ j then some v else find j m)
  unfolding find assign
  find-assign k j v [] = refl
  find-assign k j v ((i, w) ∷ m) = ground (
    arith,
    find-assign k j v m,
    ==ₛ→eq k j,
    ==ₛ→eq i k,
    ==ₛ→eq i j,
    ==ₛ_refl k,
    ==ₛ_refl j,
    ==ₛ_refl i,
  )

  pub find-insert :
      (k j : List ℕ) (v : V) (m : List (List ℕ × V))
      → find j (insert k v m) ≡ (if k ==ₛ j then some (get_or (find k m) v) else find j m)
  unfolding find insert
  find-insert k j v [] = refl
  find-insert k j v ((i, w) ∷ m) = ground (
    arith,
    find-insert k j v m,
    ==ₛ→eq k j,
    ==ₛ→eq i k,
    ==ₛ→eq i j,
    ==ₛ_refl k,
    ==ₛ_refl j,
    ==ₛ_refl i,
  )

  -- The first of two values.
  abbrev pub or_else : Option V → Option V → Option V
  or_else none b = b
  or_else (some a) b = some a

  pub or_else-none : (o : Option V) → or_else o none ≡ o
  or_else-none none = refl
  or_else-none (some a) = refl

  -- An entry that is inserted comes after those that are there.
  pub find-insert_else :
      (j k : List ℕ) (v : V) (m : List (List ℕ × V)) (rest : Option V)
      → or_else (find k (insert j v m)) rest ≡ or_else (find k m) (if j ==ₛ k then some v else rest)
  find-insert_else j k v m rest = elim (Bool-cases (j ==ₛ k)) [
    | inl e ↦
        let same : find j m ≡ find k m = ap (λ i. find i m) (==ₛ→eq j k e) in
        rw (find-insert j k v m, e, same) (kept (find k m))
    | inr e ↦ rw (find-insert j k v m, e) refl
  ]
    where
      kept : (o : Option V) → or_else (some (get_or o v)) rest ≡ or_else o (some v)
      kept none = refl
      kept (some f) = refl
