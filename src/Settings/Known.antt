-- ===== src/Settings/Known.antt =====
-- What the loops over settings keep, and the names that they accept.
use ham_router.Common.{
  ℕ, List, [], ◌∷◌, Bool, true, false, ◌==ₛ◌, ◌||◌, Option, none, some, All, ◌≡◌, subst, sym,
  Bool-cases, inl, inr,
}
use ham_router.Settings.{
  Libconfig, Loaded, loaded, exits, aborts, ◌>>=◌, or_abort, each, named, settings,
}

-- What holds of the result, if there is one.
abbrev pub Gives {ℓ κ} : {A : Type ℓ} → (A → Type κ) → Loaded A → Type κ
Gives P (loaded a) = P a
Gives P exits = Unit
Gives P aborts = Unit

pub Gives-map {ℓ κ μ} :
    {A : Type ℓ} (P : A → Type κ) (Q : A → Type μ) (r : Loaded A)
    → ((a : A) → P a → Q a)
    → Gives P r
    → Gives Q r
Gives-map P Q (loaded a) k h = k a h
Gives-map P Q exits k h = tt
Gives-map P Q aborts k h = tt

pub Gives-both {ℓ κ μ} :
    {A : Type ℓ} (P : A → Type κ) (Q : A → Type μ) (r : Loaded A)
    → Gives P r
    → Gives Q r
    → Gives (λ a. P a × Q a) r
Gives-both P Q (loaded a) h k = (h, k)
Gives-both P Q exits h k = tt
Gives-both P Q aborts h k = tt

pub then-Gives {ℓ κ μ ν} :
    {A : Type ℓ} {B : Type κ} (P : A → Type μ) (Q : B → Type ν) (r : Loaded A) (f : A → Loaded B)
    → Gives P r
    → ((a : A) → P a → Gives Q (f a))
    → Gives Q (r >>= f)
then-Gives P Q (loaded a) f h k = k a h
then-Gives P Q exits f h k = tt
then-Gives P Q aborts f h k = tt

-- For a reader of which nothing is known.
pub then-Gives_any {ℓ κ ν} :
    {A : Type ℓ} {B : Type κ} (Q : B → Type ν) (r : Loaded A) (f : A → Loaded B)
    → ((a : A) → Gives Q (f a))
    → Gives Q (r >>= f)
then-Gives_any Q (loaded a) f k = k a
then-Gives_any Q exits f k = tt
then-Gives_any Q aborts f k = tt

-- An invariant of the rounds is one of the loop.
pub each-Gives {ℓ κ μ} :
    {X : Type ℓ} {A : Type κ} (P : A → Type μ) (f : X → A → Loaded A)
    → ((x : X) (a : A) → P a → Gives P (f x a))
    → (xs : List X) (a : A) → P a
    → Gives P (each f xs a)
unfolding each
each-Gives P f h [] a p = p
each-Gives P f h (x ∷ xs) a p =
    then-Gives P P (f x a) (each f xs) (h x a p) (λ b q. each-Gives P f h xs b q)

-- What every round demands of its element holds of all the elements.
pub each-Gives-All {ℓ κ μ} :
    {X : Type ℓ} {A : Type κ} (Q : X → Type μ) (f : X → A → Loaded A)
    → ((x : X) (a : A) → Gives (λ _. Q x) (f x a))
    → (xs : List X) (a : A) → Gives (λ _. All Q xs) (each f xs a)
unfolding each
each-Gives-All Q f h [] a = tt
each-Gives-All Q f h (x ∷ xs) a =
    then-Gives (λ _. Q x) (λ _. All Q (x ∷ xs)) (f x a) (each f xs) (h x a)
      (λ b q.
        Gives-map (λ _. All Q xs) (λ _. All Q (x ∷ xs)) (each f xs b) (λ _ r. (q, r))
          (each-Gives-All Q f h xs b))

-- A name is one of a list.
abbrev pub is_one_of : List (List ℕ) → List ℕ → Bool
is_one_of [] type = false
is_one_of (k ∷ ks) type = k ==ₛ type || is_one_of ks type

abbrev pub has_name : List (List ℕ) → Option (List ℕ) → Bool
has_name known none = false
has_name known (some type) = is_one_of known type

pub Gives-any {ℓ κ} : {A : Type ℓ} {Q : Type κ} (r : Loaded A) → Q → Gives (λ _. Q) r
Gives-any (loaded a) q = q
Gives-any exits q = tt
Gives-any aborts q = tt

module _ (c : Libconfig) where
  open c use {Setting, elements, get_name}

  -- All the elements of a group have names of a list.
  abbrev pub AreKnown : List (List ℕ) → Setting → Type 0
  AreKnown known node = All (λ e. has_name known (get_name e) ≡ true) (elements node)

  named-Gives_known {ℓ} :
      {A : Type ℓ} (known : List (List ℕ)) (f : List ℕ → Setting → A → Loaded A)
      → ((type : List ℕ) (node : Setting) (a : A)
          → is_one_of known type ≡ false
          → f type node a ≡ exits)
      → (node : Setting) (a : A)
      → Gives (λ _. has_name known (get_name node) ≡ true) (named c f node a)
  named-Gives_known {A = A} known f h node a =
      elim (get_name node)
        as (λ (n : Option (List ℕ)).
          Gives {A = A} (λ _. has_name known n ≡ true) (or_abort n >>= λ type. f type node a)) [
            | none ↦ tt
            | some type ↦ elim (Bool-cases (is_one_of known type)) [
              | inl y ↦ Gives-any (f type node a) y
              | inr n ↦ subst (Gives (λ _. is_one_of known type ≡ true)) (sym (h type node a n)) tt
            ]
          ]

  -- A reader that exits on every other name loads groups of these names only.
  pub settings-AreKnown {ℓ} :
      {A : Type ℓ} (known : List (List ℕ)) (f : List ℕ → Setting → A → Loaded A)
      → ((type : List ℕ) (node : Setting) (a : A)
          → is_one_of known type ≡ false
          → f type node a ≡ exits)
      → (node_in : Setting) (a : A) → Gives (λ _. AreKnown known node_in) (settings c f node_in a)
  settings-AreKnown known f h node_in a =
      each-Gives-All (λ e. has_name known (get_name e) ≡ true) (named c f)
        (named-Gives_known known f h) (elements node_in) a

  -- An invariant of the rounds, whatever the names are.
  pub settings-Gives {ℓ κ} :
      {A : Type ℓ} (P : A → Type κ) (f : List ℕ → Setting → A → Loaded A)
      → ((type : List ℕ) (node : Setting) (a : A) → P a → Gives P (f type node a))
      → (node_in : Setting) (a : A) → P a
      → Gives P (settings c f node_in a)
  settings-Gives P f h node_in a =
      each-Gives P (named c f)
        (λ node a p.
          then-Gives_any P (or_abort (get_name node)) (λ type. f type node a)
            (λ type. h type node a p))
        (elements node_in) a
