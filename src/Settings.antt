-- ===== src/Settings.antt =====
-- The groups of settings of libconfig that the readers of the configuration file go through, in
-- configuration.cpp and in the functions `instantiate`. The library is a parameter.
pub mod Known
use ham_router.Common.{ℕ, List, [], ◌∷◌, Bool, Option, none, some}

-- `elements` is `operator[]` for the indexes below `getLength`. A name can be the null pointer, a
-- `lookup` that finds nothing throws `SettingNotFoundException`, and a conversion to the wrong type
-- `SettingTypeException`: `none`. An `int` is its 32 bits, a `double` its bits.
pub record Libconfig : Type 1 where
  pub Setting : Type 0
  pub elements : Setting → List Setting
  pub get_name : Setting → Option (List ℕ)
  pub lookup : Setting → List ℕ → Option Setting
  pub as_text : Setting → Option (List ℕ)
  pub as_int : Setting → Option ℕ
  pub as_bool : Setting → Option Bool
  pub as_double : Setting → Option ℕ

-- What a reader gives. `exits` is `error_exit`; `aborts` is an exception that nothing catches, or an
-- assertion that fails.
pub data Loaded {ℓ} (A : Type ℓ) : Type ℓ where
  loaded : A → Loaded A
  exits aborts : Loaded A

infixl 5 ◌>>=◌
abbrev pub ◌>>=◌ {ℓ κ} : {A : Type ℓ} {B : Type κ} → Loaded A → (A → Loaded B) → Loaded B
loaded a >>= f = f a
exits >>= f = exits
aborts >>= f = aborts

abbrev pub or_abort {ℓ} : {A : Type ℓ} → Option A → Loaded A
or_abort none = aborts
or_abort (some a) = loaded a

-- A variable that is set from a value that is read.
abbrev pub set {ℓ κ} : {V : Type ℓ} {A : Type κ} → Loaded V → (V → A) → Loaded A
set r f = r >>= λ v. loaded (f v)

-- A loop that a failure leaves.
unfoldable pub each {ℓ κ} : {X : Type ℓ} {A : Type κ} → (X → A → Loaded A) → List X → A → Loaded A
each f [] a = loaded a
each f (x ∷ xs) a = f x a >>= each f xs

-- `int` -1.
abbrev pub minus_one : ℕ
minus_one = 4294967295

module _ (c : Libconfig) where
  open c use {Setting, elements, get_name, lookup, as_text, as_int, as_bool, as_double}

  abbrev pub text_at : Setting → List ℕ → Loaded (List ℕ)
  text_at node type = or_abort (lookup node type) >>= λ v. or_abort (as_text v)

  abbrev pub int_at : Setting → List ℕ → Loaded ℕ
  int_at node type = or_abort (lookup node type) >>= λ v. or_abort (as_int v)

  abbrev pub bool_at : Setting → List ℕ → Loaded Bool
  bool_at node type = or_abort (lookup node type) >>= λ v. or_abort (as_bool v)

  abbrev pub double_at : Setting → List ℕ → Loaded ℕ
  double_at node type = or_abort (lookup node type) >>= λ v. or_abort (as_double v)

  -- One element of a group: its name selects what is done.
  abbrev pub named {ℓ} : {A : Type ℓ} → (List ℕ → Setting → A → Loaded A) → Setting → A → Loaded A
  named f node a = or_abort (get_name node) >>= λ type. f type node a

  -- The loop over the elements of a group.
  abbrev pub settings {ℓ} :
      {A : Type ℓ} → (List ℕ → Setting → A → Loaded A) → Setting → A → Loaded A
  settings f node_in a = each (named f) (elements node_in) a
