-- ===== src/Config/Names.antt =====
-- The settings that the kinds of tranceivers know, and those that they need.
mod Radios
mod Servers
pub mod Tranceivers
use ham_router.Common.{
  ℕ, zero, suc, ◌≤◌, List, [], ◌∷◌, length, Bool, true, false, ◌&&◌, ◌||◌, ◌==◌, ◌==ₛ◌,
  if◌then◌else◌, if_cases, if_split, Bool-cases, Option, none, some, All, ◌≡◌, refl, sym, subst,
  arith, codes, inl, inr,
}
use ham_router.Settings.{Libconfig, Loaded, loaded, exits, aborts, ◌>>=◌, set, text_at}
use ham_router.Settings.Known.{Gives, then-Gives, then-Gives_any, is_one_of}
use ham_router.Config.Limits.{SeenT, instantiate_seen}
use ham_router.Config.Devices.{Device, id_or, limits_or, own, type_or_exit}

-- A name that is not one of a list is none of its names.
pub none_of :
    (ks : List (List ℕ)) (type : List ℕ)
    → is_one_of ks type ≡ false
    → All (λ k. (k ==ₛ type) ≡ false) ks
none_of [] type u = tt
none_of (k ∷ ks) type u = elim (Bool-cases (k ==ₛ type)) [
  | inl e ↦ absurd (ground arith)
  | inr e ↦ (e, none_of ks type (ground arith))
]

-- A check that a text is not empty.
pub checked-Gives {ℓ κ} :
    {A : Type ℓ} (Q : A → Type κ) (n : ℕ) (r : Loaded A)
    → (1 ≤ n → Gives Q r)
    → Gives Q (if n == 0 then exits else r)
checked-Gives Q n r k = if_split (Gives Q) (n == 0) (λ e. tt) (λ e. k (ground arith))

module _ (c : Libconfig) {K : Type 0} (P : K → Type 0) where
  open c use {Setting}

  -- The branches that every kind has keep what holds of its own variables.
  pub id_or-Gives :
      (node_in : Setting) (type : List ℕ) (d : Device K) (other : Loaded (Device K))
      → P d.kind
      → Gives (λ d. P d.kind) other
      → Gives (λ d. P d.kind) (id_or c node_in type d other)
  id_or-Gives node_in type d other p h =
      if_cases (Gives (λ (d : Device K). P d.kind)) (codes "id" ==ₛ type)
        (then-Gives_any _ (text_at c node_in type) _ λ v. p) h

  pub limits_or-Gives :
      (node : Setting) (type : List ℕ) (d : Device K) (other : Loaded (Device K))
      → P d.kind
      → Gives (λ d. P d.kind) other
      → Gives (λ d. P d.kind) (limits_or c exits node type d other)
  limits_or-Gives node type d other p h =
      if_cases (Gives (λ (d : Device K). P d.kind)) (codes "repetition-rate-limiting" ==ₛ type)
        (one d.s) h
    where
      one :
          (s : Option SeenT)
          → Gives {A = Device K}
              (λ d. P d.kind)
              (elim s [
                | some s ↦ exits
                | none ↦ set (instantiate_seen c node) (λ v. record d { s = some v })
              ])
      one (some s) = tt
      one none = then-Gives_any _ (instantiate_seen c node) _ λ v. p

  pub own-Gives :
      {V : Type 0} (d : Device K) (r : Loaded V) (f : V → K)
      → Gives (λ v. P (f v)) r
      → Gives (λ d. P d.kind) (own d r f)
  own-Gives d r f h = then-Gives (λ v. P (f v)) _ r _ h λ v p. p

  pub own-Gives_any :
      {V : Type 0} (d : Device K) (r : Loaded V) (f : V → K)
      → ((v : V) → P (f v))
      → Gives (λ d. P d.kind) (own d r f)
  own-Gives_any d r f h = then-Gives_any _ r _ h

  pub type_or_exit-Gives :
      (type : List ℕ) (d : Device K) → P d.kind → Gives (λ d. P d.kind) (type_or_exit type d)
  type_or_exit-Gives type d p =
      if_cases (Gives (λ (d : Device K). P d.kind)) (codes "type" ==ₛ type) p tt
