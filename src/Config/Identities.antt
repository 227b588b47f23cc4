-- ===== src/Config/Identities.antt =====
-- The ids of the tranceivers: the names of their counters keep them apart.
use ham_router.Common.{
  ℕ, zero, suc, ◌+◌, List, [], ◌∷◌, ◌++◌, length, get_elem?, Bool, true, false, ◌==◌, ◌==ₛ◌, ==ₛ→eq,
  ==ₛ_refl, if◌then◌else◌, if_cases, Bool-cases, Option-cases, inl, inr, Option, none, some, map,
  All, ◌≡◌, refl, subst, ap, arith, codes, ltb,
}
use mathlib.Core.Option.{some-injective}
use ham_router.Common.Assoc.{find, insert, find-insert}
use ham_router.Snmp.Data.{register_oid, counter}
use ham_router.Stats.{StatsT, Stats, register_stat}
use ham_router.Settings.{loaded, exits, each}
use ham_router.Settings.Known.{Gives, Gives-map, then-Gives, each-Gives}
use ham_router.Config.Limits.{SeenT}
use ham_router.Config.Devices.{Device}
use ham_router.Config.Devices.Kinds.{Kind}
use ham_router.Config.Mappings.{find_tranceiver}
use ham_router.Config.Registry.{
  Registry, Counter, Host, interface_counters, seen_counters, register, register_snmp_counters,
}
use ham_router.Config.Load.{register_interfaces, register_oids, interface_group}

-- No two are equal.
abbrev pub AreDistinct : List (List ℕ) → Type 0
AreDistinct [] = Unit
AreDistinct (id ∷ ids) = All (λ j. (id ==ₛ j) ≡ false) ids × AreDistinct ids

abbrev is_some : {A : Type 0} → Option A → Bool
is_some none = false
is_some (some a) = true

-- A counter of a name is there.
abbrev has : List ℕ → Registry → Bool
has name r = is_some (find name r.st.lut)

abbrev Grows : Registry → Registry → Type 0
Grows r r' = (k : List ℕ) → has k r ≡ true → has k r' ≡ true

-- What `register_stat` makes of the names.
register_stat-find :
    (name oid : List ℕ) (s s' : Stats) (p : ℕ)
    → register_stat name oid s ≡ some (p, s')
    → (is_some (find name s.lut) ≡ false)
      × (is_some (find name s'.lut) ≡ true)
      × ((k : List ℕ) → is_some (find k s.lut) ≡ true → is_some (find k s'.lut) ≡ true)
unfolding register_stat
register_stat-find name oid s s' p e = elim (Option-cases (find name s.lut)) [
  | inr (v, f) ↦ absurd (ground arith)
  | inl f ↦ elim (Bool-cases (ltb s.size (s.len + 48))) [
    | inl full ↦ absurd (ground arith)
    | inr room ↦
        let v : StatsT = record { p = s.len; oid = oid } in
        let lut : insert name v s.lut ≡ s'.lut = ground arith in
        (
          ground arith,
          subst (λ l. is_some (find name l) ≡ true) lut
              (rw (find-insert name name v s.lut, ==ₛ_refl name) refl),
          λ k g.
              subst (λ l. is_some (find k l) ≡ true) lut
                (rw (find-insert name k v s.lut)
                  (if_cases (λ (o : Option StatsT). is_some o ≡ true) (name ==ₛ k) refl g)),
        )
  ]
]

-- A name that was free is taken, and no other is given up.
abbrev Takes : List ℕ → Registry → Registry → Type 0
Takes name r r' = (has name r ≡ false) × (has name r' ≡ true) × Grows r r'

abbrev in_octets : Device Kind → List ℕ
in_octets t = t.id ++ codes "-ifInOctets"

module _ (h : Host) where
  open h use {atoi, format}

  -- A counter that is registered was not there, and is there.
  register-Gives : (k : Counter) (r : Registry) → Gives (Takes k.name r) (register h k r)
  unfolding register
  register-Gives k r = one (register_stat k.name k.oid r.st) refl
    where
      one :
          (o : Option (ℕ × Stats))
          → register_stat k.name k.oid r.st ≡ o
          → Gives (Takes k.name r) (elim o [
            | none ↦ exits
            | some (p, st') ↦ loaded (record {
              sd =
                  if length k.oid == 0
                  then r.sd
                  else register_oid atoi k.oid (counter k.type p) r.sd;
              st = st';
            })
          ])
      one none e = tt
      one (some (p, st')) e = register_stat-find k.name k.oid r.st st' p e

  -- Counters that follow keep what is there.
  each-register-Grows :
      (r : Registry) (ks : List Counter) (r' : Registry)
      → Grows r r'
      → Gives (Grows r) (each (register h) ks r')
  each-register-Grows r ks r' g =
      each-Gives (Grows r) (register h)
        (λ k r1 g1.
          Gives-map _ (Grows r) (register h k r1) (λ r2 (n, y, g2) j e. g2 j (g1 j e))
            (register-Gives k r1))
        ks r' g

  each-register-Takes :
      (k : Counter) (ks : List Counter) (r : Registry)
      → Gives (Takes k.name r) (each (register h) (k ∷ ks) r)
  unfolding each
  each-register-Takes k ks r =
      then-Gives (Takes k.name r) (Takes k.name r) (register h k r) (each (register h) ks)
        (register-Gives k r)
        (λ r1 (n, y, g).
          Gives-map (Grows r1) (Takes k.name r) (each (register h) ks r1)
            (λ r2 g2. (n, g2 k.name y, λ j e. g2 j (g j e)))
            (each-register-Grows r1 ks r1 (λ j e. e)))

  -- The counters of a tranceiver take a name that was free.
  register_snmp_counters-Takes :
      (nr : ℕ) (t : Device Kind) (r : Registry)
      → Gives (Takes (in_octets t) r) (register_snmp_counters h nr t r)
  unfolding register_snmp_counters
  register_snmp_counters-Takes nr t r =
      then-Gives (Takes (in_octets t) r) _
        (each (register h) (interface_counters t.id (format nr)) r) _ (each-register-Takes _ _ r)
        (λ r1 (n, y, g). limited t.s r1 n y g)
    where
      limited :
          (s : Option SeenT) (r1 : Registry)
          → has (in_octets t) r ≡ false
          → has (in_octets t) r1 ≡ true
          → Grows r r1
          → Gives (Takes (in_octets t) r) (elim s [
            | none ↦ loaded r1
            | some s ↦ each (register h) (seen_counters t.id (format nr)) r1
          ])
      limited none r1 n y g = (n, y, g)
      limited (some s) r1 n y g =
          Gives-map (Grows r1) (Takes (in_octets t) r)
            (each (register h) (seen_counters t.id (format nr)) r1)
            (λ r2 g2. (n, g2 (in_octets t) y, λ j e. g2 j (g j e)))
            (each-register-Grows r1 (seen_counters t.id (format nr)) r1 (λ j e. e))

same_id :
    (t u : Device Kind) (r : Registry)
    → has (in_octets t) r ≡ true
    → has (in_octets u) r ≡ false
    → (t.id ==ₛ u.id) ≡ false
same_id t u r y n = elim (Bool-cases (t.id ==ₛ u.id)) [
  | inr e ↦ e
  | inl e ↦
      let same = ap (λ id. has (id ++ codes "-ifInOctets") r) (==ₛ→eq t.id u.id e) in absurd (cc)
]

-- The names that are free of a larger registry are free, and none is that of a tranceiver there.
free_before :
    (t : Device Kind) (ts : List (Device Kind)) (r r' : Registry)
    → has (in_octets t) r' ≡ true
    → Grows r r'
    → All (λ u. has (in_octets u) r' ≡ false) ts
    → All (λ u. has (in_octets u) r ≡ false) ts
      × All (λ j. (t.id ==ₛ j) ≡ false) (map (λ t. t.id) ts)
free_before t [] r r' y g h = (tt, tt)
free_before t (u ∷ ts) r r' y g (n, h) =
    let (a, b) = free_before t ts r r' y g h in
    let free : has (in_octets u) r ≡ false = elim (Bool-cases (has (in_octets u) r)) [
      | inr e ↦ e
      | inl e ↦ let f = g (in_octets u) e in absurd cc
    ] in
    ((free, a), (same_id t u r' y n, b))

module _ (h : Host) where
  open h use {format}

  -- All the interfaces are registered under ids of their own.
  pub register_interfaces-AreDistinct :
      (nr : ℕ) (ts : List (Device Kind)) (r : Registry)
      → Gives
          (λ _. All (λ t. has (in_octets t) r ≡ false) ts × AreDistinct (map (λ t. t.id) ts))
          (register_interfaces h nr ts r)
  unfolding register_interfaces
  register_interfaces-AreDistinct nr [] r = (tt, tt)
  register_interfaces-AreDistinct nr (t ∷ ts) r =
      let r0 : Registry = record r {
        sd = register_oids h (interface_group (format nr) nr t) r.sd;
      } in
      then-Gives (Takes (in_octets t) r0) _ (register_snmp_counters h nr t r0) _
        (register_snmp_counters-Takes h nr t r0)
        (λ r1 (n, y, g).
          Gives-map _ _ (register_interfaces h (nr + 1) ts r1)
            (λ r2 (free, d). let (a, b) = free_before t ts r r1 y g free in ((n, a), (b, d)))
            (register_interfaces-AreDistinct (nr + 1) ts r1))

All-get_elem? :
    {A : Type 0} (P : A → Type 0) (xs : List A) (i : ℕ) (x : A)
    → All P xs
    → get_elem? xs i ≡ some x
    → P x
All-get_elem? P [] i x h e = absurd cc
All-get_elem? P (y ∷ xs) zero x (p, h) e = subst P (some-injective y x e) p
All-get_elem? P (y ∷ xs) (suc i) x (p, h) e = All-get_elem? P xs i x h e

-- Where no two ids are equal, each tranceiver is found by its own.
pub find_tranceiver-AreDistinct :
    (ids : List (List ℕ)) (i : ℕ) (id : List ℕ)
    → AreDistinct ids
    → get_elem? ids i ≡ some id
    → find_tranceiver id ids ≡ some i
unfolding find_tranceiver
find_tranceiver-AreDistinct [] i id d e = absurd cc
find_tranceiver-AreDistinct (j ∷ ids) zero id (n, d) e = ground (arith, ==ₛ_refl id)
find_tranceiver-AreDistinct (j ∷ ids) (suc i) id (n, d) e =
    let ih = find_tranceiver-AreDistinct ids i id d e in
    let other = All-get_elem? (λ k. (j ==ₛ k) ≡ false) ids i id n e in rw (other, ih) refl
