-- ===== src/Stats/Entries.antt =====
-- The entries of the counters.
use ham_router.Common.{
  ℕ, ◌+◌, ◌≤◌, List, [], ◌∷◌, ◌++◌, take, Bool, ltb, ◌==ₛ◌, if◌then◌else◌, if_cases, Option, none,
  some, All, ◌≡◌, refl, ap, ◌∙◌, arith, true, false,
}
use mathlib.Core.Option.{get_or}
use ham_router.Common.Assoc.{find, insert, find-insert}
use ham_router.Stats.{StatsT, Stats, store, pointer, register_stat, find_stat}

-- Every entry lies in the part that is used, and that in the memory.
abbrev pub IsLaid : Stats → Type 0
IsLaid s = All (λ e. e.1.p + 48 ≤ s.len) s.lut × (s.len ≤ s.size)

insert-All :
    (k : List ℕ) (v : StatsT) (n : ℕ) (m : List (List ℕ × StatsT))
    → v.p + 48 ≤ n + 48
    → All (λ e. e.1.p + 48 ≤ n) m
    → All (λ e. e.1.p + 48 ≤ n + 48) (insert k v m)
unfolding insert
insert-All k v n [] h all = (h, tt)
insert-All k v n ((j, w) ∷ m) h (a, all) =
    let ih = insert-All k v n m h all in
    if_cases (All (λ e. e.1.p + 48 ≤ n + 48)) (j ==ₛ k) (omega arith, wider n m all)
      (omega arith, ih)
  where
    wider :
        (n : ℕ) (m : List (List ℕ × StatsT))
        → All (λ e. e.1.p + 48 ≤ n) m
        → All (λ e. e.1.p + 48 ≤ n + 48) m
    wider n [] h = tt
    wider n (e ∷ m) (a, all) = (omega arith, wider n m all)

pointer-if :
    (b : Bool) (v : StatsT) (r : Option StatsT)
    → pointer (if b then some v else r) ≡ (if b then some v.p else pointer r)
pointer-if true v r = refl
pointer-if false v r = refl

-- Where the name is new and an entry of 48 bytes fits, a counter is registered behind all the others and
-- in the memory, it starts at 0, and it is found by its name; the others are found as before.
pub register_stat-find_stat :
    (name oid : List ℕ) (s : Stats)
    → IsLaid s
    → find name s.lut ≡ none
    → s.len + 48 ≤ s.size
    → (s' : Stats) × (register_stat name oid s ≡ some (s.len, s'))
      × IsLaid s'
      × All (λ e. e.1.p + 48 ≤ s.len) s.lut
      × (s'.cells s.len ≡ 0)
      × ((k : List ℕ) → find_stat k s' ≡ (if name ==ₛ k then some s.len else find_stat k s))
unfolding register_stat find_stat
register_stat-find_stat name oid s (all, fits) new room =
    let v : StatsT = record { p = s.len; oid = oid } in
    let free : ltb s.size (s.len + 48) ≡ false = ground arith in
    let zeroed : store (s.len + 8) 0 (store s.len 0 s.cells) s.len ≡ 0 = ground arith in
    (
      record s {
        len = s.len + 48;
        lut = insert name v s.lut;
        cells = store (s.len + 8) 0 (store s.len 0 s.cells);
        names = store s.len (take 31 name ++ 0 ∷ []) s.names;
      },
      rw (new, free, register_stat) refl,
      (insert-All name v s.len s.lut (omega arith) all, room),
      all,
      zeroed,
      λ k.
          ap pointer (find-insert name k v s.lut)
          ∙ pointer-if (name ==ₛ k) (get_or (find name s.lut) v) (find k s.lut)
          ∙ rw new refl,
    )
