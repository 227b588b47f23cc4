-- ===== src/Message/Types.antt =====
-- The types of the data that the program puts in the fields of messages.
use ham_router.Common.{
  ℕ, List, [], ◌∷◌, ◌||◌, ◌==ₛ◌, if◌then◌else◌, if_split, if_cases, ==ₛ→eq, All, ◌≡◌, sym, ap, ◌∙◌,
  codes,
}
use ham_router.Common.Assoc.{insert, assign}
use ham_router.Message.{DataType, dt_float64, dt_string, DbRecordData, Meta, set_entries}

-- Positions and the time on air are numbers, everything else is text.
abbrev pub expected : List ℕ → DataType
expected name =
    if codes "latitude" ==ₛ name || (codes "longitude" ==ₛ name || codes "air-time" ==ₛ name)
    then dt_float64
    else dt_string

abbrev pub AreTyped : Meta → Type 0
AreTyped = All (λ e. e.1.dt ≡ expected e.0)

pub insert-AreTyped :
    (k : List ℕ) (v : DbRecordData) (m : Meta)
    → v.dt ≡ expected k
    → AreTyped m
    → AreTyped (insert k v m)
unfolding insert
insert-AreTyped k v [] e h = (e, tt)
insert-AreTyped k v ((j, w) ∷ m) e (d, h) =
    if_cases AreTyped (j ==ₛ k) (d, h) (d, insert-AreTyped k v m e h)

assign-AreTyped :
    (k : List ℕ) (v : DbRecordData) (m : Meta)
    → v.dt ≡ expected k
    → AreTyped m
    → AreTyped (assign k v m)
unfolding assign
assign-AreTyped k v [] e h = (e, tt)
assign-AreTyped k v ((j, w) ∷ m) e (d, h) =
    if_split AreTyped (j ==ₛ k) (λ s. (e ∙ ap expected (sym (==ₛ→eq j k s)), h))
      (λ n. (d, assign-AreTyped k v m e h))

pub set_entries-AreTyped :
    (m more : Meta) → AreTyped m → AreTyped more → AreTyped (set_entries m more)
unfolding set_entries
set_entries-AreTyped m [] h k = h
set_entries-AreTyped m ((j, v) ∷ more) h (e, k) =
    set_entries-AreTyped (assign j v m) more (assign-AreTyped j v m e h) k
