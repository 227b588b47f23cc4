-- ===== src/Tranceiver/SetFields.antt =====
-- What a field of a message is after fields were set.
use ham_router.Common.{ℕ, List, [], ◌∷◌, Option, some, ◌==ₛ◌, if◌then◌else◌, ◌≡◌, refl, ap, ◌∙◌}
use ham_router.Common.Assoc.{find, assign, find-assign}
use ham_router.Message.{Meta, DbRecordData, set_entries}

-- The last entry with the key, or `r`.
abbrev pub last_of : List ℕ → Meta → Option DbRecordData → Option DbRecordData
last_of k [] r = r
last_of k ((j, v) ∷ more) r = last_of k more (if j ==ₛ k then some v else r)

pub find-set_entries :
    (k : List ℕ) (meta entries : Meta)
    → find k (set_entries meta entries) ≡ last_of k entries (find k meta)
unfolding set_entries
find-set_entries k meta [] = refl
find-set_entries k meta ((j, v) ∷ more) =
    find-set_entries k (assign j v meta) more ∙ ap (last_of k more) (find-assign j k v meta)
