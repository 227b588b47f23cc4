-- ===== src/Config/Mappings.antt =====
-- `find_tranceiver`, `load_bridge_switchboard` and `load_routing_switchboard` of configuration.cpp. A
-- tranceiver is its place in the list, as in the switchboard.
use ham_router.Common.{
  ℕ, suc, List, [], ◌∷◌, ◌++◌, length, ◌==◌, ◌==ₛ◌, if◌then◌else◌, Option, none, some, codes,
}
use ham_router.Common.Assoc
use ham_router.Text.{split}
use ham_router.Filter.{FilterT}
use ham_router.Switchboard.{Switchboard, add_bridge_mapping, add_routing_mapping}
use ham_router.Settings.{Libconfig, Loaded, loaded, exits, ◌>>=◌, or_abort, each, text_at}

-- The first tranceiver of an id, from the ids of all of them.
unfoldable pub find_tranceiver : List ℕ → List (List ℕ) → Option ℕ
find_tranceiver id [] = none
find_tranceiver id (j ∷ ids) =
    let rest = find_tranceiver id ids in
    if j ==ₛ id then some 0 else elim rest [ none ↦ none | some i ↦ some (suc i) ]

-- A tranceiver that must be there.
unfoldable pub known_tranceiver : List (List ℕ) → List ℕ → Loaded ℕ
known_tranceiver ids id = elim (find_tranceiver id ids) [ none ↦ exits | some t ↦ loaded t ]

-- A filter that is named must be defined.
unfoldable pub known_filter : List (List ℕ × FilterT) → List ℕ → Loaded (Option FilterT)
known_filter filters name = elim (Assoc.find name filters) [
  | none ↦ exits
  | some f ↦ loaded (some f)
]

-- The loop over the names of the targets.
unfoldable pub bridge_to :
    {R : Type 0}
    → List (List ℕ)
    → ℕ
    → Option FilterT
    → List ℕ
    → Switchboard R
    → Loaded (Switchboard R)
unfolding known_tranceiver
bridge_to ids from_t f to sb =
    known_tranceiver ids to >>= λ to_t. loaded (add_bridge_mapping from_t to_t f sb)

-- The loop over the parts of "outgoing-via".
unfoldable pub route_via : List (List ℕ) → List ℕ → List ℕ → Loaded (List ℕ)
unfolding known_tranceiver
route_via ids part vias = known_tranceiver ids part >>= λ t. loaded (vias ++ t ∷ [])

abbrev space : List ℕ
space = codes " "

-- "incoming-via" can be empty.
unfoldable pub incoming : List (List ℕ) → List ℕ → Loaded (Option ℕ)
unfolding known_tranceiver
incoming ids incoming_via =
    if length incoming_via == 0
    then loaded none
    else (known_tranceiver ids incoming_via >>= λ t. loaded (some t))

-- `regcomp` of the C library; `none` is an error.
abbrev pub compiled : {R : Type 0} → (List ℕ → Option R) → List ℕ → Loaded R
compiled regcomp text = elim (regcomp text) [ none ↦ exits | some re ↦ loaded re ]

module _ (c : Libconfig) where
  open c use {Setting, elements, lookup, as_text}

  -- The filter of a bridge. Only that there is no "filter" is caught.
  unfoldable pub bridge_filter : List (List ℕ × FilterT) → Setting → Loaded (Option FilterT)
  unfolding known_filter
  bridge_filter filters node = elim (lookup node (codes "filter")) [
    | none ↦ loaded none
    | some v ↦ or_abort (as_text v) >>= λ name. known_filter filters name
  ]

  -- A round of the outer loop of `load_bridge_switchboard`.
  unfoldable pub load_bridge :
      {R : Type 0}
      → List (List ℕ × FilterT)
      → List (List ℕ)
      → Setting
      → Switchboard R
      → Loaded (Switchboard R)
  unfolding bridge_filter known_tranceiver bridge_to
  load_bridge filters ids node sb = text_at c node (codes "from") >>= λ from.
      text_at c node (codes "to") >>= λ tos. bridge_filter filters node >>= λ f.
      known_tranceiver ids from >>= λ from_t. each (bridge_to ids from_t f) (split tos space) sb

  unfoldable pub load_bridge_switchboard :
      {R : Type 0}
      → List (List ℕ × FilterT)
      → List (List ℕ)
      → Setting
      → Switchboard R
      → Loaded (Switchboard R)
  unfolding load_bridge
  load_bridge_switchboard filters ids node_in sb =
      each (load_bridge filters ids) (elements node_in) sb

  -- A round of the loop of `load_routing_switchboard`.
  unfoldable pub load_route :
      {R : Type 0}
      → (List ℕ → Option R)
      → List (List ℕ)
      → Setting
      → Switchboard R
      → Loaded (Switchboard R)
  unfolding incoming route_via
  load_route regcomp ids node sb = text_at c node (codes "from-callsign") >>= λ from_callsign.
      text_at c node (codes "to-callsign") >>= λ to_callsign.
      text_at c node (codes "incoming-via") >>= λ incoming_via.
      incoming ids incoming_via >>= λ t_incoming_via.
      text_at c node (codes "outgoing-via") >>= λ route_via_interface.
      each (route_via ids) (split route_via_interface space) [] >>= λ vias.
      compiled regcomp from_callsign >>= λ re_from. compiled regcomp to_callsign >>= λ re_to.
      loaded (
        add_routing_mapping
          (record {
            re_from_callsign = re_from;
            re_to_callsign = re_to;
            t_incoming_via = t_incoming_via;
            t_outgoing_via = vias;
          })
          sb)

  unfoldable pub load_routing_switchboard :
      {R : Type 0}
      → (List ℕ → Option R)
      → List (List ℕ)
      → Setting
      → Switchboard R
      → Loaded (Switchboard R)
  unfolding load_route
  load_routing_switchboard regcomp ids node_in sb =
      each (load_route regcomp ids) (elements node_in) sb
