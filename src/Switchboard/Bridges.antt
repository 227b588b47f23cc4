-- ===== src/Switchboard/Bridges.antt =====
-- What `add_bridge_mapping` makes of the bridges of a tranceiver.
use ham_router.Common.{
  ℕ, List, [], ◌∷◌, length, false, not, ◌&&◌, ◌==◌, if◌then◌else◌, Option, none, some, All, ◌≡◌,
  ◌≤◌, refl, ap, arith, ==_iff, if_cases, length-append,
}
use ham_router.Filter.{FilterT}
use ham_router.Switchboard.{
  BridgeMapping, Switchboard, bridges_of, same_filter, push_target, change_bridges,
  add_bridge_mapping,
}

-- The bridges of a tranceiver after a new mapping: the first one, or those that it had, changed.
abbrev pub bridged : Option FilterT → ℕ → Option (List BridgeMapping) → List BridgeMapping
bridged f out none = record { f = f; t = out ∷ [] } ∷ []
bridged f out (some v) = push_target f out v

bridges_of-change :
    (k out j : ℕ) (f : Option FilterT) (m : List (ℕ × List BridgeMapping))
    → bridges_of j (change_bridges k out f m)
      ≡ (if k == j then some (bridged f out (bridges_of k m)) else bridges_of j m)
unfolding bridges_of change_bridges
bridges_of-change k out j f [] = ground arith
bridges_of-change k out j f ((i, v) ∷ m) =
    let ih = bridges_of-change k out j f m in ground (arith, ==_iff k j, ==_iff i k, ==_iff i j)

pub bridges_of-add_bridge_mapping :
    {R : Type 0} (k out j : ℕ) (f : Option FilterT) (sb : Switchboard R)
    → bridges_of j (add_bridge_mapping k out f sb).bridge_map ≡ (
        if k == j && not (k == out)
        then some (bridged f out (bridges_of k sb.bridge_map))
        else bridges_of j sb.bridge_map)
unfolding add_bridge_mapping
bridges_of-add_bridge_mapping k out j f sb =
    let h = bridges_of-change k out j f sb.bridge_map in ground arith

push_target-none :
    (f : Option FilterT) (out : ℕ) (v : List BridgeMapping)
    → All (λ b. same_filter b.f f ≡ false) v
    → push_target f out v ≡ v
unfolding push_target
push_target-none f out [] h = refl
push_target-none f out (b ∷ v) (d, h) = rw d (ap (λ r. b ∷ r) (push_target-none f out v h))

change_bridges-none :
    (k out : ℕ) (f : Option FilterT) (m : List (ℕ × List BridgeMapping)) (v : List BridgeMapping)
    → bridges_of k m ≡ some v
    → All (λ b. same_filter b.f f ≡ false) v
    → change_bridges k out f m ≡ m
unfolding bridges_of change_bridges
change_bridges-none k out f [] v e h = ground arith
change_bridges-none k out f ((i, u) ∷ m) v e h =
    let ih = λ (e : bridges_of k m ≡ some v). change_bridges-none k out f m v e h in
    let p = push_target-none f out v h in ground arith

-- A second mapping of a tranceiver is lost if its filter is not that of a mapping that is there: the
-- switchboard stays as it was.
pub add_bridge_mapping_lost :
    {R : Type 0} (k out : ℕ) (f : Option FilterT) (sb : Switchboard R) (v : List BridgeMapping)
    → bridges_of k sb.bridge_map ≡ some v
    → All (λ b. same_filter b.f f ≡ false) v
    → add_bridge_mapping k out f sb ≡ sb
unfolding add_bridge_mapping
add_bridge_mapping_lost k out f sb v e h =
    let p = change_bridges-none k out f sb.bridge_map v e h in ground arith

-- Every mapping of every tranceiver has a target.
abbrev pub IsWired : List (ℕ × List BridgeMapping) → Type 0
IsWired = All (λ e. All (λ b. 1 ≤ length b.t) e.1)

push_target-IsWired :
    (f : Option FilterT) (out : ℕ) (v : List BridgeMapping)
    → All (λ b. 1 ≤ length b.t) v
    → All (λ b. 1 ≤ length b.t) (push_target f out v)
unfolding push_target
push_target-IsWired f out [] h = tt
push_target-IsWired f out (b ∷ v) (n, h) =
    let ih = push_target-IsWired f out v h in
    let l = length-append b.t (out ∷ []) in
    if_cases (All (λ b. 1 ≤ length b.t)) (same_filter b.f f) (omega arith, h) (n, ih)

change_bridges-IsWired :
    (k out : ℕ) (f : Option FilterT) (m : List (ℕ × List BridgeMapping))
    → IsWired m
    → IsWired (change_bridges k out f m)
unfolding change_bridges
change_bridges-IsWired k out f [] h = ((omega arith, tt), tt)
change_bridges-IsWired k out f ((i, u) ∷ m) (n, h) =
    let ih = change_bridges-IsWired k out f m h in
    if_cases IsWired (i == k) (push_target-IsWired f out u n, h) (n, ih)

-- `add_bridge_mapping` keeps every mapping wired to a target.
pub add_bridge_mapping-IsWired :
    {R : Type 0} (k out : ℕ) (f : Option FilterT) (sb : Switchboard R)
    → IsWired sb.bridge_map
    → IsWired (add_bridge_mapping k out f sb).bridge_map
unfolding add_bridge_mapping
add_bridge_mapping-IsWired {R = R} k out f sb h =
    let c = change_bridges-IsWired k out f sb.bridge_map h in
    if_cases (λ (s : Switchboard R). IsWired s.bridge_map) (k == out) h c
