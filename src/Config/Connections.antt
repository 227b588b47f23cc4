-- ===== src/Config/Connections.antt =====
-- The tranceivers that the switchboard of a configuration refers to.
use ham_router.Common.{
  ℕ, suc, ◌≤◌, ◌<◌, List, [], ◌∷◌, ◌++◌, length, ◌==◌, ◌==ₛ◌, if_cases, Option, none, some, All,
  All-append, All-map, length-append, arith, codes,
}
use ham_router.Filter.{FilterT}
use ham_router.Text.{split}
use ham_router.Switchboard.{
  BridgeMapping, RoutingMapping, Switchboard, same_filter, push_target, change_bridges,
  add_bridge_mapping, add_routing_mapping,
}
use ham_router.Settings.{Libconfig, loaded, exits, each, text_at}
use ham_router.Settings.Known.{Gives, then-Gives, then-Gives_any, each-Gives}
use ham_router.Config.Mappings.{
  find_tranceiver, known_tranceiver, compiled, bridge_to, route_via, incoming, bridge_filter,
  load_bridge, load_bridge_switchboard, load_route, load_routing_switchboard,
}

abbrev AreBelow : ℕ → List ℕ → Type 0
AreBelow n = All (λ t. t < n)

abbrev IsBelow : ℕ → Option ℕ → Type 0
IsBelow n none = Unit
IsBelow n (some t) = t < n

-- A mapping with targets, all of them among `n` tranceivers.
abbrev Reaches : ℕ → BridgeMapping → Type 0
Reaches n b = (1 ≤ length b.t) × AreBelow n b.t

abbrev IsBridged : ℕ → List (ℕ × List BridgeMapping) → Type 0
IsBridged n = All (λ e. (e.0 < n) × All (Reaches n) e.1)

abbrev IsRouted : {R : Type 0} → ℕ → List (RoutingMapping R) → Type 0
IsRouted n = All (λ r. IsBelow n r.t_incoming_via × AreBelow n r.t_outgoing_via)

-- All that a switchboard refers to are among `n` tranceivers.
abbrev pub IsConnected : {R : Type 0} → ℕ → Switchboard R → Type 0
IsConnected n sb = IsBridged n sb.bridge_map × IsRouted n sb.routing_map

find_tranceiver-IsBelow :
    (id : List ℕ) (ids : List (List ℕ)) → IsBelow (length ids) (find_tranceiver id ids)
unfolding find_tranceiver
find_tranceiver-IsBelow id [] = tt
find_tranceiver-IsBelow id (j ∷ ids) =
    if_cases (IsBelow (suc (length ids))) (j ==ₛ id) (omega arith)
      (one (find_tranceiver id ids) (find_tranceiver-IsBelow id ids))
  where
    one :
        (r : Option ℕ)
        → IsBelow (length ids) r
        → IsBelow (suc (length ids)) (elim r [ none ↦ none | some i ↦ some (suc i) ])
    one none h = tt
    one (some i) h = omega arith

known_tranceiver-Gives :
    (ids : List (List ℕ)) (id : List ℕ) → Gives (λ t. t < length ids) (known_tranceiver ids id)
unfolding known_tranceiver
known_tranceiver-Gives ids id = one (find_tranceiver id ids) (find_tranceiver-IsBelow id ids)
  where
    one :
        (r : Option ℕ)
        → IsBelow (length ids) r
        → Gives (λ t. t < length ids) (elim r [ none ↦ exits | some t ↦ loaded t ])
    one none h = tt
    one (some t) h = h

push_target-Reaches :
    (n out : ℕ) (f : Option FilterT) (v : List BridgeMapping)
    → out < n
    → All (Reaches n) v
    → All (Reaches n) (push_target f out v)
unfolding push_target
push_target-Reaches n out f [] o h = tt
push_target-Reaches n out f (b ∷ v) o ((l, a), h) =
    let ih = push_target-Reaches n out f v o h in
    let k = length-append b.t (out ∷ []) in
    if_cases (All (Reaches n)) (same_filter b.f f)
      ((omega arith, All-append (λ t. t < n) b.t (out ∷ []) a (o, tt)), h) ((l, a), ih)

change_bridges-IsBridged :
    (n k out : ℕ) (f : Option FilterT) (m : List (ℕ × List BridgeMapping))
    → k < n
    → out < n
    → IsBridged n m
    → IsBridged n (change_bridges k out f m)
unfolding change_bridges
change_bridges-IsBridged n k out f [] i o h = ((i, ((omega arith, (o, tt)), tt)), tt)
change_bridges-IsBridged n k out f ((j, v) ∷ m) i o ((b, a), h) =
    let ih = change_bridges-IsBridged n k out f m i o h in
    if_cases (IsBridged n) (j == k) ((b, push_target-Reaches n out f v o a), h) ((b, a), ih)

add_bridge_mapping-IsConnected :
    {R : Type 0} (n k out : ℕ) (f : Option FilterT) (sb : Switchboard R)
    → k < n
    → out < n
    → IsConnected n sb
    → IsConnected n (add_bridge_mapping k out f sb)
unfolding add_bridge_mapping
add_bridge_mapping-IsConnected {R = R} n k out f sb i o (b, r) =
    if_cases (λ (s : Switchboard R). IsConnected n s) (k == out) (b, r)
      (change_bridges-IsBridged n k out f sb.bridge_map i o b, r)

incoming-Gives :
    (ids : List (List ℕ)) (via : List ℕ) → Gives (IsBelow (length ids)) (incoming ids via)
unfolding incoming
incoming-Gives ids via = if_cases (Gives (IsBelow (length ids))) (length via == 0) tt (
    then-Gives (λ t. t < length ids) (IsBelow (length ids)) (known_tranceiver ids via)
      (λ t. loaded (some t)) (known_tranceiver-Gives ids via) (λ t h. h))

route_via-Gives :
    (ids : List (List ℕ)) (part : List ℕ) (vias : List ℕ)
    → AreBelow (length ids) vias
    → Gives (AreBelow (length ids)) (route_via ids part vias)
unfolding route_via
route_via-Gives ids part vias h =
    then-Gives (λ t. t < length ids) (AreBelow (length ids)) (known_tranceiver ids part)
      (λ t. loaded (vias ++ t ∷ [])) (known_tranceiver-Gives ids part)
      (λ t k. All-append (λ t. t < length ids) vias (t ∷ []) h (k, tt))

bridge_to-Gives :
    {R : Type 0} (ids : List (List ℕ)) (k : ℕ) (f : Option FilterT) (to : List ℕ)
    (sb : Switchboard R)
    → k < length ids
    → IsConnected (length ids) sb
    → Gives (IsConnected (length ids)) (bridge_to ids k f to sb)
unfolding bridge_to
bridge_to-Gives ids k f to sb i h =
    then-Gives (λ t. t < length ids) (IsConnected (length ids)) (known_tranceiver ids to)
      (λ t. loaded (add_bridge_mapping k t f sb)) (known_tranceiver-Gives ids to)
      (λ t o. add_bridge_mapping-IsConnected (length ids) k t f sb i o h)

-- More tranceivers.
IsBelow-more : (n m : ℕ) (t : Option ℕ) → n ≤ m → IsBelow n t → IsBelow m t
IsBelow-more n m none l h = tt
IsBelow-more n m (some t) l h = omega arith

pub IsConnected-more :
    {R : Type 0} (n m : ℕ) (sb : Switchboard R) → n ≤ m → IsConnected n sb → IsConnected m sb
IsConnected-more n m sb l (b, r) = (
  All-map (λ e. (e.0 < n) × All (Reaches n) e.1) (λ e. (e.0 < m) × All (Reaches m) e.1)
      sb.bridge_map
      (λ e (i, v).
        (omega arith, All-map (Reaches n) (Reaches m) e.1 (λ b (s, a). (s, wider b.t a)) v))
      b,
  All-map (λ r. IsBelow n r.t_incoming_via × AreBelow n r.t_outgoing_via)
      (λ r. IsBelow m r.t_incoming_via × AreBelow m r.t_outgoing_via) sb.routing_map
      (λ r (i, a). (IsBelow-more n m r.t_incoming_via l i, wider r.t_outgoing_via a)) r,
)
  where
    wider : (ts : List ℕ) → AreBelow n ts → AreBelow m ts
    wider ts a = All-map (λ t. t < n) (λ t. t < m) ts (λ t h. omega arith) a

module _ (c : Libconfig) where
  open c use {Setting, elements, lookup, as_text}

  load_bridge-Gives :
      {R : Type 0} (filters : List (List ℕ × FilterT)) (ids : List (List ℕ)) (node : Setting)
      (sb : Switchboard R)
      → IsConnected (length ids) sb
      → Gives (IsConnected (length ids)) (load_bridge c filters ids node sb)
  unfolding load_bridge
  load_bridge-Gives filters ids node sb h =
      then-Gives_any _ (text_at c node (codes "from")) _ λ from.
        then-Gives_any _ (text_at c node (codes "to")) _ λ tos.
          then-Gives_any _ (bridge_filter c filters node) _ λ f.
            then-Gives (λ t. t < length ids) _ (known_tranceiver ids from) _
              (known_tranceiver-Gives ids from)
              λ k i.
                each-Gives (IsConnected (length ids)) (bridge_to ids k f)
                  (λ to sb h. bridge_to-Gives ids k f to sb i h) (split tos (codes " ")) sb h

  -- `load_bridge_switchboard` connects only tranceivers that are there.
  pub load_bridge_switchboard-Gives :
      {R : Type 0} (filters : List (List ℕ × FilterT)) (ids : List (List ℕ)) (node_in : Setting)
      (sb : Switchboard R)
      → IsConnected (length ids) sb
      → Gives (IsConnected (length ids)) (load_bridge_switchboard c filters ids node_in sb)
  unfolding load_bridge_switchboard
  load_bridge_switchboard-Gives filters ids node_in sb h =
      each-Gives (IsConnected (length ids)) (load_bridge c filters ids)
        (λ node sb h. load_bridge-Gives filters ids node sb h) (elements node_in) sb h

  load_route-Gives :
      {R : Type 0} (regcomp : List ℕ → Option R) (ids : List (List ℕ)) (node : Setting)
      (sb : Switchboard R)
      → IsConnected (length ids) sb
      → Gives (IsConnected (length ids)) (load_route c regcomp ids node sb)
  unfolding load_route add_routing_mapping
  load_route-Gives regcomp ids node sb (b, r) =
      then-Gives_any _ (text_at c node (codes "from-callsign")) _ λ from_callsign.
        then-Gives_any _ (text_at c node (codes "to-callsign")) _ λ to_callsign.
          then-Gives_any _ (text_at c node (codes "incoming-via")) _ λ incoming_via.
            then-Gives (IsBelow (length ids)) _ (incoming ids incoming_via) _
              (incoming-Gives ids incoming_via)
              λ via i. then-Gives_any _ (text_at c node (codes "outgoing-via")) _ λ interfaces.
                then-Gives (AreBelow (length ids)) _
                  (each (route_via ids) (split interfaces (codes " ")) []) _
                  (each-Gives (AreBelow (length ids)) (route_via ids)
                    (λ part vias h. route_via-Gives ids part vias h) (split interfaces (codes " "))
                    [] tt)
                  λ vias a. then-Gives_any _ (compiled regcomp from_callsign) _ λ re_from.
                    then-Gives_any _ (compiled regcomp to_callsign) _ λ re_to. (
                      b,
                      All-append
                          (λ r.
                            IsBelow (length ids) r.t_incoming_via
                            × AreBelow (length ids) r.t_outgoing_via)
                          sb.routing_map _ r ((i, a), tt),
                    )

  -- `load_routing_switchboard` too.
  pub load_routing_switchboard-Gives :
      {R : Type 0} (regcomp : List ℕ → Option R) (ids : List (List ℕ)) (node_in : Setting)
      (sb : Switchboard R)
      → IsConnected (length ids) sb
      → Gives (IsConnected (length ids)) (load_routing_switchboard c regcomp ids node_in sb)
  unfolding load_routing_switchboard
  load_routing_switchboard-Gives regcomp ids node_in sb h =
      each-Gives (IsConnected (length ids)) (load_route c regcomp ids)
        (λ node sb h. load_route-Gives regcomp ids node sb h) (elements node_in) sb h
