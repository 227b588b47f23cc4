-- ===== src/Switchboard.antt =====
-- switchboard.h and switchboard.cpp: which tranceivers get a message. A tranceiver is known by its
-- number, and the maps keep their entries in lists.
pub mod Bridges
pub mod Targets
use ham_router.Common.{
  ℕ, List, [], ◌∷◌, ◌++◌, Bool, true, false, not, ◌&&◌, ◌||◌, ◌==◌, ◌==ₛ◌, if◌then◌else◌, Option,
  none, some,
}
use ham_router.Common.Assoc
use ham_router.Text.{c_str}
use ham_router.Transmit.{TransmitError, te_ok, te_filter, is_ok}
use ham_router.Message.{Message, Meta, DbRecordData}
use ham_router.Filter.{FilterT, Outcome, ok, exits, throws, runs_on, execute_filter}

pub record BridgeMapping : Type 0 where
  pub f : Option FilterT
  pub t : List ℕ

pub record RoutingMapping (R : Type 0) : Type 0 where
  pub re_from_callsign : R
  pub re_to_callsign : R
  pub t_incoming_via : Option ℕ
  pub t_outgoing_via : List ℕ

pub record Switchboard (R : Type 0) : Type 0 where
  pub bridge_map : List (ℕ × List BridgeMapping)
  pub routing_map : List (RoutingMapping R)

unfoldable pub bridges_of : ℕ → List (ℕ × List BridgeMapping) → Option (List BridgeMapping)
bridges_of k [] = none
bridges_of k ((j, v) ∷ m) = if j == k then some v else bridges_of k m

-- Whether the two conditions on the filters of the loop of `add_bridge_mapping` let it add here.
unfoldable pub same_filter : Option FilterT → Option FilterT → Bool
same_filter none none = true
same_filter none (some g) = false
same_filter (some f) none = false
same_filter (some f) (some g) =
    f.pattern ==ₛ g.pattern
    && (if f.ignore_if_field_is_missing
        then g.ignore_if_field_is_missing
        else not g.ignore_if_field_is_missing)

-- The loop of `add_bridge_mapping` over the mappings of a tranceiver.
unfoldable pub push_target : Option FilterT → ℕ → List BridgeMapping → List BridgeMapping
unfolding same_filter
push_target f out [] = []
push_target f out (mapping ∷ more) =
    let rest = push_target f out more in
    if same_filter mapping.f f
    then record mapping { t = mapping.t ++ out ∷ [] } ∷ more
    else mapping ∷ rest

-- The entry of `in` is changed in place, or inserted where there is none.
unfoldable pub change_bridges :
    ℕ → ℕ → Option FilterT → List (ℕ × List BridgeMapping) → List (ℕ × List BridgeMapping)
change_bridges k out f [] = (k, record { f = f; t = out ∷ [] } ∷ []) ∷ []
change_bridges k out f ((j, v) ∷ m) =
    let rest = change_bridges k out f m in
    if j == k then (j, push_target f out v) ∷ m else (j, v) ∷ rest

unfoldable pub add_bridge_mapping :
    {R : Type 0} → ℕ → ℕ → Option FilterT → Switchboard R → Switchboard R
add_bridge_mapping k out f sb =
    if k == out then sb else record sb { bridge_map = change_bridges k out f sb.bridge_map }

unfoldable pub add_routing_mapping : {R : Type 0} → RoutingMapping R → Switchboard R → Switchboard R
add_routing_mapping m sb = record sb { routing_map = sb.routing_map ++ m ∷ [] }

-- What the switchboard calls: `regexec` of the C library, and `put_message` of a tranceiver, which
-- works on the state of the outside world.
pub record Outside : Type 1 where
  pub Regex : Type 0
  pub regexec : Regex → List ℕ → ℕ
  pub World : Type 0
  pub deliver : ℕ → Message → World → TransmitError × World

-- REG_NOMATCH.
abbrev pub reg_nomatch : ℕ
reg_nomatch = 1

abbrev pub from_key : List ℕ
from_key = b'f' ∷ b'r' ∷ b'o' ∷ b'm' ∷ []

abbrev pub to_key : List ℕ
to_key = b't' ∷ b'o' ∷ []

-- How far `put_message` came: `forwarded` and the world, an early return, or a filter that ended the
-- program, threw or does not end.
pub data Progress (W : Type 0) : Type 0 where
  going : Bool → W → Progress W
  returned : TransmitError → W → Progress W
  stopped : W → Progress W

unfoldable pub and_then : {W : Type 0} → Progress W → (Bool → W → Progress W) → Progress W
and_then (going forwarded w) k = k forwarded w
and_then (returned rc w) k = returned rc w
and_then (stopped w) k = stopped w

-- The end of `put_message`.
unfoldable pub finish : {W : Type 0} → Progress W → Progress W
finish (going forwarded w) = returned (if forwarded then te_ok else te_filter) w
finish (returned rc w) = returned rc w
finish (stopped w) = stopped w

module _ (o : Outside) (continue_on_error : Bool) (m : Message) where
  open o use {Regex, regexec, World, deliver}

  -- The loops over the tranceivers of a mapping.
  unfoldable pub deliver_loop : List ℕ → Bool → World → Progress World
  deliver_loop [] forwarded w = going forwarded w
  deliver_loop (t ∷ ts) forwarded w =
      let (rc, w') = deliver t m w in
      let rest = deliver_loop ts true w' in
      if not (is_ok rc) && not continue_on_error then returned rc w' else rest

  -- Whether the filter of a bridge lets the message pass.
  unfoldable pub passes : ℕ → Option FilterT → Outcome Bool
  passes fuel none = ok true
  passes fuel (some f) = execute_filter fuel f.pattern f.ignore_if_field_is_missing m.meta

  unfoldable pub bridge_loop : ℕ → List BridgeMapping → Bool → World → Progress World
  bridge_loop fuel [] forwarded w = going forwarded w
  bridge_loop fuel (mapping ∷ more) forwarded w = elim (passes fuel mapping.f) [
    | ok true ↦
        and_then (deliver_loop mapping.t forwarded w) (λ _ w'. bridge_loop fuel more true w')
    | ok false ↦ bridge_loop fuel more forwarded w
    | exits ↦ stopped w
    | throws ↦ stopped w
    | runs_on ↦ stopped w
  ]

  -- A callsign against a regular expression: neither a mismatch nor an error goes on.
  unfoldable pub callsign_matches : Regex → List ℕ → Bool
  callsign_matches re key = elim (Assoc.find key m.meta) [
    | none ↦ false
    | some it ↦
        let rc = regexec re (c_str it.s_value) in
        if rc == reg_nomatch then false else if not (rc == 0) then false else true
  ]

  unfoldable pub via_matches : Option ℕ → Option ℕ → Bool
  via_matches none source = true
  via_matches (some via) none = false
  via_matches (some via) (some source) = via == source

  unfoldable pub routing_loop : List (RoutingMapping Regex) → Bool → World → Progress World
  routing_loop [] forwarded w = going forwarded w
  routing_loop (mapping ∷ more) forwarded w =
      let skip = routing_loop more forwarded w in
      if not (callsign_matches mapping.re_from_callsign from_key)
      then skip
      else if not (callsign_matches mapping.re_to_callsign to_key)
      then skip
      else if not (via_matches mapping.t_incoming_via m.source)
      then skip
      else and_then (deliver_loop mapping.t_outgoing_via forwarded w)
          (λ f w'. routing_loop more f w')

  -- The bridges of the origin come first.
  unfoldable pub start_bridges : ℕ → Option (List BridgeMapping) → World → Progress World
  start_bridges fuel none w = going false w
  start_bridges fuel (some mappings) w = bridge_loop fuel mappings false w

  unfoldable pub put_message : ℕ → ℕ → Switchboard Regex → World → Progress World
  put_message fuel from sb w = finish (
      and_then (start_bridges fuel (bridges_of from sb.bridge_map) w) (routing_loop sb.routing_map))
