-- ===== src/Switchboard/Targets.antt =====
-- `put_message` against the list of the tranceivers that a message is for.
use ham_router.Common.{
  ℕ, ◌≤◌, List, [], ◌∷◌, ◌++◌, length, Bool, true, false, ◌&&◌, ◌||◌, leb, if◌then◌else◌, Option,
  none, some, All, ◌≡◌, refl, sym, ap, ap₂, ◌∙◌, arith,
}
use ham_router.Transmit.{te_ok, te_filter}
use ham_router.Message.{Message}
use ham_router.Filter.{Outcome, ok, exits, throws, runs_on}
use ham_router.Switchboard.{
  BridgeMapping, RoutingMapping, Switchboard, Outside, Progress, going, returned, stopped, and_then,
  finish, bridges_of, deliver_loop, passes, bridge_loop, callsign_matches, via_matches,
  routing_loop, start_bridges, put_message, from_key, to_key,
}

-- A filter that gives a result on the message.
abbrev pub accepted : Outcome Bool → Bool
accepted (ok v) = v
accepted exits = false
accepted throws = false
accepted runs_on = false

abbrev pub IsDecided : Outcome Bool → Type 0
IsDecided r = r ≡ ok (accepted r)

abbrev pub concat_if : {A : Type 0} → (A → Bool) → (A → List ℕ) → List A → List ℕ
concat_if p f [] = []
concat_if p f (x ∷ xs) = if p x then f x ++ concat_if p f xs else concat_if p f xs

and_then_assoc :
    {W : Type 0} (r : Progress W) (f g : Bool → W → Progress W)
    → and_then (and_then r f) g ≡ and_then r (λ b w. and_then (f b w) g)
unfolding and_then
and_then_assoc (going b w) f g = refl
and_then_assoc (returned rc w) f g = refl
and_then_assoc (stopped w) f g = refl

module _ (o : Outside) (c : Bool) (m : Message) where
  open o use {Regex, regexec, World, deliver}

  -- Every mapping of a bridge has a target, and its filter gives a result.
  abbrev pub IsSound : ℕ → BridgeMapping → Type 0
  IsSound fuel b = (1 ≤ length b.t) × IsDecided (passes o c m fuel b.f)

  -- Whether a route takes the message.
  abbrev pub takes : RoutingMapping Regex → Bool
  takes r =
      callsign_matches o c m r.re_from_callsign from_key
      && (callsign_matches o c m r.re_to_callsign to_key
          && via_matches o c m r.t_incoming_via m.source)

  abbrev pub bridge_targets : ℕ → Option (List BridgeMapping) → List ℕ
  bridge_targets fuel none = []
  bridge_targets fuel (some bs) = concat_if (λ b. accepted (passes o c m fuel b.f)) (λ b. b.t) bs

  abbrev pub AllSound : ℕ → Option (List BridgeMapping) → Type 0
  AllSound fuel none = Unit
  AllSound fuel (some bs) = All (IsSound fuel) bs

  -- All the targets: those of the bridges of the origin, then those of the routes.
  abbrev pub targets : ℕ → ℕ → Switchboard Regex → List ℕ
  targets fuel from sb =
      bridge_targets fuel (bridges_of from sb.bridge_map)
      ++ concat_if takes (λ r. r.t_outgoing_via) sb.routing_map

  deliver_loop-append :
      (xs ys : List ℕ) (f : Bool) (w : World)
      → deliver_loop o c m (xs ++ ys) f w
        ≡ and_then (deliver_loop o c m xs f w) (deliver_loop o c m ys)
  unfolding deliver_loop and_then
  deliver_loop-append [] ys f w = refl
  deliver_loop-append (x ∷ xs) ys f w =
      let (rc, w') = deliver x m w in let ih = deliver_loop-append xs ys true w' in ground arith

  -- Once a target has the message, `forwarded` is set.
  forwarded_stays :
      (xs : List ℕ) (w : World) (k : Bool → World → Progress World)
      → and_then (deliver_loop o c m xs true w) (λ _ w'. k true w')
        ≡ and_then (deliver_loop o c m xs true w) k
  unfolding deliver_loop and_then
  forwarded_stays [] w k = refl
  forwarded_stays (x ∷ xs) w k =
      let (rc, w') = deliver x m w in let ih = forwarded_stays xs w' k in ground arith

  forwarded_set :
      (xs : List ℕ) (f : Bool) (w : World) (k : Bool → World → Progress World)
      → 1 ≤ length xs
      → and_then (deliver_loop o c m xs f w) (λ _ w'. k true w')
        ≡ and_then (deliver_loop o c m xs f w) k
  unfolding deliver_loop and_then
  forwarded_set [] f w k h = absurd (omega arith)
  forwarded_set (x ∷ xs) f w k h =
      let (rc, w') = deliver x m w in let ih = forwarded_stays xs w' k in ground arith

  bridge_round :
      (fuel : ℕ) (b : BridgeMapping) (bs : List BridgeMapping) (f v : Bool) (w : World)
      → 1 ≤ length b.t
      → passes o c m fuel b.f ≡ ok v
      → ((f : Bool) (w : World)
          → bridge_loop o c m fuel bs f w ≡ deliver_loop o c m (bridge_targets fuel (some bs)) f w)
      → bridge_loop o c m fuel (b ∷ bs) f w
        ≡ deliver_loop o c m
            (if v then b.t ++ bridge_targets fuel (some bs) else bridge_targets fuel (some bs))
            f
            w
  unfolding bridge_loop
  bridge_round fuel b bs f true w n d ih =
      rw (d, bridge_loop)
        (forwarded_set b.t f w (bridge_loop o c m fuel bs) n
          ∙ ap (and_then (deliver_loop o c m b.t f w)) (λ i f' w'. ih f' w' i)
          ∙ sym (deliver_loop-append b.t (bridge_targets fuel (some bs)) f w))
  bridge_round fuel b bs f false w n d ih = rw (d, bridge_loop) (ih f w)

  bridge_loop-targets :
      (fuel : ℕ) (bs : List BridgeMapping) (f : Bool) (w : World)
      → All (IsSound fuel) bs
      → bridge_loop o c m fuel bs f w ≡ deliver_loop o c m (bridge_targets fuel (some bs)) f w
  bridge_loop-targets fuel [] f w h = unfold bridge_loop deliver_loop in refl
  bridge_loop-targets fuel (b ∷ bs) f w ((n, d), h) =
      bridge_round fuel b bs f (accepted (passes o c m fuel b.f)) w n d
        (λ f' w'. bridge_loop-targets fuel bs f' w' h)

  route_round :
      (r : RoutingMapping Regex) (rs : List (RoutingMapping Regex)) (f a b v : Bool) (w : World)
      → callsign_matches o c m r.re_from_callsign from_key ≡ a
      → callsign_matches o c m r.re_to_callsign to_key ≡ b
      → via_matches o c m r.t_incoming_via m.source ≡ v
      → ((f : Bool) (w : World)
          → routing_loop o c m rs f w
            ≡ deliver_loop o c m (concat_if takes (λ r. r.t_outgoing_via) rs) f w)
      → routing_loop o c m (r ∷ rs) f w
        ≡ deliver_loop o c m (concat_if takes (λ r. r.t_outgoing_via) (r ∷ rs)) f w
  unfolding routing_loop
  route_round r rs f true true true w ea eb ev ih =
      rw (ea, eb, ev)
        (ap (and_then (deliver_loop o c m r.t_outgoing_via f w)) (λ i f' w'. ih f' w' i)
          ∙ sym (
              deliver_loop-append r.t_outgoing_via (concat_if takes (λ r. r.t_outgoing_via) rs) f
                w))
  route_round r rs f true true false w ea eb ev ih = rw (ea, eb, ev) (ih f w)
  route_round r rs f true false v w ea eb ev ih = rw (ea, eb) (ih f w)
  route_round r rs f false b v w ea eb ev ih = rw ea (ih f w)

  routing_loop-targets :
      (rs : List (RoutingMapping Regex)) (f : Bool) (w : World)
      → routing_loop o c m rs f w
        ≡ deliver_loop o c m (concat_if takes (λ r. r.t_outgoing_via) rs) f w
  routing_loop-targets [] f w = unfold routing_loop deliver_loop in refl
  routing_loop-targets (r ∷ rs) f w =
      route_round r rs f _ _ _ w refl refl refl (λ f' w'. routing_loop-targets rs f' w')

  started :
      (fuel : ℕ) (bs : Option (List BridgeMapping)) (w : World)
      → AllSound fuel bs
      → start_bridges o c m fuel bs w ≡ deliver_loop o c m (bridge_targets fuel bs) false w
  unfolding start_bridges
  started fuel none w h = unfold deliver_loop in refl
  started fuel (some bs) w h = bridge_loop-targets fuel bs false w h

  -- A message goes to its targets one after the other, the bridges' before the routes', and the
  -- result is that of handing it to the list of them, where the bridges of its origin have targets
  -- and filters that give a result.
  pub put_message-targets :
      (fuel from : ℕ) (sb : Switchboard Regex) (w : World)
      → AllSound fuel (bridges_of from sb.bridge_map)
      → put_message o c m fuel from sb w
        ≡ finish (deliver_loop o c m (targets fuel from sb) false w)
  unfolding put_message
  put_message-targets fuel from sb w h = ap finish (
      ap₂ and_then (started fuel (bridges_of from sb.bridge_map) w h)
        (λ i f' w'. routing_loop-targets sb.routing_map f' w' i)
      ∙ sym (
          deliver_loop-append (bridge_targets fuel (bridges_of from sb.bridge_map))
            (concat_if takes (λ r. r.t_outgoing_via) sb.routing_map) false w))

-- The world when every one of a list of tranceivers was handed the message, whatever it reported.
unfoldable pub handed : (o : Outside) → Message → List ℕ → o.World → o.World
handed o m [] w = w
handed o m (t ∷ ts) w = handed o m ts (o.deliver t m w).1

deliver_loop-handed :
    (o : Outside) (m : Message) (ts : List ℕ) (f : Bool) (w : o.World)
    → deliver_loop o true m ts f w ≡ going (f || leb 1 (length ts)) (handed o m ts w)
unfolding deliver_loop handed
deliver_loop-handed o m [] f w = ground arith
deliver_loop-handed o m (t ∷ ts) f w =
    let (rc, w') = o.deliver t m w in let ih = deliver_loop-handed o m ts true w' in ground arith

-- With `continue_on_error` every target is handed the message, whatever the others report, and the
-- result is that it was filtered exactly if there is no target.
pub put_message_continues :
    (o : Outside) (m : Message) (fuel from : ℕ) (sb : Switchboard o.Regex) (w : o.World)
    → AllSound o true m fuel (bridges_of from sb.bridge_map)
    → put_message o true m fuel from sb w
      ≡ returned
          (if leb 1 (length (targets o true m fuel from sb)) then te_ok else te_filter)
          (handed o m (targets o true m fuel from sb) w)
put_message_continues o m fuel from sb w h =
    put_message-targets o true m fuel from sb w h
    ∙ ap finish (deliver_loop-handed o m (targets o true m fuel from sb) false w)
    ∙ unfold finish in refl
