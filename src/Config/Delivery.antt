-- ===== src/Config/Delivery.antt =====
-- From a bridge of the configuration file to the tranceivers that get a message.
use ham_router.Common.{
  ℕ, List, [], ◌∷◌, ◌++◌, length, append-nil, append_assoc, true, false, ◌==◌, ==_iff, ==_refl,
  ==ₛ_refl, leb, if◌then◌else◌, if_cases, if_split, Bool-cases, inl, inr, Option, Option-cases,
  none, some, ◌≡◌, refl, sym, ap, subst, ◌∙◌, arith, codes,
}
use mathlib.Core.Option.{some-injective}
use ham_router.Text.{split}
use ham_router.Transmit.{te_ok, te_filter}
use ham_router.Message.{Message}
use ham_router.Filter.{FilterT}
use ham_router.Switchboard.{
  BridgeMapping, Switchboard, Outside, Progress, returned, bridges_of, same_filter, push_target,
  passes, add_bridge_mapping, put_message,
}
use ham_router.Switchboard.Bridges.{bridged, bridges_of-add_bridge_mapping}
use ham_router.Switchboard.Targets.{targets, handed, AllSound, put_message_continues}
use ham_router.Settings.{Libconfig, loaded, each, text_at}
use ham_router.Config.Mappings.{
  find_tranceiver, known_tranceiver, bridge_to, bridge_filter, load_bridge,
}

-- The places of the tranceivers of a list of ids, if all of them are there.
abbrev pub places : List (List ℕ) → List (List ℕ) → Option (List ℕ)
places ids [] = some []
places ids (part ∷ parts) = elim (find_tranceiver part ids) [
  | none ↦ none
  | some t ↦ elim (places ids parts) [ none ↦ none | some ts ↦ some (t ∷ ts) ]
]

-- A list without a number.
abbrev pub others : ℕ → List ℕ → List ℕ
others k [] = []
others k (t ∷ ts) = if k == t then others k ts else t ∷ others k ts

abbrev pub no_board : {R : Type 0} → Switchboard R
no_board = record { bridge_map = []; routing_map = [] }

-- The bridges of a tranceiver that has one mapping at most.
abbrev alone : Option FilterT → List ℕ → Option (List BridgeMapping)
alone f [] = none
alone f (t ∷ ts) = some (record { f = f; t = t ∷ ts } ∷ [])

same_filter_refl : (f : Option FilterT) → same_filter f f ≡ true
unfolding same_filter
same_filter_refl none = refl
same_filter_refl (some f) = let p = ==ₛ_refl f.pattern in ground arith

bridged-alone :
    (f : Option FilterT) (t : ℕ) (us : List ℕ)
    → some (bridged f t (alone f us)) ≡ alone f (us ++ t ∷ [])
unfolding push_target
bridged-alone f t [] = refl
bridged-alone f t (u ∷ us) = rw (same_filter_refl f) refl

-- The mappings one after the other.
abbrev add_all : {R : Type 0} → ℕ → Option FilterT → List ℕ → Switchboard R → Switchboard R
add_all k f [] sb = sb
add_all k f (t ∷ ts) sb = add_all k f ts (add_bridge_mapping k t f sb)

each-bridge_to :
    {R : Type 0} (ids : List (List ℕ)) (k : ℕ) (f : Option FilterT) (parts : List (List ℕ))
    (ts : List ℕ) (sb : Switchboard R)
    → places ids parts ≡ some ts
    → each (bridge_to ids k f) parts sb ≡ loaded (add_all k f ts sb)
unfolding each bridge_to known_tranceiver
each-bridge_to ids k f [] ts sb e = ap (λ ts. loaded (add_all k f ts sb)) (some-injective [] ts e)
each-bridge_to ids k f (part ∷ parts) ts sb e = elim (Option-cases (find_tranceiver part ids)) [
  | inl none_there ↦ absurd (ground arith)
  | inr (t, there) ↦ elim (Option-cases (places ids parts)) [
    | inl none_there ↦ absurd (ground arith)
    | inr (us, rest) ↦
        let h : bridge_to ids k f part sb ≡ loaded (add_bridge_mapping k t f sb) =
          rw (there, bridge_to, known_tranceiver) refl in
        let all : t ∷ us ≡ ts = ground arith in
        let ih = each-bridge_to ids k f parts us (add_bridge_mapping k t f sb) rest in
        subst (λ ts. each (bridge_to ids k f) (part ∷ parts) sb ≡ loaded (add_all k f ts sb)) all
          (rw h ih)
  ]
]

add_all-alone :
    {R : Type 0} (k : ℕ) (f : Option FilterT) (ts us : List ℕ) (sb : Switchboard R)
    → bridges_of k sb.bridge_map ≡ alone f us
    → bridges_of k (add_all k f ts sb).bridge_map ≡ alone f (us ++ others k ts)
add_all-alone k f [] us sb e = rw (append-nil us) e
add_all-alone k f (t ∷ ts) us sb e =
    let b = bridges_of-add_bridge_mapping k t k f sb in
    elim (Bool-cases (k == t)) [
      | inl same ↦
          rw same
            (add_all-alone k f ts us (add_bridge_mapping k t f sb) (b ∙ rw (==_refl k, same) e))
      | inr differ ↦
          rw (differ, sym (append_assoc us (t ∷ []) (others k ts)))
            (add_all-alone k f ts (us ++ t ∷ []) (add_bridge_mapping k t f sb)
              (b ∙ rw (==_refl k, differ, e) (bridged-alone f t us)))
    ]

add_all-other :
    {R : Type 0} (k j : ℕ) (f : Option FilterT) (ts : List ℕ) (sb : Switchboard R)
    → (k == j) ≡ false
    → bridges_of j (add_all k f ts sb).bridge_map ≡ bridges_of j sb.bridge_map
add_all-other k j f [] sb n = refl
add_all-other k j f (t ∷ ts) sb n =
    add_all-other k j f ts (add_bridge_mapping k t f sb) n
    ∙ bridges_of-add_bridge_mapping k t j f sb
    ∙ rw n refl

add_all-routing_map :
    {R : Type 0} (k : ℕ) (f : Option FilterT) (ts : List ℕ) (sb : Switchboard R)
    → (add_all k f ts sb).routing_map ≡ sb.routing_map
unfolding add_bridge_mapping
add_all-routing_map k f [] sb = refl
add_all-routing_map k f (t ∷ ts) sb =
    add_all-routing_map k f ts (add_bridge_mapping k t f sb)
    ∙ if_cases (λ (s : Switchboard _). s.routing_map ≡ sb.routing_map) (k == t) refl refl

-- What `put_message` comes to if these are the targets.
abbrev pub handed_to : (o : Outside) → Message → List ℕ → o.World → Progress o.World
handed_to o m us w = returned (if leb 1 (length us) then te_ok else te_filter) (handed o m us w)

targets-alone :
    (o : Outside) (m : Message) (fuel k : ℕ) (us : List ℕ) (sb : Switchboard o.Regex)
    → sb.routing_map ≡ []
    → bridges_of k sb.bridge_map ≡ alone none us
    → AllSound o true m fuel (bridges_of k sb.bridge_map) × (targets o true m fuel k sb ≡ us)
unfolding passes
targets-alone o m fuel k [] sb r b = rw (b, r) (tt, refl)
targets-alone o m fuel k (u ∷ us) sb r b =
    rw (b, r) (((omega arith, refl), tt), append-nil ((u ∷ us) ++ []) ∙ append-nil (u ∷ us))

handed_alone :
    (o : Outside) (m : Message) (fuel k : ℕ) (us : List ℕ) (sb : Switchboard o.Regex) (w : o.World)
    → sb.routing_map ≡ []
    → bridges_of k sb.bridge_map ≡ alone none us
    → put_message o true m fuel k sb w ≡ handed_to o m us w
handed_alone o m fuel k us sb w r b =
    let (sound, to_all) = targets-alone o m fuel k us sb r b in
    subst (λ us. put_message o true m fuel k sb w ≡ handed_to o m us w) to_all
      (put_message_continues o m fuel k sb w sound)

-- A bridge of the configuration file that has no filter, and is the first mapping of the switchboard: it is
-- loaded if the tranceiver that it is from, and those that it is to, are there, and every message of that
-- tranceiver is then handed to exactly those it is to, in their order and whatever they report, save the
-- tranceiver itself; a message of any other is handed to none. A message that nobody is handed is reported
-- as filtered.
pub load_bridge-put_message :
    (c : Libconfig) (o : Outside) (m : Message) (fuel : ℕ) (filters : List (List ℕ × FilterT))
    (ids : List (List ℕ)) (node : c.Setting) (from tos : List ℕ) (k : ℕ) (ts : List ℕ) (w : o.World)
    → text_at c node (codes "from") ≡ loaded from
    → text_at c node (codes "to") ≡ loaded tos
    → c.lookup node (codes "filter") ≡ none
    → find_tranceiver from ids ≡ some k
    → places ids (split tos (codes " ")) ≡ some ts
    → (sb : Switchboard o.Regex) × (load_bridge c filters ids node no_board ≡ loaded sb)
      × ((j : ℕ)
          → put_message o true m fuel j sb w ≡ handed_to o m (if k == j then others k ts else []) w)
unfolding load_bridge
load_bridge-put_message c o m fuel filters ids node from tos k ts w ef et no_filter there all =
    let sb : Switchboard o.Regex = add_all k none ts no_board in
    let filter : bridge_filter c filters node ≡ loaded none = rw (no_filter, bridge_filter) refl in
    let origin : known_tranceiver ids from ≡ loaded k = rw (there, known_tranceiver) refl in
    (
      sb,
      rw (ef, et, filter, origin)
          (each-bridge_to ids k none (split tos (codes " ")) ts no_board all),
      λ j.
          if_split (λ us. put_message o true m fuel j sb w ≡ handed_to o m us w) (k == j)
            (λ e.
              subst (λ j. put_message o true m fuel j sb w ≡ handed_to o m (others k ts) w)
                ((==_iff k j).0 e)
                (handed_alone o m fuel k (others k ts) sb w (add_all-routing_map k none ts no_board)
                  (add_all-alone k none ts [] no_board (unfold bridges_of in refl))))
            (λ n.
              handed_alone o m fuel j [] sb w (add_all-routing_map k none ts no_board)
                (add_all-other k j none ts no_board n ∙ unfold bridges_of in refl)),
    )
