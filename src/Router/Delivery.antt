-- ===== src/Router/Delivery.antt =====
-- A message from its arrival to its targets: tranceiver.cpp, main.cpp and switchboard.cpp together.
use ham_router.Common.{
  ℕ, List, [], ◌∷◌, ◌++◌, length, true, leb, if◌then◌else◌, none, ◌≡◌, refl, ap, ◌∙◌, ==_refl, inl,
  inr, some, Option,
}
use ham_router.Transmit.{te_ok, te_filter}
use ham_router.Stats.{store}
use ham_router.Message.{Message, get_content}
use ham_router.Seen.{Doubles}
use ham_router.Tranceiver.{
  Site, Tranceiver, Queued, returned, queue_incoming_message, get_message, peek,
}
use ham_router.Tranceiver.Queue.{queue_incoming_message_queues}
use ham_router.Switchboard.{Outside, Switchboard, returned, put_message, bridges_of}
use ham_router.Switchboard.Targets.{AllSound, targets, handed, put_message_continues}
use ham_router.Router.{Router, Round, put, needs, ask_global, forward, process_round}

-- The router after a tranceiver queued what came in.
abbrev pub arrived : {W : Type 0} → ℕ → Queued → Router W → Router W
arrived self q r = record r {
  tranceivers = store self q.tranceiver r.tranceivers;
  work_list = q.work_list;
  cells = q.cells;
}

stored :
    {A : Type 0} (i : ℕ) (t : Tranceiver) (f : ℕ → Tranceiver) (field : Tranceiver → A)
    → field (store i t f i) ≡ field t
stored i t f field = rw (==_refl i) refl

get_message_last :
    (t : Tranceiver) (m : Message) → t.incoming ≡ m ∷ [] → (get_message t).1.incoming ≡ []
unfolding get_message
get_message_last t m e = rw e refl

needs_source :
    {W : Type 0} (r : Round W) (s : Option ℕ) (source : ℕ) → s ≡ some source → needs s r ≡ r
needs_source r s source e = rw e refl

module _ (o : Outside) (d : Doubles) (now fuel : ℕ) (sb : Switchboard o.Regex) where
  process_round_forwards :
      (r : Router o.World) (i : ℕ) (more : List ℕ) (m : Message) (rest : List Message)
      → r.work_list ≡ i ∷ more
      → (r.tranceivers i).incoming ≡ m ∷ rest
      → r.s ≡ none
      → (source : ℕ) → m.source ≡ some source
      → process_round o d now fuel sb r
        ≡ put (put_message o true m fuel i sb r.world) (record r {
          tranceivers = store i (get_message (r.tranceivers i)).1 r.tranceivers;
          work_list = more;
        })
  unfolding process_round forward ask_global peek get_message
  process_round_forwards r i more m rest w e s source from =
      rw (w, e, s) (needs_source _ m.source source from)

  -- A message with a source that is queued at a router without work and without a global filter,
  -- with the fields that it gets there: where the bridges of the tranceiver have targets, and
  -- filters that give a result on the message as it was queued, the next round of the main thread
  -- takes it from the queue and hands it, with its content and its origin, to every one of its
  -- targets; then there is no work again.
  pub queued_and_handed :
      (site : Site) (self source : ℕ) (m : Message) (r : Router o.World)
      → m.source ≡ some source
      → r.work_list ≡ []
      → (r.tranceivers self).incoming ≡ []
      → r.s ≡ none
      → (queue_incoming_message site self m (r.tranceivers self) r.cells r.work_list).answer
        ≡ returned te_ok
      → ((m' : Message)
          → (queue_incoming_message site self m
              (r.tranceivers self)
              r.cells
              r.work_list).tranceiver.incoming
            ≡ m' ∷ []
          → AllSound o true m' fuel (bridges_of self sb.bridge_map))
      → (m' : Message) × (r' : Router o.World) × ((queue_incoming_message site self m
            (r.tranceivers self)
            r.cells
            r.work_list).tranceiver.incoming
          ≡ m' ∷ [])
        × (get_content m' ≡ get_content m)
        × (m'.source ≡ m.source)
        × (process_round o d now fuel sb (
              arrived self
                (queue_incoming_message site self m (r.tranceivers self) r.cells r.work_list)
                r)
            ≡ put
                (returned
                  (if leb 1 (length (targets o true m' fuel self sb)) then te_ok else te_filter)
                  (handed o m' (targets o true m' fuel self sb) r.world))
                r')
        × (r'.work_list ≡ [])
        × ((r'.tranceivers self).incoming ≡ [])
  queued_and_handed site self source m r from w e s accepted sound =
      let q = queue_incoming_message site self m (r.tranceivers self) r.cells r.work_list in
      elim (queue_incoming_message_queues site self m (r.tranceivers self) r.cells r.work_list) [
        | inl (m', _, grown, listed, content, origin, _) ↦
            let a : Router o.World = arrived self q r in
            let queued : q.tranceiver.incoming ≡ m' ∷ [] = grown ∙ ap (λ l. l ++ m' ∷ []) e in
            let here : (a.tranceivers self).incoming ≡ m' ∷ [] =
              stored self q.tranceiver r.tranceivers (λ t. t.incoming) ∙ queued in
            let after : Router o.World = record a {
              tranceivers = store self (get_message (a.tranceivers self)).1 a.tranceivers;
              work_list = [];
            } in
            let round =
              process_round_forwards a self [] m' [] (listed ∙ ap (λ l. l ++ self ∷ []) w) here s
                source (origin ∙ from) in
            (
              m',
              after,
              queued,
              content,
              origin,
              round
                  ∙ ap (λ p. put p after)
                      (put_message_continues o m' fuel self sb r.world (sound m' queued)),
              refl,
              stored self (get_message (a.tranceivers self)).1 a.tranceivers (λ t. t.incoming)
                  ∙ get_message_last (a.tranceivers self) m' here,
            )
        | inr (refused, _, _) ↦ absurd (refused accepted)
      ]
