-- ===== src/Tranceiver/Queue.antt =====
-- What queue_incoming_message of tranceiver.cpp does with a message, and what the switchboard will see
-- of a packet that came in.
use ham_router.Common.{
  ℕ, List, [], ◌∷◌, ◌++◌, length, Bool, true, false, not, if◌then◌else◌, ◌≡◌, ◌≢◌, ◌⊎◌, inl, inr,
  refl,
}
use ham_router.Transmit.{te_ok}
use ham_router.Message.{Message, set_meta, get_content, copy_message}
use ham_router.Dissect.{Dissection, nothing, fields, throws, outside, dissect_packet}
use ham_router.Seen.{Cells}
use ham_router.Tranceiver.{
  Site, Tranceiver, returned, Queued, count_packet, ask_seen, marked, located, enqueue,
  queue_incoming_message,
}

-- A queue with the message at its end, and a work list with the tranceiver at its end.
abbrev pub IsQueued : ℕ → Message → Tranceiver → List ℕ → Queued → Type 0
IsQueued self m t work r =
    (q : Message) × (r.answer ≡ returned te_ok)
    × (r.tranceiver.incoming ≡ t.incoming ++ q ∷ [])
    × (r.work_list ≡ work ++ self ∷ [])
    × (get_content q ≡ get_content m)
    × (q.source ≡ m.source)
    × (q.msg_id ≡ m.msg_id)

abbrev pub IsRefused : Tranceiver → List ℕ → Queued → Type 0
IsRefused t work r =
    (r.answer ≢ returned te_ok) × (r.tranceiver.incoming ≡ t.incoming) × (r.work_list ≡ work)

abbrev pub Outcome : ℕ → Message → Tranceiver → List ℕ → Queued → Type 0
Outcome self m t work r = IsQueued self m t work r ⊎ IsRefused t work r

enqueue_queues :
    (site : Site) (self : ℕ) (r : Dissection) (m : Message) (t : Tranceiver) (cells : Cells)
    (work : List ℕ)
    → Outcome self m t work (enqueue site self r m t cells work)
unfolding enqueue set_meta
enqueue_queues site self nothing m t cells work = inl (m, refl, refl, refl, refl, refl, refl)
enqueue_queues site self (fields f p) m t cells work =
    inl (set_meta m (located site f), refl, refl, refl, refl, refl, refl)
enqueue_queues site self throws m t cells work = inr (cc, refl, refl)
enqueue_queues site self outside m t cells work = inr (cc, refl, refl)

refused_or :
    (self : ℕ) (m : Message) (t : Tranceiver) (work : List ℕ) (ok : Bool) (x y : Queued)
    → IsRefused t work x
    → Outcome self m t work y
    → Outcome self m t work (if not ok then x else y)
refused_or self m t work true x y h k = k
refused_or self m t work false x y h k = inr h

-- A message is queued behind the others with its content, its origin and its number, and the tranceiver
-- gets one more entry at the end of the work list, exactly if TE_ok is returned; where it is refused
-- or its dissection fails, the queue and the work list stay as they were.
pub queue_incoming_message_queues :
    (site : Site) (self : ℕ) (m : Message) (t : Tranceiver) (cells : Cells) (work : List ℕ)
    → Outcome self m t work (queue_incoming_message site self m t cells work)
unfolding queue_incoming_message marked set_meta copy_message
queue_incoming_message_queues site self m t cells work =
    let content = get_content m in
    let counted =
      count_packet t.if_in_octets t.if_hc_in_octets t.if_in_ucast_pkts (length content) cells in
    let asked = ask_seen site content t.s counted in
    refused_or self m t work asked.0.0 _ _ (cc, refl, refl)
      (enqueue_queues site self (dissect_packet site.degrees content) (marked site m asked.0.1)
        (record t { s = asked.1 }) asked.2 work)
