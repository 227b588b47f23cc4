-- ===== src/Tranceiver/Types.antt =====
-- The types of the fields of a message that queue_incoming_message queues.
use ham_router.Common.{
  ℕ, List, [], ◌∷◌, length, not, if_cases, Option, none, some, All, All-append, refl, codes,
}
use ham_router.Common.Assoc.{find}
use ham_router.Message.{Message, Meta, DbRecordData, set_meta, copy_message, get_content}
use ham_router.Message.Types.{AreTyped, insert-AreTyped, set_entries-AreTyped}
use ham_router.Dissect.{Dissection, nothing, fields, throws, outside, dissect_packet}
use ham_router.Dissect.Types.{IsTyped, dissect_packet-IsTyped}
use ham_router.Seen.{Cells}
use ham_router.Tranceiver.{
  Site, Tranceiver, Queued, count_packet, ask_seen, insert_distance, marked, located, enqueue,
  queue_incoming_message,
}

abbrev pub AllTyped : List Message → Type 0
AllTyped = All (λ m. AreTyped m.meta)

located-AreTyped : (site : Site) (m : Meta) → AreTyped m → AreTyped (located site m)
unfolding located
located-AreTyped site m h =
    one (find (codes "latitude") m) (find (codes "longitude") m) site.position
  where
    one :
        (lat lng : Option DbRecordData) (here : Option (ℕ × ℕ))
        → AreTyped (insert_distance site lat lng here m)
    one (some lat) (some lng) (some here) = insert-AreTyped (codes "distance") _ m refl h
    one (some lat) (some lng) none = h
    one (some lat) none here = h
    one none lng here = h

marked-AreTyped :
    (site : Site) (m : Message) (hash : ℕ) → AreTyped m.meta → AreTyped (marked site m hash).meta
unfolding marked set_meta copy_message
marked-AreTyped site m hash h =
    set_entries-AreTyped _ _ (set_entries-AreTyped [] m.meta tt h)
      (insert-AreTyped (codes "pkt-crc") _ [] refl tt)

enqueue-AllTyped :
    (site : Site) (self : ℕ) (r : Dissection) (m : Message) (t : Tranceiver) (cells : Cells)
    (work : List ℕ)
    → IsTyped r
    → AreTyped m.meta
    → AllTyped t.incoming
    → AllTyped (enqueue site self r m t cells work).tranceiver.incoming
unfolding enqueue set_meta
enqueue-AllTyped site self nothing m t cells work r h q =
    All-append (λ m. AreTyped m.meta) t.incoming (m ∷ []) q (h, tt)
enqueue-AllTyped site self (fields f p) m t cells work r h q =
    All-append (λ m. AreTyped m.meta) t.incoming _ q
      (set_entries-AreTyped m.meta (located site f) h (located-AreTyped site f r), tt)
enqueue-AllTyped site self throws m t cells work r h q = q
enqueue-AllTyped site self outside m t cells work r h q = q

-- The queue of a tranceiver keeps its messages typed: where the fields that a message comes with are
-- numbers for the positions and the time on air and texts for everything else, so are all those that it
-- has when it is queued, with what is taken from the packet, the distance and the hash.
pub queue_incoming_message-AllTyped :
    (site : Site) (self : ℕ) (m : Message) (t : Tranceiver) (cells : Cells) (work : List ℕ)
    → AreTyped m.meta
    → AllTyped t.incoming
    → AllTyped (queue_incoming_message site self m t cells work).tranceiver.incoming
unfolding queue_incoming_message
queue_incoming_message-AllTyped site self m t cells work h q =
    let content = get_content m in
    let counted =
      count_packet t.if_in_octets t.if_hc_in_octets t.if_in_ucast_pkts (length content) cells in
    let asked = ask_seen site content t.s counted in
    if_cases (λ (r : Queued). AllTyped r.tranceiver.incoming) (not asked.0.0) q
      (enqueue-AllTyped site self (dissect_packet site.degrees content) (marked site m asked.0.1)
        (record t { s = asked.1 }) asked.2 work (dissect_packet-IsTyped site.degrees content)
        (marked-AreTyped site m asked.0.1 h) q)
