-- ===== src/Tranceiver/Packets.antt =====
-- What the switchboard will see of an AX.25 packet that came in: dissect-packet.cpp under
-- queue_incoming_message of tranceiver.cpp.
use ham_router.Common.{
  ℕ, ◌%◌, List, [], ◌∷◌, ◌++◌, length, true, Option, none, some, codes, ◌≡◌, refl, ap, ◌∙◌,
}
use ham_router.Common.Assoc.{find, insert}
use ham_router.Transmit.{te_ok}
use ham_router.Message.{
  Message, Meta, db_record_gen_string, set_meta, set_entries, copy_message, get_content,
}
use ham_router.Text.{dump_replace}
use ham_router.Ax25.{Ax25, generate_packet, assign_address}
use ham_router.Ax25.Address.{IsWritable}
use ham_router.Dissect.{
  fields, insert_text, insert_protocol, ax25_fields, protocol_of, dissect_packet,
}
use ham_router.Dissect.Fields.{dissect_packet-ax25_fields, dissected_packet}
use ham_router.Switchboard.{from_key, to_key}
use ham_router.Seen.{Cells}
use ham_router.Tranceiver.{
  Site, Tranceiver, returned, count_packet, ask_seen, marked, located, enqueue,
  queue_incoming_message,
}
use ham_router.Tranceiver.SetFields.{find-set_entries}

abbrev pub counted : Message → Tranceiver → Cells → Cells
counted m t =
    count_packet t.if_in_octets t.if_hc_in_octets t.if_in_ucast_pkts (length (get_content m))

-- The filter of the tranceiver lets the message pass.
abbrev pub IsLetIn : Site → Message → Tranceiver → Cells → Type 0
IsLetIn site m t cells = (ask_seen site (get_content m) t.s (counted m t cells)).0.0 ≡ true

-- The fields of the packet `p` reach the message whatever it had before.
found_after :
    (site : Site) (r : Option (List ℕ)) (p : Ax25) (old : Meta)
    → let f = insert_protocol r (
        insert_text (codes "payload") (dump_replace p.payload.p) (
          insert_text (codes "to") p.to.address (
            insert_text
              (codes "from")
              p.from.address
              (insert_text (codes "protocol") (codes "AX.25") [])))) in
      (find from_key (set_entries old (located site f))
        ≡ some (db_record_gen_string p.from.address))
      × (find to_key (set_entries old (located site f)) ≡ some (db_record_gen_string p.to.address))
unfolding located find insert
found_after site none p old = (find-set_entries from_key old _, find-set_entries to_key old _)
found_after site (some text) p old =
    (find-set_entries from_key old _, find-set_entries to_key old _)

found_queued :
    (site : Site) (p : Ax25) (old : Meta)
    → (find from_key (set_entries old (located site (ax25_fields p)))
        ≡ some (db_record_gen_string p.from.address))
      × (find to_key (set_entries old (located site (ax25_fields p)))
          ≡ some (db_record_gen_string p.to.address))
unfolding ax25_fields
found_queued site p old = found_after site (protocol_of p.pid) p old

-- A message whose content is generated from a packet with an unnumbered control byte, a PID and
-- addresses that can be written (at most six characters of seven bits, no NUL and no space, and an
-- SSID of the sixteen characters from 0 on), of which that of the origin has the end mark: where the
-- filter lets it in it is queued with its content, and the fields that the routes of the switchboard
-- test are the callsigns of the packet.
pub queue_incoming_message-generate_packet :
    (site : Site) (self : ℕ) (p : Ax25) (pid : ℕ) (m : Message) (t : Tranceiver) (cells : Cells)
    (work : List ℕ)
    → IsWritable p.to
    → IsWritable p.from
    → p.from.end_mark ≡ true
    → p.control % 4 ≡ 3
    → p.pid ≡ some pid
    → generate_packet p ≡ some (get_content m)
    → IsLetIn site m t cells
    → (q : Message) × (let r = queue_incoming_message site self m t cells work in
        (r.answer ≡ returned te_ok)
        × (r.tranceiver.incoming ≡ t.incoming ++ q ∷ [])
        × (r.work_list ≡ work ++ self ∷ []))
      × (get_content q ≡ get_content m)
      × (find from_key q.meta ≡ some (db_record_gen_string p.from.address))
      × (find to_key q.meta ≡ some (db_record_gen_string p.to.address))
unfolding queue_incoming_message enqueue marked set_meta copy_message assign_address
queue_incoming_message-generate_packet site self p pid m t cells work wt wf e u some_pid g let_in =
    let (bytes, written, read, dissected) =
      dissect_packet-ax25_fields site.degrees p pid wt wf e u some_pid in
    let same : get_content m ≡ bytes = cc in
    let fields_of : dissect_packet site.degrees (get_content m)
        ≡ fields (ax25_fields (dissected_packet p pid)) (some (dissected_packet p pid)) =
      ap (dissect_packet site.degrees) same ∙ dissected in
    let asked = ask_seen site (get_content m) t.s (counted m t cells) in
    let meta = located site (ax25_fields (dissected_packet p pid)) in
    let (from, to) = found_queued site (dissected_packet p pid) (marked site m asked.0.1).meta in
    (
      set_meta (marked site m asked.0.1) meta,
      rw (let_in, fields_of) (refl, refl, refl),
      refl,
      from,
      to,
    )
