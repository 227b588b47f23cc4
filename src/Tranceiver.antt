-- ===== src/Tranceiver.antt =====
-- tranceiver.h and tranceiver.cpp: what every tranceiver does with a message that came in or is to go
-- out. A tranceiver is known by its number; the counters are in the memory of the statistics, and the
-- work list is shared by all tranceivers.
pub mod SetFields
pub mod Queue
pub mod Packets
pub mod Types
use ham_router.Common.{
  ℕ, List, [], ◌∷◌, ◌++◌, length, Bool, true, false, not, if◌then◌else◌, Option, none, some, codes,
}
use ham_router.Common.Assoc.{find, insert}
use ham_router.Crc.Ccitt32.{calc_crc32}
use ham_router.Transmit.{TransmitError, te_ok, te_ratelimiting}
use ham_router.Message.{
  Message, Meta, DbRecordData, db_record_gen_string, copy_message, set_meta, get_content,
}
use ham_router.Stats.{stats_add_counter, stats_inc_counter}
use ham_router.Gps.{Degrees}
use ham_router.Ax25.{Ax25}
use ham_router.Dissect.{Dissection, nothing, fields, throws, outside, dissect_packet}
use ham_router.Seen.{Doubles, Seen, Cells, check}

-- What is around a tranceiver: the clock, the position of the station if it is known, the distance of
-- two positions (`calc_gps_distance`), and the formats `%08x` and `%.2f` of the C library.
pub record Site : Type 0 where
  pub doubles : Doubles
  pub degrees : Degrees
  pub now : ℕ
  pub position : Option (ℕ × ℕ)
  pub distance : ℕ → ℕ → ℕ → ℕ → ℕ
  pub hex8 : ℕ → List ℕ
  pub fixed2 : ℕ → List ℕ

pub record Tranceiver : Type 0 where
  pub if_in_octets : ℕ
  pub if_hc_in_octets : ℕ
  pub if_in_ucast_pkts : ℕ
  pub if_out_octets : ℕ
  pub if_hc_out_octets : ℕ
  pub if_out_ucast_pkts : ℕ
  pub s : Option Seen
  pub incoming : List Message

-- What comes of a message: a result, an exception, or a read behind the end of the packet.
pub data Answer : Type 0 where
  returned : TransmitError → Answer
  threw read_outside : Answer

-- The state that `queue_incoming_message` leaves.
pub record Queued : Type 0 where
  pub answer : Answer
  pub tranceiver : Tranceiver
  pub cells : Cells
  pub work_list : List ℕ

abbrev pub count_packet : ℕ → ℕ → ℕ → ℕ → Cells → Cells
count_packet octets hc_octets packets size cells =
    stats_inc_counter (some packets)
      (stats_add_counter (some hc_octets) size (stats_add_counter (some octets) size cells))

-- Whether the packet may pass, with its hash: each tranceiver may have a filter of its own.
unfoldable pub ask_seen : Site → List ℕ → Option Seen → Cells → (Bool × ℕ) × Option Seen × Cells
ask_seen site p none cells = ((true, calc_crc32 p), none, cells)
ask_seen site p (some s) cells =
    let (answer, s', cells') = check site.doubles site.now p s cells in (answer, some s', cells')

abbrev pub insert_distance :
    Site → Option DbRecordData → Option DbRecordData → Option (ℕ × ℕ) → Meta → Meta
insert_distance site (some lat) (some lng) (some here) m =
    insert (codes "distance")
      (db_record_gen_string (site.fixed2 (site.distance lat.d_value lng.d_value here.0 here.1))) m
insert_distance site (some lat) (some lng) none m = m
insert_distance site (some lat) none here m = m
insert_distance site none lng here m = m

-- The fields that are taken from the packet, with its distance.
unfoldable pub located : Site → Meta → Meta
located site m =
    insert_distance site (find (codes "latitude") m) (find (codes "longitude") m) site.position m

-- The message with the hash of its content.
unfoldable pub marked : Site → Message → ℕ → Message
marked site m hash =
    set_meta (copy_message m) (insert (codes "pkt-crc") (db_record_gen_string (site.hex8 hash)) [])

abbrev pub push : ℕ → Message → Tranceiver → Cells → List ℕ → Queued
push self m t cells work = record {
  answer = returned te_ok;
  tranceiver = record t { incoming = t.incoming ++ m ∷ [] };
  cells = cells;
  work_list = work ++ self ∷ [];
}

-- The message goes to the queue, and the tranceiver to the work list.
unfoldable pub enqueue : Site → ℕ → Dissection → Message → Tranceiver → Cells → List ℕ → Queued
unfolding located
enqueue site self nothing m t cells work = push self m t cells work
enqueue site self (fields meta p) m t cells work =
    push self (set_meta m (located site meta)) t cells work
enqueue site self throws m t cells work = record {
  answer = threw;
  tranceiver = t;
  cells = cells;
  work_list = work;
}
enqueue site self outside m t cells work = record {
  answer = read_outside;
  tranceiver = t;
  cells = cells;
  work_list = work;
}

unfoldable pub queue_incoming_message : Site → ℕ → Message → Tranceiver → Cells → List ℕ → Queued
unfolding ask_seen marked enqueue
queue_incoming_message site self m t cells work =
    let content = get_content m in
    let counted =
      count_packet t.if_in_octets t.if_hc_in_octets t.if_in_ucast_pkts (length content) cells in
    let ((ok, hash), s, cells') = ask_seen site content t.s counted in
    let t' = record t { s = s } in
    if not ok
    then record {
      answer = returned te_ratelimiting;
      tranceiver = t';
      cells = cells';
      work_list = work;
    }
    else enqueue site self (dissect_packet site.degrees content) (marked site m hash) t' cells' work

unfoldable pub peek : Tranceiver → Bool
peek t = elim t.incoming [ [] ↦ false | m ∷ more ↦ true ]

-- `get_message`, which returns nothing when it waited in vain.
unfoldable pub get_message : Tranceiver → Option Message × Tranceiver
get_message t = elim t.incoming [
  | [] ↦ (none, t)
  | m ∷ more ↦ (some m, record t { incoming = more })
]

-- `put_message`, over the `put_message_low` of the kind of tranceiver and the state that it works on.
unfoldable pub put_message :
    {W : Type 0}
    → (Message → W → TransmitError × W)
    → Message
    → Tranceiver
    → Cells
    → W
    → TransmitError × Cells × W
put_message put_message_low m t cells w =
    let size = length (get_content m) in
    let (rc, w') = put_message_low m w in
    (rc, count_packet t.if_out_octets t.if_hc_out_octets t.if_out_ucast_pkts size cells, w')
