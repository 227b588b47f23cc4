-- ===== src/Runs/Packets.antt =====
-- The dissection of packets, the filter for repetitions and the tranceivers at concrete inputs.
use ham_router.Common.{
  false, if◌then◌else◌, none, ℕ, ◌+◌, ◌-◌, ◌*◌, ◌/◌, List, [], ◌∷◌, ◌++◌, length, map, ltb, ◌==◌,
  if◌then◌else◌, some, none, codes, ◌≡◌, refl, arith,
}
use ham_router.Common.Assoc.{find}
use ham_router.Crc.Ccitt32.{calc_crc32}
use ham_router.Text.{dump_replace}
use ham_router.Transmit.{te_ok}
use ham_router.Message.{Message, Meta, message, db_record_gen_string, get_content}
use ham_router.Gps.{Degrees}
use ham_router.Ax25.{
  Ax25, packet, ax25, generate_packet, generate_address, put_optional, put_callsign,
}
use ham_router.Dissect.{fields, dissect_packet}
use ham_router.Dissect.Fields.{dissect_packet-generate_packet}
use ham_router.Seen.{
  Doubles, Seen, seen, check, check_rate, erased, lower_bound, clean, limiter_of, has_hash,
  rate_limiter,
}
use ham_router.Seen.Limiters.{limiter_for, check-limiter_for}
use ham_router.Seen.Cleaning.{NotLater, clean-NotLater}
use ham_router.Switchboard.{from_key, to_key}
use ham_router.Tranceiver.{Site, Queued, Tranceiver, returned, ask_seen, queue_incoming_message}
use ham_router.Tranceiver.Queue.{Outcome, queue_incoming_message_queues}
use ham_router.Tranceiver.Packets.{queue_incoming_message-generate_packet}
use ham_router.Runs.Routing.{beacon}
use ham_router.Net.Write.{write_all, write_loop}
use ham_router.Kiss.{byte, eof, fend, put_message_low, send_mkiss, frame, escape_put}
use ham_router.Kiss.Thread.{receive_round, receive_round-put_message_low}
use ham_router.Runs.Lines.{slow}
use ham_router.Runs.Sorting.{insertion}

-- Whole numbers for doubles, and positions of which nothing is read.
abbrev pub whole : Doubles
whole = record {
  add = λ a b. a + b;
  sub = λ a b. a - b;
  mul = λ a b. a * b;
  div = λ a b. a / b;
  lt = ltb;
  of_int = λ a. a;
  to_time = λ a. a;
}

abbrev level : Degrees
level = record { atof = λ s. 0; add_sixtieths = λ a b. a; negate = λ a. a }

abbrev pub site : Site
site = record {
  doubles = whole;
  degrees = level;
  now = 10;
  position = none;
  distance = λ a b c d. 0;
  hex8 = λ h. codes "00000000";
  fixed2 = λ x. codes "0.00";
}

-- A tranceiver without a filter, whose counters are the first six cells.
abbrev pub idle : Tranceiver
idle = record {
  if_in_octets = 0;
  if_hc_in_octets = 48;
  if_in_ucast_pkts = 96;
  if_out_octets = 144;
  if_hc_out_octets = 192;
  if_out_ucast_pkts = 240;
  s = none;
  incoming = [];
}

dissect_packet-generate_packet_example :
    (bytes : List ℕ) × (q : Ax25) × (m : Meta) × (generate_packet beacon ≡ some bytes)
    × (ax25 bytes ≡ packet q)
    × (dissect_packet level bytes ≡ fields m (some q))
    × (find (codes "protocol") m ≡ some (db_record_gen_string (codes "AX.25")))
    × (find (codes "from") m ≡ some (db_record_gen_string (codes "ME")))
    × (find (codes "to") m ≡ some (db_record_gen_string (codes "ME")))
    × (find (codes "payload") m ≡ some (db_record_gen_string (dump_replace (1 ∷ 2 ∷ []))))
dissect_packet-generate_packet_example =
    dissect_packet-generate_packet level beacon 0xf0 (omega arith) (omega arith) refl refl refl

abbrev report : List ℕ
report = b'<' ∷ 0xff ∷ 1 ∷ codes "ME>YOU:!5201.23N/00412.34E"

check-limiter_for_example :
    let (answer, s', cells') = check whole 10 (1 ∷ 2 ∷ []) (seen 2 1 9) (λ i. 0) in
    let (rc, l) = check_rate whole 10 (limiter_for (seen 2 1 9) (calc_crc32 (1 ∷ 2 ∷ []))) in
    (answer ≡ (rc, calc_crc32 (1 ∷ 2 ∷ [])))
    × (limiter_for s' 7 ≡ (if calc_crc32 (1 ∷ 2 ∷ []) == 7 then l else limiter_for (seen 2 1 9) 7))
check-limiter_for_example = check-limiter_for whole 10 (1 ∷ 2 ∷ []) (seen 2 1 9) (λ i. 0) 7

abbrev crowded : Seen
crowded = record (seen 2 1 2) {
  history =
      (1, record (rate_limiter 2 1) { last_ts = 5 })
      ∷ (2, record (rate_limiter 2 1) { last_ts = 9 })
      ∷ (3, record (rate_limiter 2 1) { last_ts = 7 })
      ∷ [];
}

clean-NotLater_example :
    (length (erased insertion whole crowded) ≡ lower_bound crowded)
    × ((h : ℕ)
        → limiter_of h (clean insertion whole false crowded).history ≡ (
            if has_hash h (erased insertion whole crowded)
            then none
            else limiter_of h crowded.history))
    × NotLater whole (erased insertion whole crowded) (clean insertion whole false crowded).history
clean-NotLater_example = clean-NotLater insertion whole false crowded refl

abbrev letter : Message
letter = message 0 (some 3) 9 (1 ∷ 2 ∷ [])

queue_incoming_message_queues_example :
    Outcome 3 letter idle (8 ∷ []) (queue_incoming_message site 3 letter idle (λ i. 0) (8 ∷ []))
queue_incoming_message_queues_example =
    queue_incoming_message_queues site 3 letter idle (λ i. 0) (8 ∷ [])

abbrev heard : Message
heard =
    message 0 (some 3) 9
      (generate_address beacon.to ++ (generate_address beacon.from ++ (3 ∷ 0xf0 ∷ 1 ∷ 2 ∷ [])))

queue_incoming_message-generate_packet_example :
    (q : Message) × (let r = queue_incoming_message site 3 heard idle (λ i. 0) [] in
      (r.answer ≡ returned te_ok)
      × (r.tranceiver.incoming ≡ [] ++ q ∷ [])
      × (r.work_list ≡ [] ++ 3 ∷ []))
    × (get_content q ≡ get_content heard)
    × (find from_key q.meta ≡ some (db_record_gen_string (codes "ME")))
    × (find to_key q.meta ≡ some (db_record_gen_string (codes "ME")))
unfolding generate_packet generate_address put_optional put_callsign ask_seen
queue_incoming_message-generate_packet_example =
    queue_incoming_message-generate_packet site 3 beacon 0xf0 heard idle (λ i. 0) [] (omega arith)
      (omega arith) refl refl refl refl refl

-- One KISS tranceiver has written the frame of a packet to a line that takes a byte at a time.
receive_round-put_message_low_example :
    (out : List ℕ) × (r : Queued) × (◌≡◌ {A = List ℕ} (fend ∷ 0 ∷ 5 ∷ fend ∷ []) ([] ++ out))
    × (receive_round site 3 0 9 (map byte out ++ (eof ∷ [])) idle (λ i. 0) [] ≡ (some r, eof ∷ []))
    × Outcome 3 (message 0 (some 3) 9 (5 ∷ [])) idle [] r
unfolding put_message_low send_mkiss frame escape_put write_all write_loop
receive_round-put_message_low_example =
    receive_round-put_message_low slow [] (fend ∷ 0 ∷ 5 ∷ fend ∷ []) site 3 0 9 (5 ∷ []) (eof ∷ [])
      idle (λ i. 0) [] refl (omega arith)
