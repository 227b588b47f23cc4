-- ===== src/Runs/Outlets.antt =====
-- The tranceivers for APRS-IS, radio and databases, and the tree of SNMP, at concrete inputs.
use ham_router.Common.{
  Bool, ◌&&◌, ltb, ℕ, ◌+◌, List, [], ◌∷◌, true, false, ◌==◌, Option, some, none, ◌≡◌, refl, arith,
  codes, sym, ap,
}
use mathlib.Core.Option.{some-injective}
use ham_router.Common.Int.{pos}
use ham_router.Common.Assoc.{find}
use ham_router.Transmit.{TransmitError, te_ok}
use ham_router.Message.{Message, Meta, message, db_record_gen_string, db_record_gen_double}
use ham_router.Text
use ham_router.Text.{c_str, split}
use ham_router.Message.Json.{Printing, json_string, fields_of}
use ham_router.Message.Json.Fields.{fields_of-find}
use ham_router.Snmp.Data.{keys, Nodes, no_nodes, node, plain}
use ham_router.Snmp.Data.Successor.{find_next_oid}
use ham_router.Snmp.Data.Successor.Order.{ends, find_next_oid-next_of}
use ham_router.Seen.{seen}
use ham_router.Tranceiver.{queue_incoming_message}
use ham_router.Tranceiver.Types.{AllTyped, queue_incoming_message-AllTyped}
use ham_router.AprsSi.{Network, AprsSi, put_message_low}
use ham_router.AprsSi.Payload.{Handles, put_message_low-Handles}
use ham_router.Lora
use ham_router.Lora.{Modem}
use ham_router.Lora.Waiting.{IsSteady, put_message_low_ends}
use ham_router.Database.{Client, Document, inserted_count, answered, stored}
use ham_router.Database
use ham_router.Database.Insertion.{stored_under, put_message_low-stored_under}
use ham_router.Runs.Lines.{slow}
use ham_router.Runs.Packets.{site, idle, whole}

-- A server that answers every login with a line, and keeps what is closed.
abbrev server : Network
server = record {
  stream = slow;
  World = ℕ;
  connect_to = λ w. (some [], w + 1);
  answer = λ d. b'#' ∷ 10 ∷ [];
  after = λ d rest. d;
  close = λ d w. w;
  connected_sent = λ w w' d e. sym (some-injective [] d (ap (λ (r : Option (List ℕ) × ℕ). r.0) e));
  after_sent = λ d rest. refl;
}

abbrev station : AprsSi
station = record {
  aprs_user = codes "N0";
  aprs_pass = codes "1";
  local_callsign = codes "N0";
  cnt_frame_aprs = 0;
  cnt_frame_aprs_rate_limited = 48;
  cnt_aprs_invalid = 96;
}

abbrev report : Message
report = message 0 (some 1) 5 (b'<' ∷ 255 ∷ 1 ∷ codes "a>b:c")

put_message_low-Handles_example :
    Handles server station
      (record { fd = none; world = 0 })
      (b'<' ∷ 255 ∷ 1 ∷ codes "a>b:c")
      (put_message_low server station whole 10 report
        (record { fd = none; world = 0 })
        (some (seen 5 10 100))
        (λ i. 0))
put_message_low-Handles_example =
    put_message_low-Handles server station whole 10 report (record { fd = none; world = 0 })
      (seen 5 10 100) (λ i. 0) refl refl

abbrev measured : Meta
measured =
    (codes "rssi", db_record_gen_string (codes "-80dBm"))
    ∷ (codes "air-time", db_record_gen_double 7)
    ∷ []

abbrev heard_report : Message
heard_report = record report { meta = measured }

queue_incoming_message-AllTyped_example :
    AllTyped (queue_incoming_message site 1 heard_report idle (λ i. 0) []).tranceiver.incoming
queue_incoming_message-AllTyped_example =
    queue_incoming_message-AllTyped site 1 heard_report idle (λ i. 0) [] (refl, (refl, tt)) tt

abbrev is_ascii : List ℕ → Bool
is_ascii [] = true
is_ascii (c ∷ cs) = ltb c 128 && is_ascii cs

-- Printing by a library that takes the bytes below 128 for UTF-8.
abbrev printing : Printing
printing = record {
  get_id_short = λ n. [];
  base64_encode = λ b. [];
  tv_sec = λ t. t;
  get_id = λ t. [];
  is_utf8 = λ b. is_ascii b;
  is_finite = λ v. true;
  json_dumps = λ o. [];
}

fields_of-find_example :
    find (codes "rssi") (fields_of printing measured) ≡ some (json_string (codes "-80dBm"))
unfolding find c_str
fields_of-find_example = fields_of-find printing (codes "rssi") measured (refl, (refl, tt))

abbrev collection : Client
collection = record {
  World = List Document;
  insert_one = λ doc w. (inserted_count 1, doc ∷ w);
  reconnect = λ w. w;
}

put_message_low-stored_under_example :
    (doc : Document) × (Database.put_message_low collection (λ t. codes "a") true heard_report []
      ≡ stored te_ok (answered collection (collection.insert_one doc [])).1)
    × (doc.receive_time ≡ 0)
    × ((k : List ℕ) → find k doc.entries ≡ stored_under (λ t. codes "a") heard_report 1 k)
put_message_low-stored_under_example =
    put_message_low-stored_under collection (λ t. codes "a") heard_report 1 [] refl
      (refl, (refl, tt))

-- A radio that is on standby after 3 seconds of its clock.
abbrev radio : Modem
radio = record {
  World = ℕ;
  clock = λ w. w;
  terminate = λ w. false;
  is_standby = λ w. w == 3030000;
  usleep = λ w. w + 101000;
  stop_receive = λ w. w;
  set_data = λ p w. w;
  send = λ w. w;
  receive = λ w. w;
}

radio-IsSteady : IsSteady radio
radio-IsSteady = record {
  sleeps = λ w. omega arith;
  sleeps_end = λ w. omega arith;
  sends = λ w. omega arith;
  sends_end = λ w. omega arith;
}

put_message_low_ends_example :
    (r : TransmitError × ℕ) × (Lora.put_message_low radio 600 report 0 ≡ some r)
put_message_low_ends_example = put_message_low_ends radio radio-IsSteady 600 report 0 (omega arith)

-- A tree of one branch, whose leaves have texts of three bytes.
abbrev branch : Nodes
branch =
    node (codes "1") (pos 1) plain
      (node (codes "1.3") (pos 3) plain no_nodes
        (node (codes "1.6") (pos 6) plain no_nodes no_nodes))
      no_nodes

find_next_oid-next_of_example : find_next_oid (codes "1.3") branch ≡ some (codes "1.6")
unfolding keys split Text.find
find_next_oid-next_of_example =
    find_next_oid-next_of (codes "1") (codes "1.3") (codes "1.3") [] (pos 1) plain
      (node (codes "1.3") (pos 3) plain no_nodes
        (node (codes "1.6") (pos 6) plain no_nodes no_nodes))
      no_nodes no_nodes (codes "1.6" ∷ []) refl
      (ends (codes "1.3") (pos 3) plain no_nodes
        (node (codes "1.6") (pos 6) plain no_nodes no_nodes))
