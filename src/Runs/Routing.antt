-- ===== src/Runs/Routing.antt =====
-- The switchboard and the AX.25 packets at concrete inputs.
use ham_router.Common.{
  ℕ, ◌≡◌, refl, List, [], ◌∷◌, ◌++◌, true, false, ◌==◌, ◌==ₛ◌, if◌then◌else◌, some, none, arith,
}
use ham_router.Transmit.{te_ok, te_hardware}
use ham_router.Message.{Message, message, db_record_gen_string}
use ham_router.Filter.{FilterT}
use ham_router.Buffer.{make}
use ham_router.Switchboard.{
  Switchboard, Outside, finish, deliver_loop, passes, bridges_of, put_message, from_key, to_key,
}
use ham_router.Switchboard.Targets.{targets, put_message-targets}
use ham_router.Ax25.{
  Ax25Address, Ax25, packet, ax25_address, generate_address, make_address, ax25, generate_packet,
}
use ham_router.Ax25.{assign_address}
use ham_router.Ax25.Address.{ax25_address-make_address}
use ham_router.Ax25.Packet.{ax25-generate_packet}

-- Regular expressions that match one callsign, and a world that records who got a message; the
-- tranceiver 7 fails.
abbrev pub lab : Outside
lab = record {
  Regex = List ℕ;
  regexec = λ re s. if re ==ₛ s then 0 else 1;
  World = List ℕ;
  deliver = λ t m w. (if t == 7 then te_hardware else te_ok, w ++ t ∷ []);
}

abbrev me : List ℕ
me = b'm' ∷ b'e' ∷ []

abbrev pub letter : Message
letter = record (message 0 (some 1) 0 (1 ∷ 2 ∷ [])) {
  meta = (from_key, db_record_gen_string me) ∷ (to_key, db_record_gen_string me) ∷ [];
}

abbrev pub board : Switchboard (List ℕ)
board = record {
  bridge_map = (1, record { f = none; t = 7 ∷ 3 ∷ [] } ∷ []) ∷ [];
  routing_map =
      record {
        re_from_callsign = me;
        re_to_callsign = me;
        t_incoming_via = some 1;
        t_outgoing_via = 4 ∷ [];
      }
      ∷ [];
}

put_message-targets_example :
    put_message lab false letter 9 1 board []
    ≡ finish (deliver_loop lab false letter (targets lab false letter 9 1 board) false [])
unfolding bridges_of passes
put_message-targets_example =
    put_message-targets lab false letter 9 1 board [] ((omega arith, refl), tt)

abbrev only_me : FilterT
only_me = record { ignore_if_field_is_missing = true; pattern = me }

abbrev pub station : Ax25Address
station = record {
  valid = true;
  address = b'M' ∷ b'E' ∷ [];
  ssid = b'5';
  end_mark = true;
  repeated = false;
}

ax25_address-make_address_example :
    ax25_address (generate_address (make_address (b'M' ∷ b'E' ∷ []) b'5' true false)) ≡ record {
      valid = true;
      address = b'M' ∷ b'E' ∷ [];
      ssid = b'1';
      end_mark = true;
      repeated = false;
    }
ax25_address-make_address_example =
    ax25_address-make_address (b'M' ∷ b'E' ∷ []) b'5' true false (omega arith) (omega arith)

abbrev pub beacon : Ax25
beacon = record {
  valid = true;
  from = station;
  to = station;
  seen_by = [];
  control = 3;
  msg_nr = none;
  pid = some 0xf0;
  payload = make (1 ∷ 2 ∷ []);
}

ax25-generate_packet_example :
    (bytes : List ℕ) × (generate_packet beacon ≡ some bytes)
    × (ax25 bytes ≡ packet (record beacon { control = 0 }))
unfolding assign_address
ax25-generate_packet_example =
    ax25-generate_packet beacon 0xf0 (omega arith) (omega arith) refl refl refl
