-- ===== src/Dissect.antt =====
-- dissect-packet.cpp: the fields of a packet, which is of the APRS of the LoRa devices or of AX.25.
pub mod Fields
pub mod Total
pub mod Types
use ham_router.Common.{
  ℕ, ◌+◌, ◌-◌, ◌%◌, zero, suc, List, [], ◌∷◌, length, get_or, take, drop, Bool, true, false, not,
  ◌&&◌, ◌||◌, ltb, leb, ◌==◌, if◌then◌else◌, Option, none, some, codes,
}
use ham_router.Common.Assoc.{insert}
use ham_router.Text.{
  npos, add_size, sub_size, one_of, index_of, find_first_of, substr, dump_replace, c_str,
}
use ham_router.Message.{Meta, db_record_gen_string, db_record_gen_double}
use ham_router.Gps.{Degrees, parse_nmea_pos}
use ham_router.Ax25.{Ax25, Parsed, packet, past_end, ax25}

-- What comes of a packet: nothing, its fields with the AX.25 packet if it is one, an exception, or a
-- read behind its end.
pub data Dissection : Type 0 where
  nothing : Dissection
  fields : Meta → Option Ax25 → Dissection
  throws : Dissection
  outside : Dissection

-- The names of the layers above AX.25.
unfoldable pub payload_protocol : ℕ → Option (List ℕ)
payload_protocol pid =
    if pid == 0x01
    then some (codes "X.25")
    else if pid == 0x06
    then some (codes "compressed TCP/IP")
    else if pid == 0x07
    then some (codes "uncompressed TCP/IP")
    else if pid == 0x08
    then some (codes "segmentation fragment")
    else if pid == 0xc3
    then some (codes "TEXNET")
    else if pid == 0xc4
    then some (codes "LQP")
    else if pid == 0xca
    then some (codes "Appletalk")
    else if pid == 0xcb
    then some (codes "Appletalk ARP")
    else if pid == 0xcc
    then some (codes "IP")
    else if pid == 0xcd
    then some (codes "ARP")
    else if pid == 0xce
    then some (codes "FlexNet")
    else if pid == 0xcf
    then some (codes "NET/ROM")
    else if pid == 0xf0
    then some (codes "NMEA")
    else none

abbrev pub insert_text : List ℕ → List ℕ → Meta → Meta
insert_text name text = insert name (db_record_gen_string text)

abbrev pub insert_protocol : Option (List ℕ) → Meta → Meta
insert_protocol none m = m
insert_protocol (some text) m = insert_text (codes "payload-protocol") text m

abbrev pub protocol_of : Option ℕ → Option (List ℕ)
protocol_of none = none
protocol_of (some pid) = payload_protocol pid

-- The fields of an AX.25 packet.
unfoldable pub ax25_fields : Ax25 → Meta
unfolding payload_protocol
ax25_fields p = insert_protocol (protocol_of p.pid) (
    insert_text (codes "payload") (dump_replace p.payload.p) (
      insert_text (codes "to") p.to.address (
        insert_text (codes "from") p.from.address
          (insert_text (codes "protocol") (codes "AX.25") []))))

-- A byte of the first six with its lowest bit set.
unfoldable pub bit_0_set : ℕ → List ℕ → Bool
bit_0_set n p = elim n [ zero ↦ false | suc (i → before) ↦ before || get_or p i 0 % 2 == 1 ]

abbrev pub ax25_dissected : Parsed → Dissection
ax25_dissected past_end = outside
ax25_dissected (packet p) = fields (ax25_fields p) (some p)

-- The packet is taken whether it is valid or not.
unfoldable pub parse_ax25 : List ℕ → Dissection
unfolding bit_0_set ax25_fields
parse_ax25 p =
    if ltb (length p) 16
    then nothing
    else if bit_0_set 6 p
    then nothing
    else if get_or p 14 0 % 4 == 2
    then nothing
    else ax25_dissected (ax25 p)

-- The symbols of APRS stations, by their table and two more characters.
unfoldable pub symbol : ℕ → ℕ → ℕ → List ℕ
symbol table sub1 sub2 =
    if table == b'/'
    then (if sub1 == b'#'
        then codes "Digi"
        else if sub1 == b'%'
        then codes "DX cluster"
        else if sub1 == b'&'
        then codes "HF gateway"
        else if sub1 == b'('
        then codes "Mobile satellite groundstation"
        else if sub1 == b'I'
        then codes "TCP/IP"
        else if sub1 == b'M'
        then codes "MacAPRS"
        else if sub1 == b'O'
        then codes "Balloon"
        else if sub1 == b'S'
        then codes "Space shuttle"
        else if sub1 == b'Z'
        then codes "WinAPRS"
        else if sub1 == b'`'
        then codes "Dish antenna"
        else if sub1 == b'n'
        then codes "Node"
        else if sub1 == b'x'
        then codes "X-APRS"
        else [])
    else if table == b'\\'
    then (if sub1 == b'K' then codes "Kenwood" else [])
    else if table == b'A'
    then (if sub1 == b'a' then codes "ARES" else [])
    else if table == b'D'
    then (if sub1 == b'a' then codes "DSTAR" else [])
    else if table == b'L'
    then (if sub1 == b'&' then (if sub2 == b'L' then codes "LoRa" else []) else [])
    else if table == b'W'
    then (if sub1 == b'a' then codes "WinLink" else [])
    else if table == b'Y'
    then (if sub1 == b'a' then codes "C4FM Yaesu repeaters" else [])
    else []

module _ (d : Degrees) where
  abbrev pub insert_position : Option (ℕ × ℕ) → Meta → Meta
  insert_position none m = m
  insert_position (some (lat, lng)) m =
      insert (codes "longitude") (db_record_gen_double lng)
        (insert (codes "latitude") (db_record_gen_double lat) m)

  abbrev pub insert_station : List ℕ → Meta → Meta
  insert_station text m = if length text == 0 then m else insert_text (codes "station-type") text m

  -- The position that follows the colon, and the kind of the station.
  unfoldable pub aprs_position : List ℕ → ℕ → Meta → Option Meta
  unfolding parse_nmea_pos symbol
  aprs_position work colon m = elim (substr work (add_size colon 1) npos) [
    | none ↦ none
    | some nmea ↦
        let chars_left = length work - colon in
        let placed = insert_position (parse_nmea_pos d (c_str nmea)) m in
        let sub2 = if leb 21 chars_left then get_or nmea 20 0 else 0 in
        some (
          if leb 20 chars_left
          then insert_station (symbol (get_or nmea 9 0) (get_or nmea 19 0) sub2) placed
          else placed)
  ]

  -- What follows a `$` is NMEA.
  unfoldable pub aprs_nmea : List ℕ → ℕ → Meta → Option Meta
  aprs_nmea work colon m = elim (substr work (add_size colon 2) npos) [
    | none ↦ none
    | some text ↦ some (
        insert_text (codes "payload-protocol") (codes "NMEA")
          (insert_text (codes "payload") text m))
  ]

  unfoldable pub aprs_command : List ℕ → ℕ → Meta → Option Meta
  unfolding aprs_position aprs_nmea
  aprs_command work colon m =
      let command = get_or work (colon + 1) 0 in
      if (command == b'!' || command == b'=') && leb 19 (length work - colon)
      then aprs_position work colon m
      else if command == b'$'
      then aprs_nmea work colon m
      else some m

-- The addresses: from the fourth byte to the `>`, and from there to the colon or to a comma.
unfoldable pub aprs_addresses : List ℕ → Meta → Option Meta
aprs_addresses work m =
    let gt = find_first_of work (codes ">") 0 in
    let colon = find_first_of work (codes ":") gt in
    if gt == npos
    then some m
    else if colon == npos
    then some m
    else elim (substr work (add_size gt 1) (sub_size (sub_size colon gt) 1)) [
      | none ↦ none
      | some to_full ↦
          let delimiter = find_first_of to_full (codes ",") 0 in
          let to = if delimiter == npos then to_full else take delimiter to_full in
          elim (substr work 3 (sub_size gt 3)) [
            | none ↦ none
            | some from ↦ some (insert_text (codes "to") to (insert_text (codes "from") from m))
          ]
    ]

-- What follows a `[` is the payload, unless there is one.
unfoldable pub aprs_payload : List ℕ → Meta → Option Meta
aprs_payload work m =
    let bracket = find_first_of work (codes "[") 0 in
    if bracket == npos then some m else elim (substr work (add_size bracket 1) npos) [
      | none ↦ none
      | some text ↦ some (insert_text (codes "payload") text m)
    ]

abbrev pub then_fields : Option Meta → (Meta → Option Meta) → Option Meta
then_fields none k = none
then_fields (some m) k = k m

abbrev pub aprs_dissected : Option Meta → Dissection
aprs_dissected none = throws
aprs_dissected (some m) = fields (insert_text (codes "protocol") (codes "APRS-OE") m) none

unfoldable pub parse_aprs : Degrees → List ℕ → Dissection
unfolding aprs_addresses aprs_command aprs_payload
parse_aprs d work =
    let colon = find_first_of work (codes ":") 0 in
    if ltb (length work) 6
    then nothing
    else if not (get_or work 0 0 == b'<')
        || not (get_or work 1 0 == 0xff)
        || not (get_or work 2 0 == 0x01)
    then nothing
    else if colon == npos
    then elim (aprs_addresses work []) [ none ↦ throws | some m ↦ nothing ]
    else aprs_dissected (
        then_fields (aprs_addresses work [])
          (λ m. then_fields (aprs_command d work colon m) (aprs_payload work)))

abbrev pub or_ax25 : Dissection → Dissection → Dissection
or_ax25 nothing other = other
or_ax25 (fields m p) other = fields m p
or_ax25 throws other = throws
or_ax25 outside other = outside

unfoldable pub dissect_packet : Degrees → List ℕ → Dissection
unfolding parse_aprs parse_ax25
dissect_packet d p = or_ax25 (parse_aprs d p) (parse_ax25 p)
