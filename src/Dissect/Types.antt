-- ===== src/Dissect/Types.antt =====
-- The types of the fields that dissect_packet takes from a packet.
use ham_router.Common.{
  ℕ, ◌+◌, ◌-◌, ◌%◌, List, [], length, get_or, take, not, ◌&&◌, ◌||◌, ltb, leb, ◌==◌, if◌then◌else◌,
  if_cases, Option, none, some, ◌≡◌, refl, codes,
}
use ham_router.Text.{npos, add_size, sub_size, find_first_of, substr, c_str}
use ham_router.Message.{Meta, dt_string}
use ham_router.Message.Types.{expected, AreTyped, insert-AreTyped}
use ham_router.Gps.{Degrees, parse_nmea_pos}
use ham_router.Ax25.{Ax25, Parsed, ax25, past_end, packet}
use ham_router.Dissect.{
  Dissection, nothing, fields, throws, outside, ax25_dissected, aprs_dissected, insert_position,
  insert_station, or_ax25, insert_text, insert_protocol, protocol_of, ax25_fields, parse_ax25,
  aprs_position, aprs_nmea, aprs_command, aprs_addresses, aprs_payload, then_fields, parse_aprs,
  dissect_packet, bit_0_set, symbol,
}

abbrev OptionTyped : Option Meta → Type 0
OptionTyped none = Unit
OptionTyped (some m) = AreTyped m

-- The fields of a dissection, if it has any.
abbrev pub IsTyped : Dissection → Type 0
IsTyped nothing = Unit
IsTyped (fields m p) = AreTyped m
IsTyped throws = Unit
IsTyped outside = Unit

insert_protocol-AreTyped :
    (o : Option (List ℕ)) (m : Meta) → AreTyped m → AreTyped (insert_protocol o m)
insert_protocol-AreTyped none m h = h
insert_protocol-AreTyped (some text) m h = insert-AreTyped (codes "payload-protocol") _ m refl h

ax25_fields-AreTyped : (p : Ax25) → AreTyped (ax25_fields p)
unfolding ax25_fields
ax25_fields-AreTyped p = insert_protocol-AreTyped (protocol_of p.pid) _ (
    insert-AreTyped (codes "payload") _ _ refl (
      insert-AreTyped (codes "to") _ _ refl (
        insert-AreTyped (codes "from") _ _ refl (insert-AreTyped (codes "protocol") _ [] refl tt))))

parse_ax25-IsTyped : (p : List ℕ) → IsTyped (parse_ax25 p)
unfolding parse_ax25
parse_ax25-IsTyped p = if_cases IsTyped (ltb (length p) 16) tt (
    if_cases IsTyped (bit_0_set 6 p) tt
      (if_cases IsTyped (get_or p 14 0 % 4 == 2) tt (one (ax25 p))))
  where
    one : (r : Parsed) → IsTyped (ax25_dissected r)
    one past_end = tt
    one (packet q) = ax25_fields-AreTyped q

text_field :
    (key : List ℕ) (r : Option (List ℕ)) (m : Meta)
    → AreTyped m
    → dt_string ≡ expected key
    → OptionTyped (elim r [ none ↦ none | some text ↦ some (insert_text key text m) ])
text_field key none m h e = tt
text_field key (some text) m h e = insert-AreTyped key _ m e h

aprs_payload-Typed : (work : List ℕ) (m : Meta) → AreTyped m → OptionTyped (aprs_payload work m)
unfolding aprs_payload
aprs_payload-Typed work m h =
    if_cases OptionTyped (find_first_of work (codes "[") 0 == npos) h
      (text_field (codes "payload") (substr work _ npos) m h refl)

aprs_addresses-Typed : (work : List ℕ) (m : Meta) → AreTyped m → OptionTyped (aprs_addresses work m)
unfolding aprs_addresses
aprs_addresses-Typed work m h =
    let gt = find_first_of work (codes ">") 0 in
    let colon = find_first_of work (codes ":") gt in
    if_cases OptionTyped (gt == npos) h (
      if_cases OptionTyped (colon == npos) h
        (one (substr work (add_size gt 1) (sub_size (sub_size colon gt) 1))))
  where
    from_text :
        (to : List ℕ) (r : Option (List ℕ))
        → OptionTyped (elim r [
          | none ↦ none
          | some from ↦ some (insert_text (codes "to") to (insert_text (codes "from") from m))
        ])
    from_text to none = tt
    from_text to (some from) =
        insert-AreTyped (codes "to") _ _ refl (insert-AreTyped (codes "from") _ m refl h)

    one :
        (r : Option (List ℕ))
        → OptionTyped (elim r [
          | none ↦ none
          | some to_full ↦
              let delimiter = find_first_of to_full (codes ",") 0 in
              let to = if delimiter == npos then to_full else take delimiter to_full in
              elim (substr work 3 (sub_size (find_first_of work (codes ">") 0) 3)) [
                | none ↦ none
                | some from ↦ some (insert_text (codes "to") to (insert_text (codes "from") from m))
              ]
        ])
    one none = tt
    one (some to_full) = from_text _ (substr work 3 (sub_size (find_first_of work (codes ">") 0) 3))

module _ (d : Degrees) where
  insert_position-AreTyped :
      (o : Option (ℕ × ℕ)) (m : Meta) → AreTyped m → AreTyped (insert_position d o m)
  insert_position-AreTyped none m h = h
  insert_position-AreTyped (some (lat, lng)) m h =
      insert-AreTyped (codes "longitude") _ _ refl (insert-AreTyped (codes "latitude") _ m refl h)

  insert_station-AreTyped :
      (text : List ℕ) (m : Meta) → AreTyped m → AreTyped (insert_station d text m)
  insert_station-AreTyped text m h =
      if_cases AreTyped (length text == 0) h (insert-AreTyped (codes "station-type") _ m refl h)

  aprs_position-Typed :
      (work : List ℕ) (colon : ℕ) (m : Meta)
      → AreTyped m
      → OptionTyped (aprs_position d work colon m)
  unfolding aprs_position
  aprs_position-Typed work colon m h = one (substr work (add_size colon 1) npos)
    where
      one :
          (r : Option (List ℕ))
          → OptionTyped (elim r [
            | none ↦ none
            | some nmea ↦
                let chars_left = length work - colon in
                let placed = insert_position d (parse_nmea_pos d (c_str nmea)) m in
                let sub2 = if leb 21 chars_left then get_or nmea 20 0 else 0 in
                some (
                  if leb 20 chars_left
                  then insert_station d (symbol (get_or nmea 9 0) (get_or nmea 19 0) sub2) placed
                  else placed)
          ])
      one none = tt
      one (some nmea) =
          let placed = insert_position-AreTyped (parse_nmea_pos d (c_str nmea)) m h in
          if_cases AreTyped (leb 20 (length work - colon)) (insert_station-AreTyped _ _ placed)
            placed

  aprs_nmea-Typed :
      (work : List ℕ) (colon : ℕ) (m : Meta) → AreTyped m → OptionTyped (aprs_nmea d work colon m)
  unfolding aprs_nmea
  aprs_nmea-Typed work colon m h = one (substr work (add_size colon 2) npos)
    where
      one :
          (r : Option (List ℕ))
          → OptionTyped (elim r [
            | none ↦ none
            | some text ↦ some (
                insert_text
                  (codes "payload-protocol")
                  (codes "NMEA")
                  (insert_text (codes "payload") text m))
          ])
      one none = tt
      one (some text) =
          insert-AreTyped (codes "payload-protocol") _ _ refl
            (insert-AreTyped (codes "payload") _ m refl h)

  aprs_command-Typed :
      (work : List ℕ) (colon : ℕ) (m : Meta)
      → AreTyped m
      → OptionTyped (aprs_command d work colon m)
  unfolding aprs_command
  aprs_command-Typed work colon m h =
      let command = get_or work (colon + 1) 0 in
      if_cases OptionTyped ((command == b'!' || command == b'=') && leb 19 (length work - colon))
        (aprs_position-Typed work colon m h)
        (if_cases OptionTyped (command == b'$') (aprs_nmea-Typed work colon m h) h)

  then_fields-Typed :
      (o : Option Meta) (k : Meta → Option Meta)
      → OptionTyped o
      → ((m : Meta) → AreTyped m → OptionTyped (k m))
      → OptionTyped (then_fields o k)
  then_fields-Typed none k h f = tt
  then_fields-Typed (some m) k h f = f m h

  aprs_dissected-IsTyped : (o : Option Meta) → OptionTyped o → IsTyped (aprs_dissected o)
  aprs_dissected-IsTyped none h = tt
  aprs_dissected-IsTyped (some m) h = insert-AreTyped (codes "protocol") _ m refl h

  parse_aprs-IsTyped : (work : List ℕ) → IsTyped (parse_aprs d work)
  unfolding parse_aprs
  parse_aprs-IsTyped work =
      let colon = find_first_of work (codes ":") 0 in
      let addresses = aprs_addresses-Typed work [] tt in
      if_cases IsTyped (ltb (length work) 6) tt (
        if_cases IsTyped
          (not (get_or work 0 0 == b'<')
            || not (get_or work 1 0 == 0xff)
            || not (get_or work 2 0 == 0x01))
          tt
          (if_cases IsTyped (colon == npos) (no_colon (aprs_addresses work [])) (
            aprs_dissected-IsTyped _ (
              then_fields-Typed (aprs_addresses work []) _ addresses (λ m h.
                then_fields-Typed (aprs_command d work colon m) (aprs_payload work)
                  (aprs_command-Typed work colon m h) (aprs_payload-Typed work))))))
    where
      no_colon : (o : Option Meta) → IsTyped (elim o [ none ↦ throws | some m ↦ nothing ])
      no_colon none = tt
      no_colon (some m) = tt

  -- The fields that are taken from a packet, whatever its bytes: a latitude and a longitude are numbers, and
  -- everything else is text.
  pub dissect_packet-IsTyped : (p : List ℕ) → IsTyped (dissect_packet d p)
  unfolding dissect_packet
  dissect_packet-IsTyped p = one (parse_aprs d p) (parse_aprs-IsTyped p)
    where
      one : (r : Dissection) → IsTyped r → IsTyped (or_ax25 r (parse_ax25 p))
      one nothing h = parse_ax25-IsTyped p
      one (fields m q) h = h
      one throws h = tt
      one outside h = tt
