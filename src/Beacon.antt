-- ===== src/Beacon.antt =====
-- tranceiver-beacon.cpp, with gps_double_to_aprs of gps.cpp: a station that sends its own position or
-- text.
use ham_router.Common.{
  ℕ, ◌+◌, List, [], ◌∷◌, ◌++◌, get_or, take, drop, Bool, true, false, if◌then◌else◌, Option, none,
  some, codes,
}
use ham_router.Text.{index_of, one_of}
use ham_router.Transmit.{TransmitError, te_hardware}
use ham_router.Message.{Message, message}
use ham_router.Ax25.{
  Ax25, no_packet, set_from, set_to, set_control, set_pid, set_data, generate_packet,
}
use ham_router.Seen.{Cells}
use ham_router.Tranceiver.{Site, Tranceiver, queue_incoming_message}
use ham_router.Config.Limits.{GpsConnector, get_position}
use ham_router.Config.Devices.Radios.{Beacon, beacon_mode_aprs, beacon_mode_ax25}

-- The arithmetic on doubles, the conversion to an `int`, and the formats `%02d` and `%03d`.
pub record Angles : Type 0 where
  pub abs : ℕ → ℕ
  pub floor : ℕ → ℕ
  pub sub : ℕ → ℕ → ℕ
  pub times : ℕ → ℕ → ℕ
  pub is_positive : ℕ → Bool
  pub to_int : ℕ → ℕ
  pub format_2 : ℕ → List ℕ
  pub format_3 : ℕ → List ℕ

module _ (a : Angles) where
  open a use {abs, floor, sub, times, is_positive, to_int, format_2, format_3}

  unfoldable pub gps_double_to_aprs : ℕ → ℕ → ℕ → List ℕ
  gps_double_to_aprs lat lng symbol_table =
      let lata = abs lat in
      let latd = floor lata in
      let latm = times (sub lata latd) 60 in
      let lath = times (sub latm (floor latm)) 100 in
      let lnga = abs lng in
      let lngd = floor lnga in
      let lngm = times (sub lnga lngd) 60 in
      let lngh = times (sub lngm (floor lngm)) 100 in
      format_2 (to_int latd)
      ++ (format_2 (to_int (floor latm))
          ++ (codes "."
              ++ (format_2 (to_int (floor lath))
                  ++ ((if is_positive lat then b'N' else b'S')
                      ∷ symbol_table
                      ∷ (format_3 (to_int lngd)
                          ++ (format_2 (to_int (floor lngm))
                              ++ (codes "."
                                  ++ (format_2 (to_int (floor lngh))
                                      ++ (if is_positive lng then b'E' else b'W') ∷ []))))))))

  -- The content of a beacon for APRS, at a position.
  unfoldable pub aprs_beacon : Beacon → ℕ × ℕ → List ℕ
  unfolding gps_double_to_aprs
  aprs_beacon b (lat, lng) =
      b'<'
      ∷ 255
      ∷ 1
      ∷ (b.callsign
          ++ (codes "-L>APLG01,TCPIP*,qAC:"
              ++ (codes "="
                  ++ (gps_double_to_aprs lat lng b.aprs_symbol_table
                      ++ (b.aprs_symbol ++ b.beacon_text)))))

-- The callsign and the ssid behind a `-`; behind one at the end stands a NUL.
unfoldable pub split_callsign : List ℕ → List ℕ × ℕ
split_callsign callsign = elim (index_of (one_of (codes "-")) callsign) [
  | none ↦ (callsign, b' ')
  | some pos_min ↦ (take pos_min callsign, get_or (drop (pos_min + 1) callsign) 0 0)
]

-- The AX.25 packet of a beacon.
unfoldable pub ax25_beacon : Beacon → Ax25
unfolding split_callsign set_from set_to set_control set_pid set_data
ax25_beacon b =
    let (temp, ssid) = split_callsign b.callsign in
    set_data b.beacon_text (
      set_pid 240 (
        set_control 3
          (set_to (codes "IDENT") b' ' false false (set_from temp ssid true false no_packet))))

-- The content that a round of the loop sends; `none` where no position is known. An exception of
-- `generate_packet` ends the thread.
pub data Content : Type 0 where
  nothing threw : Content
  sends : List ℕ → Content

abbrev generated : Option (List ℕ) → Content
generated none = threw
generated (some p) = sends p

unfoldable pub beacon_content : Angles → Beacon → Option (ℕ × ℕ) → Content
unfolding aprs_beacon ax25_beacon
beacon_content a b position = elim b.bm [
  | beacon_mode_aprs ↦ elim position [ none ↦ nothing | some here ↦ sends (aprs_beacon a b here) ]
  | beacon_mode_ax25 ↦ generated (generate_packet (ax25_beacon b))
]

-- A round of the loop of `operator()`, before it sleeps; `none` is the exception.
unfoldable pub beacon_round :
    Angles
    → Beacon
    → GpsConnector
    → Site
    → ℕ
    → ℕ
    → ℕ
    → Tranceiver
    → Cells
    → List ℕ
    → Option (Tranceiver × Cells × List ℕ)
unfolding beacon_content
beacon_round a b gps site self tv msg_id t cells work =
    elim (beacon_content a b (get_position gps)) [
      | nothing ↦ some (t, cells, work)
      | threw ↦ none
      | sends content ↦
          let q =
            queue_incoming_message site self (message tv (some self) msg_id content) t cells work in
          some (q.tranceiver, q.cells, q.work_list)
    ]

-- Nothing can be sent by a beacon.
unfoldable pub put_message_low : Message → TransmitError
put_message_low m = te_hardware
