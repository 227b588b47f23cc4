-- ===== src/AprsSi.antt =====
-- tranceiver-aprs-si.cpp: packets go to a server of APRS-IS.
pub mod Payload
use ham_router.Common.{
  ℕ, zero, suc, ◌<◌, List, [], ◌∷◌, ◌++◌, length, get_or, take, drop, ◌+◌, ◌-◌, Bool, true, false,
  not, ◌&&◌, ◌||◌, ltb, ◌==◌, if◌then◌else◌, Option, none, some, ◌≡◌, codes,
}
use ham_router.Common.Int.{ℤ, pos, negsuc}
use ham_router.Text.{one_of, index_of, find, substr}
use ham_router.Transmit.{TransmitError, te_ok, te_hardware, te_ratelimiting}
use ham_router.Message.{Message, get_content}
use ham_router.Stats.{stats_inc_counter}
use ham_router.Seen.{Doubles, Seen, Cells, check}
use ham_router.Net.Write.{Stream, write_all}

-- The connections of the system: `connect_to`, the bytes that the server answers with up to the end
-- of the connection, the device when some of them are read, and `close`. Nothing was sent on a new
-- connection, and reading sends nothing.
pub record Network : Type 1 where
  pub stream : Stream
  pub World : Type 0
  pub connect_to : World → Option stream.Device × World
  pub answer : stream.Device → List ℕ
  pub after : stream.Device → List ℕ → stream.Device
  pub close : stream.Device → World → World
  pub connected_sent :
      (w w' : World) (d : stream.Device) → connect_to w ≡ (some d, w') → stream.sent d ≡ []
  pub after_sent : (d : stream.Device) (rest : List ℕ) → stream.sent (after d rest) ≡ stream.sent d

-- The constants of a tranceiver, with the offsets of its counters.
pub record AprsSi : Type 0 where
  pub aprs_user : List ℕ
  pub aprs_pass : List ℕ
  pub local_callsign : List ℕ
  pub cnt_frame_aprs : ℕ
  pub cnt_frame_aprs_rate_limited : ℕ
  pub cnt_aprs_invalid : ℕ

-- The loop of `receive_string`: the line, and what is left.
unfoldable pub receive_string : List ℕ → List ℕ → Option (List ℕ) × List ℕ
receive_string [] reply = (none, [])
receive_string (c ∷ cs) reply =
    if c == 10 then (some reply, cs) else receive_string cs (reply ++ c ∷ [])

abbrev pub crlf : List ℕ
crlf = 13 ∷ 10 ∷ []

abbrev pub login : AprsSi → List ℕ
login t =
    codes "user "
    ++ (t.aprs_user
        ++ (codes " pass " ++ (t.aprs_pass ++ (codes " vers MyAprsGw softwarevers 0.2" ++ crlf))))

-- The packet with this station in its path, if it has a sender and a receiver. The program only looks
-- at whether it has: the text is not used after that.
unfoldable pub routed_over : List ℕ → List ℕ → Option (List ℕ)
routed_over local_callsign content_out = elim (index_of (one_of (codes ">")) content_out) [
  | none ↦ none
  | some gt ↦ elim (index_of (one_of (codes ":")) (drop gt content_out)) [
    | none ↦ none
    | some n ↦
        let to_full = take (n - 1) (drop (gt + 1) content_out) in
        some (
          take gt content_out
          ++ (codes ">"
              ++ (to_full ++ (codes ",qAO," ++ (local_callsign ++ drop (gt + n) content_out)))))
  ]
]

abbrev pub is_aprs : List ℕ → Bool
is_aprs p = get_or p 0 0 == b'<' && (get_or p 1 0 == 255 && get_or p 2 0 == 1)

-- What `WRITE` returns is the count.
abbrev pub is_count : ℕ → ℤ → Bool
is_count n (pos m) = n == m
is_count n (negsuc m) = false

-- The packet of a content: what stands behind the three bytes for APRS over LoRa.
abbrev pub packet_of : List ℕ → List ℕ
packet_of content = drop 3 content

module _ (net : Network) where
  open net use {stream, World}

  -- What a transmission changes.
  pub record Line : Type 0 where
    pub fd : Option stream.Device
    pub world : World

  -- What `put_message_low` leaves. An APRS packet without a limiter for repetitions meets the null pointer.
  pub data Handling : Type 0 where
    null_used : Handling
    handled : TransmitError → Line → Option Seen → Cells → Handling

module _ (net : Network) (t : AprsSi) where
  open net use {stream, World, connect_to, answer, after, close}

  -- After the login a line is awaited.
  unfoldable pub await_reply : stream.Device → World → Line net
  await_reply d w =
      let (reply, rest) = receive_string (answer d) [] in
      elim reply [
        | none ↦ record { fd = none; world = close (after d rest) w }
        | some line ↦ record { fd = some (after d rest); world = w }
      ]

  unfoldable pub log_in : stream.Device → World → Line net
  unfolding await_reply
  log_in d w =
      let (n, d') = write_all stream d (login t) in
      if is_count (length (login t)) n
      then await_reply d' w
      else record { fd = none; world = close d' w }

  -- The connection, made again if there is none.
  unfoldable pub connected : Line net → Line net
  unfolding log_in
  connected l = elim l.fd [
    | some d ↦ l
    | none ↦
        let (fd, w) = connect_to l.world in
        elim fd [ none ↦ record { fd = none; world = w } | some d ↦ log_in d w ]
  ]

  unfoldable pub transmit : List ℕ → Line net → TransmitError × Line net
  transmit payload l = elim l.fd [
    | none ↦ (te_hardware, l)
    | some d ↦
        let (n, d') = write_all stream d payload in
        if is_count (length payload) n
        then (te_ok, record l { fd = some d' })
        else (te_hardware, record { fd = none; world = close d' l.world })
  ]

  abbrev count_invalid : List ℕ → Cells → Cells
  count_invalid content cells = elim (routed_over t.local_callsign (packet_of content)) [
    | some content_out ↦ cells
    | none ↦ stats_inc_counter (some t.cnt_aprs_invalid) cells
  ]

  -- What follows the limiter.
  unfoldable pub pass_on : List ℕ → Line net → TransmitError × Line net
  unfolding connected transmit
  pass_on content l = transmit (packet_of content ++ crlf) (connected l)

  unfoldable pub put_aprs : Doubles → ℕ → List ℕ → Line net → Option Seen → Cells → Handling net
  unfolding pass_on
  put_aprs doubles now content l none cells = null_used
  put_aprs doubles now content l (some s) cells =
      let counted = stats_inc_counter (some t.cnt_frame_aprs) cells in
      let ((ok, hash), s', cells') = check doubles now content s counted in
      if not ok
      then handled te_ratelimiting l (some s')
          (stats_inc_counter (some t.cnt_frame_aprs_rate_limited) cells')
      else (let (rc, l') = pass_on content l in
          handled rc l' (some s') (count_invalid content cells'))

  unfoldable pub put_message_low :
      Doubles → ℕ → Message → Line net → Option Seen → Cells → Handling net
  unfolding put_aprs
  put_message_low doubles now m l s cells =
      let content = get_content m in
      if ltb (length content) 5
      then handled te_hardware l s cells
      else if not (is_aprs content)
      then handled te_ok l s cells
      else put_aprs doubles now content l s cells
