-- ===== src/AprsSi/Payload.antt =====
-- What goes out to APRS-IS.
use ham_router.Common.{
  ℕ, ◌<◌, List, [], ◌++◌, length, true, false, not, ltb, ==_iff, if◌then◌else◌, if_split,
  length-append, Option, none, some, ◌≡◌, refl, sym, ap, subst, ◌∙◌, arith,
}
use ham_router.Common.Int.{ℤ, pos, negsuc}
use ham_router.Stats.{stats_inc_counter}
use ham_router.Transmit.{TransmitError, te_ok, te_hardware, te_ratelimiting, te_filter}
use ham_router.Message.{Message, get_content}
use ham_router.Seen.{Doubles, Seen, Cells, check}
use ham_router.Net.Write.{write_all, write_all_sent}
use ham_router.AprsSi.{
  Network, AprsSi, receive_string, crlf, login, is_aprs, is_count, Line, await_reply, log_in,
  connected, transmit, Handling, handled, packet_of, pass_on, put_aprs, put_message_low,
}

module _ (net : Network) (t : AprsSi) where
  open net use {stream, World, connect_to, answer, after, close, connected_sent, after_sent}

  -- What was sent on the connection that a transmission starts with: on a new one, the login.
  abbrev pub sent_before : Option stream.Device → List ℕ
  sent_before none = login t
  sent_before (some d) = stream.sent d

  -- A connection, if there is one, on which these bytes were sent.
  abbrev Sent : List ℕ → Option stream.Device → Type 0
  Sent xs none = Unit
  Sent xs (some d) = stream.sent d ≡ xs

  is_count-pos : (n : ℕ) (r : ℤ) → is_count n r ≡ true → r ≡ pos n
  is_count-pos n (pos m) e = ap pos (sym ((==_iff n m).0 e))
  is_count-pos n (negsuc m) e = absurd cc

  written :
      (d : stream.Device) (xs : List ℕ)
      → 0 < length xs
      → is_count (length xs) (write_all stream d xs).0 ≡ true
      → stream.sent (write_all stream d xs).1 ≡ stream.sent d ++ xs
  written d xs h e = write_all_sent stream d (write_all stream d xs).1 xs h (
      ap (λ n. (n, (write_all stream d xs).1))
        (is_count-pos (length xs) (write_all stream d xs).0 e))

  await_reply-Sent :
      (xs : List ℕ) (d : stream.Device) (w : World)
      → stream.sent d ≡ xs
      → Sent xs (await_reply net t d w).fd
  unfolding await_reply
  await_reply-Sent xs d w e = one (receive_string (answer d) []).0
    where
      one :
          (reply : Option (List ℕ))
          → Sent xs
              (elim reply as (λ r. Line net) [
                | none ↦ record {
                  fd = none;
                  world = close (after d (receive_string (answer d) []).1) w;
                }
                | some line ↦ record {
                  fd = some (after d (receive_string (answer d) []).1);
                  world = w;
                }
              ]).fd
      one none = tt
      one (some line) = after_sent d (receive_string (answer d) []).1 ∙ e

  log_in-Sent :
      (d : stream.Device) (w : World) → stream.sent d ≡ [] → Sent (login t) (log_in net t d w).fd
  unfolding log_in
  log_in-Sent d w e =
      let (n, d') = write_all stream d (login t) in
      if_split (λ (l : Line net). Sent (login t) l.fd) (is_count (length (login t)) n)
        (λ y.
          await_reply-Sent (login t) d' w
            (written d (login t) (omega arith) y ∙ ap (λ xs. xs ++ login t) e))
        (λ no. tt)

  -- A connection that is made has the login on it.
  connected-Sent : (l : Line net) → Sent (sent_before l.fd) (connected net t l).fd
  unfolding connected
  connected-Sent l = one l.fd refl
    where
      one :
          (fd : Option stream.Device)
          → l.fd ≡ fd
          → Sent
              (sent_before fd)
              (elim fd as (λ f. Line net) [
                | some d ↦ l
                | none ↦
                    let (fd, w) = connect_to l.world in
                    elim fd as (λ f. Line net) [
                      | none ↦ record { fd = none; world = w }
                      | some d ↦ log_in net t d w
                    ]
              ]).fd
      one (some d) e = subst (Sent (stream.sent d)) (sym e) refl
      one none e = two (connect_to l.world).0 refl
        where
          two :
              (fd : Option stream.Device)
              → (connect_to l.world).0 ≡ fd
              → Sent
                  (login t)
                  (elim fd as (λ f. Line net) [
                    | none ↦ record { fd = none; world = (connect_to l.world).1 }
                    | some d ↦ log_in net t d (connect_to l.world).1
                  ]).fd
          two none e = tt
          two (some d) e = log_in-Sent d (connect_to l.world).1 (
              connected_sent l.world (connect_to l.world).1 d
                (ap (λ f. (f, (connect_to l.world).1)) e))

  -- A connection on which these bytes were sent.
  abbrev pub HasSent : List ℕ → Option stream.Device → Type 0
  HasSent xs fd = (d : stream.Device) × (fd ≡ some d) × (stream.sent d ≡ xs)

  -- What a result says of the connection that is left.
  abbrev pub Reports : Option stream.Device → List ℕ → TransmitError → Option stream.Device → Type 0
  Reports before xs te_ok fd = HasSent xs fd
  Reports before xs te_hardware fd = fd ≡ none
  Reports before xs te_ratelimiting fd = fd ≡ before
  Reports before xs te_filter fd = ⊥

  transmit-Reports :
      (before : Option stream.Device) (xs payload : List ℕ) (l : Line net)
      → 0 < length payload
      → Sent xs l.fd
      → Reports before (xs ++ payload) (transmit net t payload l).0 (transmit net t payload l).1.fd
  unfolding transmit
  transmit-Reports before xs payload l h e = one l.fd refl e
    where
      one :
          (fd : Option stream.Device)
          → l.fd ≡ fd
          → Sent xs fd
          → (let r : TransmitError × Line net = elim fd [
            | none ↦ (te_hardware, l)
            | some d ↦
                let (n, d') = write_all stream d payload in
                if is_count (length payload) n
                then (te_ok, record l { fd = some d' })
                else (te_hardware, record { fd = none; world = close d' l.world })
          ] in
              Reports before (xs ++ payload) r.0 r.1.fd)
      one none f e = f
      one (some d) f e =
          let (n, d') = write_all stream d payload in
          if_split (λ (r : TransmitError × Line net). Reports before (xs ++ payload) r.0 r.1.fd)
            (is_count (length payload) n)
            (λ y. (d', refl, written d payload h y ∙ ap (λ ys. ys ++ payload) e)) (λ no. refl)

  -- What `put_message_low` comes to, with a result and the connection that it leaves.
  abbrev pub Handles : Line net → List ℕ → Handling net → Type 0
  Handles l content r =
      (rc : TransmitError) × (l' : Line net) × (s' : Seen) × (cells' : Cells) × (r
        ≡ handled rc l' (some s') cells')
      × Reports l.fd (sent_before l.fd ++ (packet_of content ++ crlf)) rc l'.fd

  -- An APRS packet of five bytes or more, and a tranceiver with a limiter for repetitions: where `put_message_low` returns TE_ok,
  -- the connection that is left has everything sent on it that was sent before, or the login if there was no
  -- connection, and then the content without its first three bytes, with CR and LF behind it, so the path of
  -- the packet goes out as it came. Where it returns TE_hardware there is no connection left, and where it
  -- returns TE_ratelimiting the connection is as before. It returns nothing else.
  pub put_message_low-Handles :
      (doubles : Doubles) (now : ℕ) (m : Message) (l : Line net) (s : Seen) (cells : Cells)
      → ltb (length (get_content m)) 5 ≡ false
      → is_aprs (get_content m) ≡ true
      → Handles l (get_content m) (put_message_low net t doubles now m l (some s) cells)
  unfolding put_message_low put_aprs pass_on
  put_message_low-Handles doubles now m l s cells long aprs =
      let content = get_content m in
      let counted = stats_inc_counter (some t.cnt_frame_aprs) cells in
      let ((ok, hash), s', cells') = check doubles now content s counted in
      let some_bytes : 0 < length (packet_of content ++ crlf) =
        rw (length-append (packet_of content) crlf) (omega arith) in
      rw (long, aprs)
        (if_split (Handles l content) (not ok) (λ no. (te_ratelimiting, l, s', _, refl, refl))
          (λ yes. (
            (transmit net t (packet_of content ++ crlf) (connected net t l)).0,
            (transmit net t (packet_of content ++ crlf) (connected net t l)).1,
            s',
            _,
            refl,
            transmit-Reports l.fd (sent_before l.fd) (packet_of content ++ crlf) (connected net t l)
                some_bytes (connected-Sent l),
          )))
