-- ===== src/Axudp.antt =====
-- tranceiver-axudp.cpp: AX.25 packets in UDP datagrams, each followed by its frame check sequence.
pub mod Sending
pub mod Receiving
pub mod Distribution
use ham_router.Common.{
  ℕ, ◌+◌, ◌-◌, ◌/◌, ◌%◌, List, [], ◌∷◌, ◌++◌, length, take, Bool, true, false, not, ◌&&◌, ltb, ◌==◌,
  ◌==ₛ◌, if◌then◌else◌, Option, none, some, codes,
}
use ham_router.Crc.Ppp.{compute_crc}
use ham_router.Net.Udp.{Sockets, transmit_udp}
use ham_router.Transmit.{TransmitError, te_ok, te_hardware, te_ratelimiting, te_filter}
use ham_router.Message.{Message, message, get_content}
use ham_router.Filter.{FilterT, Outcome, ok, exits, throws, runs_on, execute_filter}
use ham_router.Seen.{Cells}
use ham_router.Tranceiver.{
  Site, Tranceiver, Answer, returned, threw, read_outside, Queued, queue_incoming_message,
}

-- The host and port of a peer, and the filter for what is passed on to it.
abbrev pub Peer : Type 0
Peer = List ℕ × Option FilterT

pub record Axudp : Type 0 where
  pub peers : List Peer
  pub continue_on_error : Bool
  pub distribute : Bool

-- The datagram of a content: the check sequence stands behind it, the low byte first.
abbrev pub with_crc : List ℕ → List ℕ
with_crc content = let crc = compute_crc content in content ++ crc % 256 ∷ crc / 256 % 256 ∷ []

abbrev pub let_through : ℕ → Message → Option FilterT → Outcome Bool
let_through fuel m none = ok true
let_through fuel m (some f) = execute_filter fuel f.pattern f.ignore_if_field_is_missing m.meta

module _ (s : Sockets) (continue_on_error : Bool) where
  open s use {Network}

  -- The loop of `put_message_low` over the peers.
  unfoldable pub send_all : List Peer → List ℕ → Network → TransmitError × Network
  send_all [] temp w = (te_ok, w)
  send_all (p ∷ more) temp w =
      let (sent, w') = transmit_udp s p.0 temp w in
      let rest = send_all more temp w' in
      if not sent && not continue_on_error then (te_hardware, w') else rest

  -- The loop of `send_to_other_axudp_targets`; the filter can end the program, throw or not end.
  unfoldable pub send_to_other_axudp_targets :
      ℕ → List Peer → Message → List ℕ → Network → Outcome TransmitError × Network
  send_to_other_axudp_targets fuel [] m came_from w = (ok te_ok, w)
  send_to_other_axudp_targets fuel (p ∷ more) m came_from w =
      let skip = send_to_other_axudp_targets fuel more m came_from w in
      let (sent, w') = transmit_udp s p.0 (get_content m) w in
      let rest = send_to_other_axudp_targets fuel more m came_from w' in
      if p.0 ==ₛ came_from then skip else elim (let_through fuel m p.1) [
        | ok true ↦ if not sent && not continue_on_error then (ok te_hardware, w') else rest
        | ok false ↦ skip
        | exits ↦ (exits, w)
        | throws ↦ (throws, w)
        | runs_on ↦ (runs_on, w)
      ]

unfoldable pub put_message_low :
    (s : Sockets) → Axudp → Message → s.Network → TransmitError × s.Network
unfolding send_all
put_message_low s x m w = send_all s x.continue_on_error x.peers (with_crc (get_content m)) w

-- A datagram that came in: the text of its address (`inet_ntoa`), and the text of its port as it
-- stands in `sin_port`, in network byte order.
pub record Datagram : Type 0 where
  pub address : List ℕ
  pub sin_port : List ℕ
  pub bytes : List ℕ

abbrev pub max_pkt_len : ℕ
max_pkt_len = 1600

abbrev pub came_from : Datagram → List ℕ
came_from g = g.address ++ (codes ":" ++ g.sin_port)

abbrev is_ratelimiting : TransmitError → Bool
is_ratelimiting te_ok = false
is_ratelimiting te_hardware = false
is_ratelimiting te_ratelimiting = true
is_ratelimiting te_filter = false

-- How the handling of a datagram ends: it goes on with the next one, also after an exception, or the
-- program ends, hangs, or reads behind the packet.
pub data Handling : Type 0 where
  handled caught exited hung undefined : Handling

abbrev pub distributed : Outcome TransmitError → Handling
distributed (ok rc) = handled
distributed exits = exited
distributed throws = caught
distributed runs_on = hung

pub record Received (W : Type 0) : Type 0 where
  pub handling : Handling
  pub queued : Queued
  pub network : W

module _ (s : Sockets) (site : Site) (fuel self : ℕ) (x : Axudp) where
  open s use {Network}

  -- What is done after the message was queued: the whole datagram goes to the other peers.
  unfoldable pub pass_on : Message → List ℕ → Queued → Network → Received Network
  unfolding send_to_other_axudp_targets
  pass_on m_full from r w = elim r.answer [
    | returned rc ↦
        let (done, w') =
          send_to_other_axudp_targets s x.continue_on_error fuel x.peers m_full from w in
        if x.distribute && not (is_ratelimiting rc)
        then record { handling = distributed done; queued = r; network = w' }
        else record { handling = handled; queued = r; network = w }
    | threw ↦ record { handling = caught; queued = r; network = w }
    | read_outside ↦ record { handling = undefined; queued = r; network = w }
  ]

  -- A round of the thread in which `recvfrom` gives a datagram, at the time `tv`.
  unfoldable pub receive :
      ℕ → ℕ → Datagram → Tranceiver → Cells → List ℕ → Network → Received Network
  unfolding pass_on
  receive tv msg_id g t cells work w =
      let buffer = take max_pkt_len g.bytes in
      let n = length buffer in
      if ltb 2 n
      then pass_on (message tv (some self) msg_id buffer) (came_from g)
          (queue_incoming_message site self (message tv (some self) msg_id (take (n - 2) buffer)) t
            cells work)
          w
      else record {
        handling = handled;
        queued = record {
          answer = returned te_ok;
          tranceiver = t;
          cells = cells;
          work_list = work;
        };
        network = w;
      }
