-- ===== src/Kiss/Thread.antt =====
-- The thread of tranceiver-kiss.cpp: packets that come over the line are queued.
use ham_router.Common.{
  ℕ, ◌+◌, ◌≤◌, List, [], ◌∷◌, ◌++◌, length, map, if◌then◌else◌, Option, none, some, ◌≡◌, ap, ap₂,
  arith, length-append, ==_iff,
}
use ham_router.Common.Int.{ℤ, pos, negsuc}
use ham_router.Transmit.{te_ok, te_hardware}
use ham_router.Net.Write.{Stream, write_all, write_all_sent}
use ham_router.Message.{message}
use ham_router.Seen.{Cells}
use ham_router.Tranceiver.{Site, Tranceiver, Queued, queue_incoming_message}
use ham_router.Tranceiver.Queue.{Outcome, queue_incoming_message_queues}
use ham_router.Kiss.{
  Event, byte, recv_mkiss, frame, max_packet_size, send_mkiss, put_message_low, wrote_all, put_all,
  escape_put, fend,
}
use ham_router.Kiss.RoundTrip.{recv_mkiss-frame}

-- A packet that was received at the time `tv` is queued; without one nothing is.
abbrev queue_received :
    Site
    → ℕ
    → ℕ
    → ℕ
    → Tranceiver
    → Cells
    → List ℕ
    → Option (List ℕ) × List Event
    → Option Queued × List Event
queue_received site self tv msg_id t cells work (none, rest) = (none, rest)
queue_received site self tv msg_id t cells work (some content, rest) =
    let m = message tv (some self) msg_id content in
    (some (queue_incoming_message site self m t cells work), rest)

-- A round of the loop in which the device can be read.
unfoldable pub receive_round :
    Site → ℕ → ℕ → ℕ → List Event → Tranceiver → Cells → List ℕ → Option Queued × List Event
receive_round site self tv msg_id es t cells work =
    queue_received site self tv msg_id t cells work (recv_mkiss es)

wrote :
    (s : Stream) (n : ℕ) (r : ℤ × s.Device) (d' : s.Device)
    → (if wrote_all s n r.0 then te_ok else te_hardware) ≡ te_ok
    → r.1 ≡ d'
    → r ≡ (pos n, d')
wrote s n (pos k, d) d' h e =
    let same : k ≡ n = ground (arith, ==_iff k n) in ap₂ (λ i w. (pos i, w)) same e
wrote s n (negsuc k, d) d' h e = absurd (ground arith)

length-frame : (content : List ℕ) → 1 ≤ length (frame 0 0 content)
unfolding frame
length-frame content =
    omega (arith, length-append (put_all (escape_put (fend ∷ []) 0) content) (fend ∷ []))

sent_frame :
    (s : Stream) (d d' : s.Device) (content : List ℕ)
    → put_message_low s d content ≡ (te_ok, d')
    → s.sent d' ≡ s.sent d ++ frame 0 0 content
unfolding put_message_low send_mkiss
sent_frame s d d' content h =
    let out = frame 0 0 content in
    write_all_sent s d d' out (omega (arith, length-frame content))
      (wrote s (length out) (write_all s d out) d' (ap (λ r. r.0) h) (ap (λ r. r.1) h))

-- From one KISS tranceiver to another: if sending a content of up to 253 bytes reports TE_ok, the device
-- was given its frame, and where those bytes come over a line the content is queued as a message, or
-- refused, and what follows is left to read.
pub receive_round-put_message_low :
    (s : Stream) (d d' : s.Device) (site : Site) (self tv msg_id : ℕ) (content : List ℕ)
    (es : List Event) (t : Tranceiver) (cells : Cells) (work : List ℕ)
    → put_message_low s d content ≡ (te_ok, d')
    → length content + 1 ≤ max_packet_size
    → (out : List ℕ) × (r : Queued) × (s.sent d' ≡ s.sent d ++ out)
      × (receive_round site self tv msg_id (map byte out ++ es) t cells work ≡ (some r, es))
      × Outcome self (message tv (some self) msg_id content) t work r
unfolding receive_round
receive_round-put_message_low s d d' site self tv msg_id content es t cells work h fits =
    let m = message tv (some self) msg_id content in
    (
      frame 0 0 content,
      queue_incoming_message site self m t cells work,
      sent_frame s d d' content h,
      ap (queue_received site self tv msg_id t cells work)
          (recv_mkiss-frame 0 0 content es (omega arith) (omega arith) fits),
      queue_incoming_message_queues site self m t cells work,
    )
