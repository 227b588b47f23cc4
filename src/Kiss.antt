-- ===== src/Kiss.antt =====
-- tranceiver-kiss.cpp: packets over a serial line, framed by FEND and escaped by FESC.
pub mod Stuffing
pub mod RoundTrip
pub mod Receive
pub mod Thread
use ham_router.Common.{
  ℕ, zero, suc, ◌+◌, ◌*◌, ◌/◌, ◌%◌, ◌^◌, bit_or, bit_and, List, [], ◌∷◌, ◌++◌, length, drop, get_or,
  Bool, true, false, ◌==◌, if◌then◌else◌, Option, none, some,
}
use ham_router.Common.Int.{ℤ, pos, negsuc}
use ham_router.Transmit.{TransmitError, te_ok, te_hardware}
use ham_router.Net.Write.{Stream, write_all}

abbrev pub fend : ℕ
fend = 0xc0

abbrev pub fesc : ℕ
fesc = 0xdb

abbrev pub tfend : ℕ
tfend = 0xdc

abbrev pub tfesc : ℕ
tfesc = 0xdd

-- MAX_PACKET_SIZE of net.h.
abbrev pub max_packet_size : ℕ
max_packet_size = 254

-- What one `read(fd, &buffer, 1)` does: it gives a byte, or reports the end of the file (and leaves
-- `buffer` at 0), or fails with EINTR, or fails. A list of events ends where `terminate` is set.
pub data Event : Type 0 where
  byte : ℕ → Event
  eof interrupted failed : Event

-- How a round of the loop ends: out of the loop, or into the next round.
pub data Next : Type 0 where
  leave : Bool → Next
  again : Bool → List ℕ → Next

-- A byte that follows an escape.
pub escaped : List ℕ → ℕ → Next
escaped p c =
    if length p == max_packet_size
    then leave false
    else again false
        (if c == tfend then p ++ fend ∷ [] else if c == tfesc then p ++ fesc ∷ [] else p)

pub plain : List ℕ → ℕ → Next
plain p c =
    if c == fend
    then (if length p == 0 then again false p else leave true)
    else if c == fesc
    then again true p
    else if length p == max_packet_size
    then leave false
    else again false (p ++ c ∷ [])

pub accept : Bool → List ℕ → ℕ → Next
unfolding escaped plain
accept true p c = escaped p c
accept false p c = plain p c

abbrev pub Received : Type 0
Received = Option (List ℕ) × List Event

-- The end of a round: the bytes are a packet if the loop was left by the closing FEND.
abbrev pub turn : (Bool → List ℕ → Received) → List ℕ → List Event → Next → Received
turn rec p es (leave ok) = (if ok then some p else none, es)
turn rec p es (again escape p') = rec escape p'

-- The `for` loop: the bytes of a packet, and what was not read.
pub recv_loop : Bool → List ℕ → List Event → Received
unfolding accept
recv_loop escape p [] = (none, [])
recv_loop escape p (interrupted ∷ es) = recv_loop escape p es
recv_loop escape p (failed ∷ es) = (none, es)
recv_loop escape p (eof ∷ es) = turn (λ e q. recv_loop e q es) p es (accept escape p 0)
recv_loop escape p (byte c ∷ es) = turn (λ e q. recv_loop e q es) p es (accept escape p c)

-- The packet is what follows the command byte; the commands themselves are only logged. The source copies
-- it to the front of its own buffer by `memcpy`, which is undefined where the places overlap, and is
-- here the move that is meant.
pub payload : Option (List ℕ) → Option (List ℕ)
payload none = none
payload (some p) = if length p == 0 then none else some (drop 1 p)

unfoldable pub recv_mkiss : List Event → Received
unfolding recv_loop payload
recv_mkiss es = let (p, rest) = recv_loop false [] es in (payload p, rest)

unfoldable pub escape_put : List ℕ → ℕ → List ℕ
escape_put p c =
    if c == fend
    then p ++ fesc ∷ tfend ∷ []
    else if c == fesc
    then p ++ fesc ∷ tfesc ∷ []
    else p ++ c ∷ []

put_all : List ℕ → List ℕ → List ℕ
unfolding escape_put
put_all out [] = out
put_all out (c ∷ cs) = put_all (escape_put out c) cs

-- The buffer that `send_mkiss` fills. Its `assert`s are the hypotheses `cmd < 16`, `channel < 16`.
unfoldable pub frame : ℕ → ℕ → List ℕ → List ℕ
unfolding escape_put put_all
frame cmd channel p =
    put_all (escape_put (fend ∷ []) (bit_or (channel * 2 ^ 4) cmd % 256)) p ++ fend ∷ []

-- The size that it allocates for it, which is one byte too small for a command byte that is escaped and a
-- packet of bytes that all are.
unfoldable pub max_len : List ℕ → ℕ
max_len p = length p * 2 + 3

module _ (s : Stream) where
  open s use {Device}

  abbrev pub wrote_all : ℕ → ℤ → Bool
  wrote_all n (pos k) = k == n
  wrote_all n (negsuc k) = false

  unfoldable pub send_mkiss : Device → ℕ → ℕ → List ℕ → Bool × Device
  send_mkiss d cmd channel p =
      let out = frame cmd channel p in
      let (rc, d') = write_all s d out in (wrote_all (length out) rc, d')

  unfoldable pub put_message_low : Device → List ℕ → TransmitError × Device
  put_message_low d content =
      let (sent, d') = send_mkiss d 0 0 content in (if sent then te_ok else te_hardware, d')
