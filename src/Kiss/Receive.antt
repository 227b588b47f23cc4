-- ===== src/Kiss/Receive.antt =====
-- `recv_mkiss` on any line, well formed or not.
use ham_router.Common.{
  ℕ, ◌+◌, ◌≤◌, List, [], ◌∷◌, length, ◌≡◌, refl, ap, arith, length-append, Option, none, some, Bool,
  true, false,
}
use ham_router.Kiss.{
  fend, fesc, max_packet_size, Event, byte, eof, interrupted, failed, Next, leave, again, escaped,
  plain, accept, Received, turn, recv_loop, recv_mkiss, payload,
}

-- The line without the reads that a signal interrupted.
unfoldable pub uninterrupted : List Event → List Event
uninterrupted [] = []
uninterrupted (interrupted ∷ es) = uninterrupted es
uninterrupted (byte c ∷ es) = byte c ∷ uninterrupted es
uninterrupted (eof ∷ es) = eof ∷ uninterrupted es
uninterrupted (failed ∷ es) = failed ∷ uninterrupted es

abbrev quiet : Received → Received
quiet r = (r.0, uninterrupted r.1)

turn-quiet :
    (rec rec' : Bool → List ℕ → Received) (p : List ℕ) (es : List Event) (n : Next)
    → ((e : Bool) (q : List ℕ) → rec' e q ≡ quiet (rec e q))
    → turn rec' p (uninterrupted es) n ≡ quiet (turn rec p es n)
turn-quiet rec rec' p es (leave ok) h = refl
turn-quiet rec rec' p es (again e q) h = h e q

loop_quiet :
    (escape : Bool) (p : List ℕ) (es : List Event)
    → recv_loop escape p (uninterrupted es) ≡ quiet (recv_loop escape p es)
unfolding uninterrupted recv_loop
loop_quiet escape p [] = refl
loop_quiet escape p (interrupted ∷ es) = loop_quiet escape p es
loop_quiet escape p (failed ∷ es) = refl
loop_quiet escape p (byte c ∷ es) =
    turn-quiet (λ e q. recv_loop e q es) (λ e q. recv_loop e q (uninterrupted es)) p es
      (accept escape p c) (λ e q. loop_quiet e q es)
loop_quiet escape p (eof ∷ es) =
    turn-quiet (λ e q. recv_loop e q es) (λ e q. recv_loop e q (uninterrupted es)) p es
      (accept escape p 0) (λ e q. loop_quiet e q es)

-- Interrupted reads are retried: without them the same packet is received, and the same is left to
-- read but for them.
pub recv_mkiss-uninterrupted :
    (es : List Event)
    → recv_mkiss (uninterrupted es) ≡ ((recv_mkiss es).0, uninterrupted (recv_mkiss es).1)
unfolding recv_mkiss
recv_mkiss-uninterrupted es = ap (λ r. (payload r.0, r.1)) (loop_quiet false [] es)

-- A round keeps the bytes inside the buffer.
abbrev Fits : Next → Type 0
Fits (leave ok) = Unit {0}
Fits (again e q) = length q ≤ max_packet_size

escaped-Fits : (p : List ℕ) (c : ℕ) → length p ≤ max_packet_size → Fits (escaped p c)
unfolding escaped
escaped-Fits p c h = ground (arith, length-append p (fend ∷ []), length-append p (fesc ∷ []))

accept-Fits :
    (escape : Bool) (p : List ℕ) (c : ℕ) → length p ≤ max_packet_size → Fits (accept escape p c)
unfolding accept
accept-Fits true p c h = escaped-Fits p c h
accept-Fits false p c h = unfold plain in ground (arith, length-append p (c ∷ []))

turn-Fits :
    (rec : Bool → List ℕ → Received) (p q : List ℕ) (es : List Event) (n : Next)
    → length p ≤ max_packet_size
    → Fits n
    → ((e : Bool) (p' : List ℕ)
        → length p' ≤ max_packet_size
        → (rec e p').0 ≡ some q
        → length q ≤ max_packet_size)
    → (turn rec p es n).0 ≡ some q
    → length q ≤ max_packet_size
turn-Fits rec p q es (leave true) h f ih e = ground arith
turn-Fits rec p q es (leave false) h f ih e = cc
turn-Fits rec p q es (again x p') h f ih e = ih x p' f e

loop_fits :
    (escape : Bool) (p : List ℕ) (es : List Event) (q : List ℕ)
    → length p ≤ max_packet_size
    → (recv_loop escape p es).0 ≡ some q
    → length q ≤ max_packet_size
unfolding recv_loop
loop_fits escape p [] q h e = cc
loop_fits escape p (interrupted ∷ es) q h e = loop_fits escape p es q h e
loop_fits escape p (failed ∷ es) q h e = cc
loop_fits escape p (byte c ∷ es) q h e =
    turn-Fits (λ e q. recv_loop e q es) p q es (accept escape p c) h (accept-Fits escape p c h)
      (λ x p'. loop_fits x p' es q) e
loop_fits escape p (eof ∷ es) q h e =
    turn-Fits (λ e q. recv_loop e q es) p q es (accept escape p 0) h (accept-Fits escape p 0 h)
      (λ x p'. loop_fits x p' es q) e

payload_some :
    (o : Option (List ℕ)) (p : List ℕ)
    → payload o ≡ some p
    → (q : List ℕ) × (o ≡ some q) × (length p + 1 ≡ length q)
unfolding payload
payload_some none p e = cc
payload_some (some []) p e = cc
payload_some (some (c ∷ q)) p e = (c ∷ q, refl, ground arith)

-- Whatever comes over the line, the bytes of a packet fit the buffer with its command byte.
pub recv_mkiss_fits :
    (es : List Event) (p : List ℕ) → (recv_mkiss es).0 ≡ some p → length p + 1 ≤ max_packet_size
unfolding recv_mkiss
recv_mkiss_fits es p e =
    let (q, got, len) = payload_some (recv_loop false [] es).0 p e in
    omega (arith, loop_fits false [] es q (omega arith) got)
