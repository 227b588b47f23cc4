-- ===== src/Kiss/RoundTrip.antt =====
-- What is sent is received.
use ham_router.Common.{
  ℕ, ◌+◌, ◌*◌, ◌≤◌, ◌<◌, List, [], ◌∷◌, ◌++◌, map, length, ◌≡◌, refl, sym, ap, ◌∙◌, arith,
  append_assoc, append-nil, length-append, some, false,
}
use ham_router.Kiss.{
  fend, max_packet_size, Event, byte, escaped, plain, accept, recv_loop, recv_mkiss, payload, frame,
}
use ham_router.Kiss.Stuffing.{stuffed, stuffed_all, frame-stuffed}
use mathlib.Core.List.{map-append}

recv_stuffed :
    (p : List ℕ) (c : ℕ) (es : List Event)
    → length p < max_packet_size
    → recv_loop false p (map byte (stuffed c) ++ es) ≡ recv_loop false (p ++ c ∷ []) es
unfolding stuffed recv_loop accept escaped plain
recv_stuffed p c es h = ground arith

recv_stuffed_all :
    (p cs : List ℕ) (es : List Event)
    → length p + length cs ≤ max_packet_size
    → recv_loop false p (map byte (stuffed_all cs) ++ es) ≡ recv_loop false (p ++ cs) es
unfolding stuffed_all
recv_stuffed_all p [] es h = ap (λ q. recv_loop false q es) (sym (append-nil p))
recv_stuffed_all p (c ∷ cs) es h =
    ap (λ b. recv_loop false p b)
      (ap (λ b. b ++ es) (map-append byte (stuffed c) (stuffed_all cs))
        ∙ append_assoc (map byte (stuffed c)) (map byte (stuffed_all cs)) es)
    ∙ recv_stuffed p c (map byte (stuffed_all cs) ++ es) (omega arith)
    ∙ recv_stuffed_all (p ++ c ∷ []) cs es (omega (arith, length-append p (c ∷ [])))
    ∙ ap (λ q. recv_loop false q es) (append_assoc p (c ∷ []) cs)

-- The closing FEND ends the packet, the opening one is passed over.
recv_open : (es : List Event) → recv_loop false [] (byte fend ∷ es) ≡ recv_loop false [] es
unfolding recv_loop accept plain
recv_open es = refl

recv_close :
    (c : ℕ) (p : List ℕ) (es : List Event)
    → recv_loop false (c ∷ p) (byte fend ∷ es) ≡ (some (c ∷ p), es)
unfolding recv_loop accept plain
recv_close c p es = ground arith

-- A packet of up to 253 bytes that `send_mkiss` frames is received whole by `recv_mkiss`, on any
-- channel and with any command, and what comes behind the frame is left for the next call.
pub recv_mkiss-frame :
    (cmd channel : ℕ) (p : List ℕ) (es : List Event)
    → cmd < 16
    → channel < 16
    → length p + 1 ≤ max_packet_size
    → recv_mkiss (map byte (frame cmd channel p) ++ es) ≡ (some p, es)
unfolding recv_mkiss
recv_mkiss-frame cmd channel p es h k fits =
    let b : ℕ = channel * 16 + cmd in
    let inner : List ℕ = stuffed_all (b ∷ p) in
    let line : map byte (frame cmd channel p) ++ es ≡ byte fend ∷ map byte inner ++ byte fend ∷ es =
      ap (λ f. map byte f ++ es) (frame-stuffed cmd channel p h k)
      ∙ ap (λ f. byte fend ∷ f ++ es) (map-append byte inner (fend ∷ []))
      ∙ ap (λ f. byte fend ∷ f) (append_assoc (map byte inner) (byte fend ∷ []) es) in
    let run : recv_loop false [] (map byte (frame cmd channel p) ++ es) ≡ (some (b ∷ p), es) =
      ap (recv_loop false []) line
      ∙ recv_open (map byte inner ++ byte fend ∷ es)
      ∙ recv_stuffed_all [] (b ∷ p) (byte fend ∷ es) (omega arith)
      ∙ recv_close b p es in
    ap (λ r. (payload r.0, r.1)) run ∙ unfold payload in ground arith
