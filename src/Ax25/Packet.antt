-- ===== src/Ax25/Packet.antt =====
-- A packet that is written and read back.
use ham_router.Common.{
  ℕ, ◌+◌, ◌%◌, List, [], ◌∷◌, ◌++◌, length, get_or, take, drop, true, false, ltb, if◌then◌else◌,
  none, some, ◌≡◌, refl, sym, ap, ap₂, ◌∙◌, arith, append_assoc, length-append, take-append,
  drop-append, get_or-append,
}
use ham_router.Buffer.{make}
use ham_router.Ax25.{
  Ax25Address, Ax25, packet, ax25_address, assign_address, generate_address, read_seen_by,
  read_body, read_packet, ax25, no_packet, generate_packet,
}
use ham_router.Ax25.Address.{IsWritable, ax25_address-generate_address, length-generate_address}

-- The bytes of an unnumbered packet, addresses first.
abbrev pub wire : List ℕ → List ℕ → ℕ → ℕ → List ℕ → List ℕ
wire t f control pid text = t ++ (f ++ (control ∷ pid ∷ text))

pub generate_packet-wire :
    (p : Ax25) (pid : ℕ)
    → p.control % 4 ≡ 3
    → p.pid ≡ some pid
    → generate_packet p
      ≡ some (wire (generate_address p.to) (generate_address p.from) p.control pid p.payload.p)
unfolding generate_packet
generate_packet-wire p pid u e =
    let t : List ℕ = generate_address p.to in
    let f : List ℕ = generate_address p.from in
    let c : ℕ = p.control in
    rw (u, e)
      (ap some (
        append_assoc (t ++ f ++ c ∷ []) (pid ∷ []) p.payload.p
        ∙ append_assoc (t ++ f) (c ∷ []) (pid ∷ p.payload.p)
        ∙ append_assoc t f (c ∷ pid ∷ p.payload.p)))

read_body-wire :
    (h text : List ℕ) (c pid : ℕ) (q : Ax25)
    → c % 4 ≡ 3
    → length h ≡ 14
    → q.payload ≡ make []
    → read_body (h ++ (c ∷ pid ∷ text)) 14 q
      ≡ packet (record q {
        msg_nr = none;
        pid = some pid;
        payload = make (if ltb 1 (length text) then text else []);
        valid = true;
      })
unfolding read_body
read_body-wire h text c pid q u n e =
    let input : List ℕ = h ++ (c ∷ pid ∷ text) in
    let size = length-append h (c ∷ pid ∷ text) in
    let control : get_or input 14 0 ≡ c =
      ap (λ i. get_or input i 0) (sym n) ∙ get_or-append h c 0 (pid ∷ text) in
    let line : input ≡ (h ++ c ∷ []) ++ (pid ∷ text) = sym (append_assoc h (c ∷ []) (pid ∷ text)) in
    let more : length (h ++ c ∷ []) ≡ 15 = length-append h (c ∷ []) ∙ ap (λ n. n + 1) n in
    let second : get_or input 15 0 ≡ pid =
      ap₂ (λ l i. get_or l i 0) line (sym more) ∙ get_or-append (h ++ c ∷ []) pid 0 text in
    let whole : input ≡ (h ++ c ∷ pid ∷ []) ++ text = sym (append_assoc h (c ∷ pid ∷ []) text) in
    let all : length (h ++ c ∷ pid ∷ []) ≡ 16 =
      length-append h (c ∷ pid ∷ []) ∙ ap (λ n. n + 2) n in
    let rest : drop 16 input ≡ text =
      ap₂ drop (sym all) whole ∙ drop-append (h ++ c ∷ pid ∷ []) text in
    rw (control, u, second, rest, e) ground arith

addresses-wire :
    (t f rest : List ℕ)
    → length t ≡ 7
    → length f ≡ 7
    → (take 7 (t ++ (f ++ rest)) ≡ t) × (take 7 (drop 7 (t ++ (f ++ rest))) ≡ f)
addresses-wire t f rest n k = (
  ap (λ i. take i (t ++ (f ++ rest))) (sym n) ∙ take-append t (f ++ rest),
  ap (λ i. take 7 (drop i (t ++ (f ++ rest)))) (sym n)
      ∙ ap (take 7) (drop-append t (f ++ rest))
      ∙ ap (λ i. take i (f ++ rest)) (sym k)
      ∙ take-append f rest,
)

-- The packet when its addresses were read.
abbrev addressed : Ax25Address → Ax25Address → Ax25
addressed to from = record no_packet {
  to = assign_address to;
  from = assign_address from;
  seen_by = [];
}

read_packet_last :
    (input : List ℕ) (to from : Ax25Address)
    → to.valid ≡ true
    → from.valid ≡ true
    → from.end_mark ≡ true
    → read_packet input to from
      ≡ read_body input 14 (record no_packet { to = to; from = from; seen_by = [] })
unfolding read_packet read_seen_by
read_packet_last input to from vt vf e = simp (vt, vf, e) refl

ax25-wire :
    (t f rest : List ℕ) (to from : Ax25Address)
    → length t ≡ 7
    → length f ≡ 7
    → ax25_address t ≡ to
    → ax25_address f ≡ from
    → from.end_mark ≡ true
    → ax25 (t ++ (f ++ rest)) ≡ read_body (t ++ (f ++ rest)) 14 (addressed to from)
unfolding ax25 assign_address
ax25-wire t f rest to from nt nf et ef last =
    let input : List ℕ = t ++ (f ++ rest) in
    let (to_bytes, from_bytes) = addresses-wire t f rest nt nf in
    let read_to : ax25_address (take 7 input) ≡ to = ap ax25_address to_bytes ∙ et in
    let read_from : ax25_address (take 7 (drop 7 input)) ≡ from = ap ax25_address from_bytes ∙ ef in
    let big : ltb (length input) 14 ≡ false =
      ground (arith, length-append t (f ++ rest), length-append f rest) in
    rw big (
      ap₂ (λ a b. read_packet input (assign_address a) (assign_address b)) read_to read_from
      ∙ read_packet_last input (assign_address to) (assign_address from) refl refl last)

-- A packet with an unnumbered control byte, a PID and addresses that can be written (at most six
-- characters of seven bits, no NUL and no space, and an SSID of the sixteen characters from 0 on),
-- of which that of the origin has the end mark, is written, and read back with its addresses, its
-- PID and its data. Digipeaters and the control byte do not come back, and data of one byte neither.
pub ax25-generate_packet :
    (p : Ax25) (pid : ℕ)
    → IsWritable p.to
    → IsWritable p.from
    → p.from.end_mark ≡ true
    → p.control % 4 ≡ 3
    → p.pid ≡ some pid
    → (bytes : List ℕ) × (generate_packet p ≡ some bytes)
      × (ax25 bytes
          ≡ packet (record {
            valid = true;
            from = assign_address p.from;
            to = assign_address p.to;
            seen_by = [];
            control = 0;
            msg_nr = none;
            pid = some pid;
            payload = make (if ltb 1 (length p.payload.p) then p.payload.p else []);
          }))
unfolding assign_address
ax25-generate_packet p pid wt wf e u some_pid =
    let t : List ℕ = generate_address p.to in
    let f : List ℕ = generate_address p.from in
    let c : ℕ = p.control in
    let text : List ℕ = p.payload.p in
    let tail : List ℕ = c ∷ pid ∷ text in
    let nt = length-generate_address p.to in
    let nf = length-generate_address p.from in
    let to : Ax25Address = assign_address p.to in
    let from : Ax25Address = assign_address p.from in
    let head : length (t ++ f) ≡ 14 = omega (arith, length-append t f) in
    (
      wire t f c pid text,
      generate_packet-wire p pid u some_pid,
      ax25-wire t f tail to from nt nf (ax25_address-generate_address p.to wt)
            (ax25_address-generate_address p.from wf) e
          ∙ ap (λ i. read_body i 14 (addressed to from)) (sym (append_assoc t f tail))
          ∙ read_body-wire (t ++ f) text c pid (addressed to from) u head refl,
    )
