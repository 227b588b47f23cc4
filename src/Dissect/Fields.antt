-- ===== src/Dissect/Fields.antt =====
-- The fields of an AX.25 packet that was generated.
use ham_router.Common.{
  ℕ, zero, suc, ◌%◌, ◌≤◌, List, [], ◌∷◌, ◌++◌, length, get_or, true, false, ltb, ◌==◌,
  if◌then◌else◌, Option, none, some, codes, ◌≡◌, refl, sym, ap, ◌∙◌, arith, length-append,
  append_assoc, get_or-append,
}
use ham_router.Common.Assoc.{find, insert}
use ham_router.Text.{dump_replace}
use ham_router.Message.{Meta, db_record_gen_string}
use ham_router.Gps.{Degrees}
use ham_router.Buffer.{make}
use ham_router.Ax25.{
  Ax25, packet, Ax25Address, ax25, generate_address, generate_packet, assign_address,
}
use ham_router.Ax25.Address.{IsWritable, length-generate_address, get_or-generate_address}
use ham_router.Ax25.Packet.{wire, generate_packet-wire, ax25-generate_packet}
use ham_router.Dissect.{
  nothing, fields, insert_text, insert_protocol, protocol_of, bit_0_set, ax25_fields, parse_ax25,
  parse_aprs, dissect_packet,
}

bit_0_set-address :
    (a : Ax25Address) (rest : List ℕ) (n : ℕ)
    → n ≤ 6
    → bit_0_set n (generate_address a ++ rest) ≡ false
unfolding bit_0_set
bit_0_set-address a rest zero h = refl
bit_0_set-address a rest (suc n) h =
    ground (arith, bit_0_set-address a rest n, get_or-generate_address a rest n)

-- The bytes of a packet whose second byte is even are not taken for APRS.
parse_aprs-even :
    (d : Degrees) (work : List ℕ) → get_or work 1 0 % 2 ≡ 0 → parse_aprs d work ≡ nothing
unfolding parse_aprs
parse_aprs-even d work h =
    let other : (get_or work 1 0 == 0xff) ≡ false = ground arith in ground (arith, other)

-- The packet that comes back from a generated one.
abbrev pub dissected_packet : Ax25 → ℕ → Ax25
dissected_packet p pid = record {
  valid = true;
  from = assign_address p.from;
  to = assign_address p.to;
  seen_by = [];
  control = 0;
  msg_nr = none;
  pid = some pid;
  payload = make (if ltb 1 (length p.payload.p) then p.payload.p else []);
}

parse_ax25-wire :
    (p q : Ax25) (pid : ℕ)
    → p.control % 4 ≡ 3
    → ax25 (wire (generate_address p.to) (generate_address p.from) p.control pid p.payload.p)
      ≡ packet q
    → parse_ax25 (wire (generate_address p.to) (generate_address p.from) p.control pid p.payload.p)
      ≡ fields (ax25_fields q) (some q)
unfolding parse_ax25
parse_ax25-wire p q pid u e =
    let t : List ℕ = generate_address p.to in
    let f : List ℕ = generate_address p.from in
    let rest : List ℕ = p.control ∷ pid ∷ p.payload.p in
    let nt = length-generate_address p.to in
    let nf = length-generate_address p.from in
    let long : ltb (length (t ++ (f ++ rest))) 16 ≡ false =
      ground (arith, length-append t (f ++ rest), length-append f rest) in
    let even = bit_0_set-address p.to (f ++ rest) 6 (omega arith) in
    let head : length (t ++ f) ≡ 14 = omega (arith, length-append t f) in
    let control : get_or (t ++ (f ++ rest)) 14 0 ≡ p.control =
      ap (λ l. get_or l 14 0) (sym (append_assoc t f rest))
      ∙ ap (λ i. get_or ((t ++ f) ++ rest) i 0) (sym head)
      ∙ get_or-append (t ++ f) p.control 0 (pid ∷ p.payload.p) in
    rw (long, even, control, u, e) refl

found_with :
    (r : Option (List ℕ)) (q : Ax25)
    → let m = insert_protocol r (
        insert_text (codes "payload") (dump_replace q.payload.p) (
          insert_text (codes "to") q.to.address (
            insert_text
              (codes "from")
              q.from.address
              (insert_text (codes "protocol") (codes "AX.25") [])))) in
      (find (codes "protocol") m ≡ some (db_record_gen_string (codes "AX.25")))
      × (find (codes "from") m ≡ some (db_record_gen_string q.from.address))
      × (find (codes "to") m ≡ some (db_record_gen_string q.to.address))
      × (find (codes "payload") m ≡ some (db_record_gen_string (dump_replace q.payload.p)))
unfolding find insert
found_with none q = (refl, refl, refl, refl)
found_with (some text) q = (refl, refl, refl, refl)

-- What the fields of a packet are.
found_fields :
    (q : Ax25)
    → (find (codes "protocol") (ax25_fields q) ≡ some (db_record_gen_string (codes "AX.25")))
      × (find (codes "from") (ax25_fields q) ≡ some (db_record_gen_string q.from.address))
      × (find (codes "to") (ax25_fields q) ≡ some (db_record_gen_string q.to.address))
      × (find (codes "payload") (ax25_fields q)
          ≡ some (db_record_gen_string (dump_replace q.payload.p)))
unfolding ax25_fields find insert
found_fields q = found_with (protocol_of q.pid) q

-- The dissection of a generated packet, with the packet that is read back.
pub dissect_packet-ax25_fields :
    (d : Degrees) (p : Ax25) (pid : ℕ)
    → IsWritable p.to
    → IsWritable p.from
    → p.from.end_mark ≡ true
    → p.control % 4 ≡ 3
    → p.pid ≡ some pid
    → (bytes : List ℕ) × (generate_packet p ≡ some bytes)
      × (ax25 bytes ≡ packet (dissected_packet p pid))
      × (dissect_packet d bytes
          ≡ fields (ax25_fields (dissected_packet p pid)) (some (dissected_packet p pid)))
unfolding dissect_packet assign_address
dissect_packet-ax25_fields d p pid wt wf e u some_pid =
    let bytes : List ℕ =
      wire (generate_address p.to) (generate_address p.from) p.control pid p.payload.p in
    let q : Ax25 = dissected_packet p pid in
    let written = generate_packet-wire p pid u some_pid in
    let (b, again, back) = ax25-generate_packet p pid wt wf e u some_pid in
    let same : b ≡ bytes = cc in
    let read : ax25 bytes ≡ packet q = ap ax25 (sym same) ∙ back in
    let other = parse_aprs-even d bytes (get_or-generate_address p.to _ 1 (omega arith)) in
    (bytes, written, read, rw other (parse_ax25-wire p q pid u read))

-- A packet with an unnumbered control byte, a PID and addresses that can be written (at most six
-- characters of seven bits, no NUL and no space, and an SSID of the sixteen characters from 0 on),
-- of which that of the origin has the end mark, is generated, read back and dissected as AX.25,
-- whatever it carries: its fields name the protocol, its two callsigns and the printable form of its
-- data, less data of one byte.
pub dissect_packet-generate_packet :
    (d : Degrees) (p : Ax25) (pid : ℕ)
    → IsWritable p.to
    → IsWritable p.from
    → p.from.end_mark ≡ true
    → p.control % 4 ≡ 3
    → p.pid ≡ some pid
    → (bytes : List ℕ) × (q : Ax25) × (m : Meta) × (generate_packet p ≡ some bytes)
      × (ax25 bytes ≡ packet q)
      × (dissect_packet d bytes ≡ fields m (some q))
      × (find (codes "protocol") m ≡ some (db_record_gen_string (codes "AX.25")))
      × (find (codes "from") m ≡ some (db_record_gen_string p.from.address))
      × (find (codes "to") m ≡ some (db_record_gen_string p.to.address))
      × (find (codes "payload") m
          ≡ some (
              db_record_gen_string
                (dump_replace (if ltb 1 (length p.payload.p) then p.payload.p else []))))
unfolding assign_address
dissect_packet-generate_packet d p pid wt wf e u some_pid =
    let (bytes, written, read, dissected) = dissect_packet-ax25_fields d p pid wt wf e u some_pid in
    let q : Ax25 = dissected_packet p pid in
    let (protocol, from, to, payload) = found_fields q in
    (bytes, q, ax25_fields q, written, read, dissected, protocol, from, to, payload)
