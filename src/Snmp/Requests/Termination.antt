-- ===== src/Snmp/Requests/Termination.antt =====
-- The reading of a request ends: every element that is read starts behind the one that it is in.
use ham_router.Common.{
  ℕ, zero, suc, ◌+◌, ◌-◌, ◌≤◌, List, length, get_or, Bool, true, false, not, ◌&&◌, ltb, leb, ◌==◌,
  if◌then◌else◌, if_cases, ◌≢◌, ◌≡◌, refl, subst, arith,
}
use ham_router.Common.Int.{ℤ, pos}
use ham_router.Snmp.{get_integer}
use ham_router.Snmp.Requests.{
  OidReq, Reading, done, outside, runs_on, Agent, Kind, integer, octets, null, identifier, sequence,
  pdu, invalid, kind, less_one, is_set, set_version, set_community, slice, get_oid, add_oid, Field,
  pdu_integer, and_then, anyway, with_field, dispatch, process_ber, ber_loop, process_pdu,
  varbind_loop,
}

-- An answer of the program.
abbrev Ends : Reading → Type 0
Ends (done b req) = Unit
Ends outside = Unit
Ends runs_on = ⊥

and_then-Ends :
    (r : Reading) (k : OidReq → Reading)
    → Ends r
    → ((req : OidReq) → Ends (k req))
    → Ends (and_then r k)
and_then-Ends (done true req) k h hk = hk req
and_then-Ends (done false req) k h hk = tt
and_then-Ends outside k h hk = tt
and_then-Ends runs_on k h hk = h

anyway-Ends :
    (r : Reading) (k : OidReq → Reading)
    → Ends r
    → ((req : OidReq) → Ends (k req))
    → Ends (anyway r k)
anyway-Ends (done b req) k h hk = hk req
anyway-Ends outside k h hk = tt
anyway-Ends runs_on k h hk = h

dispatch-Ends :
    (t : Kind) (a b c d e : Reading) (f : Bool → Reading) (g : Reading)
    → Ends a
    → Ends b
    → Ends c
    → Ends d
    → Ends e
    → ((next : Bool) → Ends (f next))
    → Ends g
    → Ends (dispatch t a b c d e f g)
dispatch-Ends integer a b c d e f g ha hb hc hd he hf hg = ha
dispatch-Ends octets a b c d e f g ha hb hc hd he hf hg = hb
dispatch-Ends null a b c d e f g ha hb hc hd he hf hg = hc
dispatch-Ends identifier a b c d e f g ha hb hc hd he hf hg = hd
dispatch-Ends sequence a b c d e f g ha hb hc hd he hf hg = he
dispatch-Ends (pdu next) a b c d e f g ha hb hc hd he hf hg = hf next
dispatch-Ends invalid a b c d e f g ha hb hc hd he hf hg = hg

if-Ends : (c : Bool) (a b : Reading) → Ends a → Ends b → Ends (if c then a else b)
if-Ends c a b h k = if_cases Ends c h k

-- The branch behind a test, which may use that the test failed.
otherwise-Ends :
    (c : Bool) (a b : Reading) → Ends a → ((c ≡ false) → Ends b) → Ends (if c then a else b)
otherwise-Ends true a b h k = h
otherwise-Ends false a b h k = k refl

-- A field of a PDU ends at least two bytes behind its position.
with_field-Ends :
    (buf : List ℕ) (p len : ℕ) (req : OidReq) (k : ℕ → ℕ → Reading)
    → ((v next : ℕ) → p + 2 ≤ next → Ends (k v next))
    → Ends (with_field (pdu_integer buf p len) req k)
unfolding pdu_integer
with_field-Ends buf p len req k h =
    let n = get_or buf (p + 1) 0 in
    let P = λ (f : Field). Ends (with_field f req k) in
    if_cases P (ltb len 2) tt (
      if_cases P (leb (length buf) (p + 1)) tt (
        if_cases P (not (get_or buf p 0 == 0x02)) tt (
          if_cases P (ltb (length buf) (p + 2 + n)) tt
            (h (get_integer (slice buf (p + 2) n)) (p + 2 + n) (omega arith)))))

-- The fuel that is enough at a position: each element that is read starts two bytes further.
abbrev IsEnough : List ℕ → ℕ → ℕ → Type 0
IsEnough buf p fuel = length buf - p + 1 ≤ fuel

mutual
  unfolding process_ber ber_loop process_pdu varbind_loop

  process_ber-Ends :
      (a : Agent) (buf : List ℕ) (fuel p len : ℕ) (req : OidReq) (is_getnext : Bool) (is_top : ℤ)
      → IsEnough buf p (fuel - 1) × (1 ≤ fuel)
      → Ends (process_ber a buf fuel p len req is_getnext is_top)
  process_ber-Ends a buf zero p len req is_getnext is_top h = absurd (omega arith)
  process_ber-Ends a buf (suc fuel) p len req is_getnext is_top h =
      if_cases Ends (ltb len 2) tt
        (ber_loop-Ends a buf fuel p (p + len) true true req is_getnext is_top (omega arith))

  ber_loop-Ends :
      (a : Agent) (buf : List ℕ) (fuel pnt end : ℕ) (fi fo : Bool) (req : OidReq)
      (is_getnext : Bool) (is_top : ℤ)
      → IsEnough buf pnt fuel
      → Ends (ber_loop a buf fuel pnt end fi fo req is_getnext is_top)
  ber_loop-Ends a buf zero pnt end fi fo req is_getnext is_top h = absurd (omega arith)
  ber_loop-Ends a buf (suc fuel) pnt end fi fo req is_getnext is_top h =
      let n = get_or buf (pnt + 1) 0 in
      let here = pnt + 2 in
      let text = slice buf here n in
      let cut = ltb (length buf) (here + n) in
      let versioned = is_set is_top && fi in
      let read = get_oid a.format text in
      let go_on =
        λ (req' : OidReq). ber_loop a buf fuel (here + n) end fi fo req' is_getnext is_top in
      if_cases Ends (not (ltb (pnt + 1) end)) tt (
        otherwise-Ends (leb (length buf) (pnt + 1)) outside _ tt (λ inside.
          let enough : IsEnough buf here (fuel - 1) × (1 ≤ fuel) = ground arith in
          let further : IsEnough buf (here + n) fuel = omega (arith, enough) in
          let again = λ (req' : OidReq).
            ber_loop-Ends a buf fuel (here + n) end fi fo req' is_getnext is_top further in
          if_cases Ends (ltb end (here + n)) tt (
            dispatch-Ends (kind (get_or buf pnt 0)) _ _ _ _ _ _ _
              (if-Ends (versioned && cut) (outside)
                (ber_loop a buf fuel (here + n) end false fo (set_version versioned text req)
                  is_getnext is_top)
                tt
                (ber_loop-Ends a buf fuel (here + n) end false fo (set_version versioned text req)
                  is_getnext is_top further))
              (if-Ends cut (outside)
                (ber_loop a buf fuel (here + n) end fi false
                  (set_community (is_set is_top && fo) text req) is_getnext is_top)
                tt
                (ber_loop-Ends a buf fuel (here + n) end fi false
                  (set_community (is_set is_top && fo) text req) is_getnext is_top further))
              (again req)
              (if-Ends cut (outside)
                (if not read.0 then done false req else go_on (add_oid a is_getnext read.1 req)) tt
                (if-Ends (not read.0) (done false req) (go_on (add_oid a is_getnext read.1 req)) tt
                  (again (add_oid a is_getnext read.1 req))))
              (and_then-Ends _ go_on
                (process_ber-Ends a buf fuel here n req is_getnext (less_one is_top) enough) again)
              (λ next.
                and_then-Ends _ go_on
                  (process_pdu-Ends a buf fuel here n req (if next then true else is_getnext)
                    enough)
                  again)
              tt)))

  process_pdu-Ends :
      (a : Agent) (buf : List ℕ) (fuel p len : ℕ) (req : OidReq) (is_getnext : Bool)
      → IsEnough buf p (fuel - 1) × (1 ≤ fuel)
      → Ends (process_pdu a buf fuel p len req is_getnext)
  process_pdu-Ends a buf zero p len req is_getnext h = absurd (omega arith)
  process_pdu-Ends a buf (suc fuel) p len req is_getnext h =
      with_field-Ends buf p len req _ (λ id p1 h1. with_field-Ends buf p1 len _ _ (λ e p2 h2.
        with_field-Ends buf p2 len _ _ (λ i p3 h3.
          let req' = record req { req_id = id } in
          let looped =
            varbind_loop a buf fuel (p3 + 2) (p3 + 2 + get_or buf (p3 + 1) 0) req' is_getnext in
          let third = if leb (length buf) (p3 + 1) then outside else looped in
          if-Ends (leb (length buf) p3) (outside)
            (if not (get_or buf p3 0 == 0x30) then done false req' else third) tt
            (if-Ends (not (get_or buf p3 0 == 0x30)) (done false req') (third) tt (
              if-Ends (leb (length buf) (p3 + 1)) (outside) (looped) tt (
                varbind_loop-Ends a buf fuel (p3 + 2) (p3 + 2 + get_or buf (p3 + 1) 0) req'
                  is_getnext (omega arith)))))))

  varbind_loop-Ends :
      (a : Agent) (buf : List ℕ) (fuel pnt end : ℕ) (req : OidReq) (is_getnext : Bool)
      → IsEnough buf pnt fuel
      → Ends (varbind_loop a buf fuel pnt end req is_getnext)
  varbind_loop-Ends a buf zero pnt end req is_getnext h = absurd (omega arith)
  varbind_loop-Ends a buf (suc fuel) pnt end req is_getnext h =
      let n = get_or buf (pnt + 1) 0 in
      let go_on = λ (req' : OidReq). varbind_loop a buf fuel (pnt + 2 + n) end req' is_getnext in
      if_cases Ends (not (ltb pnt end)) tt (
        otherwise-Ends (leb (length buf) (pnt + 1)) outside _ tt (λ inside.
          let enough : IsEnough buf (pnt + 2) (fuel - 1) × (1 ≤ fuel) = ground arith in
          let inner = process_ber a buf fuel (pnt + 2) n req is_getnext (pos 0) in
          let last = if get_or buf pnt 0 == 0x30 then anyway inner go_on else done false req in
          if-Ends (ltb end (pnt + 2 + n)) (done false req) (last) tt (
            if-Ends (get_or buf pnt 0 == 0x30) (anyway inner go_on) (done false req)
              (anyway-Ends _ go_on
                (process_ber-Ends a buf fuel (pnt + 2) n req is_getnext (pos 0) enough)
                (λ req'.
                  varbind_loop-Ends a buf fuel (pnt + 2 + n) end req' is_getnext
                    (omega (arith, enough))))
              tt)))

-- The reading of a request always ends, whatever the packet is: two units of fuel more than the buffer
-- has bytes behind the position are enough.
pub process_ber-ne-runs_on :
    (a : Agent) (buf : List ℕ) (fuel p len : ℕ) (req : OidReq) (is_getnext : Bool) (is_top : ℤ)
    → length buf - p + 2 ≤ fuel
    → process_ber a buf fuel p len req is_getnext is_top ≢ runs_on
process_ber-ne-runs_on a buf fuel p len req is_getnext is_top h e =
    subst Ends e (process_ber-Ends a buf fuel p len req is_getnext is_top (omega arith))
