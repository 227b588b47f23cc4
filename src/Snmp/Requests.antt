-- ===== src/Snmp/Requests.antt =====
-- The reading of requests in snmp.cpp: BER elements, and the PDUs among them. The packet stands in a
-- buffer; a pointer into it is a position, and a read behind the buffer is an outcome.
pub mod Termination
use ham_router.Common.{
  ℕ, zero, suc, ◌+◌, ◌-◌, ◌*◌, ◌%◌, ◌^◌, bit_or, bit_and, List, [], ◌∷◌, ◌++◌, length, get_or, take,
  drop, Bool, true, false, not, ◌&&◌, ltb, leb, ◌==◌, if◌then◌else◌, Option, none, some, codes,
}
use ham_router.Common.Int.{ℤ, pos, negsuc}
use ham_router.Snmp.{get_integer}

-- `oid_req_t`
pub record OidReq : Type 0 where
  pub oids : List (List ℕ)
  pub req_id : ℕ
  pub err : ℕ
  pub err_idx : ℕ
  pub version : ℕ
  pub community : List ℕ

abbrev pub oid_req : OidReq
oid_req = record { oids = []; req_id = 0; err = 0; err_idx = 0; version = 0; community = [] }

-- What a function that reads returns, with the request so far; `runs_on` is no answer of the program:
-- the fuel ran out.
pub data Reading : Type 0 where
  done : Bool → OidReq → Reading
  outside runs_on : Reading

-- The format `%d` of the C library, and `find_next_oid` of the data.
pub record Agent : Type 0 where
  pub format : ℕ → List ℕ
  pub find_next_oid : List ℕ → List ℕ

-- The loop of `get_OID`: whether it ended with a whole number, and the text.
unfoldable pub oid_loop : (ℕ → List ℕ) → Bool → ℕ → List ℕ → List ℕ → Bool × List ℕ
oid_loop format first v out [] = (v == 0, out)
oid_loop format first v out (c ∷ cs) =
    let w = bit_or (v * 2 ^ 7 % 2 ^ 32) (bit_and c 127) in
    let ended =
      oid_loop format false 0
        (if first && w == 43 then out ++ codes "1.3" else out ++ (codes "." ++ format w)) cs in
    let goes_on = oid_loop format false w out cs in if ltb c 128 then ended else goes_on

unfoldable pub get_oid : (ℕ → List ℕ) → List ℕ → Bool × List ℕ
unfolding oid_loop
get_oid format p = oid_loop format true 0 [] p

pub data Kind : Type 0 where
  integer octets null identifier sequence : Kind
  pdu : Bool → Kind
  invalid : Kind

-- The types of elements; a GetNextRequest has `true`.
unfoldable pub kind : ℕ → Kind
kind type =
    if type == 0x02
    then integer
    else if type == 0x04
    then octets
    else if type == 0x05
    then null
    else if type == 0x06
    then identifier
    else if type == 0x30
    then sequence
    else if type == 0xa0
    then pdu false
    else if type == 0xa1
    then pdu true
    else if type == 0xa3
    then pdu false
    else invalid

-- `is_top` as a condition, and `is_top - 1`.
abbrev pub is_set : ℤ → Bool
is_set (pos n) = not (n == 0)
is_set (negsuc n) = true

abbrev pub less_one : ℤ → ℤ
less_one (pos zero) = negsuc 0
less_one (pos (suc n)) = pos n
less_one (negsuc n) = negsuc (suc n)

-- The bytes at a position, as they are in the buffer.
abbrev pub slice : List ℕ → ℕ → ℕ → List ℕ
slice buf p n = take n (drop p buf)

abbrev pub set_version : Bool → List ℕ → OidReq → OidReq
set_version b p req = if b then record req { version = get_integer p % 2 ^ 32 } else req

abbrev pub set_community : Bool → List ℕ → OidReq → OidReq
set_community b v req = if b then record req { community = v } else req

-- An object identifier that was read: it is asked for, or the one behind it.
unfoldable pub add_oid : Agent → Bool → List ℕ → OidReq → OidReq
add_oid a is_getnext oid req =
    let oid_next = a.find_next_oid oid in
    if is_getnext
    then (if length oid_next == 0
        then record req { err = 2; err_idx = 1 }
        else record req { oids = req.oids ++ oid_next ∷ [] })
    else record req { oids = req.oids ++ oid ∷ [] }

abbrev pub and_then : Reading → (OidReq → Reading) → Reading
and_then (done true req) k = k req
and_then (done false req) k = done false req
and_then outside k = outside
and_then runs_on k = runs_on

-- `process_PDU` goes on whatever `process_BER` returned.
abbrev pub anyway : Reading → (OidReq → Reading) → Reading
anyway (done b req) k = k req
anyway outside k = outside
anyway runs_on k = runs_on

-- One of the three integers that a PDU begins with: its value and where it ends.
pub data Field : Type 0 where
  refused behind : Field
  value : ℕ → ℕ → Field

unfoldable pub pdu_integer : List ℕ → ℕ → ℕ → Field
pdu_integer buf p len =
    let n = get_or buf (p + 1) 0 in
    if ltb len 2
    then refused
    else if leb (length buf) (p + 1)
    then behind
    else if not (get_or buf p 0 == 0x02)
    then refused
    else if ltb (length buf) (p + 2 + n)
    then behind
    else value (get_integer (slice buf (p + 2) n)) (p + 2 + n)

abbrev pub with_field : Field → OidReq → (ℕ → ℕ → Reading) → Reading
with_field refused req k = done false req
with_field behind req k = outside
with_field (value v next) req k = k v next

abbrev pub dispatch :
    Kind → Reading → Reading → Reading → Reading → Reading → (Bool → Reading) → Reading → Reading
dispatch integer a b c d e f g = a
dispatch octets a b c d e f g = b
dispatch null a b c d e f g = c
dispatch identifier a b c d e f g = d
dispatch sequence a b c d e f g = e
dispatch (pdu next) a b c d e f g = f next
dispatch invalid a b c d e f g = g

-- A unit of fuel for each round of a loop and for each call.
unfoldable mutual
  unfolding kind get_oid add_oid pdu_integer

  pub process_ber : Agent → List ℕ → ℕ → ℕ → ℕ → OidReq → Bool → ℤ → Reading
  process_ber a buf zero p len req is_getnext is_top = runs_on
  process_ber a buf (suc fuel) p len req is_getnext is_top =
      let looped = ber_loop a buf fuel p (p + len) true true req is_getnext is_top in
      if ltb len 2 then done false req else looped

  -- The loop of `process_BER` up to the position `end`.
  pub ber_loop : Agent → List ℕ → ℕ → ℕ → ℕ → Bool → Bool → OidReq → Bool → ℤ → Reading
  ber_loop a buf zero pnt end first_integer first_octet_str req is_getnext is_top = runs_on
  ber_loop a buf (suc fuel) pnt end first_integer first_octet_str req is_getnext is_top =
      let n = get_or buf (pnt + 1) 0 in
      let here = pnt + 2 in
      let text = slice buf here n in
      let cut = ltb (length buf) (here + n) in
      let versioned = is_set is_top && first_integer in
      let after_integer =
        ber_loop a buf fuel (here + n) end false first_octet_str (set_version versioned text req)
          is_getnext is_top in
      let after_octets =
        ber_loop a buf fuel (here + n) end first_integer false
          (set_community (is_set is_top && first_octet_str) text req) is_getnext is_top in
      let go_on = λ (req' : OidReq).
        ber_loop a buf fuel (here + n) end first_integer first_octet_str req' is_getnext is_top in
      let (whole, oid) = get_oid a.format text in
      let inner = process_ber a buf fuel here n req is_getnext (less_one is_top) in
      let request =
        λ (next : Bool). process_pdu a buf fuel here n req (if next then true else is_getnext) in
      if not (ltb (pnt + 1) end)
      then done true req
      else if leb (length buf) (pnt + 1)
      then outside
      else if ltb end (here + n)
      then done false req
      else dispatch (kind (get_or buf pnt 0)) (if versioned && cut then outside else after_integer)
          (if cut then outside else after_octets) (go_on req)
          (if cut
            then outside
            else if not whole
            then done false req
            else go_on (add_oid a is_getnext oid req))
          (and_then inner go_on) (λ next. and_then (request next) go_on) (done false req)

  pub process_pdu : Agent → List ℕ → ℕ → ℕ → ℕ → OidReq → Bool → Reading
  process_pdu a buf zero p len req is_getnext = runs_on
  process_pdu a buf (suc fuel) p len req is_getnext =
      with_field (pdu_integer buf p len) req (λ id p1.
        let req' = record req { req_id = id } in
        with_field (pdu_integer buf p1 len) req' (λ error p2.
          with_field (pdu_integer buf p2 len) req' (λ error_index p3.
            let looped =
              varbind_loop a buf fuel (p3 + 2) (p3 + 2 + get_or buf (p3 + 1) 0) req' is_getnext in
            if leb (length buf) p3
            then outside
            else if not (get_or buf p3 0 == 0x30)
            then done false req'
            else if leb (length buf) (p3 + 1)
            then outside
            else looped)))

  pub varbind_loop : Agent → List ℕ → ℕ → ℕ → ℕ → OidReq → Bool → Reading
  varbind_loop a buf zero pnt end req is_getnext = runs_on
  varbind_loop a buf (suc fuel) pnt end req is_getnext =
      let n = get_or buf (pnt + 1) 0 in
      let inner = process_ber a buf fuel (pnt + 2) n req is_getnext (pos 0) in
      let go_on = λ (req' : OidReq). varbind_loop a buf fuel (pnt + 2 + n) end req' is_getnext in
      if not (ltb pnt end)
      then done true req
      else if leb (length buf) (pnt + 1)
      then outside
      else if ltb end (pnt + 2 + n)
      then done false req
      else if get_or buf pnt 0 == 0x30
      then anyway inner go_on
      else done false req
