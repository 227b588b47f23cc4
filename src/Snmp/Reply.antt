-- ===== src/Snmp/Reply.antt =====
-- The replies of snmp.cpp: `gen_reply`, and `input` with the call that sends. The lookup of an object
-- identifier is a parameter, which snmp-data.cpp fills.
pub mod Answers
use ham_router.Common.{
  ℕ, ◌+◌, ◌-◌, ◌%◌, ◌^◌, List, [], ◌∷◌, ◌++◌, length, take, drop, Bool, true, false, not, ◌&&◌, ltb,
  ◌==◌, ◌==ₛ◌, if◌then◌else◌, Option, none, some, codes,
}
use ham_router.Common.Int.{ℤ, pos, negsuc}
use ham_router.Snmp.{
  si_integer, Elem, Elems, sequence, null, octet_string, oid, pdu, no_more, add, snmp_integer,
  get_payload,
}
use ham_router.Snmp.Oids.{snmp_oid}
use ham_router.Snmp.Requests.{OidReq, oid_req, Reading, done, outside, runs_on, Agent, process_ber}
use ham_router.Snmp.Data.{rfind_dot}

-- Where nothing is found for a text that ends in `.0`, it is looked up without that.
unfoldable pub lookup : (List ℕ → Option (Option Elem)) → List ℕ → Option (Option Elem)
lookup find_by_oid e = elim (find_by_oid e) [
  | some found ↦ some found
  | none ↦ elim (rfind_dot e) [
    | none ↦ none
    | some dot ↦ if drop dot e ==ₛ codes ".0" then find_by_oid (take dot e) else none
  ]
]

abbrev pub or_null : Option (Option Elem) → Elem
or_null none = null
or_null (some none) = null
or_null (some (some found)) = found

module _ (atoll : List ℕ → ℕ) (find_by_oid : List ℕ → Option (Option Elem)) where
  unfoldable pub varbind : List ℕ → Elem
  unfolding lookup
  varbind e = sequence (add (oid (snmp_oid atoll e)) (add (or_null (lookup find_by_oid e)) no_more))

  -- The loop over the object identifiers.
  unfoldable pub varbinds : List (List ℕ) → Elems
  unfolding varbind
  varbinds [] = no_more
  varbinds (e ∷ more) = add (varbind e) (varbinds more)

  -- An `int` as the 64 bits that `snmp_integer` takes.
  abbrev extended : ℕ → ℕ
  extended v = if ltb v (2 ^ 31) then v else v + (2 ^ 64 - 2 ^ 32)

  abbrev integer_elem : ℕ → Elem
  integer_elem v = snmp_integer si_integer v

  -- The elements of the reply.
  unfoldable pub reply : OidReq → Elem
  unfolding varbinds
  reply r =
      let community = if length r.community == 0 then codes "public" else r.community in
      sequence (
        add (integer_elem (extended r.version)) (
          add (octet_string community) (
            add
              (pdu 0xa2 (
                add (integer_elem r.req_id) (
                  add (integer_elem (extended r.err)) (
                    add (integer_elem (extended r.err_idx))
                      (add (sequence (varbinds r.oids)) no_more)))))
              no_more)))

  unfoldable pub gen_reply : OidReq → List ℕ
  unfolding reply
  gen_reply r = get_payload (reply r)

-- What `input` comes to: a result, with the network, or a read behind the buffer, or no answer because the
-- fuel ran out.
pub data Answered (W : Type 0) : Type 0 where
  answered : Bool → W → Answered W
  astray endless : Answered W

abbrev is_sent : ℤ → Bool
is_sent (pos n) = true
is_sent (negsuc n) = false

-- `input`, for the `n` bytes at the beginning of a buffer; `sendto` is a parameter.
unfoldable pub input :
    {W : Type 0}
    → (List ℕ → ℕ)
    → (List ℕ → Option (Option Elem))
    → Agent
    → (List ℕ → W → ℤ × W)
    → ℕ
    → List ℕ
    → ℕ
    → W
    → Answered W
unfolding process_ber gen_reply
input atoll find_by_oid a sendto fuel buf n w =
    elim (process_ber a buf fuel 0 n oid_req false (pos 2)) [
      | outside ↦ astray
      | runs_on ↦ endless
      | done false or ↦ answered false w
      | done true or ↦
          let packet_out = gen_reply atoll find_by_oid or in
          let (rc, w') = sendto packet_out w in
          if length packet_out == 0 then answered false w else answered (is_sent rc) w'
    ]
