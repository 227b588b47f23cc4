-- ===== src/Snmp/Oids.antt =====
-- The constructor of snmp_oid in snmp-elem.cpp: the bytes of an object identifier, from its text. `atoll` of
-- the C library is a parameter.
pub mod RoundTrip
use ham_router.Common.{
  ℕ, zero, suc, ◌+◌, ◌/◌, ◌%◌, ◌^◌, bit_or, List, [], ◌∷◌, ◌++◌, length, take, drop, Bool, ◌==◌,
  ◌==ₛ◌, if◌then◌else◌, Option, none, some, codes,
}
use ham_router.Text.{one_of, index_of}

-- The groups of seven bits above the lowest one, the highest first, each marked by its highest bit.
unfoldable pub high_groups : ℕ → ℕ → List ℕ
high_groups zero v = []
high_groups (suc left) v =
    let more = high_groups left (v / 128) in
    if v == 0 then [] else more ++ bit_or (v % 128) 128 ∷ []

-- A number of 64 bits has ten groups at most.
unfoldable pub put_number : ℕ → List ℕ
unfolding high_groups
put_number v = if v == 0 then 0 ∷ [] else high_groups 9 (v / 128) ++ v % 128 ∷ []

module _ (atoll : List ℕ → ℕ) where
  -- The loop over the text, a unit of fuel for each number; what is behind a dot is shorter.
  unfoldable pub put_numbers : ℕ → List ℕ → List ℕ
  unfolding put_number
  put_numbers zero work = []
  put_numbers (suc fuel) work =
      let first = put_number (atoll work % 2 ^ 64) in
      if length work == 0 then [] else elim (index_of (one_of (codes ".")) work) [
        | none ↦ first
        | some dot ↦ first ++ put_numbers fuel (drop (dot + 1) work)
      ]

  -- The bytes of `snmp_oid(oid)`.
  unfoldable pub snmp_oid : List ℕ → List ℕ
  unfolding put_numbers
  snmp_oid oid =
      if take 4 oid ==ₛ codes "1.3."
      then 43 ∷ put_numbers (length oid) (drop 4 oid)
      else put_numbers (length oid) oid
