-- ===== src/Dissect/Total.antt =====
-- `parse_aprs` never throws: each of its substrings starts inside the packet.
use ham_router.Common.{
  ℕ, zero, suc, ◌+◌, ◌≤◌, ◌<◌, ◌^◌, List, [], ◌∷◌, length, get_or, drop, Bool, false, ltb,
  if◌then◌else◌, Option, none, some, codes, ◌≡◌, ◌≢◌, refl, arith, length-drop,
}
use ham_router.Text.{npos, add_size, one_of, index_of, from, find_first_of, substr}
use ham_router.Message.{Meta}
use ham_router.Gps.{Degrees}
use ham_router.Dissect.{
  throws, aprs_addresses, aprs_position, aprs_nmea, aprs_command, aprs_payload, then_fields,
  parse_aprs,
}

index_of-lt : (p : ℕ → Bool) (s : List ℕ) (i : ℕ) → index_of p s ≡ some i → i < length s
unfolding index_of
index_of-lt p [] i e = ground arith
index_of-lt p (c ∷ cs) i e = go (index_of p cs) (λ i e. index_of-lt p cs i e) e
  where
    go :
        (r : Option ℕ)
        → ((i : ℕ) → r ≡ some i → i < length cs)
        → (if p c then some 0 else elim r [ none ↦ none | some i ↦ some (suc i) ]) ≡ some i
        → i < suc (length cs)
    go none ih e = ground arith
    go (some j) ih e = ground (arith, ih j refl)

-- What is found stands in the string.
find_first_of-lt :
    (s set : List ℕ) (position : ℕ)
    → position ≤ length s
    → find_first_of s set position ≢ npos
    → find_first_of s set position < length s
unfolding find_first_of
find_first_of-lt s set position h ne = go (index_of (one_of set) (drop position s)) refl ne
  where
    go :
        (r : Option ℕ)
        → index_of (one_of set) (drop position s) ≡ r
        → from position r ≢ npos
        → from position r < length s
    go none e ne = absurd (ne refl)
    go (some i) e ne =
        omega (arith, index_of-lt (one_of set) (drop position s) i e, length-drop position s)

get_or_beyond : (xs : List ℕ) (i d : ℕ) → length xs ≤ i → get_or xs i d ≡ d
get_or_beyond [] i d h = refl
get_or_beyond (x ∷ xs) zero d h = absurd (omega arith)
get_or_beyond (x ∷ xs) (suc i) d h = get_or_beyond xs i d (omega arith)

module _ (work : List ℕ) (small : length work < 2 ^ 63) where
  addresses_succeed : (m : Meta) → 6 ≤ length work → aprs_addresses work m ≢ none
  unfolding aprs_addresses substr
  addresses_succeed m h = ground (arith, find_first_of-lt work (codes ">") 0)

  payload_succeeds : (m : Meta) → aprs_payload work m ≢ none
  unfolding aprs_payload substr
  payload_succeeds m = ground (arith, find_first_of-lt work (codes "[") 0)

  position_succeeds :
      (d : Degrees) (colon : ℕ) (m : Meta)
      → colon < length work
      → aprs_position d work colon m ≢ none
  unfolding aprs_position substr
  position_succeeds d colon m h e =
      let inside : ltb (length work) (add_size colon 1) ≡ false = ground arith in
      cc (rw (inside, aprs_position) at e)

  -- The byte behind the end of a string is a NUL, so that a `$` stands inside it.
  nmea_succeeds :
      (d : Degrees) (colon : ℕ) (m : Meta)
      → colon + 1 < length work
      → aprs_nmea d work colon m ≢ none
  unfolding aprs_nmea substr
  nmea_succeeds d colon m h = ground arith

  command_succeeds :
      (d : Degrees) (colon : ℕ) (m : Meta)
      → colon < length work
      → aprs_command d work colon m ≢ none
  unfolding aprs_command
  command_succeeds d colon m h = ground (
    arith,
    position_succeeds d colon m h,
    nmea_succeeds d colon m,
    get_or_beyond work (colon + 1) 0,
  )

  chain_succeeds :
      (r : Option Meta) (k : Meta → Option Meta)
      → r ≢ none
      → ((m : Meta) → k m ≢ none)
      → then_fields r k ≢ none
  chain_succeeds none k h hk = absurd (h refl)
  chain_succeeds (some m) k h hk = hk m

-- No packet of fewer than 2 ^ 63 bytes makes `parse_aprs` throw.
pub parse_aprs-ne-throws :
    (d : Degrees) (work : List ℕ) → length work < 2 ^ 63 → parse_aprs d work ≢ throws
unfolding parse_aprs
parse_aprs-ne-throws d work small =
    let colon : ℕ = find_first_of work (codes ":") 0 in
    let lt = find_first_of-lt work (codes ":") 0 (omega arith) in
    let addresses = addresses_succeed work small [] in
    let all = λ (h : colon < length work) (long : 6 ≤ length work).
      chain_succeeds work small (aprs_addresses work [])
        (λ m. then_fields (aprs_command d work colon m) (aprs_payload work)) (addresses long)
        (λ m.
          chain_succeeds work small (aprs_command d work colon m) (aprs_payload work)
            (command_succeeds work small d colon m h) (payload_succeeds work small)) in
    ground arith
