-- ===== src/Ax25/Address.antt =====
-- An address that is written and read back.
use ham_router.Common.{
  ℕ, zero, suc, ◌+◌, ◌*◌, ◌/◌, ◌%◌, ◌≤◌, ◌<◌, bit_or, List, [], ◌∷◌, ◌++◌, length, get_or, Bool,
  true, false, ◌==◌, All, ◌≡◌, ◌≢◌, refl, sym, ap, ◌∙◌, arith, append-nil, append_assoc,
  length-append, get_or-append, get_or-append_left, All-get_or, ==_iff,
}
use ham_router.Common.Bits.{bit_or_fields, bit_or-zero, all_below, all_below_sound}
use ham_router.Ax25.{
  Ax25Address, bit, read_callsign, ax25_address, make_address, put_callsign, generate_address,
}

-- A character of a callsign: seven bits, no NUL and no space.
abbrev pub IsCallsign : ℕ → Type 0
IsCallsign c = (c < 128) × (c ≢ 0) × (c ≢ 32)

-- An address that can be written: its callsign fits, and its SSID is a character from `0` on.
abbrev pub IsWritable : Ax25Address → Type 0
IsWritable a =
    All IsCallsign a.address × (length a.address ≤ 6) × (b'0' ≤ a.ssid) × (a.ssid < b'0' + 16)

read_spaces :
    (n : ℕ) (end : Bool) (acc rest : List ℕ)
    → read_callsign n (put_callsign n [] ++ rest) end acc ≡ (true, acc)
unfolding read_callsign put_callsign
read_spaces zero end acc rest = refl
read_spaces (suc n) end acc rest = read_spaces n true acc rest

read_put :
    (n : ℕ) (a acc rest : List ℕ)
    → All IsCallsign a
    → length a ≤ n
    → read_callsign n (put_callsign n a ++ rest) false acc ≡ (true, acc ++ a)
unfolding read_callsign put_callsign
read_put n [] acc rest h l =
    read_spaces n false acc rest ∙ ap (λ r. (true, r)) (sym (append-nil acc))
read_put zero (c ∷ a) acc rest h l = absurd (omega arith)
read_put (suc n) (c ∷ a) acc rest ((lt, nz, ns), h) l =
    let ih =
      read_put n a (acc ++ c ∷ []) rest h (omega arith)
      ∙ ap (λ r. (true, r)) (append_assoc acc (c ∷ []) a) in
    let half : c * 2 % 256 / 2 ≡ c = omega arith in ground (arith, half)

length-put_callsign : (n : ℕ) (a : List ℕ) → length (put_callsign n a) ≡ n
unfolding put_callsign
length-put_callsign zero a = refl
length-put_callsign (suc n) [] = ap suc (length-put_callsign n [])
length-put_callsign (suc n) (c ∷ a) = ap suc (length-put_callsign n a)

-- The last byte of an address.
abbrev last : ℕ → Bool → Bool → ℕ
last ssid e r = bit_or (bit_or (ssid * 2) (bit e 1)) (bit r 128) % 256

high_bit : (x : ℕ) → x < 128 → bit_or x 128 ≡ x + 128
unfolding all_below
high_bit x h =
    (==_iff (bit_or x 128) (x + 128)).0
      (all_below_sound 128 (λ x. bit_or x 128 == x + 128) x refl h)

low_bits : (ssid : ℕ) (e : Bool) → ssid < 64 → bit_or (ssid * 2) (bit e 1) ≡ ssid * 2 + bit e 1
low_bits ssid true h = bit_or_fields 1 ssid 1 (omega arith)
low_bits ssid false h = bit_or-zero (ssid * 2) ∙ omega arith

bit_le : (e : Bool) → bit e 1 ≤ 1
bit_le true = omega arith
bit_le false = omega arith

last_value : (ssid : ℕ) (e r : Bool) → ssid < 64 → last ssid e r ≡ ssid * 2 + bit e 1 + bit r 128
last_value ssid e true h =
    let low = low_bits ssid e h in
    let small : ssid * 2 + bit e 1 < 128 = omega (arith, bit_le e) in
    rw low (omega (arith, high_bit (ssid * 2 + bit e 1) small))
last_value ssid e false h =
    let low = low_bits ssid e h in
    let small : ssid * 2 + bit e 1 < 128 = omega (arith, bit_le e) in
    rw low (omega (arith, bit_or-zero (ssid * 2 + bit e 1)))

last_parts :
    (ssid : ℕ) (e r : Bool)
    → ssid < 64
    → (last ssid e r / 2 % 16 ≡ ssid % 16)
      × ((last ssid e r % 2 == 1) ≡ e)
      × ((last ssid e r / 128 % 2 == 1) ≡ r)
last_parts ssid true true h = rw (last_value ssid true true h) ground arith
last_parts ssid true false h = rw (last_value ssid true false h) ground arith
last_parts ssid false true h = rw (last_value ssid false true h) ground arith
last_parts ssid false false h = rw (last_value ssid false false h) ground arith

pub length-generate_address : (a : Ax25Address) → length (generate_address a) ≡ 7
unfolding generate_address
length-generate_address a =
    length-append (put_callsign 6 a.address) (last a.ssid a.end_mark a.repeated ∷ [])
    ∙ ap (λ n. n + 1) (length-put_callsign 6 a.address)

-- An address of up to six characters is read back as it was, as a valid one, where its SSID is one
-- of the sixteen characters from `0` on.
pub ax25_address-generate_address :
    (a : Ax25Address) → IsWritable a → ax25_address (generate_address a) ≡ record a { valid = true }
unfolding ax25_address generate_address
ax25_address-generate_address a (h, l, low, high) =
    let c : ℕ = last a.ssid a.end_mark a.repeated in
    let front : List ℕ = put_callsign 6 a.address in
    let run = read_put 6 a.address [] (c ∷ []) h l in
    let n = length-put_callsign 6 a.address in
    let seven : length (front ++ c ∷ []) ≡ 7 = length-append front (c ∷ []) ∙ ap (λ n. n + 1) n in
    let seventh : get_or (front ++ c ∷ []) 6 0 ≡ c =
      ap (λ i. get_or (front ++ c ∷ []) i 0) (sym n) ∙ get_or-append front c 0 [] in
    let (digit, end, rep) = last_parts a.ssid a.end_mark a.repeated (omega arith) in
    let ssid : b'0' + c / 2 % 16 ≡ a.ssid = omega arith in
    rw (seven, run, seventh, ssid, end, rep) refl

-- The four argument constructor loses the SSID: an address that it makes of at most six characters
-- of seven bits, none of them NUL or a space, and of any SSID and marks, is read back with these
-- characters and marks and with SSID 1.
pub ax25_address-make_address :
    (a : List ℕ) (ssid : ℕ) (end_mark repeated : Bool)
    → All IsCallsign a
    → length a ≤ 6
    → ax25_address (generate_address (make_address a ssid end_mark repeated))
      ≡ record { valid = true; address = a; ssid = b'1'; end_mark = end_mark; repeated = repeated }
unfolding ax25_address generate_address make_address
ax25_address-make_address a ssid e r h l =
    let c : ℕ = last 1 e r in
    let front : List ℕ = put_callsign 6 a in
    let run = read_put 6 a [] (c ∷ []) h l in
    let n = length-put_callsign 6 a in
    let seven : length (front ++ c ∷ []) ≡ 7 = length-append front (c ∷ []) ∙ ap (λ n. n + 1) n in
    let seventh : get_or (front ++ c ∷ []) 6 0 ≡ c =
      ap (λ i. get_or (front ++ c ∷ []) i 0) (sym n) ∙ get_or-append front c 0 [] in
    let (digit, end, rep) = last_parts 1 e r (omega arith) in
    let one : b'0' + c / 2 % 16 ≡ b'1' = omega arith in rw (seven, run, seventh, one, end, rep) refl

-- The characters of an address are written shifted, so that no lowest bit is set.
pub put_callsign_even : (n : ℕ) (a : List ℕ) → All (λ c. c % 2 ≡ 0) (put_callsign n a)
unfolding put_callsign
put_callsign_even zero a = tt
put_callsign_even (suc n) [] = (omega arith, put_callsign_even n [])
put_callsign_even (suc n) (c ∷ a) = (omega arith, put_callsign_even n a)

pub get_or-generate_address :
    (a : Ax25Address) (rest : List ℕ) (i : ℕ)
    → i < 6
    → get_or (generate_address a ++ rest) i 0 % 2 ≡ 0
unfolding generate_address
get_or-generate_address a rest i h =
    let front : List ℕ = put_callsign 6 a.address in
    let c : ℕ = last a.ssid a.end_mark a.repeated in
    let n = length-put_callsign 6 a.address in
    let l : i < length front = omega arith in
    let line : (front ++ c ∷ []) ++ rest ≡ front ++ (c ∷ rest) = append_assoc front (c ∷ []) rest in
    rw (line, get_or-append_left front (c ∷ rest) i 0 l)
      (All-get_or (λ c. c % 2 ≡ 0) front i 0 (put_callsign_even 6 a.address) l)
