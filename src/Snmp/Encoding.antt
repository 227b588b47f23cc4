-- ===== src/Snmp/Encoding.antt =====
-- The bytes of an element against its encoding: a tag, the length of the contents, the contents.
use ham_router.Common.{
  ℕ, zero, suc, ◌+◌, ◌*◌, ◌%◌, ◌<◌, ◌≤◌, List, [], ◌∷◌, ◌++◌, length, take, take_all, ◌≡◌, refl,
  sym, ap, ap₂, ◌∙◌, arith, length-append,
}
use ham_router.Snmp.{
  Elem, Elems, integer, sequence, null, octet_string, oid, pdu, no_more, add, snmp_type, count,
  get_size, sum_sizes, integer_bytes, sized, get_payload, payloads,
}

abbrev pub tag : Elem → ℕ
tag (integer type v len) = snmp_type type
tag (sequence es) = 0x30
tag null = 0x05
tag (octet_string v) = 0x04
tag (oid v) = 0x06
tag (pdu type es) = type

abbrev mutual
  pub contents : Elem → List ℕ
  contents (integer type v len) = integer_bytes len v
  contents (sequence es) = encodings es
  contents null = []
  contents (octet_string v) = v
  contents (oid v) = v
  contents (pdu type es) = encodings es

  pub encodings : Elems → List ℕ
  encodings no_more = []
  encodings (add e es) = tag e ∷ length (contents e) ∷ contents e ++ encodings es

-- Every integer has at most the 8 bytes of its value, and the contents of every element take fewer than
-- 254 bytes, so that no size wraps.
abbrev mutual
  pub IsSmall : Elem → Type 0
  IsSmall (integer type v len) = len ≤ 8
  IsSmall (sequence es) = AllSmall es × (length (encodings es) < 254)
  IsSmall null = Unit {0}
  IsSmall (octet_string v) = length v < 254
  IsSmall (oid v) = length v < 254
  IsSmall (pdu type es) = AllSmall es × (length (encodings es) < 254)

  pub AllSmall : Elems → Type 0
  AllSmall no_more = Unit {0}
  AllSmall (add e es) = IsSmall e × AllSmall es

length-integer_bytes : (n v : ℕ) → length (integer_bytes n v) ≡ n
unfolding integer_bytes
length-integer_bytes zero v = refl
length-integer_bytes (suc n) v = ap suc (length-integer_bytes n v)

abbrev total : Elems → ℕ
total no_more = 0
total (add e es) = length (contents e) + total es

length-encodings : (es : Elems) → length (encodings es) ≡ total es + count es * 2
length-encodings no_more = refl
length-encodings (add e es) =
    omega (arith, length-append (contents e) (encodings es), length-encodings es)

unfoldable mutual
  unfolding get_size

  size_small : (e : Elem) → IsSmall e → get_size e ≡ length (contents e)
  size_small (integer type v len) h = omega (arith, length-integer_bytes len v)
  size_small (sequence es) (all, h) =
      sum_small es (count es) 0 all ∙ omega (arith, length-encodings es)
  size_small null h = refl
  size_small (octet_string v) h = omega arith
  size_small (oid v) h = omega arith
  size_small (pdu type es) (all, h) =
      sum_small es (count es) 0 all ∙ omega (arith, length-encodings es)

  sum_small : (es : Elems) (n t : ℕ) → AllSmall es → sum_sizes es n t ≡ (t + total es + n * 2) % 256
  sum_small no_more n t h = omega arith
  sum_small (add e es) n t (small, all) =
      sum_small es n ((t + get_size e) % 256) all ∙ omega (arith, size_small e small)

-- A size that fits is written as it is, and nothing is cut off.
sized_small :
    (size type : ℕ) (bytes : List ℕ)
    → length bytes ≡ size
    → size < 254
    → sized size type bytes ≡ type ∷ size ∷ bytes
sized_small size type bytes e h =
    let byte : ((size + 2) % 256 + 254) % 256 ≡ size = omega arith in
    ap (λ b. take ((size + 2) % 256) (type ∷ b ∷ bytes)) byte
    ∙ take_all ((size + 2) % 256) (type ∷ size ∷ bytes) (omega arith)

-- A string, cut to its size.
sized_text :
    (type : ℕ) (v : List ℕ)
    → length v < 254
    → sized (length v % 256) type (take (length v % 256) v) ≡ type ∷ length v ∷ v
sized_text type v h =
    let same : length v % 256 ≡ length v = omega arith in
    ap₂ (λ n t. sized n type t) same (take_all (length v % 256) v (omega arith))
    ∙ sized_small (length v) type v refl h

-- A sequence whose parts are encoded.
sized_parts :
    (size type : ℕ) (es : Elems)
    → payloads es ≡ encodings es
    → size ≡ length (encodings es)
    → length (encodings es) < 254
    → sized size type (payloads es) ≡ type ∷ length (encodings es) ∷ encodings es
sized_parts size type es e same h =
    ap₂ (λ n t. sized n type t) same e
    ∙ sized_small (length (encodings es)) type (encodings es) refl h

unfoldable mutual
  unfolding get_payload

  payload_small : (e : Elem) → IsSmall e → get_payload e ≡ tag e ∷ length (contents e) ∷ contents e
  payload_small (integer type v len) h =
      let same : len % 256 ≡ len = omega arith in
      ap (λ n. sized n (snmp_type type) (integer_bytes n v)) same
      ∙ sized_small len (snmp_type type) (integer_bytes len v) (length-integer_bytes len v)
          (omega arith)
      ∙ ap (λ n. snmp_type type ∷ n ∷ integer_bytes len v) (sym (length-integer_bytes len v))
  payload_small (sequence es) (all, h) =
      sized_parts (get_size (sequence es)) 0x30 es (payloads_small es all)
        (size_small (sequence es) (all, h)) h
  payload_small null h = refl
  payload_small (octet_string v) h = sized_text 0x04 v h
  payload_small (oid v) h = sized_text 0x06 v h
  payload_small (pdu type es) (all, h) =
      sized_parts (get_size (pdu type es)) type es (payloads_small es all)
        (size_small (pdu type es) (all, h)) h

  payloads_small : (es : Elems) → AllSmall es → payloads es ≡ encodings es
  payloads_small no_more h = refl
  payloads_small (add e es) (small, all) =
      ap₂ (λ a b. a ++ b) (payload_small e small) (payloads_small es all)

-- Of an SNMP element whose parts all have contents of fewer than 254 bytes, and whose integers have
-- at most eight, the size is the length of the contents, and the bytes are its tag, that length and
-- the contents, the parts encoded alike.
pub get_payload-encoding :
    (e : Elem)
    → IsSmall e
    → (get_size e ≡ length (contents e))
      × (get_payload e ≡ tag e ∷ length (contents e) ∷ contents e)
get_payload-encoding e h = (size_small e h, payload_small e h)
