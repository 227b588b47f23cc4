-- ===== src/Snmp/Oids/RoundTrip.antt =====
-- An object identifier that is encoded for a reply and read back as in a request.
use ham_router.Common.{
  ℕ, zero, suc, ◌+◌, ◌*◌, ◌/◌, ◌%◌, ◌^◌, ◌≤◌, ◌<◌, bit_or, bit_and, List, [], ◌∷◌, ◌++◌, length,
  drop, Bool, true, false, ◌&&◌, ltb, leb, ◌==◌, codes, All, ◌≡◌, refl, sym, ap, ◌∙◌, arith,
  append-nil, append_assoc, length-append, Bool-cases, inl, inr, ==_iff,
}
use native.Mathlib.Nat.{pow-suc}
use ham_router.Common.Bits.{all_below, all_below_sound, bit_or_fields}
use ham_router.Text.{one_of}
use ham_router.Text.Search.{index_of-append, index_of-none}
use ham_router.Snmp.Oids.{high_groups, put_number, put_numbers, snmp_oid}
use ham_router.Snmp.Requests.{oid_loop, get_oid}

abbrev marked_well : ℕ → Bool
marked_well r = leb 128 (bit_or r 128) && bit_and (bit_or r 128) 127 == r && bit_and r 127 == r

marked_all : (r : ℕ) → r < 128 → marked_well r ≡ true
unfolding all_below
marked_all r h = all_below_sound 128 marked_well r refl h

-- A marked group, and a group that ends a number.
marked :
    (r : ℕ)
    → r < 128
    → (128 ≤ bit_or r 128) × (bit_and (bit_or r 128) 127 ≡ r) × (bit_and r 127 ≡ r)
marked r h = ground (arith, marked_all r h)

shifted : (v r : ℕ) → v < 2 ^ 25 → r < 128 → bit_or (v * 2 ^ 7 % 2 ^ 32) r ≡ v * 128 + r
shifted v r h k =
    let small : v * 2 ^ 7 % 2 ^ 32 ≡ v * 2 ^ 7 = omega arith in
    ap (λ x. bit_or x r) small ∙ bit_or_fields 7 v r k

module _ (format : ℕ → List ℕ) where
  oid_loop-marked :
      (v r : ℕ) (out rest : List ℕ)
      → v < 2 ^ 25
      → r < 128
      → oid_loop format false v out (bit_or r 128 ∷ rest)
        ≡ oid_loop format false (v * 128 + r) out rest
  unfolding oid_loop
  oid_loop-marked v r out rest h k =
      let (high, low, whole) = marked r k in
      let more : ltb (bit_or r 128) 128 ≡ false = ground arith in
      rw (more, low, shifted v r h k) refl

  oid_loop-high_groups :
      (n v : ℕ) (out rest : List ℕ)
      → v < 128 ^ n
      → v < 2 ^ 25
      → oid_loop format false 0 out (high_groups n v ++ rest) ≡ oid_loop format false v out rest
  unfolding high_groups
  oid_loop-high_groups zero v out rest h k =
      ap (λ x. oid_loop format false x out rest) (omega arith)
  oid_loop-high_groups (suc n) v out rest h k = elim (Bool-cases (v == 0)) [
    | inl none_left ↦
        rw none_left (ap (λ x. oid_loop format false x out rest) (sym ((==_iff v 0).0 none_left)))
    | inr more ↦
        let above : v / 128 < 128 ^ n = omega (arith, pow-suc 128 n) in
        let whole : v / 128 * 128 + v % 128 ≡ v = omega arith in
        rw more (
          ap (oid_loop format false 0 out)
            (append_assoc (high_groups n (v / 128)) (bit_or (v % 128) 128 ∷ []) rest)
          ∙ oid_loop-high_groups n (v / 128) out (bit_or (v % 128) 128 ∷ rest) above (omega arith)
          ∙ oid_loop-marked (v / 128) (v % 128) out rest (omega arith) (omega arith)
          ∙ ap (λ x. oid_loop format false x out rest) whole)
  ]

  oid_loop-last :
      (u r : ℕ) (out rest : List ℕ)
      → u < 2 ^ 25
      → r < 128
      → oid_loop format false u out (r ∷ rest)
        ≡ oid_loop format false 0 (out ++ (codes "." ++ format (u * 128 + r))) rest
  unfolding oid_loop
  oid_loop-last u r out rest h k =
      let (high, low, whole) = marked r k in
      let ends : ltb r 128 ≡ true = ground arith in rw (ends, whole, shifted u r h k) refl

  -- A number of 31 bits is read back, and written behind a dot.
  oid_loop-put_number :
      (v : ℕ) (out rest : List ℕ)
      → v < 2 ^ 31
      → oid_loop format false 0 out (put_number v ++ rest)
        ≡ oid_loop format false 0 (out ++ (codes "." ++ format v)) rest
  unfolding put_number
  oid_loop-put_number v out rest h = elim (Bool-cases (v == 0)) [
    | inl nought ↦
        let e : v ≡ 0 = (==_iff v 0).0 nought in
        rw nought (
          oid_loop-last 0 0 out rest (omega arith) (omega arith)
          ∙ ap (λ x. oid_loop format false 0 (out ++ (codes "." ++ format x)) rest) (sym e))
    | inr more ↦
        let whole : v / 128 * 128 + v % 128 ≡ v = omega arith in
        rw more (
          ap (oid_loop format false 0 out)
            (append_assoc (high_groups 9 (v / 128)) (v % 128 ∷ []) rest)
          ∙ oid_loop-high_groups 9 (v / 128) out (v % 128 ∷ rest) (omega arith) (omega arith)
          ∙ oid_loop-last (v / 128) (v % 128) out rest (omega arith) (omega arith)
          ∙ ap (λ x. oid_loop format false 0 (out ++ (codes "." ++ format x)) rest) whole)
  ]

-- The numbers, each behind a dot.
abbrev pub dotted : (ℕ → List ℕ) → List ℕ → List ℕ
dotted format [] = []
dotted format (n ∷ ns) = (codes "." ++ format n) ++ dotted format ns

-- `atoll` reads what `%d` prints, up to the end or to a dot, and what it prints is not empty and has no
-- dot.
pub record IsDecimal (format : ℕ → List ℕ) (atoll : List ℕ → ℕ) : Type 0 where
  pub read_last : (n : ℕ) → n < 2 ^ 31 → atoll (format n) ≡ n
  pub read_next : (n : ℕ) (rest : List ℕ) → n < 2 ^ 31 → atoll (format n ++ b'.' ∷ rest) ≡ n
  pub not_empty : (n : ℕ) → 1 ≤ length (format n)
  pub no_dot : (n : ℕ) → All (λ c. one_of (codes ".") c ≡ false) (format n)

module _ (format : ℕ → List ℕ) (atoll : List ℕ → ℕ) (x : IsDecimal format atoll) where
  dropped : (xs rest : List ℕ) → drop (length xs + 1) (xs ++ b'.' ∷ rest) ≡ rest
  dropped [] rest = refl
  dropped (y ∷ xs) rest =
      let e : suc (length xs) + 1 ≡ suc (length xs + 1) = omega arith in
      ap (λ k. drop k (y ∷ (xs ++ b'.' ∷ rest))) e ∙ dropped xs rest

  oid_loop_end : (out : List ℕ) → oid_loop format false 0 out [] ≡ (true, out)
  unfolding oid_loop
  oid_loop_end out = refl

  abbrev pub texts : ℕ → List ℕ → List ℕ
  texts n ns = format n ++ dotted format ns

  put_numbers_last :
      (fuel n : ℕ) → n < 2 ^ 31 → put_numbers atoll (suc fuel) (format n) ≡ put_number n
  unfolding put_numbers
  put_numbers_last fuel n h =
      let some_text : (length (format n) == 0) ≡ false = ground (arith, x.not_empty n) in
      let small : n % 2 ^ 64 ≡ n = omega arith in
      rw
        (
          some_text,
          index_of-none (one_of (codes ".")) (format n) (x.no_dot n),
          x.read_last n h,
          small,
        )
        refl

  put_numbers_next :
      (fuel n : ℕ) (rest : List ℕ)
      → n < 2 ^ 31
      → put_numbers atoll (suc fuel) (format n ++ b'.' ∷ rest)
        ≡ put_number n ++ put_numbers atoll fuel rest
  unfolding put_numbers
  put_numbers_next fuel n rest h =
      let some_text : (length (format n ++ b'.' ∷ rest) == 0) ≡ false =
        ground (arith, length-append (format n) (b'.' ∷ rest)) in
      let small : n % 2 ^ 64 ≡ n = omega arith in
      rw
        (
          some_text,
          index_of-append (one_of (codes ".")) (format n) b'.' rest (x.no_dot n) refl,
          x.read_next n rest h,
          small,
          dropped (format n) rest,
        )
        refl

  length-dotted : (ns : List ℕ) → length ns ≤ length (dotted format ns)
  length-dotted [] = omega arith
  length-dotted (n ∷ ns) =
      omega (arith, length-append (format n) (dotted format ns), length-dotted ns)

  -- Every number takes two bytes of the text at least, so that the fuel is enough.
  oid_loop-put_numbers :
      (fuel n : ℕ) (ns out : List ℕ)
      → n < 2 ^ 31
      → All (λ k. k < 2 ^ 31) ns
      → length ns < fuel
      → oid_loop format false 0 out (put_numbers atoll fuel (texts n ns))
        ≡ (true, out ++ dotted format (n ∷ ns))
  unfolding put_numbers
  oid_loop-put_numbers zero n ns out h hs f = absurd (omega arith)
  oid_loop-put_numbers (suc fuel) n [] out h hs f =
      ap (λ t. oid_loop format false 0 out (put_numbers atoll (suc fuel) t)) (append-nil (format n))
      ∙ ap (oid_loop format false 0 out)
          (put_numbers_last fuel n h ∙ sym (append-nil (put_number n)))
      ∙ oid_loop-put_number format n out [] h
      ∙ oid_loop_end (out ++ (codes "." ++ format n))
      ∙ ap (λ t. (true, out ++ (codes "." ++ t))) (sym (append-nil (format n)))
  oid_loop-put_numbers (suc fuel) n (k ∷ ns) out h (hk, hs) f =
      ap (oid_loop format false 0 out) (put_numbers_next fuel n (texts k ns) h)
      ∙ oid_loop-put_number format n out (put_numbers atoll fuel (texts k ns)) h
      ∙ oid_loop-put_numbers fuel k ns (out ++ (codes "." ++ format n)) hk hs (omega arith)
      ∙ ap (λ t. (true, t)) (append_assoc out (codes "." ++ format n) (dotted format (k ∷ ns)))

  -- The text of an identifier below 1.3, of numbers of 31 bits: encoded for a reply and read back as in
  -- a request it is the same text.
  pub get_oid-snmp_oid :
      (n : ℕ) (ns : List ℕ)
      → n < 2 ^ 31
      → All (λ k. k < 2 ^ 31) ns
      → get_oid format (snmp_oid atoll (codes "1.3" ++ dotted format (n ∷ ns)))
        ≡ (true, codes "1.3" ++ dotted format (n ∷ ns))
  unfolding get_oid snmp_oid oid_loop
  get_oid-snmp_oid n ns h hs =
      oid_loop-put_numbers (length (codes "1.3" ++ dotted format (n ∷ ns))) n ns (codes "1.3") h hs
        (omega (arith, length-append (format n) (dotted format ns), length-dotted ns))
