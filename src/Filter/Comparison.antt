-- ===== src/Filter/Comparison.antt =====
-- A single comparison, read at its place in a filter.
use ham_router.Common.{
  ℕ, ◌+◌, ◌-◌, ◌<◌, ◌^◌, List, [], ◌∷◌, ◌++◌, length, get_or, take, Bool, true, false, ◌==◌,
  if◌then◌else◌, some, ◌≡◌, refl, sym, ap, ◌∙◌, arith, length-append, append_assoc, append-nil,
  All-append, inl, inr,
}
use ham_router.Text.{npos, add_size, sub_size, one_of, find_first_of, substr, trim}
use ham_router.Text.Search.{
  Avoids, find_first_of-append, find_first_of-none, substr-append, substr-rest, substr-cons,
  find_first_of-cons, trim-head, trim-Avoids,
}
use ham_router.Message.{Meta}
use ham_router.Filter.{ok, ◌>>=◌, split_at, value_at, comparison, test_field, space}
use ham_router.Filter.Syntax.{
  comparator, value_text, field_stops, value_stops, quote, IsValue, field_passes,
}

pub Avoids-fewer :
    (set more xs : List ℕ)
    → ((c : ℕ) → one_of more c ≡ false → one_of set c ≡ false)
    → Avoids more xs
    → Avoids set xs
Avoids-fewer set more [] f h = tt
Avoids-fewer set more (x ∷ xs) f (hx, h) = (f x hx, Avoids-fewer set more xs f h)

test_field_passes :
    (ignore : Bool) (meta : Meta) (left : List ℕ) (equals : Bool) (right : List ℕ)
    → test_field ignore meta left equals right ≡ field_passes ignore meta left equals right
unfolding test_field field_passes
test_field_passes ignore meta left equals right = ground arith

no_equals : (c : ℕ) → one_of field_stops c ≡ false → one_of (b'=' ∷ []) c ≡ false
no_equals c h = ground arith

no_signs : (c : ℕ) → one_of field_stops c ≡ false → one_of (b'!' ∷ b'=' ∷ []) c ≡ false
no_signs c h = ground arith

pub no_spaces : (c : ℕ) → one_of field_stops c ≡ false → one_of space c ≡ false
no_spaces c h = ground arith

value_spaces : (c : ℕ) → one_of value_stops c ≡ false → one_of space c ≡ false
value_spaces c h = ground arith

value_quotes : (c : ℕ) → one_of value_stops c ≡ false → one_of quote c ≡ false
value_quotes c h = ground arith

-- The first sign behind the field is the comparator's.
pub split_at-comparator :
    (pre field : List ℕ) (equals : Bool) (rest : List ℕ)
    → Avoids field_stops field
    → length pre + length field < 2 ^ 63
    → split_at (pre ++ (field ++ (comparator equals ++ rest))) (length pre)
      ≡ (equals, length pre + length field)
unfolding split_at
split_at-comparator pre field true rest h small =
    let eq =
      find_first_of-append pre (b'=' ∷ []) field b'=' rest
        (Avoids-fewer (b'=' ∷ []) field_stops field no_equals h) refl in
    let ne =
      find_first_of-append pre (b'!' ∷ b'=' ∷ []) field b'=' rest
        (Avoids-fewer (b'!' ∷ b'=' ∷ []) field_stops field no_signs h) refl in
    ground (arith, eq, ne)
split_at-comparator pre field false rest h small =
    let ne =
      find_first_of-append pre (b'!' ∷ b'=' ∷ []) field b'!' (b'=' ∷ rest)
        (Avoids-fewer (b'!' ∷ b'=' ∷ []) field_stops field no_signs h) refl in
    let eq =
      find_first_of-append pre (b'=' ∷ []) (field ++ b'!' ∷ []) b'=' rest
        (All-append (λ c. one_of (b'=' ∷ []) c ≡ false) field (b'!' ∷ [])
          (Avoids-fewer (b'=' ∷ []) field_stops field no_equals h) (refl, tt))
        refl in
    let text = append_assoc field (b'!' ∷ []) (b'=' ∷ rest) in
    ground (arith, eq, ne, text, length-append field (b'!' ∷ []))

-- A bare value ends at the next space or with the filter.
abbrev pub EndsBare : List ℕ → Type 0
EndsBare [] = Unit {0}
EndsBare (c ∷ rest) = c ≡ b' '

abbrev pub bare_end : List ℕ → ℕ → ℕ
bare_end [] n = npos
bare_end (c ∷ rest) n = n

-- `value_at` by its steps.
bare_steps :
    (filter : List ℕ) (splitter w at end n : ℕ) (text : List ℕ)
    → add_size splitter w ≡ at
    → find_first_of filter space at ≡ end
    → sub_size (sub_size end splitter) w ≡ n
    → substr filter at n ≡ some text
    → (get_or (trim text space) 0 0 == b'"') ≡ false
    → value_at filter splitter w ≡ ok (trim text space, end)
unfolding value_at
bare_steps filter splitter w at end n text a b c d e = rw (a, b, c, d) (rw e)

pub quoted_steps :
    (filter : List ℕ) (splitter w at end n inner dq k : ℕ) (text value : List ℕ)
    → add_size splitter w ≡ at
    → find_first_of filter space at ≡ end
    → sub_size (sub_size end splitter) w ≡ n
    → substr filter at n ≡ some text
    → (get_or (trim text space) 0 0 == b'"') ≡ true
    → add_size (add_size splitter 1) w ≡ inner
    → find_first_of filter quote inner ≡ dq
    → sub_size (sub_size dq splitter) (1 + w) ≡ k
    → substr filter inner k ≡ some value
    → value_at filter splitter w ≡ ok (value, add_size dq 1)
unfolding value_at
quoted_steps filter splitter w at end n inner dq k text value a b c d e f g i j =
    rw (a, b, c, d, e, f, g, i) (rw j)

not_quote : (value : List ℕ) → Avoids value_stops value → (get_or value 0 0 == b'"') ≡ false
not_quote [] h = refl
not_quote (c ∷ value) (hc, h) = ground arith

value_at-bare :
    (head value tail : List ℕ) (splitter w : ℕ)
    → splitter + w ≡ length head
    → length (head ++ (value ++ tail)) < 2 ^ 63
    → Avoids value_stops value
    → EndsBare tail
    → value_at (head ++ (value ++ tail)) splitter w
      ≡ ok (value, bare_end tail (length head + length value))
value_at-bare head value [] splitter w at small h end =
    let size = length-append head (value ++ []) in
    let size' = length-append value [] in
    let spaces = Avoids-fewer space value_stops value value_spaces h in
    let trimmed = trim-Avoids space value spaces in
    let whole : value ++ [] ≡ value = append-nil value in
    bare_steps (head ++ (value ++ [])) splitter w (length head) npos
      (sub_size (sub_size npos splitter) w) value (omega arith)
      (ap (λ v. find_first_of (head ++ v) space (length head)) whole
        ∙ find_first_of-none head space value spaces)
      refl
      (ap (λ v. substr (head ++ v) (length head) (sub_size (sub_size npos splitter) w)) whole
        ∙ substr-rest head value (sub_size (sub_size npos splitter) w) (omega arith))
      (rw trimmed (not_quote value h))
    ∙ ap (λ v. ok (v, npos)) trimmed
value_at-bare head value (c ∷ rest) splitter w at small h end =
    let size = length-append head (value ++ c ∷ rest) in
    let size' = length-append value (c ∷ rest) in
    let spaces = Avoids-fewer space value_stops value value_spaces h in
    let trimmed = trim-Avoids space value spaces in
    bare_steps (head ++ (value ++ c ∷ rest)) splitter w (length head) (length head + length value)
      (length value) value (omega arith)
      (find_first_of-append head space value c rest spaces (ground arith)) (omega arith)
      (substr-append head value (c ∷ rest) (length value) refl) (rw trimmed (not_quote value h))
    ∙ ap (λ v. ok (v, length head + length value)) trimmed

-- The text up to the first space begins with the quote, wherever that space is.
pub quoted_text :
    (head xs : List ℕ) (splitter w : ℕ)
    → splitter + w ≡ length head
    → length (head ++ b'"' ∷ xs) < 2 ^ 63
    → let end = find_first_of (head ++ b'"' ∷ xs) space (length head) in
      let n = sub_size (sub_size end splitter) w in
      (more : List ℕ) × (substr (head ++ b'"' ∷ xs) (length head) n ≡ some (b'"' ∷ more))
quoted_text head xs splitter w at small =
    let end : ℕ = find_first_of (head ++ b'"' ∷ xs) space (length head) in
    let n : ℕ = sub_size (sub_size end splitter) w in
    let size = length-append head (b'"' ∷ xs) in
    let some_text : 0 < n = elim (find_first_of-cons head space b'"' xs refl) [
      | inl e ↦ omega arith
      | inr (i, e, b) ↦ omega arith
    ] in
    (take (n - 1) xs, substr-cons head b'"' xs n some_text)

value_at-quoted :
    (head value tail : List ℕ) (splitter w : ℕ)
    → splitter + w ≡ length head
    → length (head ++ b'"' ∷ (value ++ b'"' ∷ tail)) < 2 ^ 63
    → Avoids quote value
    → value_at (head ++ b'"' ∷ (value ++ b'"' ∷ tail)) splitter w
      ≡ ok (value, length head + length value + 2)
value_at-quoted head value tail splitter w at small h =
    let filter : List ℕ = head ++ b'"' ∷ (value ++ b'"' ∷ tail) in
    let end : ℕ = find_first_of filter space (length head) in
    let n : ℕ = sub_size (sub_size end splitter) w in
    let size = length-append head (b'"' ∷ (value ++ b'"' ∷ tail)) in
    let size' = length-append value (b'"' ∷ tail) in
    let (more, text) = quoted_text head (value ++ b'"' ∷ tail) splitter w at small in
    let opened : filter ≡ (head ++ quote) ++ (value ++ b'"' ∷ tail) =
      sym (append_assoc head quote (value ++ b'"' ∷ tail)) in
    let open_size : length (head ++ quote) ≡ length head + 1 = length-append head quote in
    let found : find_first_of filter quote (length head + 1) ≡ length head + 1 + length value =
      rw (opened, ← open_size)
        (find_first_of-append (head ++ quote) quote value b'"' tail h refl) in
    let inside : substr filter (length head + 1) (length value) ≡ some value =
      rw (opened, ← open_size)
        (substr-append (head ++ quote) value (b'"' ∷ tail) (length value) refl) in
    quoted_steps filter splitter w (length head) end n (length head + 1)
      (length head + 1 + length value) (length value) (b'"' ∷ more) value (omega arith) refl refl
      text (rw (trim-head space b'"' more refl) refl) (omega arith) found (omega arith) inside
    ∙ ap (λ e. ok (value, e)) (omega arith)

-- Where a test ends: behind its text, or nowhere if it is bare and the filter ends with it.
abbrev pub test_end : Bool → List ℕ → ℕ → ℕ
test_end true tail n = n
test_end false tail n = bare_end tail n

pub width_comparator : (equals : Bool) → length (comparator equals) ≡ (if equals then 1 else 2)
width_comparator true = refl
width_comparator false = refl

-- `comparison` by its steps.
pub comparison_steps :
    (filter : List ℕ) (ignore : Bool) (meta : Meta) (position splitter n end : ℕ) (equals : Bool)
    (field value : List ℕ)
    → split_at filter position ≡ (equals, splitter)
    → sub_size splitter position ≡ n
    → substr filter position n ≡ some field
    → trim field space ≡ field
    → value_at filter splitter (if equals then 1 else 2) ≡ ok (value, end)
    → comparison filter ignore meta position
      ≡ (field_passes ignore meta field equals value >>= λ cur_rc. ok (cur_rc, end))
unfolding comparison
comparison_steps filter ignore meta position splitter n end equals field value a b c d e =
    rw (a, b, c, e, d, test_field_passes)

-- The text of a test in three parts, the comparator last in the first.
pub text_parts :
    (pre field rest : List ℕ) (equals : Bool)
    → pre ++ (field ++ (comparator equals ++ rest)) ≡ (pre ++ (field ++ comparator equals)) ++ rest
text_parts pre field rest equals =
    ap (λ t. pre ++ t) (sym (append_assoc field (comparator equals) rest))
    ∙ sym (append_assoc pre (field ++ comparator equals) rest)

value_text-value_at :
    (head value tail : List ℕ) (splitter w : ℕ) (quoted : Bool)
    → splitter + w ≡ length head
    → length (head ++ (value_text quoted value ++ tail)) < 2 ^ 63
    → IsValue quoted value
    → EndsBare tail
    → value_at (head ++ (value_text quoted value ++ tail)) splitter w
      ≡ ok (value, test_end quoted tail (length head + length (value_text quoted value)))
value_text-value_at head value tail splitter w false at small h end =
    value_at-bare head value tail splitter w at small h end
value_text-value_at head value tail splitter w true at small h end =
    let flat : head ++ (value_text true value ++ tail) ≡ head ++ b'"' ∷ (value ++ b'"' ∷ tail) =
      ap (λ t. head ++ b'"' ∷ t) (append_assoc value quote tail) in
    let size : length (value_text true value) ≡ length value + 2 =
      omega (arith, length-append value quote) in
    rw flat (
      value_at-quoted head value tail splitter w at (omega (arith, ap length flat)) h
      ∙ ap (λ e. ok (value, e)) (omega arith))

-- A test that is written at the position is evaluated, and the position moves behind it.
pub comparison-test :
    (pre field tail value : List ℕ) (equals quoted ignore : Bool) (meta : Meta)
    → Avoids field_stops field
    → IsValue quoted value
    → EndsBare tail
    → length (pre ++ (field ++ (comparator equals ++ (value_text quoted value ++ tail)))) < 2 ^ 63
    → comparison
        (pre ++ (field ++ (comparator equals ++ (value_text quoted value ++ tail))))
        ignore
        meta
        (length pre)
      ≡ (field_passes ignore meta field equals value >>= λ cur_rc. ok (
        cur_rc,
        test_end quoted tail
            (length pre + length (field ++ (comparator equals ++ value_text quoted value))),
      ))
comparison-test pre field tail value equals quoted ignore meta hf hv end small =
    let rest : List ℕ = value_text quoted value ++ tail in
    let filter : List ℕ = pre ++ (field ++ (comparator equals ++ rest)) in
    let head : List ℕ = pre ++ (field ++ comparator equals) in
    let parts = text_parts pre field rest equals in
    let w : ℕ = if equals then 1 else 2 in
    let wide : length (comparator equals) ≡ w = width_comparator equals in
    let size = length-append pre (field ++ (comparator equals ++ rest)) in
    let size' = length-append field (comparator equals ++ rest) in
    let head_size : length head ≡ length pre + length field + w = omega (
      arith,
      length-append pre (field ++ comparator equals),
      length-append field (comparator equals),
    ) in
    let text_size : length (field ++ (comparator equals ++ value_text quoted value))
        ≡ length field + w + length (value_text quoted value) =
      omega (
        arith,
        length-append field (comparator equals ++ value_text quoted value),
        length-append (comparator equals) (value_text quoted value),
      ) in
    let spaces = Avoids-fewer space field_stops field no_spaces hf in
    comparison_steps filter ignore meta (length pre) (length pre + length field) (length field)
      (test_end quoted tail (length head + length (value_text quoted value))) equals field value
      (split_at-comparator pre field equals rest hf (omega arith)) (omega arith)
      (substr-append pre field (comparator equals ++ rest) (length field) refl)
      (trim-Avoids space field spaces)
      (rw parts (
        value_text-value_at head value tail (length pre + length field) w quoted (omega arith)
          (omega (arith, ap length parts)) hv end))
    ∙ ap
        (λ n. field_passes ignore meta field equals value >>= λ cur_rc.
          ok (cur_rc, test_end quoted tail n))
        (omega arith)
