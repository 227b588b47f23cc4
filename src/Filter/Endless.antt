-- ===== src/Filter/Endless.antt =====
-- Filters that `execute_filter` never finishes: `right_end = dq + 1` wraps to 0 where no quote closes.
use ham_router.Common.{
  ℕ, zero, suc, ◌+◌, ◌≤◌, ◌<◌, ◌^◌, List, [], ◌∷◌, ◌++◌, length, Bool, false, if◌then◌else◌, ◌≡◌,
  refl, sym, ap, ◌∙◌, arith, length-append, append_assoc,
}
use ham_router.Text.{npos, sub_size, find_first_of}
use ham_router.Text.Search.{
  Avoids, find_first_of-none, substr-append, substr-rest, trim-head, trim-Avoids,
}
use ham_router.Message.{Meta}
use ham_router.Filter.{
  ok, runs_on, ◌>>=◌, comparison, combine, space, value_at, filter_loop, execute_filter,
}
use ham_router.Filter.Syntax.{comparator, field_stops, quote, field_passes}
use ham_router.Filter.Comparison.{
  Avoids-fewer, no_spaces, quoted_steps, quoted_text, comparison_steps, split_at-comparator,
  width_comparator, text_parts,
}
use ham_router.Filter.Rounds.{run_other, first_other}

-- A field, a comparator and a value whose quote is never closed.
abbrev pub unclosed : List ℕ → Bool → List ℕ → List ℕ
unclosed field equals value = field ++ (comparator equals ++ b'"' ∷ value)

value_at-unclosed :
    (head value : List ℕ) (splitter w : ℕ)
    → splitter + w ≡ length head
    → length (head ++ b'"' ∷ value) < 2 ^ 63
    → Avoids quote value
    → value_at (head ++ b'"' ∷ value) splitter w ≡ ok (value, 0)
value_at-unclosed head value splitter w at small h =
    let filter : List ℕ = head ++ b'"' ∷ value in
    let end : ℕ = find_first_of filter space (length head) in
    let n : ℕ = sub_size (sub_size end splitter) w in
    let k : ℕ = sub_size (sub_size npos splitter) (1 + w) in
    let size = length-append head (b'"' ∷ value) in
    let (more, text) = quoted_text head value splitter w at small in
    let opened : filter ≡ (head ++ quote) ++ value = sym (append_assoc head quote value) in
    let open_size : length (head ++ quote) ≡ length head + 1 = length-append head quote in
    quoted_steps filter splitter w (length head) end n (length head + 1) npos k (b'"' ∷ more) value
      (omega arith) refl refl text (rw (trim-head space b'"' more refl) refl) (omega arith)
      (rw (opened, ← open_size) (find_first_of-none (head ++ quote) quote value h)) refl
      (rw (opened, ← open_size) (substr-rest (head ++ quote) value k (omega arith)))

comparison-unclosed :
    (field value : List ℕ) (equals ignore cur_rc : Bool) (meta : Meta)
    → Avoids field_stops field
    → Avoids quote value
    → length (unclosed field equals value) < 2 ^ 63
    → field_passes ignore meta field equals value ≡ ok cur_rc
    → comparison (unclosed field equals value) ignore meta 0 ≡ ok (cur_rc, 0)
comparison-unclosed field value equals ignore cur_rc meta hf hv small passes =
    let filter : List ℕ = unclosed field equals value in
    let w : ℕ = if equals then 1 else 2 in
    let wide : length (comparator equals) ≡ w = width_comparator equals in
    let size = length-append field (comparator equals ++ b'"' ∷ value) in
    let parts = text_parts [] field (b'"' ∷ value) equals in
    comparison_steps filter ignore meta 0 (length field) (length field) 0 equals field value
      (split_at-comparator [] field equals (b'"' ∷ value) hf (omega arith)
        ∙ ap (λ n. (equals, n)) (omega arith))
      (omega arith) (substr-append [] field (comparator equals ++ b'"' ∷ value) (length field) refl)
      (trim-Avoids space field (Avoids-fewer space field_stops field no_spaces hf))
      (rw parts (
        value_at-unclosed (field ++ comparator equals) value (length field) w
          (omega (arith, length-append field (comparator equals))) (omega (arith, ap length parts))
          hv))
    ∙ rw passes

combine_first : (rc cur_rc : Bool) → combine [] rc cur_rc ≡ ok cur_rc
unfolding combine
combine_first rc cur_rc = refl

loop-unclosed :
    (fuel c : ℕ) (field value : List ℕ) (equals ignore cur_rc rc : Bool) (meta : Meta)
    → Avoids field_stops (c ∷ field)
    → Avoids quote value
    → length (unclosed (c ∷ field) equals value) < 2 ^ 63
    → field_passes ignore meta (c ∷ field) equals value ≡ ok cur_rc
    → filter_loop fuel ignore meta (unclosed (c ∷ field) equals value) 0 [] rc ≡ runs_on
loop-unclosed zero c field value equals ignore cur_rc rc meta hf hv small passes =
    unfold filter_loop in refl
loop-unclosed (suc fuel) c field value equals ignore cur_rc rc meta (hc, hf) hv small passes =
    let filter : List ℕ = unclosed (c ∷ field) equals value in
    run_other ignore meta fuel filter 0 [] rc
      (first_other ignore meta c hc [] (field ++ (comparator equals ++ b'"' ∷ value)))
    ∙ ap
        (λ r.
          r >>= λ r. combine [] rc r.0 >>= λ rc'. filter_loop fuel ignore meta filter r.1 [] rc')
        (comparison-unclosed (c ∷ field) value equals ignore cur_rc meta (hc, hf) hv small passes)
    ∙ ap (λ o. o >>= λ rc'. filter_loop fuel ignore meta filter 0 [] rc') (combine_first rc cur_rc)
    ∙ loop-unclosed fuel c field value equals ignore cur_rc cur_rc meta (hc, hf) hv small passes

-- A test of a field against a value whose quote is not closed is evaluated again and again for ever:
-- no fuel is enough, on every message on which the test does not end the program.
pub execute_filter_endless :
    (fuel : ℕ) (field value : List ℕ) (equals ignore cur_rc : Bool) (meta : Meta)
    → 1 ≤ length field
    → Avoids field_stops field
    → Avoids quote value
    → length (unclosed field equals value) < 2 ^ 63
    → field_passes ignore meta field equals value ≡ ok cur_rc
    → execute_filter fuel (unclosed field equals value) ignore meta ≡ runs_on
unfolding execute_filter
execute_filter_endless fuel [] value equals ignore cur_rc meta h hf hv small passes =
    absurd (omega arith)
execute_filter_endless fuel (c ∷ field) value equals ignore cur_rc meta h hf hv small passes =
    loop-unclosed fuel c field value equals ignore cur_rc false meta hf hv small passes
