-- ===== src/Filter/Rounds.antt =====
-- The rounds of the loop of `execute_filter`, by what stands at the position.
use ham_router.Common.{
  ℕ, zero, suc, ◌+◌, ◌≤◌, ◌<◌, ◌^◌, List, [], ◌∷◌, ◌++◌, length, Bool, true, false, ◌||◌, ◌==◌,
  if◌then◌else◌, some, ◌≡◌, refl, sym, ap, ◌∙◌, arith, length-append, append_assoc, get_or-append,
}
use ham_router.Text.{npos, sub_size, one_of, find_first_of, substr}
use ham_router.Message.{Meta}
use ham_router.Filter.{
  Outcome, ok, exits, throws, runs_on, ◌>>=◌, retrieve_subfilter, combine, comparison, space, done,
  blank, opening, operator, other, token, filter_loop,
}
use ham_router.Filter.Syntax.{test, comparator, value_text, field_stops, field_passes, IsTerm}
use ham_router.Filter.Comparison.{EndsBare, test_end, comparison-test}

pub >>=-cong {ℓ κ} :
    {A : Type ℓ} {B : Type κ} (m : Outcome A) (f g : A → Outcome B)
    → ((a : A) → f a ≡ g a)
    → (m >>= f) ≡ (m >>= g)
>>=-cong (ok a) f g h = h a
>>=-cong exits f g h = refl
>>=-cong throws f g h = refl
>>=-cong runs_on f g h = refl

pub >>=_assoc {ℓ κ μ} :
    {A : Type ℓ} {B : Type κ} {C : Type μ} (m : Outcome A) (f : A → Outcome B) (g : B → Outcome C)
    → ((m >>= f) >>= g) ≡ (m >>= λ a. f a >>= g)
>>=_assoc (ok a) f g = refl
>>=_assoc exits f g = refl
>>=_assoc throws f g = refl
>>=_assoc runs_on f g = refl

pub >>=-ok {ℓ} : {A : Type ℓ} (m : Outcome A) → (m >>= ok) ≡ m
>>=-ok (ok a) = refl
>>=-ok exits = refl
>>=-ok throws = refl
>>=-ok runs_on = refl

-- What stands at the end of a prefix.
pub token_byte :
    (pre : List ℕ) (c : ℕ) (rest : List ℕ)
    → token (pre ++ c ∷ rest) (length pre) ≡ (
        if c == b' '
        then blank
        else if c == b'('
        then opening
        else if c == b'&' || c == b'|'
        then operator
        else other)
unfolding token
token_byte pre c rest = ground (arith, get_or-append pre c 0 rest, length-append pre (c ∷ rest))

pub token_end :
    (filter : List ℕ) (position : ℕ) → length filter ≤ position → token filter position ≡ done
unfolding token
token_end filter position h = ground arith

module _ (ignore : Bool) (meta : Meta) where
  abbrev pub run : ℕ → List ℕ → ℕ → List ℕ → Bool → Outcome Bool
  run fuel filter position operation rc = filter_loop fuel ignore meta filter position operation rc

  pub run_done :
      (fuel : ℕ) (filter : List ℕ) (position : ℕ) (operation : List ℕ) (rc : Bool)
      → length filter ≤ position
      → run (suc fuel) filter position operation rc ≡ ok rc
  unfolding filter_loop
  run_done fuel filter position operation rc h = rw (token_end filter position h, filter_loop)

  pub run-blank :
      (fuel : ℕ) (filter : List ℕ) (position : ℕ) (operation : List ℕ) (rc : Bool)
      → token filter position ≡ blank
      → run (suc fuel) filter position operation rc ≡ run fuel filter (position + 1) operation rc
  unfolding filter_loop
  run-blank fuel filter position operation rc h = rw (h, filter_loop)

  pub run_operator :
      (fuel : ℕ) (filter : List ℕ) (position end : ℕ) (operation operation' : List ℕ) (rc : Bool)
      → token filter position ≡ operator
      → find_first_of filter space position ≡ end
      → substr filter position (sub_size end position) ≡ some operation'
      → run (suc fuel) filter position operation rc ≡ run fuel filter end operation' rc
  unfolding filter_loop
  run_operator fuel filter position end operation operation' rc h e s = rw (h, filter_loop, e, s)

  pub run_other :
      (fuel : ℕ) (filter : List ℕ) (position : ℕ) (operation : List ℕ) (rc : Bool)
      → token filter position ≡ other
      → run (suc fuel) filter position operation rc ≡ (
          comparison filter ignore meta position >>= λ r.
          combine operation rc r.0 >>= λ rc'. run fuel filter r.1 [] rc')
  unfolding filter_loop
  run_other fuel filter position operation rc h = rw (h, filter_loop)

  pub run_opening :
      (fuel : ℕ) (filter : List ℕ) (position : ℕ) (operation text temp : List ℕ) (rc : Bool)
      → token filter position ≡ opening
      → substr filter (position + 1) npos ≡ some text
      → retrieve_subfilter text ≡ some temp
      → run (suc fuel) filter position operation rc ≡ (
          run fuel temp 0 [] false >>= λ cur_rc. combine operation rc cur_rc >>= λ rc'.
          run fuel filter (position + length temp + 2) [] rc')
  unfolding filter_loop
  run_opening fuel filter position operation text temp rc h s r = rw (h, filter_loop, s, r)

  -- Behind the end all positions are alike.
  run_behind :
      (fuel : ℕ) (filter : List ℕ) (m n : ℕ) (rc : Bool)
      → length filter ≤ m
      → length filter ≤ n
      → run fuel filter m [] rc ≡ run fuel filter n [] rc
  run_behind zero filter m n rc h k = unfold filter_loop in refl
  run_behind (suc fuel) filter m n rc h k =
      run_done fuel filter m [] rc h ∙ sym (run_done fuel filter n [] rc k)

  -- Going on behind a term, once its result is known.
  abbrev pub after_term : ℕ → List ℕ → ℕ → List ℕ → Bool → Outcome Bool → Outcome Bool
  after_term fuel filter end operation rc result =
      result >>= λ cur_rc. combine operation rc cur_rc >>= λ rc'. run fuel filter end [] rc'

  pub first_other :
      (c : ℕ)
      → one_of field_stops c ≡ false
      → (pre rest : List ℕ) → token (pre ++ c ∷ rest) (length pre) ≡ other
  first_other c h pre rest = token_byte pre c rest ∙ ground arith

  test_meets :
      (pre tail : List ℕ) (quoted : Bool) (text : List ℕ) (fuel : ℕ) (rc : Bool)
      → EndsBare tail
      → length (pre ++ (text ++ tail)) < 2 ^ 63
      → run fuel (pre ++ (text ++ tail)) (test_end quoted tail (length pre + length text)) [] rc
        ≡ run fuel (pre ++ (text ++ tail)) (length pre + length text) [] rc
  test_meets pre tail true text fuel rc end small = refl
  test_meets pre (c ∷ tail) false text fuel rc end small = refl
  test_meets pre [] false text fuel rc end small =
      let size = length-append pre (text ++ []) in
      let size' = length-append text [] in
      run_behind fuel (pre ++ (text ++ [])) npos (length pre + length text) rc (omega arith)
        (omega arith)

  pub test_term :
      (pre tail field value : List ℕ) (equals quoted : Bool) (fuel : ℕ) (operation : List ℕ)
      (rc : Bool)
      → IsTerm (test field equals quoted value)
      → EndsBare tail
      → let text = field ++ (comparator equals ++ value_text quoted value) in
        length (pre ++ (text ++ tail)) < 2 ^ 63
        → run (suc fuel) (pre ++ (text ++ tail)) (length pre) operation rc
          ≡ after_term fuel
              (pre ++ (text ++ tail))
              (length pre + length text)
              operation
              rc
              (field_passes ignore meta field equals value)
  test_term pre tail [] value equals quoted fuel operation rc (h, _, _) end small =
      absurd (omega arith)
  test_term pre tail (c ∷ field) value equals quoted fuel operation rc (_, (hc, hf), hv) end small =
      let text : List ℕ = (c ∷ field) ++ (comparator equals ++ value_text quoted value) in
      let filter : List ℕ = pre ++ (text ++ tail) in
      let flat : text ++ tail
          ≡ (c ∷ field) ++ (comparator equals ++ (value_text quoted value ++ tail)) =
        append_assoc (c ∷ field) (comparator equals ++ value_text quoted value) tail
        ∙ ap (λ t. (c ∷ field) ++ t)
            (append_assoc (comparator equals) (value_text quoted value) tail) in
      let whole : filter
          ≡ pre ++ ((c ∷ field) ++ (comparator equals ++ (value_text quoted value ++ tail))) =
        ap (λ t. pre ++ t) flat in
      let compared : comparison filter ignore meta (length pre) ≡ (
          field_passes ignore meta (c ∷ field) equals value >>= λ cur_rc.
          ok (cur_rc, test_end quoted tail (length pre + length text))) =
        rw whole (
          comparison-test pre (c ∷ field) tail value equals quoted ignore meta (hc, hf) hv end
            (omega (arith, ap length whole))) in
      run_other fuel filter (length pre) operation rc
        (ap (λ t. token (pre ++ t) (length pre)) flat ∙ first_other c hc pre _)
      ∙ ap (λ r. r >>= λ r. combine operation rc r.0 >>= λ rc'. run fuel filter r.1 [] rc') compared
      ∙ >>=_assoc (field_passes ignore meta (c ∷ field) equals value) _ _
      ∙ >>=-cong (field_passes ignore meta (c ∷ field) equals value) _ _ (λ cur_rc.
        >>=-cong (combine operation rc cur_rc) _ _
          (λ rc'. test_meets pre tail quoted text fuel rc' end small))
