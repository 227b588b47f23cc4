-- ===== src/Filter/Meaning.antt =====
-- `execute_filter` computes what an expression means.
use ham_router.Common.{
  ℕ, suc, ◌+◌, ◌-◌, ◌≤◌, ◌<◌, ◌^◌, List, [], ◌∷◌, ◌++◌, length, Bool, true, false, ◌&&◌, ◌||◌,
  if◌then◌else◌, some, ◌≡◌, refl, sym, ap, ap₂, ◌∙◌, arith, length-append, append_assoc, append-nil,
}
use ham_router.Text.{npos, substr}
use ham_router.Text.Search.{find_first_of-append, substr-append, substr-rest}
use ham_router.Message.{Meta}
use ham_router.Filter.{ok, ◌>>=◌, combine, space, and_op, or_op, token, execute_filter}
use ham_router.Filter.Syntax.{
  Term, Expr, test, group, one, join, comparator, value_text, connective, print_term, print,
  meaning_term, meaning, IsTerm, IsExpr, rounds, cost_term, cost,
}
use ham_router.Filter.Nesting.{retrieve_subfilter-print}
use ham_router.Filter.Comparison.{EndsBare}
use ham_router.Filter.Rounds.{
  >>=-cong, >>=_assoc, >>=-ok, token_byte, run, run_done, run-blank, run_operator, run_opening,
  after_term, test_term,
}

-- The fuel before an expression of which `fuel` is left behind it.
abbrev spend : Expr → ℕ → ℕ
spend (one t) fuel = suc fuel
spend (join e both t) fuel = spend e (suc (suc (suc (suc fuel))))

spend-rounds : (e : Expr) (fuel : ℕ) → spend e fuel ≡ rounds e + fuel
spend-rounds (one t) fuel = omega arith
spend-rounds (join e both t) fuel = spend-rounds e (suc (suc (suc (suc fuel)))) ∙ omega arith

abbrev op_text : Bool → List ℕ
op_text true = and_op
op_text false = or_op

-- A connective as the bytes that the loop goes over.
connective_text :
    (both : Bool) (rest : List ℕ) → connective both ++ rest ≡ b' ' ∷ (op_text both ++ (b' ' ∷ rest))
connective_text true rest = refl
connective_text false rest = refl

connective_ends : (both : Bool) (rest : List ℕ) → EndsBare (connective both ++ rest)
connective_ends true rest = refl
connective_ends false rest = refl

combine_empty : (rc cur_rc : Bool) → combine [] rc cur_rc ≡ ok cur_rc
unfolding combine
combine_empty rc cur_rc = refl

combine_op : (both a b : Bool) → combine (op_text both) a b ≡ ok (if both then a && b else a || b)
unfolding combine
combine_op true a b = refl
combine_op false a b = refl

module _ (ignore : Bool) (meta : Meta) where
  -- The same place in a filter, with the bytes that were passed on the left.
  run_at :
      (fuel : ℕ) (pre xs rest operation : List ℕ) (position : ℕ) (rc : Bool)
      → position ≡ length pre + length xs
      → run ignore meta fuel (pre ++ (xs ++ rest)) position operation rc
        ≡ run ignore meta fuel ((pre ++ xs) ++ rest) (length (pre ++ xs)) operation rc
  run_at fuel pre xs rest operation position rc h =
      ap₂ (λ f n. run ignore meta fuel f n operation rc) (sym (append_assoc pre xs rest))
        (h ∙ sym (length-append pre xs))

  pass_blank :
      (fuel : ℕ) (pre rest operation : List ℕ) (rc : Bool)
      → run ignore meta (suc fuel) (pre ++ b' ' ∷ rest) (length pre) operation rc
        ≡ run ignore meta fuel ((pre ++ space) ++ rest) (length (pre ++ space)) operation rc
  pass_blank fuel pre rest operation rc =
      run-blank ignore meta fuel (pre ++ b' ' ∷ rest) (length pre) operation rc
        (token_byte pre b' ' rest)
      ∙ run_at fuel pre space rest operation (length pre + 1) rc refl

  pass_operator :
      (fuel : ℕ) (pre rest : List ℕ) (both : Bool) (rc : Bool)
      → length (pre ++ (op_text both ++ b' ' ∷ rest)) < 2 ^ 63
      → run ignore meta (suc fuel) (pre ++ (op_text both ++ b' ' ∷ rest)) (length pre) [] rc
        ≡ run ignore meta fuel
            ((pre ++ op_text both) ++ b' ' ∷ rest)
            (length (pre ++ op_text both))
            (op_text both)
            rc
  pass_operator fuel pre rest true rc small =
      let size = length-append pre (and_op ++ b' ' ∷ rest) in
      run_operator ignore meta fuel (pre ++ (and_op ++ b' ' ∷ rest)) (length pre) (length pre + 2)
        [] and_op rc (token_byte pre b'&' (b'&' ∷ b' ' ∷ rest))
        (find_first_of-append pre space and_op b' ' rest (refl, (refl, tt)) refl)
        (substr-append pre and_op (b' ' ∷ rest) _ (omega arith))
      ∙ run_at fuel pre and_op (b' ' ∷ rest) and_op (length pre + 2) rc refl
  pass_operator fuel pre rest false rc small =
      let size = length-append pre (or_op ++ b' ' ∷ rest) in
      run_operator ignore meta fuel (pre ++ (or_op ++ b' ' ∷ rest)) (length pre) (length pre + 2) []
        or_op rc (token_byte pre b'|' (b'|' ∷ b' ' ∷ rest))
        (find_first_of-append pre space or_op b' ' rest (refl, (refl, tt)) refl)
        (substr-append pre or_op (b' ' ∷ rest) _ (omega arith))
      ∙ run_at fuel pre or_op (b' ' ∷ rest) or_op (length pre + 2) rc refl

  -- From behind an expression to the term behind the connective.
  pass_connective :
      (fuel : ℕ) (pre rest : List ℕ) (both : Bool) (rc : Bool)
      → length (pre ++ (connective both ++ rest)) < 2 ^ 63
      → run ignore meta (suc (suc (suc fuel))) (pre ++ (connective both ++ rest)) (length pre) [] rc
        ≡ run ignore meta fuel
            ((pre ++ connective both) ++ rest)
            (length (pre ++ connective both))
            (op_text both)
            rc
  pass_connective fuel pre rest both rc small =
      let pre1 : List ℕ = pre ++ space in
      let pre2 : List ℕ = pre1 ++ op_text both in
      let flat = connective_text both rest in
      let moved : pre ++ b' ' ∷ (op_text both ++ b' ' ∷ rest)
          ≡ pre1 ++ (op_text both ++ b' ' ∷ rest) =
        sym (append_assoc pre space (op_text both ++ b' ' ∷ rest)) in
      let same : pre2 ++ space ≡ pre ++ connective both =
        append_assoc pre1 (op_text both) space
        ∙ append_assoc pre space (op_text both ++ space)
        ∙ ap (λ t. pre ++ t) (sym (connective_text both []) ∙ append-nil (connective both)) in
      ap (λ t. run ignore meta (suc (suc (suc fuel))) (pre ++ t) (length pre) [] rc) flat
      ∙ pass_blank (suc (suc fuel)) pre (op_text both ++ b' ' ∷ rest) [] rc
      ∙ pass_operator (suc fuel) pre1 rest both rc
          (omega (arith, ap length moved, ap (λ t. length (pre ++ t)) flat))
      ∙ pass_blank fuel pre2 rest (op_text both) rc
      ∙ ap (λ t. run ignore meta fuel (t ++ rest) (length t) (op_text both) rc) same

  -- An expression in parentheses, once the loop on its text is known to find its meaning.
  run_group :
      (e : Expr) (pre tail operation : List ℕ) (fuel : ℕ) (rc : Bool)
      → IsExpr e
      → run ignore meta fuel (print e) 0 [] false ≡ meaning ignore meta e
      → length (pre ++ (print_term (group e) ++ tail)) < 2 ^ 63
      → run ignore meta (suc fuel) (pre ++ (print_term (group e) ++ tail)) (length pre) operation rc
        ≡ after_term ignore meta fuel
            (pre ++ (print_term (group e) ++ tail))
            (length pre + length (print_term (group e)))
            operation
            rc
            (meaning ignore meta e)
  unfolding print_term
  run_group e pre tail operation fuel rc h inner small =
      let text : List ℕ = print e ++ b')' ∷ tail in
      let filter : List ℕ = pre ++ (print_term (group e) ++ tail) in
      let flat : print_term (group e) ++ tail ≡ b'(' ∷ text =
        ap (λ t. b'(' ∷ t) (append_assoc (print e) (b')' ∷ []) tail) in
      let whole : filter ≡ (pre ++ b'(' ∷ []) ++ text =
        ap (λ t. pre ++ t) flat ∙ sym (append_assoc pre (b'(' ∷ []) text) in
      let opened : length (pre ++ b'(' ∷ []) ≡ length pre + 1 = length-append pre (b'(' ∷ []) in
      let found : substr filter (length pre + 1) npos ≡ some text =
        rw (whole, ← opened)
          (substr-rest (pre ++ b'(' ∷ []) text npos
            (omega (arith, ap length whole, length-append (pre ++ b'(' ∷ []) text))) in
      let size : length (print_term (group e)) ≡ length (print e) + 2 =
        omega (arith, length-append (print e) (b')' ∷ [])) in
      run_opening ignore meta fuel filter (length pre) operation text (print e) rc
        (ap (λ t. token (pre ++ t) (length pre)) flat ∙ token_byte pre b'(' text) found
        (retrieve_subfilter-print e tail h)
      ∙ ap
          (λ o. o >>= λ cur_rc. combine operation rc cur_rc >>= λ rc'.
            run ignore meta fuel filter (length pre + length (print e) + 2) [] rc')
          inner
      ∙ ap (λ n. after_term ignore meta fuel filter n operation rc (meaning ignore meta e))
          (omega arith)

  -- The whole of a text, once the loop is known to go through it.
  run_whole :
      (e : Expr) (fuel left : ℕ) (rc : Bool)
      → fuel ≡ spend e (suc left)
      → (run ignore meta (spend e (suc left)) ([] ++ (print e ++ [])) 0 [] rc ≡ (
          meaning ignore meta e >>= λ v.
          run ignore meta (suc left) ([] ++ (print e ++ [])) (0 + length (print e)) [] v))
      → run ignore meta fuel (print e) 0 [] rc ≡ meaning ignore meta e
  run_whole e fuel left rc same through =
      let whole : print e ++ [] ≡ print e = append-nil (print e) in
      rw same (
        ap (λ f. run ignore meta (spend e (suc left)) f 0 [] rc) (sym whole)
        ∙ through
        ∙ >>=-cong (meaning ignore meta e) _ ok (λ v.
          run_done ignore meta left (print e ++ []) (0 + length (print e)) [] v
            (omega (arith, ap length whole)))
        ∙ >>=-ok (meaning ignore meta e))

  -- A term behind a connective, once the loop is known to go through it.
  run_join :
      (e : Expr) (both : Bool) (t : Term) (pre tail : List ℕ) (fuel : ℕ) (a : Bool)
      → let pre' = (pre ++ print e) ++ connective both in
        length (pre ++ (print e ++ (connective both ++ (print_term t ++ tail)))) < 2 ^ 63
        → (run ignore meta
              (suc fuel)
              (pre' ++ (print_term t ++ tail))
              (length pre')
              (op_text both)
              a
            ≡ after_term ignore meta fuel
                (pre' ++ (print_term t ++ tail))
                (length pre' + length (print_term t))
                (op_text both)
                a
                (meaning_term ignore meta t))
        → run ignore meta
            (suc (suc (suc (suc fuel))))
            (pre ++ (print e ++ (connective both ++ (print_term t ++ tail))))
            (length pre + length (print e))
            []
            a
          ≡ (meaning_term ignore meta t >>= λ b.
              run ignore meta fuel
                (pre ++ (print (join e both t) ++ tail))
                (length pre + length (print (join e both t)))
                []
                (if both then a && b else a || b))
  unfolding print
  run_join e both t pre tail fuel a small through =
      let pre1 : List ℕ = pre ++ print e in
      let pre' : List ℕ = pre1 ++ connective both in
      let rest : List ℕ = connective both ++ (print_term t ++ tail) in
      let same : pre' ++ (print_term t ++ tail) ≡ pre ++ (print (join e both t) ++ tail) =
        append_assoc pre1 (connective both) (print_term t ++ tail)
        ∙ append_assoc pre (print e) rest
        ∙ ap (λ x. pre ++ x)
            (ap (λ x. print e ++ x) (sym (append_assoc (connective both) (print_term t) tail))
              ∙ sym (append_assoc (print e) (connective both ++ print_term t) tail)) in
      let end : length pre' + length (print_term t) ≡ length pre + length (print (join e both t)) =
        omega (
          arith,
          length-append pre1 (connective both),
          length-append pre (print e),
          length-append (print e) (connective both ++ print_term t),
          length-append (connective both) (print_term t),
        ) in
      run_at (suc (suc (suc (suc fuel)))) pre (print e) rest [] (length pre + length (print e)) a
        refl
      ∙ pass_connective (suc fuel) pre1 (print_term t ++ tail) both a
          (omega (arith, ap length (append_assoc pre (print e) rest)))
      ∙ through
      ∙ >>=-cong (meaning_term ignore meta t) _ _ (λ b.
        ap
          (λ o. o >>= λ rc'.
            run ignore meta fuel (pre' ++ (print_term t ++ tail))
              (length pre' + length (print_term t)) [] rc')
          (combine_op both a b)
        ∙ ap₂ (λ f n. run ignore meta fuel f n [] (if both then a && b else a || b)) same end)

  mutual
    unfolding print_term print meaning_term meaning

    run_term :
        (t : Term) (pre tail operation : List ℕ) (fuel : ℕ) (rc : Bool)
        → IsTerm t
        → EndsBare tail
        → cost_term t ≤ fuel
        → length (pre ++ (print_term t ++ tail)) < 2 ^ 63
        → run ignore meta (suc fuel) (pre ++ (print_term t ++ tail)) (length pre) operation rc
          ≡ after_term ignore meta fuel
              (pre ++ (print_term t ++ tail))
              (length pre + length (print_term t))
              operation
              rc
              (meaning_term ignore meta t)
    run_term (test field equals quoted value) pre tail operation fuel rc h end c small =
        test_term ignore meta pre tail field value equals quoted fuel operation rc h end small
    run_term (group e) pre tail operation fuel rc h end c small =
        let left : ℕ = fuel - rounds e - 1 in
        run_group e pre tail operation fuel rc h
          (run_whole e fuel left false (omega (arith, spend-rounds e (suc left))) (
            run_expr e [] [] (suc left) false h tt (omega arith) (
              omega (
                arith,
                ap length (append-nil (print e)),
                length-append pre (print_term (group e) ++ tail),
                length-append (print_term (group e)) tail,
                length-append (print e) (b')' ∷ []),
              ))))
          small

    run_expr :
        (e : Expr) (pre tail : List ℕ) (fuel : ℕ) (rc : Bool)
        → IsExpr e
        → EndsBare tail
        → cost e ≤ fuel
        → length (pre ++ (print e ++ tail)) < 2 ^ 63
        → run ignore meta (spend e fuel) (pre ++ (print e ++ tail)) (length pre) [] rc ≡ (
            meaning ignore meta e >>= λ v.
            run ignore meta fuel (pre ++ (print e ++ tail)) (length pre + length (print e)) [] v)
    run_expr (one t) pre tail fuel rc h end c small =
        run_term t pre tail [] fuel rc h end c small
        ∙ >>=-cong (meaning_term ignore meta t) _ _ (λ v.
          ap
            (λ o. o >>= λ rc'.
              run ignore meta fuel (pre ++ (print_term t ++ tail))
                (length pre + length (print_term t)) [] rc')
            (combine_empty rc v))
    run_expr (join e both t) pre tail fuel rc (he, ht) end c small =
        let rest : List ℕ = connective both ++ (print_term t ++ tail) in
        let flat : pre ++ (print (join e both t) ++ tail) ≡ pre ++ (print e ++ rest) =
          ap (λ x. pre ++ x)
            (append_assoc (print e) (connective both ++ print_term t) tail
              ∙ ap (λ x. print e ++ x) (append_assoc (connective both) (print_term t) tail)) in
        let small' : length (pre ++ (print e ++ rest)) < 2 ^ 63 = omega (arith, ap length flat) in
        let pre' : List ℕ = (pre ++ print e) ++ connective both in
        let small'' : length (pre' ++ (print_term t ++ tail)) < 2 ^ 63 = omega (
          arith,
          ap length (append_assoc (pre ++ print e) (connective both) (print_term t ++ tail)),
          ap length (append_assoc pre (print e) rest),
        ) in
        ap (λ f. run ignore meta (spend e (suc (suc (suc (suc fuel))))) f (length pre) [] rc) flat
        ∙ run_expr e pre rest (suc (suc (suc (suc fuel)))) rc he
            (connective_ends both (print_term t ++ tail)) (omega arith) small'
        ∙ >>=-cong (meaning ignore meta e) _ _ (λ a.
          run_join e both t pre tail fuel a small'
            (run_term t pre' tail (op_text both) fuel a ht end (omega arith) small''))
        ∙ sym (
            >>=_assoc (meaning ignore meta e) _ _
            ∙ >>=-cong (meaning ignore meta e) _ _
                (λ a. >>=_assoc (meaning_term ignore meta t) _ _))

length-connective : (both : Bool) → length (connective both) ≡ 4
length-connective true = refl
length-connective false = refl

-- The rounds and the parentheses take no more fuel than the text has bytes.
mutual
  unfolding print_term print

  cost_term-le : (t : Term) → IsTerm t → cost_term t + 1 ≤ length (print_term t)
  cost_term-le (test field equals quoted value) (h, _, _) =
      omega (arith, length-append field (comparator equals ++ value_text quoted value))
  cost_term-le (group e) h = omega (arith, cost-le e h, length-append (print e) (b')' ∷ []))

  cost-le : (e : Expr) → IsExpr e → cost e + rounds e ≤ length (print e)
  cost-le (one t) h = cost_term-le t h
  cost-le (join e both t) (he, ht) = omega (
    arith,
    cost-le e he,
    cost_term-le t ht,
    length-append (print e) (connective both ++ print_term t),
    length-append (connective both) (print_term t),
    length-connective both,
  )

-- A filter that is written as an expression means what the expression means, on every message: all
-- its fields are tested, the terms are joined from the left without precedence, and a missing field
-- passes or ends the program. Its length and one more is fuel enough, and more fuel changes nothing.
pub execute_filter-meaning :
    (e : Expr) (ignore : Bool) (meta : Meta) (fuel : ℕ)
    → IsExpr e
    → length (print e) < 2 ^ 63
    → length (print e) < fuel
    → execute_filter fuel (print e) ignore meta ≡ meaning ignore meta e
unfolding execute_filter
execute_filter-meaning e ignore meta fuel h small enough =
    let left : ℕ = fuel - rounds e - 1 in
    let bound : cost e + rounds e ≤ length (print e) = cost-le e h in
    run_whole ignore meta e fuel left false (omega (arith, spend-rounds e (suc left))) (
      run_expr ignore meta e [] [] (suc left) false h tt (omega arith)
        (omega (arith, ap length (append-nil (print e)))))
