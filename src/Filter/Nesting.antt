-- ===== src/Filter/Nesting.antt =====
-- `retrieve_subfilter` finds the parenthesis that closes an expression.
use ham_router.Common.{
  ℕ, suc, ◌+◌, List, [], ◌∷◌, ◌++◌, length, Bool, true, false, not, Option, none, some, ◌≡◌, refl,
  sym, ap, ◌∙◌, arith, length-append, append_assoc, take-append,
}
use ham_router.Text.{one_of}
use ham_router.Text.Search.{Avoids}
use ham_router.Filter.{bracket, plain, further, closing, retrieve_subfilter}
use ham_router.Filter.Syntax.{
  Term, Expr, test, group, one, join, comparator, value_text, connective, print_term, print,
  field_stops, value_stops, quote, IsValue, IsTerm, IsExpr,
}

-- A position that is counted from `n` bytes further on.
abbrev shift : ℕ → Option ℕ → Option ℕ
shift n none = none
shift n (some i) = some (n + i)

shift_zero : (o : Option ℕ) → o ≡ shift 0 o
shift_zero none = refl
shift_zero (some i) = ap some (omega arith)

shift-suc : (n : ℕ) (o : Option ℕ) → further (shift n o) ≡ shift (suc n) o
shift-suc n none = refl
shift-suc n (some i) = ap some (omega arith)

shift-shift : (m n : ℕ) (o : Option ℕ) → shift m (shift n o) ≡ shift (m + n) o
shift-shift m n none = refl
shift-shift m n (some i) = ap some (omega arith)

-- A byte before, `n` bytes, and a byte behind.
wrap : (n : ℕ) (o : Option ℕ) → further (shift n (further o)) ≡ shift (suc (n + 1)) o
wrap n none = refl
wrap n (some i) = ap some (omega arith)

-- Bytes that are neither quotes nor parentheses are passed over.
abbrev brackets : List ℕ
brackets = b'(' ∷ b')' ∷ b'"' ∷ []

bracket-plain : (c : ℕ) → one_of brackets c ≡ false → bracket false c ≡ plain
unfolding bracket
bracket-plain c h = ground arith

bracket_text : (c : ℕ) → one_of quote c ≡ false → bracket true c ≡ plain
unfolding bracket
bracket_text c h = ground arith

-- One round of the loop, by what the byte is.
round_plain :
    (string : Bool) (level c : ℕ) (cs : List ℕ)
    → bracket string c ≡ plain
    → closing string level (c ∷ cs) ≡ further (closing string level cs)
unfolding closing
round_plain string level c cs e = rw (e, closing)

round_quotes :
    (string : Bool) (level : ℕ) (cs : List ℕ)
    → closing string level (b'"' ∷ cs) ≡ further (closing (not string) level cs)
unfolding closing bracket
round_quotes true level cs = refl
round_quotes false level cs = refl

round_opens :
    (level : ℕ) (cs : List ℕ)
    → closing false level (b'(' ∷ cs) ≡ further (closing false (level + 1) cs)
unfolding closing bracket
round_opens level cs = refl

round_closes :
    (level : ℕ) (cs : List ℕ)
    → closing false (suc (suc level)) (b')' ∷ cs) ≡ further (closing false (suc level) cs)
unfolding closing bracket
round_closes level cs = ground arith

round_ends : (cs : List ℕ) → closing false 1 (b')' ∷ cs) ≡ some 0
unfolding closing bracket
round_ends cs = refl

closing_plain :
    (level : ℕ) (xs rest : List ℕ)
    → Avoids brackets xs
    → closing false level (xs ++ rest) ≡ shift (length xs) (closing false level rest)
closing_plain level [] rest h = shift_zero _
closing_plain level (x ∷ xs) rest (hx, h) =
    round_plain false level x (xs ++ rest) (bracket-plain x hx)
    ∙ ap further (closing_plain level xs rest h)
    ∙ shift-suc (length xs) (closing false level rest)

-- Inside quotes everything but a quote is passed over.
closing_text :
    (level : ℕ) (xs rest : List ℕ)
    → Avoids quote xs
    → closing true level (xs ++ rest) ≡ shift (length xs) (closing true level rest)
closing_text level [] rest h = shift_zero _
closing_text level (x ∷ xs) rest (hx, h) =
    round_plain true level x (xs ++ rest) (bracket_text x hx)
    ∙ ap further (closing_text level xs rest h)
    ∙ shift-suc (length xs) (closing true level rest)

Avoids-fewer :
    (set more xs : List ℕ)
    → ((c : ℕ) → one_of more c ≡ false → one_of set c ≡ false)
    → Avoids more xs
    → Avoids set xs
Avoids-fewer set more [] f h = tt
Avoids-fewer set more (x ∷ xs) f (hx, h) = (f x hx, Avoids-fewer set more xs f h)

fields_plain : (c : ℕ) → one_of field_stops c ≡ false → one_of brackets c ≡ false
fields_plain c h = ground arith

values_plain : (c : ℕ) → one_of value_stops c ≡ false → one_of brackets c ≡ false
values_plain c h = ground arith

-- A part of an expression after which the level is what it was.
abbrev Balanced : List ℕ → Type 0
Balanced xs =
    (level : ℕ) (rest : List ℕ)
    → closing false (suc level) (xs ++ rest) ≡ shift (length xs) (closing false (suc level) rest)

Balanced-append : (xs ys : List ℕ) → Balanced xs → Balanced ys → Balanced (xs ++ ys)
Balanced-append xs ys hx hy level rest =
    ap (closing false (suc level)) (append_assoc xs ys rest)
    ∙ hx level (ys ++ rest)
    ∙ ap (shift (length xs)) (hy level rest)
    ∙ shift-shift (length xs) (length ys) (closing false (suc level) rest)
    ∙ ap (λ n. shift n (closing false (suc level) rest)) (sym (length-append xs ys))

plain-Balanced : (xs : List ℕ) → Avoids brackets xs → Balanced xs
plain-Balanced xs h level rest = closing_plain (suc level) xs rest h

value-Balanced :
    (quoted : Bool) (value : List ℕ) → IsValue quoted value → Balanced (value_text quoted value)
value-Balanced false value h =
    plain-Balanced value (Avoids-fewer brackets value_stops value values_plain h)
value-Balanced true value h = λ level rest.
    let found : Option ℕ = closing false (suc level) rest in
    round_quotes false (suc level) ((value ++ quote) ++ rest)
    ∙ ap (λ t. further (closing true (suc level) t)) (append_assoc value quote rest)
    ∙ ap further (closing_text (suc level) value (quote ++ rest) h)
    ∙ ap (λ o. further (shift (length value) o)) (round_quotes true (suc level) rest)
    ∙ wrap (length value) found
    ∙ ap (λ n. shift (suc n) found) (sym (length-append value quote))

group-Balanced : (xs : List ℕ) → Balanced xs → Balanced ((b'(' ∷ xs) ++ b')' ∷ [])
group-Balanced xs h level rest =
    let found : Option ℕ = closing false (suc level) rest in
    round_opens (suc level) ((xs ++ b')' ∷ []) ++ rest)
    ∙ ap (λ t. further (closing false (suc level + 1) t)) (append_assoc xs (b')' ∷ []) rest)
    ∙ ap (λ l. further (closing false l (xs ++ b')' ∷ rest))) (omega arith)
    ∙ ap further (h (suc level) (b')' ∷ rest))
    ∙ ap (λ o. further (shift (length xs) o)) (round_closes level rest)
    ∙ wrap (length xs) found
    ∙ ap (λ n. shift (suc n) found) (sym (length-append xs (b')' ∷ [])))

comparator-Balanced : (equals : Bool) → Balanced (comparator equals)
comparator-Balanced true = plain-Balanced (comparator true) (refl, tt)
comparator-Balanced false = plain-Balanced (comparator false) (refl, (refl, tt))

connective-Balanced : (both : Bool) → Balanced (connective both)
connective-Balanced true = plain-Balanced (connective true) (refl, (refl, (refl, (refl, tt))))
connective-Balanced false = plain-Balanced (connective false) (refl, (refl, (refl, (refl, tt))))

mutual
  unfolding print_term print

  term-Balanced : (t : Term) → IsTerm t → Balanced (print_term t)
  term-Balanced (test field equals quoted value) (_, hf, hv) =
      Balanced-append field (comparator equals ++ value_text quoted value)
        (plain-Balanced field (Avoids-fewer brackets field_stops field fields_plain hf))
        (Balanced-append (comparator equals) (value_text quoted value) (comparator-Balanced equals)
          (value-Balanced quoted value hv))
  term-Balanced (group e) h = group-Balanced (print e) (expr-Balanced e h)

  expr-Balanced : (e : Expr) → IsExpr e → Balanced (print e)
  expr-Balanced (one t) h = term-Balanced t h
  expr-Balanced (join e both t) (he, ht) =
      Balanced-append (print e) (connective both ++ print_term t) (expr-Balanced e he) (
        Balanced-append (connective both) (print_term t) (connective-Balanced both)
          (term-Balanced t ht))

-- After an opening parenthesis the whole expression is retrieved, whatever follows its parenthesis.
pub retrieve_subfilter-print :
    (e : Expr) (rest : List ℕ)
    → IsExpr e
    → retrieve_subfilter (print e ++ b')' ∷ rest) ≡ some (print e)
unfolding retrieve_subfilter
retrieve_subfilter-print e rest h =
    let found : closing false 1 (print e ++ b')' ∷ rest) ≡ some (length (print e) + 0) =
      expr-Balanced e h 0 (b')' ∷ rest) ∙ ap (shift (length (print e))) (round_ends rest) in
    let end : length (print e) + 0 ≡ length (print e) = omega arith in
    rw (found, retrieve_subfilter) (rw end (ap some (take-append (print e) (b')' ∷ rest))))
