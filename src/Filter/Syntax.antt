-- ===== src/Filter/Syntax.antt =====
-- Filters as expressions, what they mean, and how they are written.
use ham_router.Common.{
  ℕ, suc, ◌+◌, ◌≤◌, List, [], ◌∷◌, ◌++◌, length, Bool, true, false, not, ◌&&◌, ◌||◌, ◌==ₛ◌,
  if◌then◌else◌, none, some,
}
use ham_router.Common.Assoc
use ham_router.Text.Search.{Avoids}
use ham_router.Message.{Meta}
use ham_router.Filter.{Outcome, ok, exits, ◌>>=◌, and_op, or_op}

-- A test of a field against a value, bare or in double quotes, or an expression in parentheses; and
-- terms joined from the left by `&&` (`true`) and `||` (`false`), which bind alike.
mutual
  pub data Term : Type 0 where
    test : List ℕ → Bool → Bool → List ℕ → Term
    group : Expr → Term

  pub data Expr : Type 0 where
    one : Term → Expr
    join : Expr → Bool → Term → Expr

abbrev pub comparator : Bool → List ℕ
comparator true = b'=' ∷ []
comparator false = b'!' ∷ b'=' ∷ []

abbrev pub value_text : Bool → List ℕ → List ℕ
value_text true value = b'"' ∷ value ++ b'"' ∷ []
value_text false value = value

abbrev pub connective : Bool → List ℕ
connective true = b' ' ∷ and_op ++ b' ' ∷ []
connective false = b' ' ∷ or_op ++ b' ' ∷ []

unfoldable mutual
  pub print_term : Term → List ℕ
  print_term (test field equals quoted value) =
      field ++ (comparator equals ++ value_text quoted value)
  print_term (group e) = b'(' ∷ print e ++ b')' ∷ []

  pub print : Expr → List ℕ
  print (one t) = print_term t
  print (join e both t) = print e ++ (connective both ++ print_term t)

-- What a field is tested for. A field that is missing passes, or ends the program.
unfoldable pub field_passes : Bool → Meta → List ℕ → Bool → List ℕ → Outcome Bool
field_passes ignore meta field equals value = elim (Assoc.find field meta) [
  | some data_of ↦ ok (if data_of.s_value ==ₛ value then equals else not equals)
  | none ↦ elim ignore [ true ↦ ok true | false ↦ exits ]
]

unfoldable mutual
  unfolding field_passes

  pub meaning_term : Bool → Meta → Term → Outcome Bool
  meaning_term ignore meta (test field equals quoted value) =
      field_passes ignore meta field equals value
  meaning_term ignore meta (group e) = meaning ignore meta e

  pub meaning : Bool → Meta → Expr → Outcome Bool
  meaning ignore meta (one t) = meaning_term ignore meta t
  meaning ignore meta (join e both t) = meaning ignore meta e >>= λ a.
      meaning_term ignore meta t >>= λ b. ok (if both then a && b else a || b)

-- The bytes that a field cannot have, and those that a value has in quotes only.
abbrev pub field_stops : List ℕ
field_stops = b' ' ∷ b'=' ∷ b'!' ∷ b'(' ∷ b')' ∷ b'"' ∷ b'&' ∷ b'|' ∷ []

abbrev pub value_stops : List ℕ
value_stops = b' ' ∷ b'(' ∷ b')' ∷ b'"' ∷ []

abbrev pub quote : List ℕ
quote = b'"' ∷ []

abbrev pub IsValue : Bool → List ℕ → Type 0
IsValue true value = Avoids quote value
IsValue false value = Avoids value_stops value

abbrev mutual
  pub IsTerm : Term → Type 0
  IsTerm (test field equals quoted value) =
      (1 ≤ length field) × Avoids field_stops field × IsValue quoted value
  IsTerm (group e) = IsExpr e

  pub IsExpr : Expr → Type 0
  IsExpr (one t) = IsTerm t
  IsExpr (join e both t) = IsExpr e × IsTerm t

-- The rounds that an expression takes, and the fuel that its parentheses take beside them.
abbrev pub rounds : Expr → ℕ
rounds (one t) = 1
rounds (join e both t) = suc (suc (suc (suc (rounds e))))

abbrev mutual
  pub cost_term : Term → ℕ
  cost_term (test field equals quoted value) = 0
  cost_term (group e) = rounds e + 1 + cost e

  pub cost : Expr → ℕ
  cost (one t) = cost_term t
  cost (join e both t) = cost e + cost_term t
