-- ===== src/Filter.antt =====
-- filter.h and filter.cpp: the filter expressions of the configuration file, run over the fields of
-- a message.
pub mod Syntax
pub mod Nesting
pub mod Comparison
pub mod Rounds
pub mod Meaning
pub mod Endless
use ham_router.Common.{
  ℕ, zero, suc, ◌+◌, ◌-◌, List, [], ◌∷◌, length, get_or, take, Bool, true, false, not, ◌&&◌, ◌||◌,
  ltb, leb, ◌==◌, ◌==ₛ◌, if◌then◌else◌, Option, none, some,
}
use ham_router.Common.Assoc
use ham_router.Text.{npos, add_size, sub_size, find_first_of, substr, trim}
use ham_router.Message.{Meta, DbRecordData}

pub record FilterT : Type 0 where
  pub ignore_if_field_is_missing : Bool
  pub pattern : List ℕ

-- `exits` is `error_exit`, `throws` the exception `std::out_of_range`, and `runs_on` is no answer of
-- the program: the fuel ran out.
pub data Outcome {ℓ} (A : Type ℓ) : Type ℓ where
  ok : A → Outcome A
  exits throws runs_on : Outcome A

infixl 5 ◌>>=◌
abbrev pub ◌>>=◌ {ℓ κ} : {A : Type ℓ} {B : Type κ} → Outcome A → (A → Outcome B) → Outcome B
ok a >>= f = f a
exits >>= f = exits
throws >>= f = throws
runs_on >>= f = runs_on

abbrev pub or_throw {ℓ} : {A : Type ℓ} → Option A → Outcome A
or_throw none = throws
or_throw (some a) = ok a

abbrev pub or_exit {ℓ} : {A : Type ℓ} → Option A → Outcome A
or_exit none = exits
or_exit (some a) = ok a

-- What a byte is to `retrieve_subfilter`; in quotes the parentheses are text.
pub data Bracket : Type 0 where
  closes quotes opens plain : Bracket

unfoldable pub bracket : Bool → ℕ → Bracket
bracket string c =
    if c == b')' && not string
    then closes
    else if c == b'"'
    then quotes
    else if c == b'(' && not string
    then opens
    else plain

-- A position that is counted from the byte before.
abbrev pub further : Option ℕ → Option ℕ
further none = none
further (some i) = some (suc i)

-- The loop of `retrieve_subfilter`: how many bytes stand before the parenthesis that closes.
unfoldable pub closing : Bool → ℕ → List ℕ → Option ℕ
closing string level [] = none
closing string level (c ∷ cs) = elim (bracket string c) [
  | closes ↦
      let rest = closing string (level - 1) cs in if level - 1 == 0 then some 0 else further rest
  | quotes ↦ further (closing (not string) level cs)
  | opens ↦ further (closing string (level + 1) cs)
  | plain ↦ further (closing string level cs)
]

unfoldable pub retrieve_subfilter : List ℕ → Option (List ℕ)
unfolding closing bracket
retrieve_subfilter s = elim (closing false 1 s) [ none ↦ none | some i ↦ some (take i s) ]

abbrev pub and_op : List ℕ
and_op = b'&' ∷ b'&' ∷ []

abbrev pub or_op : List ℕ
or_op = b'|' ∷ b'|' ∷ []

-- The operation that is pending joins the result so far and the new one.
unfoldable pub combine : List ℕ → Bool → Bool → Outcome Bool
combine operation rc cur_rc =
    if length operation == 0
    then ok cur_rc
    else if operation ==ₛ and_op
    then ok (rc && cur_rc)
    else if operation ==ₛ or_op
    then ok (rc || cur_rc)
    else exits

abbrev pub space : List ℕ
space = b' ' ∷ []

-- A field against a value.
unfoldable pub test_field : Bool → Meta → List ℕ → Bool → List ℕ → Outcome Bool
test_field ignore meta left equals right = elim (Assoc.find left meta) [
  | none ↦ if ignore then ok true else exits
  | some field ↦ let same = field.s_value ==ₛ right in ok (if equals then same else not same)
]

-- Where the comparator of the comparison at `position` stands, and whether it is `=`.
unfoldable pub split_at : List ℕ → ℕ → Bool × ℕ
split_at filter position =
    let equal_sign = find_first_of filter (b'=' ∷ []) position in
    let nequal_sign = find_first_of filter (b'!' ∷ b'=' ∷ []) position in
    let splitter =
      if (not (equal_sign == npos) && ltb equal_sign nequal_sign) || nequal_sign == npos
      then equal_sign
      else nequal_sign in
    (splitter == equal_sign, splitter)

-- The value behind the comparator, and where it ends.
unfoldable pub value_at : List ℕ → ℕ → ℕ → Outcome (List ℕ × ℕ)
value_at filter splitter compare_len =
    let value = add_size splitter compare_len in
    let right_end = find_first_of filter space value in
    let inner = add_size (add_size splitter 1) compare_len in
    let dq = find_first_of filter (b'"' ∷ []) inner in
    or_throw (substr filter value (sub_size (sub_size right_end splitter) compare_len))
    >>= λ right_text.
        let right = trim right_text space in
        if get_or right 0 0 == b'"'
        then (or_throw (substr filter inner (sub_size (sub_size dq splitter) (1 + compare_len)))
            >>= λ quoted. ok (quoted, add_size dq 1))
        else ok (right, right_end)

-- The comparison at `position`: its result, and where it ends.
unfoldable pub comparison : List ℕ → Bool → Meta → ℕ → Outcome (Bool × ℕ)
comparison filter ignore meta position =
    let (equals, splitter) = split_at filter position in
    or_throw (substr filter position (sub_size splitter position)) >>= λ left.
    value_at filter splitter (if equals then 1 else 2) >>= λ (right, right_end).
    test_field ignore meta (trim left space) equals right >>= λ cur_rc. ok (cur_rc, right_end)

-- What stands at a position of the filter.
pub data Token : Type 0 where
  done blank opening operator other : Token

unfoldable pub token : List ℕ → ℕ → Token
token filter position =
    let c = get_or filter position 0 in
    if leb (length filter) position
    then done
    else if c == b' '
    then blank
    else if c == b'('
    then opening
    else if c == b'&' || c == b'|'
    then operator
    else other

-- The loop of `execute_filter` with its variables, a unit of fuel for each round and for each
-- expression in parentheses.
unfoldable pub filter_loop : ℕ → Bool → Meta → List ℕ → ℕ → List ℕ → Bool → Outcome Bool
filter_loop zero ignore meta filter position operation rc = runs_on
filter_loop (suc fuel) ignore meta filter position operation rc = elim (token filter position) [
  | done ↦ ok rc
  | blank ↦ filter_loop fuel ignore meta filter (position + 1) operation rc
  | opening ↦ or_throw (substr filter (position + 1) npos) >>= λ text.
      or_exit (retrieve_subfilter text) >>= λ temp.
      filter_loop fuel ignore meta temp 0 [] false >>= λ cur_rc.
      combine operation rc cur_rc >>= λ rc'.
      filter_loop fuel ignore meta filter (position + length temp + 2) [] rc'
  | operator ↦
      let token_end = find_first_of filter space position in
      or_throw (substr filter position (sub_size token_end position)) >>= λ operation'.
      filter_loop fuel ignore meta filter token_end operation' rc
  | other ↦ comparison filter ignore meta position >>= λ (cur_rc, right_end).
      combine operation rc cur_rc >>= λ rc'. filter_loop fuel ignore meta filter right_end [] rc'
]

-- The fuel is an argument: there are filters that the program never finishes.
unfoldable pub execute_filter : ℕ → List ℕ → Bool → Meta → Outcome Bool
execute_filter fuel filter ignore meta = filter_loop fuel ignore meta filter 0 [] false
