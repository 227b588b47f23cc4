-- ===== src/Text.antt =====
-- str.cpp, and the operations of `std::string` that the program uses. A string is the list of its
-- bytes, and a position is a number below 2 ^ 64 (`size_t`), whose sums and differences wrap.
pub mod Search
use ham_router.Common.{
  ℕ, zero, suc, ◌+◌, ◌-◌, ◌*◌, ◌%◌, ◌^◌, ◌<◌, List, [], ◌∷◌, ◌++◌, length, take, drop, Bool, true,
  false, not, ◌&&◌, ◌||◌, ltb, leb, ◌==◌, if◌then◌else◌, Option, none, some, map,
}

abbrev pub npos : ℕ
npos = 2 ^ 64 - 1

abbrev pub add_size : ℕ → ℕ → ℕ
add_size a b = (a + b) % 2 ^ 64

abbrev pub sub_size : ℕ → ℕ → ℕ
sub_size a b = (a + 2 ^ 64 - b) % 2 ^ 64

-- A byte is one of `set`.
abbrev pub one_of : List ℕ → ℕ → Bool
one_of [] c = false
one_of (x ∷ xs) c = c == x || one_of xs c

unfoldable pub index_of : (ℕ → Bool) → List ℕ → Option ℕ
index_of p [] = none
index_of p (c ∷ cs) =
    let rest = index_of p cs in
    if p c then some 0 else elim rest [ none ↦ none | some i ↦ some (suc i) ]

abbrev pub from : ℕ → Option ℕ → ℕ
from position none = npos
from position (some i) = position + i

unfoldable pub find_first_of : List ℕ → List ℕ → ℕ → ℕ
find_first_of s set position = from position (index_of (one_of set) (drop position s))

unfoldable pub find_first_not_of : List ℕ → List ℕ → ℕ
find_first_not_of s set = from 0 (index_of (λ c. not (one_of set c)) s)

-- The end of the part up to the last byte outside `set`, 0 if there is none: what
-- `find_last_not_of(set) + 1` is, with `npos + 1` wrapped.
last_end : List ℕ → List ℕ → ℕ
last_end [] set = 0
last_end (c ∷ cs) set =
    let rest = last_end cs set in if rest == 0 then (if one_of set c then 0 else 1) else suc rest

-- `none` is the exception `std::out_of_range`.
unfoldable pub substr : List ℕ → ℕ → ℕ → Option (List ℕ)
substr s position n = if ltb (length s) position then none else some (take n (drop position s))

unfoldable pub trim : List ℕ → List ℕ → List ℕ
unfolding last_end
trim s what = let right = take (last_end s what) s in drop (find_first_not_of right what) right

abbrev is_prefix : List ℕ → List ℕ → Bool
is_prefix [] s = true
is_prefix (x ∷ xs) [] = false
is_prefix (x ∷ xs) (c ∷ cs) = c == x && is_prefix xs cs

-- `find` of a string: where it first stands.
unfoldable pub find : List ℕ → List ℕ → Option ℕ
find needle [] = if is_prefix needle [] then some 0 else none
find needle (c ∷ cs) =
    let rest = find needle cs in
    if is_prefix needle (c ∷ cs) then some 0 else elim rest [ none ↦ none | some i ↦ some (suc i) ]

-- The loop of `split`, a round for each splitter found, with the pieces so far. What follows the last
-- splitter is a piece, also if nothing does; a string without a splitter is a piece if it is not
-- empty.
split_loop : ℕ → List ℕ → List ℕ → List (List ℕ) → List (List ℕ)
split_loop zero s splitter out = out
split_loop (suc fuel) s splitter out = elim (find splitter s) [
  | none ↦ if length s == 0 then out else out ++ s ∷ []
  | some pos ↦
      let rest =
        split_loop fuel (drop (pos + length splitter) s) splitter (out ++ take pos s ∷ []) in
      if length s - (pos + length splitter) == 0 then out ++ take pos s ∷ [] ∷ [] else rest
]

-- Each round takes the splitter away, so the length and one more is fuel enough for any splitter but
-- the empty one.
unfoldable pub split : List ℕ → List ℕ → List (List ℕ)
unfolding split_loop
split s splitter = split_loop (suc (length s)) s splitter []

abbrev printable : ℕ → ℕ
printable c = if ltb 32 c && ltb c 127 then c else b'.'

unfoldable pub dump_replace : List ℕ → List ℕ
dump_replace p = map printable p

-- The bytes that `c_str()` shows to C code: up to the first NUL.
unfoldable pub c_str : List ℕ → List ℕ
c_str [] = []
c_str (c ∷ cs) = let rest = c_str cs in if c == 0 then [] else c ∷ rest
