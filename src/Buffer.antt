-- ===== src/Buffer.antt =====
-- buffer.h and buffer.cpp: an array of bytes with a read position. The array is the list `p`, and
-- `size` is its length. A read returns its result and the buffer after it; an exception carries the
-- buffer too, since what was read before it stays read. Positions and lengths are of
-- the type int: a sum of them that is too large for it is undefined. Lengths are not negative, and a `float` or
-- `double` is the number that its bit pattern stands for.
pub mod Reads
pub mod Integers
use ham_router.Common.{
  ℕ, zero, suc, ◌+◌, ◌-◌, ◌*◌, ◌/◌, ◌%◌, ◌^◌, bit_or, List, [], ◌∷◌, ◌++◌, length, get_or, take,
  drop, Bool, ltb, leb, ◌==◌, if◌then◌else◌,
}
use ham_router.Common.Int.{ℤ, sub_ℕ}
use ham_router.Net

pub record Buffer : Type 0 where
  pub p : List ℕ
  pub o : ℕ

pub data Outcome {ℓ} (A : Type ℓ) : Type ℓ where
  ok : A → Buffer → Outcome A
  out_of_range : Buffer → Outcome A
  undefined : Outcome A

infixl 5 ◌>>=◌
abbrev pub ◌>>=◌ {ℓ κ} :
    {A : Type ℓ} {B : Type κ} → Outcome A → (A → Buffer → Outcome B) → Outcome B
ok a b >>= f = f a b
out_of_range b >>= f = out_of_range b
undefined >>= f = undefined

abbrev pub size : Buffer → ℕ
size b = length b.p

-- The constructor from bytes; `buffer()` is `make []`.
abbrev pub make : List ℕ → Buffer
make p = record { p = p; o = 0 }

-- The copy constructor starts at the first byte again.
abbrev pub copy : Buffer → Buffer
copy b = make b.p

-- The assignment takes the bytes and leaves the read position where it was.
abbrev pub assign : Buffer → Buffer → Buffer
assign b from = record b { p = from.p }

abbrev pub get_pointer : Buffer → List ℕ
get_pointer b = b.p

-- The bytes at the read position, `&p[o]`.
abbrev pub remaining : Buffer → List ℕ
remaining b = drop b.o b.p

abbrev skip : ℕ → Buffer → Buffer
skip n b = record b { o = b.o + n }

-- The test `o + n > size` of a read of `n` bytes, and its end.
abbrev pub moved {ℓ} : {A : Type ℓ} → ℕ → Buffer → A → Outcome A
moved n b a =
    if leb (2 ^ 31) (b.o + n)
    then undefined
    else if ltb (size b) (b.o + n)
    then out_of_range b
    else ok a (skip n b)

unfoldable pub get_byte : Buffer → Outcome ℕ
get_byte b = if leb (size b) b.o then out_of_range b else ok (get_or b.p b.o 0) (skip 1 b)

unfoldable pub get_net_short : Buffer → Outcome ℕ
get_net_short b = moved 2 b (Net.get_net_short (remaining b))

unfoldable pub get_net_long : Buffer → Outcome ℕ
get_net_long b = moved 4 b (Net.get_net_long (remaining b))

unfoldable pub get_net_long_long : Buffer → Outcome ℕ
get_net_long_long b = moved 8 b (Net.get_net_long_long (remaining b))

unfoldable pub get_net_float : Buffer → Outcome ℕ
get_net_float b = moved 4 b (Net.get_net_long (remaining b))

unfoldable pub get_net_double : Buffer → Outcome ℕ
get_net_double b = moved 8 b (Net.get_net_long_long (remaining b))

unfoldable pub get_segment : ℕ → Buffer → Outcome Buffer
get_segment len b = moved len b (make (take len (remaining b)))

unfoldable pub get_string : ℕ → Buffer → Outcome (List ℕ)
get_string len b = moved len b (take len (remaining b))

-- `get_string()`: whatever is left.
unfoldable pub get_string_rest : Buffer → Outcome (List ℕ)
get_string_rest b =
    let len = size b - b.o in
    if b.o == size b then out_of_range b else ok (take len (remaining b)) (skip len b)

unfoldable pub seek : ℕ → Buffer → Outcome (Unit {0})
seek len b = moved len b tt

unfoldable pub end_reached : Buffer → Bool
end_reached b = b.o == size b

unfoldable pub get_n_bytes_left : Buffer → ℤ
get_n_bytes_left b = sub_ℕ (size b) b.o

unfoldable pub get_bytes : ℕ → Buffer → Outcome (List ℕ)
get_bytes len b = moved len b (take len (remaining b))

-- The loop of `get_variable_size_integer`, by the rounds left.
shift_in : ℕ → ℕ → Buffer → Outcome ℕ
shift_in zero out b = ok out b
shift_in (suc n) out b = get_byte b >>= λ c b'. shift_in n (bit_or (out * 2 ^ 8 % 2 ^ 64) c) b'

unfoldable pub get_variable_size_integer : Buffer → ℕ → Outcome ℕ
unfolding shift_in
get_variable_size_integer b len = shift_in len 0 b

unfoldable pub reset : Buffer → Buffer
reset b = record b { o = 0 }

-- A digit of `%02x`.
abbrev hex_digit : ℕ → ℕ
hex_digit d = if ltb d 10 then b'0' + d else b'a' + (d - 10)

-- The loop of `dump` from index `i` on; every byte but the very first has a space in front.
dump_loop : ℕ → List ℕ → List ℕ
dump_loop i [] = []
dump_loop i (c ∷ cs) =
    let digits = hex_digit (c / 16) ∷ hex_digit (c % 16) ∷ dump_loop (i + 1) cs in
    if i == 0 then digits else b' ' ∷ digits

unfoldable pub dump : Bool → Buffer → List ℕ
unfolding dump_loop
dump everything b = let i = if everything then 0 else b.o in dump_loop i (drop i b.p)
