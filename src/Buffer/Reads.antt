-- ===== src/Buffer/Reads.antt =====
-- Every read takes its bytes from the front of what is left, or throws and changes nothing.
use ham_router.Common.{
  ℕ, ◌+◌, ◌≤◌, ◌<◌, ◌^◌, List, length, get_or, take, arith, ltb, if◌then◌else◌, ◌==◌, ◌≡◌,
  length-drop, get_or-drop, get_or-take,
}
use ham_router.Net
use ham_router.Net.ByteOrder.{get_net_short-take, get_net_long-take, get_net_long_long-take}
use ham_router.Buffer.{
  Buffer, Outcome, ok, out_of_range, undefined, size, make, remaining, get_byte, get_net_short,
  get_net_long, get_net_long_long, get_net_float, get_net_double, get_segment, get_string,
  get_string_rest, seek, get_bytes,
}

-- The read position lies inside the array.
abbrev pub IsValid : Buffer → Type 0
IsValid b = b.o ≤ size b

-- The reads of the class, with what each returns.
pub data Read : Type 0 where
  byte net_short net_long net_long_long net_float net_double string_rest : Read
  segment string bytes skip : ℕ → Read

pub data Value : Type 0 where
  number : ℕ → Value
  text : List ℕ → Value
  sub : Buffer → Value
  nothing : Value

abbrev returns {ℓ} : {A : Type ℓ} → (A → Value) → Outcome A → Outcome Value
returns f (ok a b) = ok (f a) b
returns f (out_of_range b) = out_of_range b
returns f undefined = undefined

unfoldable pub exec : Read → Buffer → Outcome Value
unfolding get_byte get_net_short get_net_long get_net_long_long get_net_float get_net_double
    get_segment get_string get_string_rest seek get_bytes
exec byte b = returns number (get_byte b)
exec net_short b = returns number (get_net_short b)
exec net_long b = returns number (get_net_long b)
exec net_long_long b = returns number (get_net_long_long b)
exec net_float b = returns number (get_net_float b)
exec net_double b = returns number (get_net_double b)
exec string_rest b = returns text (get_string_rest b)
exec (segment n) b = returns sub (get_segment n b)
exec (string n) b = returns text (get_string n b)
exec (bytes n) b = returns text (get_bytes n b)
exec (skip n) b = returns (λ _. nothing) (seek n b)

-- How many bytes a read wants, with `left` bytes left. `get_string()` wants one at least.
abbrev pub wants : Read → ℕ → ℕ
wants byte left = 1
wants net_short left = 2
wants net_long left = 4
wants net_long_long left = 8
wants net_float left = 4
wants net_double left = 8
wants string_rest left = if left == 0 then 1 else left
wants (segment n) left = n
wants (string n) left = n
wants (bytes n) left = n
wants (skip n) left = n

-- What a read makes of the bytes that it takes.
unfoldable pub decode : Read → List ℕ → Value
decode byte cs = number (get_or cs 0 0)
decode net_short cs = number (Net.get_net_short cs)
decode net_long cs = number (Net.get_net_long cs)
decode net_long_long cs = number (Net.get_net_long_long cs)
decode net_float cs = number (Net.get_net_long cs)
decode net_double cs = number (Net.get_net_long_long cs)
decode string_rest cs = text cs
decode (segment n) cs = sub (make cs)
decode (string n) cs = text cs
decode (bytes n) cs = text cs
decode (skip n) cs = nothing

-- On a valid buffer, where the position behind the bytes that a read wants fits an int, the read is
-- decided by the bytes that are left: with as many as it wants it returns the decoding of exactly
-- those and moves past them, and with fewer it throws and leaves the buffer as it was.
pub exec-decode :
    (r : Read) (b : Buffer)
    → IsValid b
    → b.o + wants r (length (remaining b)) < 2 ^ 31
    → let n = wants r (length (remaining b)) in
      exec r b ≡ (
        if ltb (length (remaining b)) n
        then out_of_range b
        else ok (decode r (take n (remaining b))) (record b { o = b.o + n }))
unfolding exec decode
exec-decode byte b v w =
    ground (arith, length-drop b.o b.p, get_or-drop b.p b.o 0, get_or-take (remaining b) 1 0 0)
exec-decode net_short b v w = ground (arith, length-drop b.o b.p, get_net_short-take (remaining b))
exec-decode net_long b v w = ground (arith, length-drop b.o b.p, get_net_long-take (remaining b))
exec-decode net_long_long b v w =
    ground (arith, length-drop b.o b.p, get_net_long_long-take (remaining b))
exec-decode net_float b v w = ground (arith, length-drop b.o b.p, get_net_long-take (remaining b))
exec-decode net_double b v w =
    ground (arith, length-drop b.o b.p, get_net_long_long-take (remaining b))
exec-decode string_rest b v w = ground (arith, length-drop b.o b.p)
exec-decode (segment n) b v w = ground (arith, length-drop b.o b.p)
exec-decode (string n) b v w = ground (arith, length-drop b.o b.p)
exec-decode (bytes n) b v w = ground (arith, length-drop b.o b.p)
exec-decode (skip n) b v w = ground (arith, length-drop b.o b.p)
