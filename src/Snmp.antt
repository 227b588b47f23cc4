-- ===== src/Snmp.antt =====
-- snmp-elem.h, snmp-elem.cpp and the reading of integers in snmp.cpp: what an SNMP reply is made of, and
-- its bytes (BER). An OID is here with the bytes that its constructor makes of its text. Sizes are bytes
-- and wrap at 256.
pub mod Encoding
pub mod Integers
pub mod Requests
pub mod Oids
pub mod Data
pub mod Reply
use ham_router.Common.{
  ℕ, zero, suc, ◌+◌, ◌-◌, ◌*◌, ◌/◌, ◌%◌, ◌^◌, bit_or, List, [], ◌∷◌, ◌++◌, length, take, get_or,
  leb, ltb, Option, none, some, if◌then◌else◌,
}

-- `snmp_integer::snmp_integer_type`
pub data IntegerType : Type 0 where
  si_counter32 si_integer si_counter64 si_ticks : IntegerType

-- An integer has its type, its value and its length.
mutual
  pub data Elem : Type 0 where
    integer : IntegerType → ℕ → ℕ → Elem
    sequence : Elems → Elem
    null : Elem
    octet_string : List ℕ → Elem
    oid : List ℕ → Elem
    pdu : ℕ → Elems → Elem

  pub data Elems : Type 0 where
    no_more : Elems
    add : Elem → Elems → Elems

-- `snmp_integer(type, v)` chooses the length.
unfoldable pub snmp_integer : IntegerType → ℕ → Elem
snmp_integer type v = if leb v 0xffffffff then integer type v 4 else integer type v 8

abbrev pub snmp_type : IntegerType → ℕ
snmp_type si_integer = 0x02
snmp_type si_counter32 = 0x41
snmp_type si_counter64 = 0x46
snmp_type si_ticks = 0x43

abbrev pub count : Elems → ℕ
count no_more = 0
count (add e es) = suc (count es)

unfoldable mutual
  pub get_size : Elem → ℕ
  get_size (integer type v len) = len % 256
  get_size (sequence es) = sum_sizes es (count es) 0
  get_size null = 0
  get_size (octet_string v) = length v % 256
  get_size (oid v) = length v % 256
  get_size (pdu type es) = sum_sizes es (count es) 0

  -- The sum of the sizes, then two bytes for each of the `n` elements.
  pub sum_sizes : Elems → ℕ → ℕ → ℕ
  sum_sizes no_more n t = (t + n * 2) % 256
  sum_sizes (add e es) n t = sum_sizes es n ((t + get_size e) % 256)

-- The bytes of a number, the highest first: `v >> (len * 8 - (i + 1) * 8)`. A shift by 64 bits or more is
-- undefined; on x86 its count is taken modulo 64.
unfoldable pub integer_bytes : ℕ → ℕ → List ℕ
integer_bytes zero v = []
integer_bytes (suc left) v = (v / 256 ^ (left % 8) % 256) ∷ integer_bytes left v

-- The bytes that go out: as many as the size with two more, in a byte. Where that wraps, the program
-- writes behind its buffer; what it writes there is not modelled.
abbrev pub sized : ℕ → ℕ → List ℕ → List ℕ
sized size type bytes = take ((size + 2) % 256) (type ∷ ((size + 2) % 256 + 254) % 256 ∷ bytes)

unfoldable mutual
  unfolding get_size integer_bytes

  pub get_payload : Elem → List ℕ
  get_payload (integer type v len) =
      sized (len % 256) (snmp_type type) (integer_bytes (len % 256) v)
  get_payload (sequence es) = sized (get_size (sequence es)) 0x30 (payloads es)
  get_payload null = 0x05 ∷ 0x00 ∷ []
  get_payload (octet_string v) = sized (length v % 256) 0x04 (take (length v % 256) v)
  get_payload (oid v) = sized (length v % 256) 0x06 (take (length v % 256) v)
  get_payload (pdu type es) = sized (get_size (pdu type es)) type (payloads es)

  pub payloads : Elems → List ℕ
  payloads no_more = []
  payloads (add e es) = get_payload e ++ payloads es

-- The loop of `get_INTEGER` over the bytes of the integer.
unfoldable pub integer_loop : ℕ → List ℕ → ℕ
integer_loop v [] = v
integer_loop v (c ∷ cs) = integer_loop (bit_or (v * 2 ^ 8 % 2 ^ 64) c) cs

unfoldable pub get_integer : List ℕ → ℕ
unfolding integer_loop
get_integer p = integer_loop 0 p

-- The tag and the length at `p`, of which `len` bytes are there.
unfoldable pub get_type_length : List ℕ → ℕ → Option (ℕ × ℕ)
get_type_length p len = if ltb len 2 then none else some (get_or p 0 0, get_or p 1 0)
