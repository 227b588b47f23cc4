-- ===== src/Message.antt =====
-- message.h, message.cpp, db-common.h and db-common.cpp: a packet with its origin and what is known
-- of it. A `double` is the number that its bit pattern stands for. A tranceiver is known by its
-- number, and the null pointer is `none`.
pub mod Types
pub mod Json
use ham_router.Common.{ℕ, List, [], ◌∷◌, Option}
use ham_router.Common.Assoc.{assign, insert}
use ham_router.Buffer.{Buffer, make, copy}

pub data DataType : Type 0 where
  dt_octet_array dt_unsigned8 dt_unsigned16 dt_unsigned32 : DataType
  dt_signed8 dt_signed16 dt_signed32 dt_signed64 : DataType
  dt_float64 dt_boolean dt_string dt_none : DataType

pub record DbRecordData : Type 0 where
  pub dt : DataType
  pub b : Buffer
  pub s_value : List ℕ
  pub i_value : ℕ
  pub d_value : ℕ

-- The constructor without arguments.
abbrev pub db_record_data : DbRecordData
db_record_data = record { dt = dt_none; b = make []; s_value = []; i_value = 0; d_value = 0 }

abbrev pub db_record_gen_buffer : Buffer → DbRecordData
db_record_gen_buffer b = record db_record_data { dt = dt_octet_array; b = copy b }

abbrev pub db_record_gen_string : List ℕ → DbRecordData
db_record_gen_string s = record db_record_data { dt = dt_string; s_value = s }

-- An `int64_t` as the bits that `i_value` keeps.
abbrev pub db_record_gen_int : ℕ → DbRecordData
db_record_gen_int v = record db_record_data { dt = dt_signed64; i_value = v }

abbrev pub db_record_gen_double : ℕ → DbRecordData
db_record_gen_double v = record db_record_data { dt = dt_float64; d_value = v }

abbrev pub Meta : Type 0
Meta = List (List ℕ × DbRecordData)

pub record DbRecord : Type 0 where
  pub tv : ℕ
  pub kvs : Meta

unfoldable pub db_record_insert : DbRecord → List ℕ → DbRecordData → DbRecord
db_record_insert r name v = record r { kvs = insert name v r.kvs }

pub record Message : Type 0 where
  pub tv : ℕ
  pub source : Option ℕ
  pub msg_id : ℕ
  pub b : Buffer
  pub meta : Meta

abbrev pub message : ℕ → Option ℕ → ℕ → List ℕ → Message
message tv source msg_id content = record {
  tv = tv;
  source = source;
  msg_id = msg_id;
  b = make content;
  meta = [];
}

-- The loop of `set_meta` over the entries of the other map.
unfoldable pub set_entries : Meta → Meta → Meta
set_entries meta [] = meta
set_entries meta ((k, v) ∷ more) = set_entries (assign k v meta) more

unfoldable pub set_meta : Message → Meta → Message
unfolding set_entries
set_meta m meta_in = record m { meta = set_entries m.meta meta_in }

-- The copy constructor.
unfoldable pub copy_message : Message → Message
unfolding set_meta
copy_message m =
    set_meta (record { tv = m.tv; source = m.source; msg_id = m.msg_id; b = copy m.b; meta = [] })
      m.meta

abbrev pub get_content : Message → List ℕ
get_content m = m.b.p
