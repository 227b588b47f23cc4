-- ===== src/Database.antt =====
-- tranceiver-db.cpp, and the insertion of a record of db-mongodb.cpp. The client of MongoDB is a
-- parameter.
pub mod Insertion
use ham_router.Common.{
  ℕ, List, [], ◌∷◌, ◌++◌, ◌%◌, ◌^◌, Bool, true, false, not, ◌==◌, if◌then◌else◌, Option, none, some,
  codes,
}
use ham_router.Transmit.{TransmitError, te_ok}
use ham_router.Buffer.{Buffer, copy, remaining}
use ham_router.Message.{
  DataType, dt_octet_array, dt_unsigned8, dt_unsigned16, dt_unsigned32, dt_signed8, dt_signed16,
  dt_signed32, dt_signed64, dt_float64, dt_boolean, dt_string, dt_none, DbRecordData, DbRecord,
  Meta, Message, db_record_gen_buffer, db_record_gen_string, db_record_gen_int, db_record_insert,
}

-- What is appended under a key, by its type in C++.
pub data Value : Type 0 where
  b_binary : List ℕ → Value
  uint8_t uint16_t int8_t int16_t int64_t : ℕ → Value
  double : ℕ → Value
  bool : Bool → Value
  text : List ℕ → Value

pub record Document : Type 0 where
  pub receive_time : ℕ
  pub entries : List (List ℕ × Value)

-- What `insert_one` answers: nothing, the number of the documents that were inserted, or an exception.
pub data Inserted : Type 0 where
  no_result threw : Inserted
  inserted_count : ℕ → Inserted

pub record Client : Type 1 where
  pub World : Type 0
  pub insert_one : Document → World → Inserted × World
  pub reconnect : World → World

-- The switch on the type of an element; `none` is the default.
unfoldable pub value_of : DbRecordData → Option Value
value_of e = elim e.dt [
  | dt_octet_array ↦ some (b_binary (remaining (copy e.b)))
  | dt_unsigned8 ↦ some (uint8_t (e.i_value % 2 ^ 8))
  | dt_unsigned16 ↦ some (uint16_t (e.i_value % 2 ^ 16))
  | dt_unsigned32 ↦ some (int64_t (e.i_value % 2 ^ 32))
  | dt_signed8 ↦ some (int8_t (e.i_value % 2 ^ 8))
  | dt_signed16 ↦ some (int16_t (e.i_value % 2 ^ 16))
  | dt_signed32 ↦ some (int64_t e.i_value)
  | dt_signed64 ↦ some (int64_t e.i_value)
  | dt_float64 ↦ some (double e.d_value)
  | dt_boolean ↦ some (bool (not (e.i_value == 0)))
  | dt_string ↦ some (text e.s_value)
  | dt_none ↦ none
]

-- The loop over the elements.
unfoldable pub entries_of : Meta → Option (List (List ℕ × Value))
unfolding value_of
entries_of [] = some []
entries_of ((key_name, e) ∷ more) = elim (value_of e) [
  | none ↦ none
  | some v ↦ elim (entries_of more) [ none ↦ none | some vs ↦ some ((key_name, v) ∷ vs) ]
]

-- The loop over the fields of the message.
unfoldable pub insert_all : Meta → DbRecord → DbRecord
insert_all [] r = r
insert_all ((k, v) ∷ more) r = insert_all more (db_record_insert r k v)

-- What a record starts with, for a message from a tranceiver.
abbrev pub first_entries : (ℕ → List ℕ) → Message → ℕ → DbRecord
first_entries get_id m t =
    let start : DbRecord = record { tv = m.tv; kvs = [] } in
    let raw = db_record_insert start (codes "raw-data") (db_record_gen_buffer m.b) in
    let named = db_record_insert raw (codes "source") (db_record_gen_string (get_id t)) in
    db_record_insert named (codes "msg-id") (db_record_gen_int m.msg_id)

-- The record of a message, by the id of the tranceiver that it came from. `none` is the null pointer.
unfoldable pub record_of : (ℕ → List ℕ) → Message → Option DbRecord
unfolding insert_all
record_of get_id m = elim m.source [
  | none ↦ none
  | some t ↦ some (insert_all m.meta (first_entries get_id m t))
]

module _ (c : Client) where
  open c use {World, insert_one, reconnect}

  -- What `insert` makes of the answer.
  abbrev pub answered : Inserted × World → Bool × World
  answered (no_result, w) = (false, w)
  answered (threw, w) = (false, reconnect w)
  answered (inserted_count n, w) = (n == 1, w)

  unfoldable pub insert : DbRecord → World → Bool × World
  unfolding entries_of
  insert dr w = elim (entries_of dr.kvs) [
    | none ↦ (false, w)
    | some entries ↦ answered (insert_one (record { receive_time = dr.tv; entries = entries }) w)
  ]

  -- What `put_message_low` does: it uses the null pointer, or returns.
  pub data Storing : Type 0 where
    null_used : Storing
    stored : TransmitError → World → Storing

  -- `insert_into_database` and `put_message_low`, for a tranceiver with a database or without one.
  unfoldable pub put_message_low : (ℕ → List ℕ) → Bool → Message → World → Storing
  unfolding record_of insert
  put_message_low get_id has_db m w = elim (record_of get_id m) [
    | none ↦ null_used
    | some dr ↦ if has_db then stored te_ok (insert dr w).1 else null_used
  ]
