-- ===== src/Database/Insertion.antt =====
-- What of a message reaches the database.
use ham_router.Common.{
  ℕ, List, [], ◌∷◌, Bool, true, false, ◌||◌, ◌==ₛ◌, if◌then◌else◌, if_cases, inl, inr, ◌⊎◌, Option,
  none, some, All, ◌≡◌, refl, sym, ap, ◌∙◌, codes,
}
use ham_router.Common.Assoc.{find, or_else, or_else-none, find-insert_else}
use ham_router.Common.Assoc
use ham_router.Transmit.{te_ok}
use ham_router.Message.{
  dt_float64, dt_string, DbRecordData, DbRecord, Meta, Message, db_record_insert, get_content,
  db_record_gen_buffer, db_record_gen_string, db_record_gen_int,
}
use ham_router.Message.Types.{AreTyped, expected}
use ham_router.Database.{
  Value, b_binary, double, text, int64_t, int64_t, Document, Client, value_of, entries_of,
  insert_all, first_entries, record_of, answered, insert, stored, put_message_low,
}

-- An element that MongoDB can store.
abbrev HasValue : DbRecordData → Type 0
HasValue e = (x : Value) × (value_of e ≡ some x)

abbrev AllValues : Meta → Type 0
AllValues = All (λ e. HasValue e.1)

float_or_text : (k : List ℕ) → (expected k ≡ dt_float64) ⊎ (expected k ≡ dt_string)
float_or_text k =
    if_cases (λ d. (d ≡ dt_float64) ⊎ (d ≡ dt_string))
      (codes "latitude" ==ₛ k || (codes "longitude" ==ₛ k || codes "air-time" ==ₛ k)) (inl refl)
      (inr refl)

typed-HasValue : (e : DbRecordData) (k : List ℕ) → e.dt ≡ expected k → HasValue e
unfolding value_of
typed-HasValue e k h = elim (float_or_text k) [
  | inl f ↦ (double e.d_value, rw (h ∙ f, value_of) refl)
  | inr t ↦ (text e.s_value, rw (h ∙ t, value_of) refl)
]

insert-AllValues :
    (k : List ℕ) (v : DbRecordData) (m : Meta)
    → HasValue v
    → AllValues m
    → AllValues (Assoc.insert k v m)
unfolding Assoc.insert
insert-AllValues k v [] e h = (e, tt)
insert-AllValues k v ((j, w) ∷ m) e (d, h) =
    if_cases (All (λ e. HasValue e.1)) (j ==ₛ k) (d, h) (d, insert-AllValues k v m e h)

-- Where every element has a value, they all get into the document, under their keys.
abbrev pub value_in : Option DbRecordData → Option Value
value_in none = none
value_in (some e) = value_of e

entries_of-find :
    (m : Meta)
    → AllValues m
    → (es : List (List ℕ × Value)) × (entries_of m ≡ some es)
      × ((k : List ℕ) → find k es ≡ value_in (find k m))
unfolding entries_of find
entries_of-find [] h = ([], refl, λ k. refl)
entries_of-find ((j, e) ∷ m) ((x, v), h) =
    let (es, same, look) = entries_of-find m h in
    ((j, x) ∷ es, rw (v, same, entries_of) refl, λ k. one k x v es look (j ==ₛ k))
  where
    one :
        (k : List ℕ) (x : Value)
        → value_of e ≡ some x
        → (es : List (List ℕ × Value)) → ((k : List ℕ) → find k es ≡ value_in (find k m))
        → (b : Bool) → (if b then some x else find k es) ≡ value_in (if b then some e else find k m)
    one k x v es look true = sym v
    one k x v es look false = look k

insert_all-find :
    (k : List ℕ) (meta : Meta) (r : DbRecord)
    → find k (insert_all meta r).kvs ≡ or_else (find k r.kvs) (find k meta)
unfolding insert_all db_record_insert find
insert_all-find k [] r = sym (or_else-none (find k r.kvs))
insert_all-find k ((j, v) ∷ meta) r =
    insert_all-find k meta (db_record_insert r j v) ∙ find-insert_else j k v r.kvs (find k meta)

insert_all-AllValues :
    (meta : Meta) (r : DbRecord)
    → AreTyped meta
    → AllValues r.kvs
    → AllValues (insert_all meta r).kvs × ((insert_all meta r).tv ≡ r.tv)
unfolding insert_all db_record_insert
insert_all-AllValues [] r h k = (k, refl)
insert_all-AllValues ((j, v) ∷ meta) r (e, h) k =
    insert_all-AllValues meta (db_record_insert r j v) h
      (insert-AllValues j v r.kvs (typed-HasValue v j e) k)

first_entries-AllValues :
    (get_id : ℕ → List ℕ) (m : Message) (t : ℕ) → AllValues (first_entries get_id m t).kvs
unfolding db_record_insert Assoc.insert value_of
first_entries-AllValues get_id m t = ((_, refl), ((_, refl), ((_, refl), tt)))

-- What a document has of a message under a key.
abbrev pub stored_under : (ℕ → List ℕ) → Message → ℕ → List ℕ → Option Value
stored_under get_id m t k =
    if codes "raw-data" ==ₛ k
    then some (b_binary (get_content m))
    else if codes "source" ==ₛ k
    then some (text (get_id t))
    else if codes "msg-id" ==ₛ k
    then some (int64_t m.msg_id)
    else value_in (find k m.meta)

first_entries-stored_under :
    (get_id : ℕ → List ℕ) (m : Message) (t : ℕ) (k : List ℕ)
    → value_in (or_else (find k (first_entries get_id m t).kvs) (find k m.meta))
      ≡ stored_under get_id m t k
unfolding db_record_insert Assoc.insert find value_of
first_entries-stored_under get_id m t k =
    one (codes "raw-data" ==ₛ k) (codes "source" ==ₛ k) (codes "msg-id" ==ₛ k)
  where
    one :
        (a b d : Bool)
        → value_in (
            or_else
              (if a
                then some (db_record_gen_buffer m.b)
                else if b
                then some (db_record_gen_string (get_id t))
                else if d
                then some (db_record_gen_int m.msg_id)
                else none)
              (find k m.meta))
          ≡ (if a
              then some (b_binary (get_content m))
              else if b
              then some (text (get_id t))
              else if d
              then some (int64_t m.msg_id)
              else value_in (find k m.meta))
    one true b d = refl
    one false true d = refl
    one false false true = refl
    one false false false = refl

-- A message from a tranceiver, of which a latitude, a longitude and a time on air are numbers and all other
-- fields are text, is never refused for the type of a field: the client is asked to insert one document, and
-- it has the time of the message, all the bytes of its content, the id of the tranceiver, its number, and
-- each other field under its name with its value.
pub put_message_low-stored_under :
    (c : Client) (get_id : ℕ → List ℕ) (m : Message) (t : ℕ) (w : c.World)
    → m.source ≡ some t
    → AreTyped m.meta
    → (doc : Document) × (put_message_low c get_id true m w
        ≡ stored te_ok (answered c (c.insert_one doc w)).1)
      × (doc.receive_time ≡ m.tv)
      × ((k : List ℕ) → find k doc.entries ≡ stored_under get_id m t k)
unfolding put_message_low
put_message_low-stored_under c get_id m t w from typed =
    let start = first_entries get_id m t in
    let dr = insert_all m.meta start in
    let (values, time) =
      insert_all-AllValues m.meta start typed (first_entries-AllValues get_id m t) in
    let (es, same, look) = entries_of-find dr.kvs values in
    let made : record_of get_id m ≡ some dr = rw (from, record_of) refl in
    let done : insert c dr w
        ≡ answered c (c.insert_one (record { receive_time = dr.tv; entries = es }) w) =
      rw (same, insert) refl in
    (
      record { receive_time = dr.tv; entries = es },
      rw (made, put_message_low, done) refl,
      time ∙ unfold db_record_insert in refl,
      λ k.
          look k
          ∙ ap value_in (insert_all-find k m.meta start)
          ∙ first_entries-stored_under get_id m t k,
    )
