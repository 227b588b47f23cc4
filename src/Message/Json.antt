-- ===== src/Message/Json.antt =====
-- message_to_json of message.cpp: the object that is printed. Printing it is jansson's, base64 is a
-- copied library, and the short form of a number prints it: these are parameters.
pub mod Fields
use ham_router.Common.{ℕ, List, [], ◌∷◌, ◌++◌, Bool, if◌then◌else◌, Option, none, some, codes}
use ham_router.Common.Assoc.{find}
use ham_router.Text.{c_str}
use ham_router.Message.{Meta, Message, get_content}

pub data Json : Type 0 where
  json_integer json_real : ℕ → Json
  json_string : List ℕ → Json

-- The libraries: `get_id_short`, `base64_encode`, the seconds of a time, and the id of a tranceiver; which
-- texts are UTF-8 and which numbers are finite, since jansson makes no value of others, and a field
-- without a value is not set.
pub record Printing : Type 0 where
  pub get_id_short : ℕ → List ℕ
  pub base64_encode : List ℕ → List ℕ
  pub tv_sec : ℕ → ℕ
  pub get_id : ℕ → List ℕ
  pub is_utf8 : List ℕ → Bool
  pub is_finite : ℕ → Bool
  pub json_dumps : List (List ℕ × Json) → List ℕ

module _ (p : Printing) where
  open p use {get_id_short, base64_encode, tv_sec, get_id, is_utf8, is_finite, json_dumps}

  -- `json_real` and `json_string`
  abbrev pub real_of : ℕ → Option Json
  real_of v = if is_finite v then some (json_real v) else none

  abbrev pub string_of : List ℕ → Option Json
  string_of v = if is_utf8 v then some (json_string v) else none

  -- `json_object_set_new`, which sets no field without a value.
  abbrev pub set_new : List ℕ → Option Json → List (List ℕ × Json)
  set_new k none = []
  set_new k (some j) = (k, j) ∷ []

  -- A field that is a number, and one that is text, if they are there.
  unfoldable pub real_field : List ℕ → Meta → List (List ℕ × Json)
  real_field k meta = elim (find k meta) [ none ↦ [] | some e ↦ set_new k (real_of e.d_value) ]

  unfoldable pub text_field : List ℕ → Meta → List (List ℕ × Json)
  text_field k meta = elim (find k meta) [
    | none ↦ []
    | some e ↦ set_new k (string_of (c_str e.s_value))
  ]

  -- The fields of a message that are printed.
  unfoldable pub fields_of : Meta → List (List ℕ × Json)
  unfolding real_field text_field
  fields_of meta =
      real_field (codes "air-time") meta
      ++ (text_field (codes "from") meta
          ++ (text_field (codes "to") meta
              ++ (real_field (codes "latitude") meta
                  ++ (real_field (codes "longitude") meta
                      ++ (text_field (codes "protocol") meta
                          ++ (text_field (codes "payload") meta
                              ++ (text_field (codes "pkt-crc") meta
                                  ++ text_field (codes "rssi") meta)))))))

  abbrev source_text : Option ℕ → List ℕ
  source_text none = []
  source_text (some t) = c_str (get_id t)

  unfoldable pub json_of : Message → List (List ℕ × Json)
  unfolding fields_of
  json_of m =
      (codes "timestamp", json_integer (tv_sec m.tv))
      ∷ (set_new (codes "source") (string_of (source_text m.source))
          ++ (set_new (codes "msg-id") (string_of (c_str (get_id_short m.msg_id)))
              ++ (fields_of m.meta
                  ++ set_new (codes "pkt-base64") (string_of (base64_encode (get_content m))))))

  unfoldable pub message_to_json : Message → List ℕ
  unfolding json_of
  message_to_json m = json_dumps (json_of m)
