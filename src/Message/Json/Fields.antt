-- ===== src/Message/Json/Fields.antt =====
-- The fields of the JSON text of a message against the fields of the message.
use ham_router.Common.{
  ℕ, List, [], ◌∷◌, ◌++◌, ◌==ₛ◌, ◌||◌, ==ₛ→eq, Bool, false, Bool-cases, inl, inr, sym, ap, ◌∙◌,
  Option, none, some, ◌≡◌, refl, codes, if◌then◌else◌, if_cases, append-nil,
}
use mathlib.Core.Option.{some-injective}
use ham_router.Common.Assoc.{find, or_else}
use ham_router.Text.{c_str}
use ham_router.Message.{DataType, dt_float64, DbRecordData, Meta}
use ham_router.Message.Types.{AreTyped, expected}
use ham_router.Message.Json.{
  Json, Printing, real_of, string_of, set_new, real_field, text_field, fields_of,
}

-- The names of the fields that are printed.
abbrev pub printed_names : List (List ℕ)
printed_names =
    codes "air-time"
    ∷ codes "from"
    ∷ codes "to"
    ∷ codes "latitude"
    ∷ codes "longitude"
    ∷ codes "protocol"
    ∷ codes "payload"
    ∷ codes "pkt-crc"
    ∷ codes "rssi"
    ∷ []

abbrev pub is_among : List ℕ → List (List ℕ) → Bool
is_among k [] = false
is_among k (j ∷ js) = j ==ₛ k || is_among k js

find-AreTyped :
    (k : List ℕ) (e : DbRecordData) (meta : Meta)
    → AreTyped meta
    → find k meta ≡ some e
    → e.dt ≡ expected k
unfolding find
find-AreTyped k e [] h f = absurd cc
find-AreTyped k e ((j, d) ∷ meta) (t, h) f = elim (Bool-cases (j ==ₛ k)) [
  | inl y ↦
      sym (ap (λ (d : DbRecordData). d.dt) (some-injective d e (sym (rw y refl) ∙ f)))
      ∙ t
      ∙ ap expected (==ₛ→eq j k y)
  | inr n ↦ find-AreTyped k e meta h (sym (rw n refl) ∙ f)
]

module _ (p : Printing) where
  -- What jansson makes of a value, by its type.
  abbrev pub shown : DbRecordData → Option Json
  shown e = elim e.dt [ dt_float64 ↦ real_of p e.d_value | _ ↦ string_of p (c_str e.s_value) ]

  abbrev pub shown_of : Option DbRecordData → Option Json
  shown_of none = none
  shown_of (some e) = shown e

  -- A field by the type that is expected of it.
  abbrev field : List ℕ → Meta → List (List ℕ × Json)
  field k meta = elim (expected k) [ dt_float64 ↦ real_field p k meta | _ ↦ text_field p k meta ]

  abbrev fields : List (List ℕ) → Meta → List (List ℕ × Json)
  fields [] meta = []
  fields (k ∷ ks) meta = field k meta ++ fields ks meta

  fields_of-fields : (meta : Meta) → fields_of p meta ≡ fields printed_names meta
  unfolding fields_of
  fields_of-fields meta = simp (append-nil)

  field-shown :
      (k : List ℕ) (meta : Meta)
      → AreTyped meta
      → field k meta ≡ set_new p k (shown_of (find k meta))
  unfolding real_field text_field
  field-shown k meta h = one (expected k) (find k meta) (λ e f. find-AreTyped k e meta h f)
    where
      one :
          (t : DataType) (r : Option DbRecordData)
          → ((e : DbRecordData) → r ≡ some e → e.dt ≡ t)
          → elim t [
            | dt_float64 ↦ elim r [ none ↦ [] | some e ↦ set_new p k (real_of p e.d_value) ]
            | _ ↦ elim r [ none ↦ [] | some e ↦ set_new p k (string_of p (c_str e.s_value)) ]
          ]
            ≡ set_new p k (shown_of r)
      one dt_float64 none g = refl
      one other none g = elim other [ dt_float64 ↦ refl | _ ↦ refl ]
      one dt_float64 (some e) g = rw (g e refl) refl
      one _ (some e) g = rw (g e refl) refl

  find-set_new :
      (k j : List ℕ) (v : Option Json) (rest : List (List ℕ × Json))
      → find k (set_new p j v ++ rest) ≡ (if j ==ₛ k then or_else v (find k rest) else find k rest)
  unfolding find
  find-set_new k j none rest = if_cases (λ v. find k rest ≡ v) (j ==ₛ k) refl refl
  find-set_new k j (some v) rest = refl

  fields-find :
      (k : List ℕ) (ks : List (List ℕ)) (meta : Meta)
      → AreTyped meta
      → find k (fields ks meta) ≡ (if is_among k ks then shown_of (find k meta) else none)
  fields-find k [] meta h = unfold find in refl
  fields-find k (j ∷ js) meta h =
      let ih = fields-find k js meta h in
      ap (λ f. find k (f ++ fields js meta)) (field-shown j meta h)
      ∙ find-set_new k j (shown_of (find j meta)) (fields js meta)
      ∙ elim (Bool-cases (j ==ₛ k)) [
        | inl y ↦
            let same : find j meta ≡ find k meta = ap (λ i. find i meta) (==ₛ→eq j k y) in
            rw (y, ih, same) (kept (shown_of (find k meta)) (is_among k js))
        | inr n ↦ rw n ih
      ]
    where
      kept : (v : Option Json) (b : Bool) → or_else v (if b then v else none) ≡ v
      kept none b = if_cases (λ v. v ≡ none) b refl refl
      kept (some j) b = refl

  -- Of a message whose positions and time on air are numbers and whose other fields are texts, the
  -- JSON text has under each of its nine names what jansson makes of the field of that name, by its
  -- type, and nothing where the message has no such field or jansson makes nothing of it; of the
  -- fields of the message it has no others.
  pub fields_of-find :
      (k : List ℕ) (meta : Meta)
      → AreTyped meta
      → find k (fields_of p meta)
        ≡ (if is_among k printed_names then shown_of (find k meta) else none)
  fields_of-find k meta h = ap (find k) (fields_of-fields meta) ∙ fields-find k printed_names meta h
