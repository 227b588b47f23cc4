-- ===== src/Stats.antt =====
-- stats.h and stats.cpp: the counters in shared memory. A pointer into it is its offset in bytes. An
-- entry of 48 bytes has a counter, a second one for averages, and a name of up to 31 bytes.
pub mod Entries
use ham_router.Common.{
  ℕ, ◌+◌, ◌%◌, ◌^◌, List, [], ◌∷◌, ◌++◌, take, ltb, ◌==◌, if◌then◌else◌, Option, none, some,
}
use ham_router.Common.Assoc

pub record StatsT : Type 0 where
  pub p : ℕ
  pub oid : List ℕ

-- `cells` are the counters by their offset, and `names` the names by the offset of their entry.
pub record Stats : Type 0 where
  pub size : ℕ
  pub len : ℕ
  pub lut : List (List ℕ × StatsT)
  pub cells : ℕ → ℕ
  pub names : ℕ → List ℕ

-- The constructor, where the system calls do not fail: the memory is all zeros.
unfoldable pub stats : ℕ → Stats
stats size = record { size = size; len = 0; lut = []; cells = λ i. 0; names = λ i. [] }

abbrev pub store {ℓ} : {A : Type ℓ} → ℕ → A → (ℕ → A) → ℕ → A
store at v f i = if i == at then v else f i

unfoldable pub stats_add_counter : Option ℕ → ℕ → (ℕ → ℕ) → ℕ → ℕ
stats_add_counter none value cells = cells
stats_add_counter (some p) value cells = store p ((cells p + value) % 2 ^ 64) cells

unfoldable pub stats_inc_counter : Option ℕ → (ℕ → ℕ) → ℕ → ℕ
unfolding stats_add_counter
stats_inc_counter p cells = stats_add_counter p 1 cells

unfoldable pub stats_set : Option ℕ → ℕ → (ℕ → ℕ) → ℕ → ℕ
stats_set none value cells = cells
stats_set (some p) value cells = store p value cells

-- The value is an `int`, as the 64 bits that are added.
unfoldable pub stats_add_average : Option ℕ → ℕ → (ℕ → ℕ) → ℕ → ℕ
unfolding stats_inc_counter stats_add_counter
stats_add_average none val cells = cells
stats_add_average (some p) val cells =
    stats_add_counter (some p) val (stats_inc_counter (some (p + 8)) cells)

-- The program ends (`none`) where the memory is full or the name is taken. The OID is registered with
-- the SNMP data by the caller of the model.
unfoldable pub register_stat : List ℕ → List ℕ → Stats → Option (ℕ × Stats)
register_stat name oid s = elim (Assoc.find name s.lut) [
  | some taken ↦ none
  | none ↦
      if ltb s.size (s.len + 48)
      then none
      else some (
        s.len,
        record s {
          len = s.len + 48;
          lut = Assoc.insert name (record { p = s.len; oid = oid }) s.lut;
          cells = store (s.len + 8) 0 (store s.len 0 s.cells);
          names = store s.len (take 31 name ++ 0 ∷ []) s.names;
        },
      )
]

abbrev pub pointer : Option StatsT → Option ℕ
pointer none = none
pointer (some e) = some e.p

unfoldable pub find_stat : List ℕ → Stats → Option ℕ
find_stat name s = pointer (Assoc.find name s.lut)
