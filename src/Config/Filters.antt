-- ===== src/Config/Filters.antt =====
-- `configuration::load_filters`: the filters by their names.
pub mod First
use ham_router.Common.{ℕ, List, [], ◌∷◌, length, Bool, true, ◌==◌, ◌==ₛ◌, if◌then◌else◌, codes}
use ham_router.Common.Assoc
use ham_router.Filter.{FilterT}
use ham_router.Settings.{
  Libconfig, Loaded, loaded, exits, ◌>>=◌, each, set, text_at, bool_at, settings,
}

-- The variables of a round of the outer loop.
pub record Definition : Type 0 where
  pub name : List ℕ
  pub ignore_if_field_is_missing : Bool
  pub pattern : List ℕ

abbrev pub blank : Definition
blank = record { name = []; ignore_if_field_is_missing = true; pattern = [] }

abbrev pub Filters : Type 0
Filters = List (List ℕ × FilterT)

abbrev pub filter_of : Definition → FilterT
filter_of d = record {
  ignore_if_field_is_missing = d.ignore_if_field_is_missing;
  pattern = d.pattern;
}

-- What follows the inner loop: a name that is there keeps its filter.
unfoldable pub put_filter : Definition → Filters → Loaded Filters
put_filter d filters =
    if length d.name == 0
    then exits
    else if length d.pattern == 0
    then exits
    else loaded (Assoc.insert d.name (filter_of d) filters)

module _ (c : Libconfig) where
  open c use {Setting, elements}

  unfoldable pub filter_setting : Setting → List ℕ → Setting → Definition → Loaded Definition
  filter_setting node type node_def d =
      if codes "name" ==ₛ type
      then set (text_at c node type) (λ v. record d { name = v })
      else if codes "pattern" ==ₛ type
      then set (text_at c node type) (λ v. record d { pattern = v })
      else if codes "ignore-if-field-is-missing" ==ₛ type
      then set (bool_at c node type) (λ v. record d { ignore_if_field_is_missing = v })
      else exits

  unfoldable pub load_filter : Setting → Filters → Loaded Filters
  unfolding put_filter
  load_filter node filters =
      settings c (filter_setting node) node blank >>= λ d. put_filter d filters

  unfoldable pub load_filters : Setting → Filters → Loaded Filters
  unfolding load_filter
  load_filters node_in filters = each load_filter (elements node_in) filters
