-- ===== src/Config/Filters/First.antt =====
-- Which filter a name stands for when the configuration file defines several.
use ham_router.Common.{
  ℕ, List, [], ◌∷◌, length, ◌==◌, ◌==ₛ◌, if◌then◌else◌, if_split, Option, none, some, ◌≡◌, sym,
  subst, map, ◌∙◌,
}
use ham_router.Common.Assoc.{find, or_else, or_else-none, find-insert_else}
use ham_router.Filter.{FilterT}
use ham_router.Settings.{Libconfig, Loaded, loaded, exits, aborts, ◌>>=◌, each, settings}
use ham_router.Settings.Known.{Gives, Gives-map, then-Gives}
use ham_router.Config.Filters.{
  Definition, blank, Filters, filter_of, put_filter, filter_setting, load_filter, load_filters,
}

-- The first definition of a name.
abbrev pub defined : List ℕ → List (Loaded Definition) → Option FilterT
defined k [] = none
defined k (loaded d ∷ ds) = if d.name ==ₛ k then some (filter_of d) else defined k ds
defined k (exits ∷ ds) = none
defined k (aborts ∷ ds) = none

module _ (c : Libconfig) where
  open c use {Setting, elements}

  -- What a filter of the file says.
  abbrev pub definition : Setting → Loaded Definition
  definition node = settings c (filter_setting c node) node blank

  put_filter-find :
      (k : List ℕ) (d : Definition) (filters : Filters)
      → Gives
          (λ fs.
            (rest : Option FilterT)
            → or_else (find k fs) rest
              ≡ or_else (find k filters) (if d.name ==ₛ k then some (filter_of d) else rest))
          (put_filter d filters)
  unfolding put_filter
  put_filter-find k d filters =
      if_split (Gives _) (length d.name == 0) (λ e. tt)
        (λ e.
          if_split (Gives _) (length d.pattern == 0) (λ e. tt)
            (λ e. find-insert_else d.name k (filter_of d) filters))

  loop-find :
      (k : List ℕ) (nodes : List Setting) (filters : Filters)
      → Gives
          (λ fs. find k fs ≡ or_else (find k filters) (defined k (map definition nodes)))
          (each (load_filter c) nodes filters)
  unfolding each load_filter
  loop-find k [] filters = sym (or_else-none (find k filters))
  loop-find k (node ∷ nodes) filters = one (definition node) (loop-find k nodes)
    where
      one :
          (r : Loaded Definition)
          → ((fs' : Filters)
              → Gives
                  (λ fs. find k fs ≡ or_else (find k fs') (defined k (map definition nodes)))
                  (each (load_filter c) nodes fs'))
          → Gives
              (λ fs. find k fs ≡ or_else (find k filters) (defined k (r ∷ map definition nodes)))
              ((r >>= λ d. put_filter d filters) >>= each (load_filter c) nodes)
      one exits ih = tt
      one aborts ih = tt
      one (loaded d) ih =
          then-Gives _ _ (put_filter d filters) (each (load_filter c) nodes)
            (put_filter-find k d filters)
            (λ fs' h.
              Gives-map _ _ (each (load_filter c) nodes fs')
                (λ fs e. e ∙ h (defined k (map definition nodes))) (ih fs'))

  -- The filters that are loaded into a configuration without any are those of the file: a name stands for
  -- the first definition of it, and a name that none defines for nothing.
  pub load_filters-defined :
      (node_in : Setting) (filters : Filters)
      → load_filters c node_in [] ≡ loaded filters
      → (k : List ℕ) → find k filters ≡ defined k (map definition (elements node_in))
  unfolding load_filters find
  load_filters-defined node_in filters e k =
      subst (Gives (λ fs. find k fs ≡ defined k (map definition (elements node_in)))) e
        (loop-find k (elements node_in) [])
