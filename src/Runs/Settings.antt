-- ===== src/Runs/Settings.antt =====
-- A configuration file at concrete inputs.
use ham_router.Common.{
  ℕ, List, [], ◌∷◌, true, ◌==◌, ◌==ₛ◌, if◌then◌else◌, Option, some, none, ◌≡◌, refl, codes, map,
}
use ham_router.Common.Int.{pos}
use ham_router.Common.Assoc.{find, insert}
use ham_router.Snmp.Data.{no_nodes}
use ham_router.Text.{split}
use ham_router.Stats.{stats, register_stat}
use ham_router.Switchboard.{Switchboard, put_message}
use ham_router.Settings.{Libconfig, loaded, each}
use ham_router.Settings.Known.{Gives, AreKnown}
use ham_router.Config.Devices.{Device}
use ham_router.Config.Devices.Kinds.{kiss_kernel, instantiate}
use ham_router.Config.Filters.{Filters, load_filters, filter_of}
use ham_router.Config.Filters.First.{defined, definition, load_filters-defined}
use ham_router.Config.Mappings.{find_tranceiver, load_bridge}
use ham_router.Config.Registry.{Registry, Host}
use ham_router.Config.Load.{configuration}
use ham_router.Config.Sections.{IsSound, configuration-IsSound, configuration-find_tranceiver}
use ham_router.Config.Names.Tranceivers.{IsComplete, instantiate-IsComplete}
use ham_router.Config.Delivery.{no_board, others, handed_to, load_bridge-put_message}
use ham_router.Runs.Routing.{lab, letter}

-- Settings as trees: a text, or a group, each with its name.
mutual
  data Tree : Type 0 where
    text : List ℕ → List ℕ → Tree
    group : List ℕ → Trees → Tree

  data Trees : Type 0 where
    none_left : Trees
    first : Tree → Trees → Trees

abbrev name_of : Tree → List ℕ
name_of (text n v) = n
name_of (group n ts) = n

abbrev listed : Trees → List Tree
listed none_left = []
listed (first t ts) = t ∷ listed ts

abbrev members : Tree → List Tree
members (text n v) = []
members (group n ts) = listed ts

abbrev named_in : List ℕ → List Tree → Option Tree
named_in k [] = none
named_in k (t ∷ ts) = if name_of t ==ₛ k then some t else named_in k ts

abbrev text_of : Tree → Option (List ℕ)
text_of (text n v) = some v
text_of (group n ts) = none

abbrev trees : Libconfig
trees = record {
  Setting = Tree;
  elements = members;
  get_name = λ t. some (name_of t);
  lookup = λ t k. named_in k (members t);
  as_text = text_of;
  as_int = λ t. none;
  as_bool = λ t. none;
  as_double = λ t. none;
}

abbrev pair : Tree → Tree → Trees
pair a b = first a (first b none_left)

abbrev radio : List ℕ → Tree
radio id = group [] (
    first (text (codes "type") (codes "kiss-kernel"))
      (pair (text (codes "id") id) (text (codes "callsign") (codes "N0"))))

abbrev bridge : Tree
bridge = group [] (pair (text (codes "from") (codes "a")) (text (codes "to") (codes "b a")))

abbrev file : Tree
file = group [] (
    pair (group (codes "tranceivers") (pair (radio (codes "a")) (radio (codes "b"))))
      (group (codes "bridge-mappings") (first bridge none_left)))

abbrev host : Host
host = record { atoi = λ s. pos 0; format = λ n. codes "1"; construct = λ d. loaded tt }

abbrev fresh : Registry
fresh = record { sd = no_nodes; st = stats 4096 }

abbrev two_ids : List (List ℕ)
two_ids = codes "a" ∷ codes "b" ∷ []

instantiate-IsComplete_example :
    AreKnown trees
      (codes "id"
        ∷ codes "repetition-rate-limiting"
        ∷ codes "callsign"
        ∷ codes "if-up"
        ∷ codes "type"
        ∷ [])
      (radio (codes "a"))
    × IsComplete (kiss_kernel (record { callsign = codes "N0"; if_up = [] }))
unfolding instantiate ham_router.Config.Devices.Radios.instantiate_kiss_kernel each
instantiate-IsComplete_example = instantiate-IsComplete trees [] [] none (radio (codes "a")) _ refl

load_bridge-put_message_example :
    (sb : Switchboard (List ℕ)) × (load_bridge trees [] two_ids bridge no_board ≡ loaded sb)
    × ((j : ℕ)
        → put_message lab true letter 9 j sb []
          ≡ handed_to lab letter (if 0 == j then others 0 (1 ∷ 0 ∷ []) else []) [])
unfolding find_tranceiver split ham_router.Text.find
load_bridge-put_message_example =
    load_bridge-put_message trees lab letter 9 [] two_ids bridge (codes "a") (codes "b a") 0
      (1 ∷ 0 ∷ []) [] refl refl refl refl refl

abbrev filters_file : Tree
filters_file = group [] (
    pair (group [] (pair (text (codes "name") (codes "x")) (text (codes "pattern") (codes "a=b"))))
      (group [] (pair (text (codes "name") (codes "x")) (text (codes "pattern") (codes "c=d")))))

load_filters-defined_example :
    find
      (codes "x")
      ((codes "x", record { ignore_if_field_is_missing = true; pattern = codes "a=b" }) ∷ [])
    ≡ defined (codes "x") (map (definition trees) (members filters_file))
unfolding load_filters each ham_router.Config.Filters.filter_setting insert
load_filters-defined_example = load_filters-defined trees filters_file _ refl (codes "x")

configuration-IsSound_example : Gives IsSound (configuration trees host some 0 file fresh)
unfolding configuration each instantiate ham_router.Config.Devices.Radios.instantiate_kiss_kernel
    ham_router.Config.Registry.constructed ham_router.Config.Registry.register_snmp_counters
    register_stat find stats insert ham_router.Config.Mappings.load_bridge_switchboard
    find_tranceiver split ham_router.Text.find
configuration-IsSound_example = configuration-IsSound trees host some 0 file fresh _ refl

configuration-find_tranceiver_example : find_tranceiver (codes "b") two_ids ≡ some 1
unfolding configuration each instantiate ham_router.Config.Devices.Radios.instantiate_kiss_kernel
    ham_router.Config.Registry.constructed ham_router.Config.Registry.register_snmp_counters
    register_stat find stats insert ham_router.Config.Mappings.load_bridge_switchboard
    find_tranceiver split ham_router.Text.find
configuration-find_tranceiver_example =
    configuration-find_tranceiver trees host some 0 file fresh _ 1 (codes "b") refl refl
