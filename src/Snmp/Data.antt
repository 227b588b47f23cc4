-- ===== src/Snmp/Data.antt =====
-- snmp-data.h and snmp-data.cpp: the tree of the object identifiers. `atoi` of the C library is a
-- parameter; a number that is static is the 64 bits that its `int` becomes.
pub mod Lookup
pub mod Successor
use ham_router.Common.{
  ℕ, suc, ◌+◌, ◌-◌, ◌%◌, ◌^◌, List, [], ◌∷◌, ◌++◌, length, drop, Bool, true, false, ltb, ◌==◌,
  ◌==ₛ◌, if◌then◌else◌, Option, none, some, codes,
}
use ham_router.Common.Int.{ℤ, pos, negsuc}
use ham_router.Text.{split}
use ham_router.Snmp.{IntegerType, si_integer, si_ticks, Elem, octet_string, oid, snmp_integer}
use ham_router.Snmp.Oids.{snmp_oid}

-- What a node stands for: nothing, one of the static data, a counter at an offset, the time since a
-- start, or an object identifier.
pub data Content : Type 0 where
  plain : Content
  static_text : List ℕ → Content
  static_int : IntegerType → ℕ → Content
  counter : IntegerType → ℕ → Content
  running_since : ℕ → Content
  object : List ℕ → Content

-- `get_data` at the time `now`, in hundredths of a second; the null pointer is `none`. The type of a static
-- number is not used.
unfoldable pub get_data : (List ℕ → ℕ) → (ℕ → ℕ) → ℕ → Content → Option Elem
get_data atoll cells now plain = none
get_data atoll cells now (static_text v) = some (octet_string v)
get_data atoll cells now (static_int type v) = some (snmp_integer si_integer v)
get_data atoll cells now (counter type p) = some (snmp_integer type (cells p))
get_data atoll cells now (running_since start) =
    some (snmp_integer si_ticks ((now + 2 ^ 64 - start) % 2 ^ 64))
get_data atoll cells now (object text) = some (oid (snmp_oid atoll text))

-- A vector of nodes: the first one with its OID, its index, its content and its children, and the rest.
pub data Nodes : Type 0 where
  no_nodes : Nodes
  node : List ℕ → ℤ → Content → Nodes → Nodes → Nodes

-- The node of an OID in a vector.
unfoldable pub find_node : List ℕ → Nodes → Option (Content × Nodes)
find_node k no_nodes = none
find_node k (node j i c children more) = if j ==ₛ k then some (c, children) else find_node k more

abbrev int_lt : ℤ → ℤ → Bool
int_lt (pos a) (pos b) = ltb a b
int_lt (pos a) (negsuc b) = false
int_lt (negsuc a) (pos b) = true
int_lt (negsuc a) (negsuc b) = ltb b a

unfoldable pub rfind_dot : List ℕ → Option ℕ
rfind_dot [] = none
rfind_dot (c ∷ cs) = elim (rfind_dot cs) [
  | some i ↦ some (suc i)
  | none ↦ if c == b'.' then some 0 else none
]

-- The index that `set_tree_data` takes from the text behind the last dot.
unfoldable pub oid_idx : (List ℕ → ℤ) → List ℕ → ℤ
unfolding rfind_dot
oid_idx atoi text = elim (rfind_dot text) [ none ↦ pos 0 | some dot ↦ atoi (drop (dot + 1) text) ]

-- A new node stands before the first one with a larger index.
unfoldable pub insert_node : List ℕ → ℤ → Content → Nodes → Nodes → Nodes
insert_node k i c children no_nodes = node k i c children no_nodes
insert_node k i c children (node j h d below more) =
    let rest = insert_node k i c children more in
    if int_lt i h then node k i c children (node j h d below more) else node j h d below rest

-- The children of the node of an OID are changed.
unfoldable pub change_children : List ℕ → (Nodes → Nodes) → Nodes → Nodes
change_children k f no_nodes = no_nodes
change_children k f (node j i c children more) =
    let rest = change_children k f more in
    if j ==ₛ k then node j i c (f children) more else node j i c children rest

-- `cur_oid` with one more part.
abbrev extend : List ℕ → List ℕ → List ℕ
extend cur part = if length cur == 0 then part else cur ++ (codes "." ++ part)

-- What `cur_oid` is in the rounds of the loops over the parts.
unfoldable pub keys : List ℕ → List (List ℕ) → List (List ℕ)
keys cur [] = []
keys cur (part ∷ parts) = extend cur part ∷ keys (extend cur part) parts

abbrev pub oid_keys : List ℕ → List (List ℕ)
oid_keys text = keys [] (split text (codes "."))

abbrev pub last_content : List (List ℕ) → Content → Content
last_content [] e = e
last_content (k ∷ ks) e = plain

module _ (atoi : List ℕ → ℤ) where
  -- The loop of `register_oid`. Where all the nodes are there, the data are not kept.
  unfoldable pub register_path : List (List ℕ) → Content → Nodes → Nodes
  unfolding find_node insert_node change_children oid_idx
  register_path [] e t = t
  register_path (k ∷ ks) e t = elim (find_node k t) [
    | some found ↦ change_children k (register_path ks e) t
    | none ↦ insert_node k (oid_idx atoi k) (last_content ks e) (register_path ks e no_nodes) t
  ]

  unfoldable pub register_oid : List ℕ → Content → Nodes → Nodes
  unfolding register_path keys
  register_oid text e t = register_path (oid_keys text) e t

-- The loop of `find_by_oid`.
unfoldable pub find_path : List (List ℕ) → Nodes → Option Content
unfolding find_node
find_path [] t = none
find_path (k ∷ ks) t = elim (find_node k t) [
  | none ↦ none
  | some (c, children) ↦
      let rest = find_path ks children in elim ks [ [] ↦ some c | k' ∷ more ↦ rest ]
]

abbrev pub data_of : (List ℕ → ℕ) → (ℕ → ℕ) → ℕ → Option Content → Option (Option Elem)
data_of atoll cells now none = none
data_of atoll cells now (some c) = some (get_data atoll cells now c)

unfoldable pub find_by_oid : (List ℕ → ℕ) → (ℕ → ℕ) → ℕ → List ℕ → Nodes → Option (Option Elem)
unfolding find_path get_data keys
find_by_oid atoll cells now text t = data_of atoll cells now (find_path (oid_keys text) t)
