-- ===== src/Snmp/Data/Successor.antt =====
-- find_next_oid of snmp-data.cpp: the object identifier that an SNMP client is told to go on with.
pub mod Order
use ham_router.Common.{
  ℕ, List, [], ◌∷◌, Bool, true, false, ◌==ₛ◌, if◌then◌else◌, Option, none, some,
}
use ham_router.Common.Int.{ℤ}
use ham_router.Snmp.Data.{Content, Nodes, no_nodes, node, oid_keys}

-- An entry of `branch`: whether its parent is the null pointer, and what stands behind the node in the
-- vector that it is in.
abbrev pub Branch : Type 0
Branch = List (Bool × Nodes)

-- The node of an OID, with its children and what stands behind it.
unfoldable pub find_oid_in_vector : List ℕ → Nodes → Option (List ℕ × Nodes × Nodes)
find_oid_in_vector k no_nodes = none
find_oid_in_vector k (node j i c children more) =
    let rest = find_oid_in_vector k more in if j ==ₛ k then some (j, children, more) else rest

-- Where the first two loops end: at no node, or at a node without children.
pub data End : Type 0 where
  no_parent : End
  leaf : List ℕ → Branch → End

-- The second loop, down to the first of the first children.
unfoldable pub descend : List ℕ → Branch → Nodes → End
descend parent branch no_nodes = leaf parent branch
descend parent branch (node j i c children more) = descend j ((false, more) ∷ branch) children

-- The loops from a vector on, where `parent` is none at the top.
unfoldable pub from_vector : Option (List ℕ) → Branch → Nodes → End
unfolding descend
from_vector none branch no_nodes = no_parent
from_vector none branch (node j i c children more) = descend j ((true, more) ∷ branch) children
from_vector (some parent) branch t = descend parent branch t

abbrev pub is_top : Option (List ℕ) → Bool
is_top none = true
is_top (some parent) = false

-- The first loop, over the OIDs of the parts.
unfoldable pub follow : List (List ℕ) → Option (List ℕ) → Branch → Nodes → End
unfolding find_oid_in_vector from_vector
follow [] parent branch t = from_vector parent branch t
follow (k ∷ ks) parent branch t = elim (find_oid_in_vector k t) [
  | none ↦ from_vector parent branch t
  | some (j, children, more) ↦ follow ks (some j) ((is_top parent, more) ∷ branch) children
]

-- The first leaf of a node.
unfoldable pub first_leaf : List ℕ → Nodes → List ℕ
first_leaf oid no_nodes = oid
first_leaf oid (node j i c children more) = first_leaf j children

-- The last loop: back up to a node with a sibling behind it. At the top the search ends.
unfoldable pub climb : Branch → List ℕ
unfolding first_leaf
climb [] = []
climb ((true, more) ∷ branch) = []
climb ((false, no_nodes) ∷ branch) = climb branch
climb ((false, node j i c children more) ∷ branch) = first_leaf j children

-- What `find_next_oid` returns; `none` is the use of the null pointer.
unfoldable pub find_next_oid : List ℕ → Nodes → Option (List ℕ)
unfolding follow climb
find_next_oid oid t = elim (follow (oid_keys oid) none [] t) [
  | no_parent ↦ none
  | leaf parent branch ↦ some (if parent ==ₛ oid then climb branch else parent)
]
