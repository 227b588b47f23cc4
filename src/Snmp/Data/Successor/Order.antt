-- ===== src/Snmp/Data/Successor/Order.antt =====
-- The next object identifier against the order of the tree.
use ham_router.Common.{
  ℕ, List, [], ◌∷◌, ◌++◌, true, false, ◌==ₛ◌, ==ₛ_refl, if◌then◌else◌, append-nil, Option, none,
  some, ◌≡◌, refl, sym, ap, ◌∙◌, append_assoc,
}
use ham_router.Common.Int.{ℤ}
use ham_router.Snmp.Data.{Content, Nodes, no_nodes, node, oid_keys}
use ham_router.Snmp.Data.Successor.{
  Branch, End, no_parent, leaf, find_oid_in_vector, descend, from_vector, follow, first_leaf, climb,
  find_next_oid,
}

-- The OIDs of the nodes without children, in the order of the tree.
abbrev mutual
  pub leaves : Nodes → List (List ℕ)
  leaves no_nodes = []
  leaves (node j i c children more) = leaves_of j children ++ leaves more

  pub leaves_of : List ℕ → Nodes → List (List ℕ)
  leaves_of j no_nodes = j ∷ []
  leaves_of j (node k i c children more) = leaves_of k children ++ leaves more

-- `Leads k ks t oid below ys`: from the vector `t` on, the OIDs `k` and `ks` lead to the node of `oid`, whose
-- children are `below`; the nodes without children that stand behind it, from `t` on, are `ys`.
pub data Leads : List ℕ → List (List ℕ) → Nodes → List ℕ → Nodes → List (List ℕ) → Type 0 where
  skips :
      (k j oid : List ℕ) (ks : List (List ℕ)) (i : ℤ) (c : Content) (children more below : Nodes)
      (ys : List (List ℕ))
      → j ==ₛ k ≡ false
      → Leads k ks more oid below ys
      → Leads k ks (node j i c children more) oid below ys
  ends :
      (j : List ℕ) (i : ℤ) (c : Content) (children more : Nodes)
      → Leads j [] (node j i c children more) j children (leaves more)
  goes :
      (j k oid : List ℕ) (ks : List (List ℕ)) (i : ℤ) (c : Content) (children more below : Nodes)
      (ys : List (List ℕ))
      → Leads k ks children oid below ys
      → Leads j (k ∷ ks) (node j i c children more) oid below (ys ++ leaves more)

-- The first of the OIDs, or the empty text.
abbrev pub first_of : List (List ℕ) → List ℕ
first_of [] = []
first_of (x ∷ xs) = x

-- The nodes without children that stand behind a place. At the top the search ends.
abbrev behind : Branch → List (List ℕ)
behind [] = []
behind ((true, more) ∷ branch) = []
behind ((false, more) ∷ branch) = leaves more ++ behind branch

leaves_of-first_leaf :
    (j : List ℕ) (t : Nodes) (ys : List (List ℕ)) → first_of (leaves_of j t ++ ys) ≡ first_leaf j t
unfolding first_leaf
leaves_of-first_leaf j no_nodes ys = refl
leaves_of-first_leaf j (node k i c children more) ys =
    ap first_of (append_assoc (leaves_of k children) (leaves more) ys)
    ∙ leaves_of-first_leaf k children (leaves more ++ ys)

climb-behind : (branch : Branch) → climb branch ≡ first_of (behind branch)
unfolding climb
climb-behind [] = refl
climb-behind ((true, more) ∷ branch) = refl
climb-behind ((false, no_nodes) ∷ branch) = climb-behind branch
climb-behind ((false, node j i c children more) ∷ branch) =
    sym (leaves_of-first_leaf j children (leaves more ++ behind branch))
    ∙ ap first_of (sym (append_assoc (leaves_of j children) (leaves more) (behind branch)))

-- Where the loops end: the first of the nodes from a place on, and what is behind it.
abbrev Stops : End → List (List ℕ) → Type 0
Stops e ys =
    (parent : List ℕ) × (branch : Branch) × (e ≡ leaf parent branch) × (parent ∷ behind branch ≡ ys)

descend-Stops :
    (parent : List ℕ) (branch : Branch) (t : Nodes)
    → Stops (descend parent branch t) (leaves_of parent t ++ behind branch)
unfolding descend
descend-Stops parent branch no_nodes = (parent, branch, refl, refl)
descend-Stops parent branch (node j i c children more) =
    let (p, b, e, h) = descend-Stops j ((false, more) ∷ branch) children in
    (p, b, e, h ∙ sym (append_assoc (leaves_of j children) (leaves more) (behind branch)))

-- The first loop from a vector on, with what it comes to where the OID is not found.
abbrev searched : End → List ℕ → List (List ℕ) → Branch → Nodes → End
searched e k ks branch t = elim (find_oid_in_vector k t) [
  | none ↦ e
  | some (j, children, more) ↦ follow ks (some j) ((false, more) ∷ branch) children
]

searched-Stops :
    (e : End) (k : List ℕ) (ks : List (List ℕ)) (t : Nodes) (oid : List ℕ) (below : Nodes)
    (ys : List (List ℕ)) (branch : Branch)
    → Leads k ks t oid below ys
    → Stops (searched e k ks branch t) (leaves_of oid below ++ (ys ++ behind branch))
unfolding follow find_oid_in_vector from_vector
searched-Stops e _ _ _ _ _ _ branch (skips k j oid ks i c children more below ys other l) =
    rw (searched, other) (searched-Stops e k ks more oid below ys branch l)
searched-Stops e _ _ _ _ _ _ branch (ends j i c children more) =
    rw (searched, ==ₛ_refl j) (descend-Stops j ((false, more) ∷ branch) children)
searched-Stops e _ _ _ _ _ _ branch (goes j k2 oid ks2 i c children more below zs l) =
    let inner =
      searched-Stops (from_vector (some j) ((false, more) ∷ branch) children) k2 ks2 children oid
        below zs ((false, more) ∷ branch) l in
    rw (searched, ==ₛ_refl j, append_assoc zs (leaves more) (behind branch)) inner

-- The first of these OIDs that is not the one that is asked for, or the empty text.
abbrev pub next_of : List ℕ → List (List ℕ) → List ℕ
next_of oid [] = []
next_of oid (x ∷ xs) = if x ==ₛ oid then first_of xs else x

-- Where the parts of an OID lead to its node, below the first node at the top: of the nodes without
-- children from that node on, in the order of the tree and below the node at the top, the next OID
-- is that of the first one, or of the second one where the first is the node itself, and it is empty
-- where there is none.
pub find_next_oid-next_of :
    (j k oid : List ℕ) (ks : List (List ℕ)) (i : ℤ) (c : Content) (children more below : Nodes)
    (ys : List (List ℕ))
    → oid_keys oid ≡ j ∷ k ∷ ks
    → Leads k ks children oid below ys
    → find_next_oid oid (node j i c children more) ≡ some (next_of oid (leaves_of oid below ++ ys))
unfolding find_next_oid follow find_oid_in_vector
find_next_oid-next_of j k oid ks i c children more below ys keys l =
    let top : Branch = (true, more) ∷ [] in
    let (p, b, stops, rest) =
      searched-Stops (from_vector (some j) top children) k ks children oid below ys top l in
    let tree : Nodes = node j i c children more in
    let entered : follow (oid_keys oid) none [] tree ≡ leaf p b =
      ap (λ l. follow l none [] tree) keys ∙ rw (follow, ==ₛ_refl j) stops in
    let listed : p ∷ behind b ≡ leaves_of oid below ++ ys =
      rest ∙ ap (λ zs. leaves_of oid below ++ zs) (append-nil ys) in
    let answer : End → Option (List ℕ) = λ e. elim e [
      | no_parent ↦ none
      | leaf parent branch ↦ some (if parent ==ₛ oid then climb branch else parent)
    ] in
    ap answer entered
    ∙ ap (λ v. some (if p ==ₛ oid then v else p)) (climb-behind b)
    ∙ ap (λ zs. some (next_of oid zs)) listed
