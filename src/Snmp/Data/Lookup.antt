-- ===== src/Snmp/Data/Lookup.antt =====
-- What is found in the tree of snmp-data.cpp after a registration.
use ham_router.Common.{
  ℕ, ◌≤◌, List, [], ◌∷◌, length, Bool, true, false, ◌&&◌, ◌==ₛ◌, ==ₛ_refl, ==ₛ→eq, if◌then◌else◌,
  Option, none, some, Option-cases, Bool-cases, inl, inr, ◌≡◌, refl, sym, ap, ◌∙◌, arith,
}
use ham_router.Common.Int.{ℤ}
use ham_router.Snmp.Data.{
  Content, Nodes, no_nodes, node, get_data, find_node, insert_node, change_children, oid_idx,
  oid_keys, register_path, register_oid, find_path, find_by_oid, last_content, data_of,
}

find_node-insert_node :
    (k q : List ℕ) (i : ℤ) (c : Content) (children t : Nodes)
    → find_node k t ≡ none
    → find_node q (insert_node k i c children t)
      ≡ (if k ==ₛ q then some (c, children) else find_node q t)
unfolding find_node insert_node
find_node-insert_node k q i c children no_nodes h = refl
find_node-insert_node k q i c children (node j l d below more) h = ground (
  arith,
  find_node-insert_node k q i c children more,
  ==ₛ→eq j q,
  ==ₛ→eq k q,
  ==ₛ_refl k,
  ==ₛ→eq j k,
)

-- The content of a node with other children.
abbrev with_children : (Nodes → Nodes) → Option (Content × Nodes) → Option (Content × Nodes)
with_children f none = none
with_children f (some (c, children)) = some (c, f children)

find_node-change_children :
    (k q : List ℕ) (f : Nodes → Nodes) (t : Nodes)
    → find_node q (change_children k f t)
      ≡ (if k ==ₛ q then with_children f (find_node q t) else find_node q t)
unfolding find_node change_children
find_node-change_children k q f no_nodes = ground arith
find_node-change_children k q f (node j l d below more) = ground (
  arith,
  find_node-change_children k q f more,
  ==ₛ→eq j q,
  ==ₛ→eq k q,
  ==ₛ→eq j k,
  ==ₛ_refl k,
  ==ₛ_refl q,
)

-- Whether the first path leads to a node on the second.
abbrev pub leads_along : List (List ℕ) → List (List ℕ) → Bool
leads_along [] ks = true
leads_along (q ∷ qs) [] = false
leads_along (q ∷ qs) (k ∷ ks) = k ==ₛ q && leads_along qs ks

module _ (atoi : List ℕ → ℤ) (e : Content) where
  find_path-nowhere : (qs : List (List ℕ)) → find_path qs no_nodes ≡ none
  unfolding find_path find_node
  find_path-nowhere [] = refl
  find_path-nowhere (q ∷ qs) = refl

  -- How a path goes on behind its first node.
  abbrev behind : List (List ℕ) → Option (Content × Nodes) → Option Content
  behind ks none = none
  behind [] (some (c, children)) = some c
  behind (k ∷ ks) (some (c, children)) = find_path (k ∷ ks) children

  find_path-behind :
      (k : List ℕ) (ks : List (List ℕ)) (t : Nodes)
      → find_path (k ∷ ks) t ≡ behind ks (find_node k t)
  unfolding find_path
  find_path-behind k [] t = ground arith
  find_path-behind k (j ∷ ks) t = ground arith

  -- The node of `k` after a registration along `k ∷ ks`.
  abbrev entered : List (List ℕ) → Option (Content × Nodes) → Content × Nodes
  entered ks none = (last_content ks e, register_path atoi ks e no_nodes)
  entered ks (some (c, children)) = (c, register_path atoi ks e children)

  find_node-register_path :
      (k q : List ℕ) (ks : List (List ℕ)) (t : Nodes)
      → find_node q (register_path atoi (k ∷ ks) e t)
        ≡ (if k ==ₛ q then some (entered ks (find_node k t)) else find_node q t)
  unfolding register_path
  find_node-register_path k q ks t = elim (Option-cases (find_node k t)) [
    | inl empty ↦
        rw (empty, register_path)
          (find_node-insert_node k q (oid_idx atoi k) (last_content ks e)
            (register_path atoi ks e no_nodes) t empty)
    | inr (found, there) ↦
        rw (there, register_path)
          (find_node-change_children k q (register_path atoi ks e) t ∙ elim (Bool-cases (k ==ₛ q)) [
            | inl same ↦
                let at_q = ap (λ j. find_node j t) (sym (==ₛ→eq k q same)) ∙ there in
                rw (same, at_q) refl
            | inr other ↦ rw other refl
          ])
  ]

  entered_new :
      (ks : List (List ℕ)) (found : Option (Content × Nodes))
      → ((t : Nodes)
          → 1 ≤ length ks
          → find_path ks t ≡ none
          → find_path ks (register_path atoi ks e t) ≡ some e)
      → behind ks found ≡ none
      → behind ks (some (entered ks found)) ≡ some e
  entered_new [] none ih h = refl
  entered_new [] (some (c, children)) ih h = absurd (ground arith)
  entered_new (j ∷ js) none ih h = ih no_nodes (omega arith) (find_path-nowhere (j ∷ js))
  entered_new (j ∷ js) (some (c, children)) ih h = ih children (omega arith) h

  found_new :
      (ks : List (List ℕ)) (t : Nodes)
      → 1 ≤ length ks
      → find_path ks t ≡ none
      → find_path ks (register_path atoi ks e t) ≡ some e
  found_new [] t n h = absurd (omega arith)
  found_new (k ∷ ks) t n h =
      find_path-behind k ks (register_path atoi (k ∷ ks) e t)
      ∙ ap (behind ks) {y = some (entered ks (find_node k t))}
          (find_node-register_path k k ks t ∙ rw (==ₛ_refl k) refl)
      ∙ entered_new ks (find_node k t) (found_new ks) (sym (find_path-behind k ks t) ∙ h)

  entered_old :
      (qs ks : List (List ℕ)) (found : Option (Content × Nodes))
      → ((t : Nodes) → find_path qs (register_path atoi ks e t) ≡ find_path qs t)
      → leads_along qs ks ≡ false
      → behind qs (some (entered ks found)) ≡ behind qs found
  entered_old [] ks found ih h = absurd (ground arith)
  entered_old (j ∷ js) ks none ih h = ih no_nodes ∙ find_path-nowhere (j ∷ js)
  entered_old (j ∷ js) ks (some (c, children)) ih h = ih children

  kept_old :
      (qs ks : List (List ℕ)) (t : Nodes)
      → leads_along qs ks ≡ false
      → find_path qs (register_path atoi ks e t) ≡ find_path qs t
  kept_old [] ks t h = absurd (ground arith)
  kept_old (q ∷ qs) [] t h = unfold register_path in refl
  kept_old (q ∷ qs) (k ∷ ks) t h =
      find_path-behind q qs (register_path atoi (k ∷ ks) e t)
      ∙ ap (behind qs) (find_node-register_path k q ks t)
      ∙ elim (Bool-cases (k ==ₛ q)) [
        | inl same ↦
            let at_q = ap (λ j. find_node j t) (==ₛ→eq k q same) in
            let along : leads_along qs ks ≡ false = ground arith in
            rw (same, at_q) (entered_old qs ks (find_node q t) (λ u. kept_old qs ks u along) along)
        | inr other ↦ rw other refl
      ]
      ∙ sym (find_path-behind q qs t)

-- Where an object identifier of a part at least is not found, registering it makes it found with its
-- data, and what any identifier stands for that does not lead along it stays as it was.
pub find_by_oid-register_oid :
    (atoi : List ℕ → ℤ) (atoll : List ℕ → ℕ) (cells : ℕ → ℕ) (now : ℕ) (text other : List ℕ)
    (e : Content) (t : Nodes)
    → 1 ≤ length (oid_keys text)
    → find_by_oid atoll cells now text t ≡ none
    → leads_along (oid_keys other) (oid_keys text) ≡ false
    → (find_by_oid atoll cells now text (register_oid atoi text e t)
        ≡ some (get_data atoll cells now e))
      × (find_by_oid atoll cells now other (register_oid atoi text e t)
          ≡ find_by_oid atoll cells now other t)
unfolding find_by_oid register_oid
find_by_oid-register_oid atoi atoll cells now text other e t n h k =
    let empty : find_path (oid_keys text) t ≡ none =
      nothing_found (find_path (oid_keys text) t) h in
    (
      ap (data_of atoll cells now) (found_new atoi e (oid_keys text) t n empty),
      ap (data_of atoll cells now) (kept_old atoi e (oid_keys other) (oid_keys text) t k),
    )
  where
    nothing_found : (found : Option Content) → data_of atoll cells now found ≡ none → found ≡ none
    nothing_found none h = refl
    nothing_found (some c) h = absurd (ground arith)
