-- ===== src/Resource/Node/Chain.antt =====
-- The ids of the ancestors that a node holds, against the walk from parent to parent.
use ofrak.Resource.Node.{
  ResourceNode, Nodes, get_node, child_ancestors, has_ancestor, walk_parents, walk_ancestors,
}
use ofrak.Prelude.{
  ℕ, zero, suc, ◌+◌, ◌≤◌, ◌≡◌, refl, sym, ◌∙◌, true, false, Option, none, some, List, [], ◌∷◌, map,
  ok, leb, ◌==◌, if◌then◌else◌, any, length, take, Dict, dict_get, get-set, arith,
}

-- The ancestors of a node are those of its parent, one step further away, and the parent itself.
abbrev pub ParentLinked : Nodes → ResourceNode → Option ℕ → Type 0
ParentLinked nodes n none = ((q : ℕ) → dict_get q n.ancestor_ids ≡ none) × (n.depth ≡ 0)
ParentLinked nodes n (some p) =
    (parent : ResourceNode) × (dict_get p nodes ≡ some parent)
    × (n.depth ≡ suc parent.depth)
    × ((q : ℕ) → dict_get q n.ancestor_ids ≡ dict_get q (child_ancestors parent))

-- Every node of the store has its own id, and its ancestors and depth agree with its parent's.
unfoldable pub Linked : Nodes → Type 0
Linked nodes =
    (id : ℕ) (n : ResourceNode)
    → dict_get id nodes ≡ some n
    → (n.model.id ≡ id) × ParentLinked nodes n n.parent

-- How many steps up a list an id stands.
abbrev pub steps_to : ℕ → List ℕ → Option ℕ
steps_to q [] = none
steps_to q (p ∷ ps) =
    if p == q then some 1 else elim (steps_to q ps) [ none ↦ none | some d ↦ some (d + 1) ]

get-map :
    (q : ℕ) (d : Dict ℕ)
    → dict_get q (map (λ e. (e.0, e.1 + 1)) d)
      ≡ elim (dict_get q d) [ none ↦ none | some v ↦ some (v + 1) ]
unfolding dict_get
get-map q [] = refl
get-map q ((k, v) ∷ d) = ground (arith, get-map q d)

pub get-child_ancestors :
    (q : ℕ) (n : ResourceNode)
    → dict_get q (child_ancestors n) ≡ (
        if n.model.id == q
        then some 1
        else elim (dict_get q n.ancestor_ids) [ none ↦ none | some d ↦ some (d + 1) ])
unfolding child_ancestors
get-child_ancestors q n = ground (
  arith,
  get-set n.model.id q 1 (map (λ e. (e.0, e.1 + 1)) n.ancestor_ids),
  get-map q n.ancestor_ids,
)

steps_free :
    (q : ℕ) (ps : List ℕ)
    → elim (steps_to q ps) [ none ↦ false | some d ↦ true ] ≡ any (λ p. p == q) ps
steps_free q [] = refl
steps_free q (p ∷ ps) = ground (arith, steps_free q ps)

steps_up_to :
    (q k : ℕ) (ps : List ℕ)
    → elim (steps_to q ps) [ none ↦ false | some d ↦ leb d k ] ≡ any (λ p. p == q) (take k ps)
steps_up_to q zero [] = refl
steps_up_to q (suc k) [] = refl
steps_up_to q zero (p ∷ ps) = ground arith
steps_up_to q (suc k) (p ∷ ps) = ground (arith, steps_up_to q k ps)

steps_within :
    (q : ℕ) (limit : Option ℕ) (ps : List ℕ)
    → elim (steps_to q ps) [ none ↦ false | some d ↦ elim limit [ none ↦ true | some k ↦ leb d k ] ]
      ≡ any (λ p. p == q) (elim limit [ none ↦ ps | some k ↦ take k ps ])
steps_within q none ps = steps_free q ps
steps_within q (some k) ps = steps_up_to q k ps

pub get_node-found :
    (id : ℕ) (nodes : Nodes) (n : ResourceNode)
    → dict_get id nodes ≡ some n
    → get_node id nodes ≡ ok n
unfolding get_node
get_node-found id nodes n found = rw (found, get_node) refl

walk_up :
    (nodes : Nodes) (fuel p : ℕ) (parent : ResourceNode) (parents : List ℕ)
    → get_node p nodes ≡ ok parent
    → walk_parents fuel parent.parent nodes ≡ ok parents
    → walk_parents (suc fuel) (some p) nodes ≡ ok (p ∷ parents)
unfolding walk_parents
walk_up nodes fuel p parent parents found w = rw (found, w) refl

steps_up :
    (q p : ℕ) (n parent : ResourceNode) (parents : List ℕ)
    → parent.model.id ≡ p
    → dict_get q n.ancestor_ids ≡ dict_get q (child_ancestors parent)
    → dict_get q parent.ancestor_ids ≡ steps_to q parents
    → dict_get q n.ancestor_ids ≡ steps_to q (p ∷ parents)
steps_up q p n parent parents own same steps =
    same ∙ get-child_ancestors q parent ∙ ground (arith, own, steps)

walk_all :
    (nodes : Nodes) (id : ℕ) (n : ResourceNode) (parents : List ℕ)
    → get_node id nodes ≡ ok n
    → walk_parents (length nodes + n.depth) n.parent nodes ≡ ok parents
    → walk_ancestors id false nodes ≡ ok parents
unfolding walk_ancestors
walk_all nodes id n parents found w = rw (found, w) refl

has_lem :
    (n : ResourceNode) (q : ℕ) (limit : Option ℕ) (parents : List ℕ)
    → dict_get q n.ancestor_ids ≡ steps_to q parents
    → has_ancestor n q limit false
      ≡ any (λ p. p == q) (elim limit [ none ↦ parents | some k ↦ take k parents ])
unfolding has_ancestor
has_lem n q limit parents steps = rw steps (steps_within q limit parents)

parents_step :
    (nodes : Nodes) (fuel : ℕ) (n : ResourceNode) (parent : Option ℕ)
    → Linked nodes
    → ParentLinked nodes n parent
    → n.depth ≤ fuel
    → (parents : List ℕ) × (walk_parents fuel parent nodes ≡ ok parents)
      × (length parents ≡ n.depth)
      × ((q : ℕ) → dict_get q n.ancestor_ids ≡ steps_to q parents)
unfolding Linked walk_parents
parents_step nodes fuel n none linked h le = ([], refl, sym h.1, h.0)
parents_step nodes zero n (some p) linked (parent, found, deeper, same) le = absurd (omega arith)
parents_step nodes (suc fuel) n (some p) linked (parent, found, deeper, same) le =
    let (own, up) = linked p parent found in
    let (parents, w, l, steps) =
      parents_step nodes fuel parent parent.parent linked up (omega (arith, deeper)) in
    (
      p ∷ parents,
      walk_up nodes fuel p parent parents (get_node-found p nodes parent found) w,
      omega (arith, l, deeper),
      λ q. steps_up q p n parent parents own (same q) (steps q),
    )

-- In a linked store the walk over the parents of a node ends after as many steps as the depth of
-- the node says. `has_ancestor`, which reads the ids that the node holds, is true just for the ids
-- on that walk, within the given number of steps.
pub has_ancestor_exact :
    (nodes : Nodes) (id : ℕ) (n : ResourceNode)
    → Linked nodes
    → dict_get id nodes ≡ some n
    → (parents : List ℕ) × (walk_ancestors id false nodes ≡ ok parents)
      × (length parents ≡ n.depth)
      × ((q : ℕ) (max_depth : Option ℕ)
          → has_ancestor n q max_depth false
            ≡ any (λ p. p == q) (elim max_depth [ none ↦ parents | some k ↦ take k parents ]))
unfolding Linked
has_ancestor_exact nodes id n linked found =
    let (own, up) = linked id n found in
    let (parents, w, l, steps) =
      parents_step nodes (length nodes + n.depth) n n.parent linked up (omega arith) in
    (
      parents,
      walk_all nodes id n parents (get_node-found id nodes n found) w,
      l,
      λ q limit. has_lem n q limit parents (steps q),
    )
