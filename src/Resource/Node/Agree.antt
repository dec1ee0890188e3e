-- ===== src/Resource/Node/Agree.antt =====
-- Stores of nodes that are alike but for the counts and the children of the nodes.
use ofrak.Resource.Node.{ResourceNode, Nodes, with_count, with_children, child_ancestors}
use ofrak.Resource.Node.Chain.{Linked, ParentLinked}
use ofrak.Prelude.{
  ℕ, suc, ◌≡◌, ◌≢◌, refl, sym, ap, ◌∙◌, subst, Option, none, some, [], ◌==◌, dict_get, dict_set,
  get-set_self, get-set_ne, arith, Bool-cases, Option-cases, inl, inr,
}

-- a node without what a change of the tree below it alters
abbrev bare : ResourceNode → ResourceNode
bare n = with_count 0 (with_children [] n)

abbrev bare_of : Option ResourceNode → Option ResourceNode
bare_of none = none
bare_of (some n) = some (bare n)

-- The stores hold the same nodes, up to counts and children.
pub Agree : Nodes → Nodes → Type 0
Agree nodes nodes' = (j : ℕ) → bare_of (dict_get j nodes') ≡ bare_of (dict_get j nodes)

pub Agree-refl : (nodes : Nodes) → Agree nodes nodes
unfolding Agree
Agree-refl nodes j = refl

pub Agree-trans : (a b c : Nodes) → Agree a b → Agree b c → Agree a c
unfolding Agree
Agree-trans a b c h k j = k j ∙ h j

pub Agree-set :
    (id : ℕ) (n n' : ResourceNode) (nodes : Nodes)
    → dict_get id nodes ≡ some n
    → bare n' ≡ bare n
    → Agree nodes (dict_set id n' nodes)
unfolding Agree
Agree-set id n n' nodes found same j = elim (Bool-cases (id == j)) [
  | inl e ↦
      let z : id ≡ j = ground (arith, e) in
      subst (λ i. bare_of (dict_get i (dict_set id n' nodes)) ≡ bare_of (dict_get i nodes)) z
        (rw (get-set_self id n' nodes, found) (ap some same))
  | inr e ↦ let z : j ≢ id = ground (arith, e) in ap bare_of (get-set_ne id j n' nodes z)
]

-- A node that is found in one store stands in the other, alike but for counts and children.
pub Agree-found :
    (nodes nodes' : Nodes) (id : ℕ) (n : ResourceNode)
    → Agree nodes nodes'
    → dict_get id nodes ≡ some n
    → (n' : ResourceNode) × (dict_get id nodes' ≡ some n') × (bare n' ≡ bare n)
unfolding Agree
Agree-found nodes nodes' id n agree found = elim (Option-cases (dict_get id nodes')) [
  | inl e ↦ absurd (let h = agree id in ground (arith, e, found, h))
  | inr (n', e) ↦
      let h = ap bare_of (sym e) ∙ agree id ∙ ap bare_of found in
      (n', e, ap (λ o. elim o [ none ↦ bare n' | some m ↦ m ]) h)
]

Agree-sym : (a b : Nodes) → Agree a b → Agree b a
unfolding Agree
Agree-sym a b h j = sym (h j)

pub ParentLinked-bare :
    (nodes nodes' : Nodes) (n n' : ResourceNode) (parent : Option ℕ)
    → Agree nodes nodes'
    → bare n' ≡ bare n
    → ParentLinked nodes n parent
    → ParentLinked nodes' n' parent
unfolding child_ancestors
ParentLinked-bare nodes nodes' n n' none agree same (no_ids, depth) =
    (λ q. ap (λ m. dict_get q m.ancestor_ids) same ∙ no_ids q, ap (λ m. m.depth) same ∙ depth)
ParentLinked-bare nodes nodes' n n' (some p) agree same (parent, found, deeper, ids) =
    let (parent', found', same') = Agree-found nodes nodes' p parent agree found in
    (
      parent',
      found',
      ap (λ m. m.depth) same ∙ deeper ∙ ap (λ m. suc m.depth) (sym same'),
      λ q.
          ap (λ m. dict_get q m.ancestor_ids) same
          ∙ ids q
          ∙ ap (λ m. dict_get q (child_ancestors m)) (sym same'),
    )

pub Agree-Linked : (nodes nodes' : Nodes) → Agree nodes nodes' → Linked nodes → Linked nodes'
unfolding Linked
Agree-Linked nodes nodes' agree linked id n' found' =
    let (n, found, same) = Agree-found nodes' nodes id n' (Agree-sym nodes nodes' agree) found' in
    let (own, up) = linked id n found in
    (
      ap (λ m. m.model.id) (sym same) ∙ own,
      ParentLinked-bare nodes nodes' n n' n'.parent agree (sym same)
          (subst (λ o. ParentLinked nodes n o) (ap (λ m. m.parent) same) up),
    )
