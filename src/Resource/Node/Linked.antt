-- ===== src/Resource/Node/Linked.antt =====
-- `add_child` keeps the ancestors and depths of a store of nodes consistent.
use ofrak.Resource.Node.{
  ResourceNode, Nodes, get_node, with_count, with_children, with_ancestors, child_ancestors,
  count_up, add_key, add_child,
}
use ofrak.Resource.Node.Chain.{Linked, ParentLinked, get_node-found}
use ofrak.Prelude.{
  ℕ, zero, suc, ◌+◌, ◌≤◌, ◌≡◌, refl, sym, ap, ◌∙◌, subst, Option, none, some, ok, ◌==◌,
  if◌then◌else◌, length, dict_get, dict_set, get-set, get-set_self, arith, Bool-cases, inl, inr,
}
use ofrak.Resource.Node.Counts.{Grown, add_child-Grown}
use ofrak.Resource.Node.Agree.{
  Agree, Agree-refl, Agree-trans, Agree-set, Agree-found, ParentLinked-bare, Agree-Linked,
}

count_step :
    (change : ℕ → ℕ → ℕ) (fuel child p : ℕ) (nodes out : Nodes) (n c : ResourceNode)
    → get_node p nodes ≡ ok n
    → get_node child nodes ≡ ok c
    → count_up change fuel child n.parent
        (dict_set p (with_count (change n.descendant_count (c.descendant_count + 1)) n) nodes)
      ≡ ok out
    → count_up change (suc fuel) child (some p) nodes ≡ ok out
unfolding count_up
count_step change fuel child p nodes out n c hp hc w = rw (hp, hc) w

-- In a linked store the counts above a node can be changed, and nothing else is.
count_up_lem :
    (change : ℕ → ℕ → ℕ) (fuel child : ℕ) (nodes : Nodes) (n c : ResourceNode) (parent : Option ℕ)
    → Linked nodes
    → dict_get child nodes ≡ some c
    → ParentLinked nodes n parent
    → n.depth ≤ fuel
    → (nodes' : Nodes) × (count_up change fuel child parent nodes ≡ ok nodes') × Agree nodes nodes'
unfolding Linked count_up
count_up_lem change fuel child nodes n c none linked hc up le = (nodes, refl, Agree-refl nodes)
count_up_lem change zero child nodes n c (some p) linked hc (pn, found, deeper, ids) le =
    absurd (omega arith)
count_up_lem change (suc fuel) child nodes n c (some p) linked hc (pn, found, deeper, ids) le =
    let counted = with_count (change pn.descendant_count (c.descendant_count + 1)) pn in
    let nodes1 = dict_set p counted nodes in
    let agree = Agree-set p pn counted nodes found refl in
    let (c1, hc1, same) = Agree-found nodes nodes1 child c agree hc in
    let (out, w, agree') =
      count_up_lem change fuel child nodes1 pn c1 pn.parent (Agree-Linked nodes nodes1 agree linked)
        hc1 (ParentLinked-bare nodes nodes1 pn pn pn.parent agree refl (linked p pn found).1)
        (omega (arith, deeper)) in
    (
      out,
      count_step change fuel child p nodes out pn c (get_node-found p nodes pn found)
          (get_node-found child nodes c hc) w,
      Agree-trans nodes nodes1 out agree agree',
    )

-- the store with one more node
abbrev With : ℕ → ResourceNode → Nodes → Nodes → Type 0
With id n nodes nodes' =
    (j : ℕ) → dict_get j nodes' ≡ (if id == j then some n else dict_get j nodes)

With-other :
    (id j : ℕ) (n m : ResourceNode) (nodes nodes' : Nodes)
    → With id n nodes nodes'
    → dict_get id nodes ≡ none
    → dict_get j nodes ≡ some m
    → dict_get j nodes' ≡ some m
With-other id j n m nodes nodes' h new found = elim (Bool-cases (id == j)) [
  | inl e ↦
      let z : id ≡ j = ground (arith, e) in
      let f = ap (λ i. dict_get i nodes) z in absurd (ground (arith, f, new, found))
  | inr e ↦ h j ∙ rw e found
]

ParentLinked-With :
    (id : ℕ) (n m : ResourceNode) (nodes nodes' : Nodes) (parent : Option ℕ)
    → With id n nodes nodes'
    → dict_get id nodes ≡ none
    → ParentLinked nodes m parent
    → ParentLinked nodes' m parent
ParentLinked-With id n m nodes nodes' none h new up = up
ParentLinked-With id n m nodes nodes' (some p) h new (pn, found, deeper, ids) =
    (pn, With-other id p n pn nodes nodes' h new found, deeper, ids)

pub Linked-With :
    (id : ℕ) (n : ResourceNode) (nodes nodes' : Nodes)
    → With id n nodes nodes'
    → dict_get id nodes ≡ none
    → n.model.id ≡ id
    → ParentLinked nodes n n.parent
    → Linked nodes
    → Linked nodes'
unfolding Linked
Linked-With id n nodes nodes' h new own up linked j m found = elim (Bool-cases (id == j)) [
  | inl e ↦
      let z : id ≡ j = ground (arith, e) in
      let at : dict_get j nodes' ≡ some n = h j ∙ rw e refl in
      let same = sym at ∙ found in
      let eq = ap (λ o. elim o [ none ↦ n | some x ↦ x ]) same in
      subst (λ x. (x.model.id ≡ j) × ParentLinked nodes' x x.parent) eq
        (own ∙ z, ParentLinked-With id n n nodes nodes' n.parent h new up)
  | inr e ↦
      let at : dict_get j nodes' ≡ dict_get j nodes = h j ∙ rw e refl in
      let was = sym at ∙ found in
      let (own', up') = linked j m was in
      (own', ParentLinked-With id n m nodes nodes' m.parent h new up')
]

add_step :
    (p child : ℕ) (nodes counted : Nodes) (n c n' : ResourceNode)
    → get_node p nodes ≡ ok n
    → get_node child nodes ≡ ok c
    → count_up
        (λ a b. a + b)
        (suc (length nodes + n.depth))
        child
        (some p)
        (dict_set child (with_ancestors (child_ancestors n) (n.depth + 1) c) nodes)
      ≡ ok counted
    → get_node p counted ≡ ok n'
    → add_child p child nodes
      ≡ ok (dict_set p (with_children (add_key child n'.children) n') counted)
unfolding add_child
add_step p child nodes counted n c n' hp hc w hn = rw (hp, hc, w, hn) refl

node_own :
    (nodes : Nodes) (id : ℕ) (n : ResourceNode)
    → Linked nodes
    → dict_get id nodes ≡ some n
    → n.model.id ≡ id
unfolding Linked
node_own nodes id n linked found = (linked id n found).0

-- A new child of a node is added: the store stays linked, and the nodes above the child grow by it.
pub add_child-Linked :
    (nodes : Nodes) (p child : ℕ) (pn c : ResourceNode)
    → Linked nodes
    → dict_get child nodes ≡ none
    → dict_get p nodes ≡ some pn
    → c.model.id ≡ child
    → c.parent ≡ some p
    → c.descendant_count ≡ 0
    → (nodes' : Nodes) × (c' : ResourceNode) × (add_child p child (dict_set child c nodes)
        ≡ ok nodes')
      × Linked nodes'
      × (dict_get child nodes' ≡ some c')
      × (c'.parent ≡ some p)
      × (c'.depth ≡ suc pn.depth)
      × (c'.children ≡ c.children)
      × (c'.descendant_count ≡ 0)
      × Grown child p pn nodes nodes'
add_child-Linked nodes p child pn c linked new found own parent fresh =
    let lc = with_ancestors (child_ancestors pn) (pn.depth + 1) c in
    let nodes0 = dict_set child c nodes in
    let nodes1 = dict_set child lc nodes0 in
    let found0 = With-other child p c pn nodes nodes0 (λ j. get-set child j c nodes) new found in
    let with1 : With child lc nodes nodes1 =
      λ j. ground (arith, get-set child j lc nodes0, get-set child j c nodes) in
    let found1 = With-other child p lc pn nodes nodes1 with1 new found in
    let deeper : pn.depth + 1 ≡ suc pn.depth = omega arith in
    let linked1 =
      Linked-With child lc nodes nodes1 with1 new own
        (subst (λ o. ParentLinked nodes lc o) (sym parent) (pn, found, deeper, λ q. refl)) linked in
    let hc1 = get-set_self child lc nodes0 in
    let (counted, w, agree) =
      count_up_lem (λ a b. a + b) (suc (length nodes0 + pn.depth)) child nodes1 lc lc (some p)
        linked1 hc1 (pn, found1, deeper, λ q. refl) (omega arith) in
    let (n', hn, same) = Agree-found nodes1 counted p pn agree found1 in
    let grown = with_children (add_key child n'.children) n' in
    let final = dict_set p grown counted in
    let all = Agree-trans nodes1 counted final agree (Agree-set p n' grown counted hn refl) in
    let up1 : ParentLinked nodes1 lc (some p) = (pn, found1, deeper, λ q. refl) in
    let (grown, at) =
      add_child-Grown (suc (length nodes0 + pn.depth)) p child nodes nodes1 counted pn lc n' linked1
        found (node_own nodes p pn linked found) found1 hc1 up1 (λ j ne. with1 j ∙ rw ne refl) refl
        fresh w hn in
    (
      final,
      lc,
      add_step p child nodes0 counted pn c n' (get_node-found p nodes0 pn found0)
          (get_node-found child nodes0 c (get-set_self child c nodes)) w
          (get_node-found p counted n' hn),
      Agree-Linked nodes1 final all linked1,
      at,
      parent,
      deeper,
      refl,
      fresh,
      grown,
    )
