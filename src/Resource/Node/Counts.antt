-- ===== src/Resource/Node/Counts.antt =====
-- `add_child`: which counts grow, and which children the nodes have after it.
use ofrak.Resource.Node.{
  ResourceNode, Nodes, get_node, with_count, with_children, child_ancestors, count_up, add_key,
}
use ofrak.Resource.Node.Chain.{Linked, ParentLinked, get_node-found, get-child_ancestors}
use ofrak.Resource.Node.Agree.{Agree-set, Agree-Linked, ParentLinked-bare}
use ofrak.Prelude.{
  ℕ, zero, suc, ◌+◌, ◌<◌, ◌≤◌, ◌≡◌, refl, sym, ap, ◌∙◌, subst, Bool, true, false, ◌||◌, Option,
  none, some, List, [], ◌∷◌, ◌++◌, ok, err, ◌==◌, if◌then◌else◌, any, Dict, dict_get, dict_set,
  dict_has, get-set, arith, Bool-cases, inl, inr, ==_iff,
}

-- a node where there is one, changed
abbrev pub changed : (ResourceNode → ResourceNode) → Option ResourceNode → Option ResourceNode
changed f none = none
changed f (some n) = some (f n)

-- the count, which grows for some nodes
abbrev pub bump : ℕ → Bool → ResourceNode → ResourceNode
bump k grows n = with_count (if grows then n.descendant_count + k else n.descendant_count) n

has_some : {V : Type 0} (k : ℕ) (d : Dict V) (v : V) → dict_get k d ≡ some v → dict_has k d ≡ true
unfolding dict_has
has_some k d v e = rw (e, dict_has) refl

has-child_ancestors :
    (q : ℕ) (n : ResourceNode)
    → dict_has q (child_ancestors n) ≡ (n.model.id == q || dict_has q n.ancestor_ids)
unfolding dict_has
has-child_ancestors q n = ground (arith, get-child_ancestors q n)

has_same : (q : ℕ) (d e : Dict ℕ) → dict_get q d ≡ dict_get q e → dict_has q d ≡ dict_has q e
unfolding dict_has
has_same q d e h = ap (λ o. elim o [ none ↦ false | some _ ↦ true ]) h

-- An ancestor of a node is a node that is less deep.
ancestor_node :
    (fuel q : ℕ) (nodes : Nodes) (n : ResourceNode) (parent : Option ℕ)
    → Linked nodes
    → ParentLinked nodes n parent
    → n.depth ≤ fuel
    → dict_has q n.ancestor_ids ≡ true
    → (m : ResourceNode) × (dict_get q nodes ≡ some m) × (m.depth < n.depth)
unfolding Linked dict_has
ancestor_node fuel q nodes n none linked (no_ids, top) le h = absurd (let e = no_ids q in cc (e, h))
ancestor_node zero q nodes n (some p) linked (pn, found, deeper, ids) le h = absurd (omega arith)
ancestor_node (suc fuel) q nodes n (some p) linked (pn, found, deeper, ids) le h =
    let (own, up) = linked p pn found in
    let split =
      sym (has_same q n.ancestor_ids (child_ancestors pn) (ids q) ∙ has-child_ancestors q pn) ∙ h in
    elim (Bool-cases (pn.model.id == q)) [
      | inl e ↦
          let z : p ≡ q = sym own ∙ (==_iff pn.model.id q).0 e in
          (pn, ap (λ i. dict_get i nodes) (sym z) ∙ found, omega (arith, deeper))
      | inr e ↦
          let (m, at, less) =
            ancestor_node fuel q nodes pn pn.parent linked up (omega (arith, deeper))
              (ground (arith, split, e)) in
          (m, at, omega (arith, less, deeper))
    ]

-- No node is its own ancestor.
pub not_own_ancestor :
    (q : ℕ) (nodes : Nodes) (n : ResourceNode) (parent : Option ℕ)
    → Linked nodes
    → ParentLinked nodes n parent
    → dict_get q nodes ≡ some n
    → dict_has q n.ancestor_ids ≡ false
not_own_ancestor q nodes n parent linked up found = elim (Bool-cases (dict_has q n.ancestor_ids)) [
  | inl e ↦
      let (m, at, less) = ancestor_node n.depth q nodes n parent linked up (omega arith) e in
      let same : m ≡ n = cc (at, found) in absurd (omega (arith, less, ap (λ x. x.depth) same))
  | inr e ↦ e
]

count_eq :
    (fuel child p : ℕ) (nodes : Nodes) (n c : ResourceNode)
    → get_node p nodes ≡ ok n
    → get_node child nodes ≡ ok c
    → count_up (λ a b. a + b) (suc fuel) child (some p) nodes
      ≡ count_up
          (λ a b. a + b)
          fuel
          child
          n.parent
          (dict_set p (with_count (n.descendant_count + (c.descendant_count + 1)) n) nodes)
unfolding count_up
count_eq fuel child p nodes n c hp hc = rw (hp, hc) refl

changed_not : (k : ℕ) (o : Option ResourceNode) → changed (bump k false) o ≡ o
changed_not k none = refl
changed_not k (some n) = refl

-- One node counted, and those above it.
up_step :
    (j p k : ℕ) (pn : ResourceNode) (nodes : Nodes) (after : Option ResourceNode) (above all : Bool)
    → dict_get p nodes ≡ some pn
    → (p ≡ j → above ≡ false)
    → all ≡ (p == j || above)
    → after ≡ changed (bump k above) (dict_get j (dict_set p (bump k true pn) nodes))
    → after ≡ changed (bump k all) (dict_get j nodes)
up_step j p k pn nodes after above all found not_above one h = elim (Bool-cases (p == j)) [
  | inl e ↦
      let z : p ≡ j = (==_iff p j).0 e in
      let a = not_above z in
      let b : all ≡ true = ground (arith, one, e) in
      let set : dict_get j (dict_set p (bump k true pn) nodes) ≡ some (bump k true pn) =
        get-set p j (bump k true pn) nodes ∙ rw e refl in
      let at : dict_get j nodes ≡ some pn = ap (λ i. dict_get i nodes) (sym z) ∙ found in
      h
      ∙ ap (λ x. changed (bump k x) (dict_get j (dict_set p (bump k true pn) nodes))) a
      ∙ changed_not k (dict_get j (dict_set p (bump k true pn) nodes))
      ∙ set
      ∙ sym (ap (λ o. changed (bump k true) o) at)
      ∙ sym (ap (λ x. changed (bump k x) (dict_get j nodes)) b)
  | inr e ↦
      let b : above ≡ all = ground (arith, one, e) in
      let set : dict_get j (dict_set p (bump k true pn) nodes) ≡ dict_get j nodes =
        get-set p j (bump k true pn) nodes ∙ rw e refl in
      h ∙ ap (λ o. changed (bump k above) o) set ∙ ap (λ x. changed (bump k x) (dict_get j nodes)) b
]

returns {ℓ} : {A : Type ℓ} {x y : A} → ok x ≡ ok y → x ≡ y
returns {x = x} e = ap (λ r. elim r [ ok v ↦ v | err _ ↦ x ]) e

-- Exactly the counts of the ancestors grow.
pub count_up_exact :
    (fuel child : ℕ) (nodes nodes' : Nodes) (n c : ResourceNode) (parent : Option ℕ)
    → Linked nodes
    → dict_get child nodes ≡ some c
    → ParentLinked nodes n parent
    → dict_has child n.ancestor_ids ≡ false
    → count_up (λ a b. a + b) fuel child parent nodes ≡ ok nodes'
    → (j : ℕ)
    → dict_get j nodes'
      ≡ changed (bump (c.descendant_count + 1) (dict_has j n.ancestor_ids)) (dict_get j nodes)
unfolding Linked count_up dict_has
count_up_exact fuel child nodes nodes' n c none linked hc (no_ids, top) apart w j =
    ap (dict_get j) (sym (returns w))
    ∙ sym (changed_not (c.descendant_count + 1) (dict_get j nodes))
    ∙ ap
        (λ o.
          changed (bump (c.descendant_count + 1) (elim o [ none ↦ false | some _ ↦ true ]))
            (dict_get j nodes))
        (sym (no_ids j))
count_up_exact zero child nodes nodes' n c (some p) linked hc up apart w j = absurd (cc w)
count_up_exact (suc fuel) child nodes nodes' n c (some p) linked hc (pn, found, deeper, ids) apart w
      j =
    let k = c.descendant_count + 1 in
    let counted = bump k true pn in
    let nodes1 = dict_set p counted nodes in
    let (own, up) = linked p pn found in
    let agree = Agree-set p pn counted nodes found refl in
    let above = λ (q : ℕ).
      has_same q n.ancestor_ids (child_ancestors pn) (ids q)
      ∙ has-child_ancestors q pn
      ∙ ap (λ i. i == q || dict_has q pn.ancestor_ids) own in
    let split = sym (above child) ∙ apart in
    let other : (p == child) ≡ false = ground (arith, split) in
    let hc1 : dict_get child nodes1 ≡ some c = get-set p child counted nodes ∙ rw other hc in
    let w1 =
      sym (
        count_eq fuel child p nodes pn c (get_node-found p nodes pn found)
          (get_node-found child nodes c hc))
      ∙ w in
    let rest =
      count_up_exact fuel child nodes1 nodes' pn c pn.parent
        (Agree-Linked nodes nodes1 agree linked) hc1
        (ParentLinked-bare nodes nodes1 pn pn pn.parent agree refl up) (ground (arith, split)) w1
        j in
    up_step j p k pn nodes (dict_get j nodes') (dict_has j pn.ancestor_ids)
      (dict_has j n.ancestor_ids) found
      (λ z.
        subst (λ i. dict_has i pn.ancestor_ids ≡ false) z
          (not_own_ancestor p nodes pn pn.parent linked up found))
      (above j) rest

-- an ordered set with a key, which goes to the end if it is new
abbrev pub appended : ℕ → List ℕ → List ℕ
appended k ks = if any (λ j. j == k) ks then ks else ks ++ (k ∷ [])

add_key_lem : (k : ℕ) (ks : List ℕ) → add_key k ks ≡ appended k ks
unfolding add_key
add_key_lem k [] = refl
add_key_lem k (j ∷ ks) = ground (arith, add_key_lem k ks)

-- a node above a new child: it counts one node more, and the parent has the child as well
abbrev pub grow : ℕ → Bool → Bool → ResourceNode → ResourceNode
grow child is_parent above n =
    with_children (if is_parent then appended child n.children else n.children)
      (bump 1 (is_parent || above) n)

-- Of the nodes other than a new child, exactly those above it count one more, only its parent has it
-- as a child as well, and nothing else changes.
abbrev pub Grown : ℕ → ℕ → ResourceNode → Nodes → Nodes → Type 0
Grown child p pn nodes nodes' =
    (j : ℕ)
    → (child == j) ≡ false
    → dict_get j nodes'
      ≡ changed (grow child (p == j) (dict_has j pn.ancestor_ids)) (dict_get j nodes)

grow_not :
    (child : ℕ) (above : Bool) (o : Option ResourceNode)
    → changed (bump 1 above) o ≡ changed (grow child false above) o
grow_not child above none = refl
grow_not child above (some n) = refl

parent_step :
    (j p child : ℕ) (pn n' : ResourceNode) (counted nodes : Nodes) (above : Bool)
    → dict_get p nodes ≡ some pn
    → n' ≡ bump 1 true pn
    → dict_get j counted ≡ changed (bump 1 (p == j || above)) (dict_get j nodes)
    → dict_get j (dict_set p (with_children (add_key child n'.children) n') counted)
      ≡ changed (grow child (p == j) above) (dict_get j nodes)
parent_step j p child pn n' counted nodes above found same h =
    let next = with_children (add_key child n'.children) n' in
    elim (Bool-cases (p == j)) [
      | inl e ↦
          let z : p ≡ j = (==_iff p j).0 e in
          let at : dict_get j nodes ≡ some pn = ap (λ i. dict_get i nodes) (sym z) ∙ found in
          get-set p j next counted
          ∙ rw e (
              ap (λ m. some (with_children (add_key child m.children) m)) same
              ∙ ap (λ ks. some (with_children ks (bump 1 true pn))) (add_key_lem child pn.children)
              ∙ sym (ap (changed (grow child true above)) at))
      | inr e ↦ get-set p j next counted ∙ rw e (h ∙ rw e (grow_not child above (dict_get j nodes)))
    ]

-- what `add_child` leaves, once the counts are made
pub add_child-Grown :
    (fuel p child : ℕ) (nodes nodes1 counted : Nodes) (pn lc n' : ResourceNode)
    → Linked nodes1
    → dict_get p nodes ≡ some pn
    → pn.model.id ≡ p
    → dict_get p nodes1 ≡ some pn
    → dict_get child nodes1 ≡ some lc
    → ParentLinked nodes1 lc (some p)
    → ((j : ℕ) → (child == j) ≡ false → dict_get j nodes1 ≡ dict_get j nodes)
    → lc.ancestor_ids ≡ child_ancestors pn
    → lc.descendant_count ≡ 0
    → count_up (λ a b. a + b) fuel child (some p) nodes1 ≡ ok counted
    → dict_get p counted ≡ some n'
    → Grown child p pn nodes (dict_set p (with_children (add_key child n'.children) n') counted)
      × (dict_get child (dict_set p (with_children (add_key child n'.children) n') counted)
          ≡ some lc)
add_child-Grown fuel p child nodes nodes1 counted pn lc n' linked found own found1 hc up others ids
      fresh w hn =
    let none_own = not_own_ancestor child nodes1 lc (some p) linked up hc in
    let exact = count_up_exact fuel child nodes1 counted lc lc (some p) linked hc up none_own w in
    let above = λ (q : ℕ).
      ap (dict_has q) ids
      ∙ has-child_ancestors q pn
      ∙ ap (λ i. i == q || dict_has q pn.ancestor_ids) own in
    let one : lc.descendant_count + 1 ≡ 1 = omega (arith, fresh) in
    let next = with_children (add_key child n'.children) n' in
    let exact1 = λ (j : ℕ).
      exact j
      ∙ ap (λ k. changed (bump k (dict_has j lc.ancestor_ids)) (dict_get j nodes1)) one
      ∙ ap (λ b. changed (bump 1 b) (dict_get j nodes1)) (above j) in
    let split = sym (above child) ∙ none_own in
    let other : (p == child) ≡ false = ground (arith, split) in
    let here : (p == p) ≡ true = ground arith in
    let pn_counted : some n' ≡ some (bump 1 true pn) = sym hn ∙ exact1 p ∙ rw (here, found1) refl in
    (
      λ j ne.
          parent_step j p child pn n' counted nodes (dict_has j pn.ancestor_ids) found
            (ap (λ o. elim o [ none ↦ n' | some x ↦ x ]) pn_counted)
            (exact1 j ∙ ap (changed (bump 1 (p == j || dict_has j pn.ancestor_ids))) (others j ne)),
      get-set p child next counted
          ∙ rw other (
              exact child
              ∙ ap
                  (λ o. changed (bump (lc.descendant_count + 1) (dict_has child lc.ancestor_ids)) o)
                  hc
              ∙ ap (λ b. some (bump (lc.descendant_count + 1) b lc)) none_own),
    )
