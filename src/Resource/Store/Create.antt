-- ===== src/Resource/Store/Create.antt =====
-- `create`: what it refuses, and the tree that it leaves.
use ofrak.Resource.Node.{ResourceModel, ResourceNode, Nodes, new_node, with_parent, each}
use ofrak.Resource.Node.Chain.{Linked}
use ofrak.Resource.Node.Counts.{Grown}
use ofrak.Resource.Node.Linked.{Linked-With, add_child-Linked}
use ofrak.Resource.Store.{
  ResourceService, find_node, parent_node, store_node, register_node, create,
  add_resource_tag_to_index, index_tag, attribute_index, with_attribute_indexes,
  add_resource_attribute_to_index,
}
use ofrak.Resource.Index.{add_resource_attribute}
use ofrak.Prelude.{
  ◌>>=◌, ℕ, zero, suc, ◌≡◌, refl, sym, ap, ◌∙◌, ◌==◌, true, false, Option, none, some, List, [],
  ◌∷◌, Result, ok, err, Error, dict_get, dict_set, dict_has, get-set, get-set_self, >>=-eq-ok,
}

-- What each round keeps, the loop keeps.
each-keeps {ℓ κ μ} :
    {A : Type ℓ} {S : Type κ} {X : Type μ} (part : S → X) (f : A → S → Result S)
    → ((x : A) (s s' : S) → f x s ≡ ok s' → part s' ≡ part s)
    → (xs : List A) (s s' : S) → each f xs s ≡ ok s'
    → part s' ≡ part s
unfolding each
each-keeps part f keeps [] s s' e = ap part (ap (λ r. elim r [ ok v ↦ v | err _ ↦ s ]) (sym e))
each-keeps part f keeps (x ∷ xs) s s' e =
    let (t, w, rest) = >>=-eq-ok (f x s) (λ t. each f xs t) e in
    each-keeps part f keeps xs t s' rest ∙ keeps x s t w

-- a node for the parent, where the model names one
abbrev pub ParentFound : Option ℕ → Nodes → Type 0
ParentFound none nodes = Unit
ParentFound (some p) nodes = (n : ResourceNode) × (dict_get p nodes ≡ some n)

-- where a new node stands: alone, or among the children of its parent, which counts it as all nodes
-- above do
abbrev pub StoredUnder : ℕ → Option ℕ → Nodes → Nodes → Type 0
StoredUnder id none store nodes = (j : ℕ) → (id == j) ≡ false → dict_get j nodes ≡ dict_get j store
StoredUnder id (some p) store nodes =
    (pn : ResourceNode) × (dict_get p store ≡ some pn) × Grown id p pn store nodes

store_node-Linked :
    (model : ResourceModel) (parent : Option ℕ) (s : ResourceService)
    → model.parent_id ≡ parent
    → Linked s.store
    → dict_get model.id s.store ≡ none
    → ParentFound parent s.store
    → (nodes : Nodes) × (n : ResourceNode) × (store_node model s ≡ ok nodes)
      × Linked nodes
      × (dict_get model.id nodes ≡ some n)
      × (n.parent ≡ parent)
      × (n.children ≡ [])
      × (n.descendant_count ≡ 0)
      × StoredUnder model.id parent s.store nodes
unfolding store_node new_node dict_get
store_node-Linked model none s given linked new found =
    let n = new_node model in
    let nodes = dict_set model.id n s.store in
    (
      nodes,
      n,
      rw given refl,
      Linked-With model.id n s.store nodes (λ j. get-set model.id j n s.store) new refl
          ((λ q. refl), refl) linked,
      get-set_self model.id n s.store,
      refl,
      refl,
      refl,
      λ j ne. get-set model.id j n s.store ∙ rw ne refl,
    )
store_node-Linked model (some p) s given linked new (pn, found) =
    let c = with_parent (some p) (new_node model) in
    let (nodes, n, w, linked', at, parent, depth, children, count, grown) =
      add_child-Linked s.store p model.id pn c linked new found refl refl refl in
    (nodes, n, rw given w, linked', at, parent, children, count, (pn, found, grown))

has_none : (id : ℕ) (s : ResourceService) → dict_get id s.store ≡ none → dict_has id s.store ≡ false
unfolding dict_has
has_none id s new = rw (new, dict_has) refl

parent_missing :
    (p : ℕ) (s : ResourceService)
    → dict_get p s.store ≡ none
    → parent_node (some p) s ≡ err Error.not_found
unfolding parent_node find_node
parent_missing p s missing = rw (missing, find_node) refl

parent_found :
    (parent : Option ℕ) (s : ResourceService)
    → ParentFound parent s.store
    → (n : Option ResourceNode) × (parent_node parent s ≡ ok n)
unfolding parent_node find_node
parent_found none s found = (none, refl)
parent_found (some p) s (n, found) = (some n, rw (found, find_node) refl)

returned {ℓ} : {A : Type ℓ} {x y : A} → ok x ≡ ok y → x ≡ y
returned {x = x} e = ap (λ r. elim r [ ok v ↦ v | err _ ↦ x ]) e

module _ (tag_classes : ℕ → List ℕ) (used_by : ℕ → List ℕ) (value_of : ℕ → ResourceModel → Option ℕ)
    (levels : ℕ) where
  tag_keeps_store :
      (id tag : ℕ) (s s' : ResourceService) → index_tag id tag s ≡ ok s' → s'.store ≡ s.store
  unfolding index_tag
  tag_keeps_store id tag s s' e = sym (ap (λ t. t.store) (returned e))

  tags_keep_store :
      (id tag : ℕ) (s s' : ResourceService)
      → add_resource_tag_to_index tag_classes used_by value_of levels tag id s ≡ ok s'
      → s'.store ≡ s.store
  unfolding add_resource_tag_to_index
  tags_keep_store id tag s s' e =
      each-keeps (λ t. t.store) (index_tag id) (tag_keeps_store id) (tag_classes tag) s s' e

  attribute_keeps_store :
      (fuel attribute : ℕ) (value : Option ℕ) (model : ResourceModel) (s s' : ResourceService)
      → add_resource_attribute_to_index tag_classes used_by value_of levels fuel attribute value
          model s
        ≡ ok s'
      → s'.store ≡ s.store
  unfolding add_resource_attribute_to_index
  attribute_keeps_store fuel attribute none model s s' e = sym (ap (λ t. t.store) (returned e))
  attribute_keeps_store zero attribute (some value) model s s' e = absurd cc
  attribute_keeps_store (suc fuel) attribute (some value) model s s' e =
      let (ix, w, rest) =
        >>=-eq-ok (add_resource_attribute value model.id (attribute_index attribute s))
          (λ ix.
            each
              (λ a.
                add_resource_attribute_to_index tag_classes used_by value_of levels fuel a
                  (value_of a model) model)
              (used_by attribute)
              (with_attribute_indexes (dict_set attribute ix s.attribute_indexes) s))
          e in
      each-keeps (λ t. t.store)
        (λ a.
          add_resource_attribute_to_index tag_classes used_by value_of levels fuel a
            (value_of a model) model)
        (λ a. attribute_keeps_store fuel a (value_of a model) model) (used_by attribute)
        (with_attribute_indexes (dict_set attribute ix s.attribute_indexes) s) s' rest

  -- the indexes, once the node is stored
  index_node : ResourceModel → Nodes → ResourceService → Result ResourceService
  index_node model nodes s = do
    tagged ←
        each (λ tag. add_resource_tag_to_index tag_classes used_by value_of levels tag model.id)
          model.tags (register_node model nodes s)
    each
        (λ e.
          add_resource_attribute_to_index tag_classes used_by value_of levels levels e.0 e.1 model)
        model.index_values tagged

  index_node_lem :
      (model : ResourceModel) (nodes : Nodes) (s s' : ResourceService)
      → index_node model nodes s ≡ ok s'
      → s'.store ≡ nodes
  unfolding index_node register_node
  index_node_lem model nodes s s' e =
      let (tagged, w, rest) =
        >>=-eq-ok
          (each (λ tag. add_resource_tag_to_index tag_classes used_by value_of levels tag model.id)
            model.tags (register_node model nodes s))
          (λ tagged.
            each
              (λ e.
                add_resource_attribute_to_index tag_classes used_by value_of levels levels e.0 e.1
                  model)
              model.index_values tagged)
          e in
      each-keeps (λ t. t.store)
        (λ e.
          add_resource_attribute_to_index tag_classes used_by value_of levels levels e.0 e.1 model)
        (λ e. attribute_keeps_store levels e.0 e.1 model) model.index_values tagged s' rest
      ∙ each-keeps (λ t. t.store)
          (λ tag. add_resource_tag_to_index tag_classes used_by value_of levels tag model.id)
          (λ tag. tags_keep_store model.id tag) model.tags (register_node model nodes s) tagged w

  create_lem :
      (model : ResourceModel) (parent : Option ResourceNode) (nodes : Nodes) (s : ResourceService)
      → dict_has model.id s.store ≡ false
      → parent_node model.parent_id s ≡ ok parent
      → store_node model s ≡ ok nodes
      → create tag_classes used_by value_of levels model s ≡ index_node model nodes s
  unfolding create index_node
  create_lem model parent nodes s new found w = rw (new, found, w) refl

  create_refused :
      (model : ResourceModel) (s : ResourceService)
      → (dict_has model.id s.store ≡ true
          → create tag_classes used_by value_of levels model s ≡ err Error.already_exists)
        × (dict_has model.id s.store ≡ false
            → parent_node model.parent_id s ≡ err Error.not_found
            → create tag_classes used_by value_of levels model s ≡ err Error.not_found)
  unfolding create
  create_refused model s = (λ taken. rw taken refl, λ new missing. rw (new, missing) refl)

  -- A resource whose id is taken is refused, and so is one whose parent is not there. Otherwise,
  -- from a store in which the ancestors and depths of all nodes agree with their parents', the node
  -- is stored with its parent, no children and the count 0, and the ancestors and depths agree again.
  -- Of the other nodes, the parent has the new one as its last child, if it did not have it before,
  -- the parent and its ancestors count one descendant more, and nothing else changes; without a
  -- parent no other node changes. The service that `create` returns, if the indexes take the tags
  -- and attributes, has that store.
  pub create-Linked :
      (model : ResourceModel) (s : ResourceService)
      → Linked s.store
      → (dict_has model.id s.store ≡ true
          → create tag_classes used_by value_of levels model s ≡ err Error.already_exists)
        × ((p : ℕ)
            → dict_get model.id s.store ≡ none
            → model.parent_id ≡ some p
            → dict_get p s.store ≡ none
            → create tag_classes used_by value_of levels model s ≡ err Error.not_found)
        × (dict_get model.id s.store ≡ none
            → ParentFound model.parent_id s.store
            → (nodes : Nodes) × (n : ResourceNode) × (store_node model s ≡ ok nodes)
              × Linked nodes
              × (dict_get model.id nodes ≡ some n)
              × (n.parent ≡ model.parent_id)
              × (n.children ≡ [])
              × (n.descendant_count ≡ 0)
              × StoredUnder model.id model.parent_id s.store nodes
              × ((s' : ResourceService)
                  → create tag_classes used_by value_of levels model s ≡ ok s'
                  → s'.store ≡ nodes))
  create-Linked model s linked = (
    (create_refused model s).0,
    λ p new given missing.
        (create_refused model s).1 (has_none model.id s new)
          (ap (λ o. parent_node o s) given ∙ parent_missing p s missing),
    λ new found.
        let (nodes, n, w, linked', at, parent, children, count, under) =
          store_node-Linked model model.parent_id s refl linked new found in
        (
          nodes,
          n,
          w,
          linked',
          at,
          parent,
          children,
          count,
          under,
          λ s' e. index_node_lem model nodes s s' (
              sym (
                create_lem model (parent_found model.parent_id s found).0 nodes s
                  (has_none model.id s new) (parent_found model.parent_id s found).1 w)
              ∙ e),
        ),
  )
