-- ===== src/Resource/Node.antt =====
-- ofrak_core/ofrak/service/resource_service.py: `ResourceNode`, the tree of resources. A node is an
-- object with the id of its model, so that the nodes are a heap by id; a parent and a child are
-- references into it. A negative `max_depth` is `none`.
pub mod Chain
pub mod Agree
pub mod Counts
pub mod Linked
use ofrak.Prelude.{
  ℕ, zero, suc, ◌+◌, ◌-◌, Bool, true, false, ◌&&◌, Option, none, some, List, [], ◌∷◌, ◌++◌, map,
  Result, ok, err, Error, ◌>>=◌, leb, ◌==◌, if◌then◌else◌, any, length, Dict, dict_get, dict_set,
  dict_del,
}

-- What the service reads of a model: the tags, and the values of its indexed attributes.
pub record ResourceModel : Type 0 where
  pub id : ℕ
  pub data_id : Option ℕ
  pub parent_id : Option ℕ
  pub tags : List ℕ
  pub index_values : Dict (Option ℕ)

-- The children are a `dict` that serves as an ordered set.
pub record ResourceNode : Type 0 where
  pub model : ResourceModel
  pub parent : Option ℕ
  pub children : List ℕ
  pub ancestor_ids : Dict ℕ
  pub descendant_count : ℕ
  pub depth : ℕ

abbrev pub Nodes : Type 0
Nodes = Dict ResourceNode

unfoldable pub get_node : ℕ → Nodes → Result ResourceNode
get_node id nodes = elim (dict_get id nodes) [ none ↦ err Error.key_error | some n ↦ ok n ]

abbrev pub with_count : ℕ → ResourceNode → ResourceNode
with_count count n = record {
  model = n.model;
  parent = n.parent;
  children = n.children;
  ancestor_ids = n.ancestor_ids;
  descendant_count = count;
  depth = n.depth;
}

abbrev pub with_children : List ℕ → ResourceNode → ResourceNode
with_children children n = record {
  model = n.model;
  parent = n.parent;
  children = children;
  ancestor_ids = n.ancestor_ids;
  descendant_count = n.descendant_count;
  depth = n.depth;
}

abbrev pub with_ancestors : Dict ℕ → ℕ → ResourceNode → ResourceNode
with_ancestors ancestor_ids depth n = record {
  model = n.model;
  parent = n.parent;
  children = n.children;
  ancestor_ids = ancestor_ids;
  descendant_count = n.descendant_count;
  depth = depth;
}

abbrev pub with_parent : Option ℕ → ResourceNode → ResourceNode
with_parent parent n = record {
  model = record {
    id = n.model.id;
    data_id = n.model.data_id;
    parent_id = parent;
    tags = n.model.tags;
    index_values = n.model.index_values;
  };
  parent = parent;
  children = n.children;
  ancestor_ids = n.ancestor_ids;
  descendant_count = n.descendant_count;
  depth = n.depth;
}

-- `self.__init__` before the node is added to its parent
unfoldable pub new_node : ResourceModel → ResourceNode
new_node model = record {
  model = model;
  parent = none;
  children = [];
  ancestor_ids = [];
  descendant_count = 0;
  depth = 0;
}

-- the ancestors of a child: those of the parent, one step further away, and the parent
unfoldable pub child_ancestors : ResourceNode → Dict ℕ
child_ancestors n = dict_set n.model.id 1 (map (λ e. (e.0, e.1 + 1)) n.ancestor_ids)

-- `while parent is not None`, which changes the counts by that of the child
unfoldable pub count_up : (ℕ → ℕ → ℕ) → ℕ → ℕ → Option ℕ → Nodes → Result Nodes
count_up change fuel child none nodes = ok nodes
count_up change zero child (some id) nodes = err Error.out_of_fuel
count_up change (suc fuel) child (some id) nodes = do
  n ← get_node id nodes
  c ← get_node child nodes
  count_up change fuel child n.parent
      (dict_set id (with_count (change n.descendant_count (c.descendant_count + 1)) n) nodes)

-- a key of an ordered set
unfoldable pub add_key : ℕ → List ℕ → List ℕ
add_key k [] = k ∷ []
add_key k (j ∷ ks) = if j == k then j ∷ ks else j ∷ add_key k ks

unfoldable pub del_key : ℕ → List ℕ → Result (List ℕ)
del_key k [] = err Error.key_error
del_key k (j ∷ ks) = let rest = del_key k ks in if j == k then ok ks else (do r ← rest; ok (j ∷ r))

unfoldable pub add_child : ℕ → ℕ → Nodes → Result Nodes
add_child id child nodes = do
  n ← get_node id nodes
  c ← get_node child nodes
  counted ←
      count_up (λ a b. a + b) (suc (length nodes + n.depth)) child (some id)
        (dict_set child (with_ancestors (child_ancestors n) (n.depth + 1) c) nodes)
  n' ← get_node id counted
  ok (dict_set id (with_children (add_key child n'.children) n') counted)

-- `for x in xs`, with a state that each round changes
unfoldable pub each {ℓ κ} : {A : Type ℓ} {S : Type κ} → (A → S → Result S) → List A → S → Result S
each f [] s = ok s
each f (x ∷ xs) s = do s' ← f x s; each f xs s'

-- `del d[k]`
unfoldable pub del_id : ℕ → Dict ℕ → Result (Dict ℕ)
del_id k d = elim (dict_get k d) [ none ↦ err Error.key_error | some _ ↦ ok (dict_del k d) ]

-- `remove_ancestor_ids`, down the tree
unfoldable pub remove_ancestor_ids : ℕ → List ℕ → ℕ → Nodes → Result Nodes
remove_ancestor_ids zero ids id nodes = err Error.out_of_fuel
remove_ancestor_ids (suc fuel) ids id nodes = do
  n ← get_node id nodes
  left ← each del_id ids n.ancestor_ids
  each (remove_ancestor_ids fuel ids) n.children (dict_set id (with_ancestors left n.depth n) nodes)

unfoldable pub remove_child : ℕ → ℕ → Nodes → Result Nodes
remove_child id child nodes = do
  n ← get_node id nodes
  children ← del_key child n.children
  counted ←
      count_up (λ a b. a - b) (suc (length nodes + n.depth)) child (some id)
        (dict_set id (with_children children n) nodes)
  c ← get_node child counted
  remove_ancestor_ids (suc (length nodes)) (map (λ e. e.0) c.ancestor_ids) child counted

unfoldable pub has_ancestor : ResourceNode → ℕ → Option ℕ → Bool → Bool
has_ancestor n id max_depth include_self =
    if include_self && id == n.model.id then true else elim (dict_get id n.ancestor_ids) [
      | none ↦ false
      | some ancestor_depth ↦ elim max_depth [
        | none ↦ true
        | some max_depth ↦ leb ancestor_depth max_depth
      ]
    ]

-- the parents, from one on
unfoldable pub walk_parents : ℕ → Option ℕ → Nodes → Result (List ℕ)
walk_parents fuel none nodes = ok []
walk_parents zero (some id) nodes = err Error.out_of_fuel
walk_parents (suc fuel) (some id) nodes = do
  n ← get_node id nodes
  rest ← walk_parents fuel n.parent nodes
  ok (id ∷ rest)

unfoldable pub walk_ancestors : ℕ → Bool → Nodes → Result (List ℕ)
walk_ancestors id include_self nodes = do
  n ← get_node id nodes
  parents ← walk_parents (length nodes + n.depth) n.parent nodes
  ok (if include_self then id ∷ parents else parents)

-- `yield from` for each element
unfoldable pub collect {ℓ κ} :
    {A : Type ℓ} {B : Type κ} → (A → Result (List B)) → List A → Result (List B)
collect f [] = ok []
collect f (x ∷ xs) = do ys ← f x; zs ← collect f xs; ok (ys ++ zs)

-- The depth that is still allowed goes down from `max_depth`.
unfoldable pub walk_descendants : ℕ → Bool → Option ℕ → ℕ → Nodes → Result (List ℕ)
walk_descendants zero include_self left id nodes = err Error.out_of_fuel
walk_descendants (suc fuel) include_self left id nodes = do
  n ← get_node id nodes
  below ← elim left [
    | none ↦ collect (λ child. walk_descendants fuel true none child nodes) n.children
    | some zero ↦ ok []
    | some (suc k) ↦ collect (λ child. walk_descendants fuel true (some k) child nodes) n.children
  ]
  ok (if include_self then id ∷ below else below)
