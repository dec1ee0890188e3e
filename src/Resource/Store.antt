-- ===== src/Resource/Store.antt =====
-- ofrak_core/ofrak/service/resource_service.py: the state of `ResourceService`, with the operations
-- that create, move and delete resources and those that look them up. The tags that a tag stands
-- for, the indexed attributes that depend on another one, and their values are parameters: Python
-- reads them off the classes. `levels` bounds a chain of dependent attributes.
pub mod Create
use ofrak.Resource.Node.{
  ResourceModel, ResourceNode, Nodes, with_parent, new_node, add_key, del_key, add_child,
  remove_child, each, collect, walk_ancestors,
}
use ofrak.Resource.Index.{AttributeIndex, add_resource_attribute, remove_resource_attribute}
use ofrak.Prelude.{
  ℕ, zero, suc, ◌+◌, Bool, true, false, ◌||◌, Option, none, some, List, [], ◌∷◌, ◌++◌, map, Result,
  ok, err, Error, ◌>>=◌, ◌==◌, if◌then◌else◌, any, length, Dict, dict_get, dict_set, dict_del,
  dict_has, map_result,
}

pub record ResourceService : Type 0 where
  pub store : Nodes
  pub by_data_id : Dict ℕ
  pub attribute_indexes : Dict AttributeIndex
  pub tag_indexes : Dict (List ℕ)
  -- a root that was deleted is still held, as an object outside the store
  pub root_resources : Dict (Option ResourceNode)

abbrev pub with_store : Nodes → ResourceService → ResourceService
with_store store s = record {
  store = store;
  by_data_id = s.by_data_id;
  attribute_indexes = s.attribute_indexes;
  tag_indexes = s.tag_indexes;
  root_resources = s.root_resources;
}

abbrev pub with_tag_indexes : Dict (List ℕ) → ResourceService → ResourceService
with_tag_indexes tag_indexes s = record {
  store = s.store;
  by_data_id = s.by_data_id;
  attribute_indexes = s.attribute_indexes;
  tag_indexes = tag_indexes;
  root_resources = s.root_resources;
}

abbrev pub with_attribute_indexes : Dict AttributeIndex → ResourceService → ResourceService
with_attribute_indexes attribute_indexes s = record {
  store = s.store;
  by_data_id = s.by_data_id;
  attribute_indexes = attribute_indexes;
  tag_indexes = s.tag_indexes;
  root_resources = s.root_resources;
}

unfoldable pub new_resource_service : ResourceService
new_resource_service = record {
  store = [];
  by_data_id = [];
  attribute_indexes = [];
  tag_indexes = [];
  root_resources = [];
}

-- `self._tag_indexes[tag]`, a `defaultdict(set)`
unfoldable pub tag_index : ℕ → ResourceService → List ℕ
tag_index tag s = elim (dict_get tag s.tag_indexes) [ none ↦ [] | some ids ↦ ids ]

-- `self._attribute_indexes[attribute]`, which makes an empty index for a new attribute
unfoldable pub attribute_index : ℕ → ResourceService → AttributeIndex
attribute_index attribute s = elim (dict_get attribute s.attribute_indexes) [
  | none ↦ record { index = []; values_by_node_id = [] }
  | some ix ↦ ix
]

unfoldable pub find_node : ℕ → ResourceService → Result ResourceNode
find_node id s = elim (dict_get id s.store) [ none ↦ err Error.not_found | some n ↦ ok n ]

unfoldable pub get_root_resources : ResourceService → Result (List ResourceModel)
get_root_resources s =
    map_result (λ e. elim e.1 [ some n ↦ ok n.model | none ↦ (do n ← find_node e.0 s; ok n.model) ])
      s.root_resources

unfoldable pub verify_ids_exist : List ℕ → ResourceService → List Bool
verify_ids_exist ids s = map (λ id. dict_has id s.store) ids

unfoldable pub get_by_data_ids : List ℕ → ResourceService → Result (List ResourceModel)
get_by_data_ids ids s =
    map_result
      (λ data_id. elim (dict_get data_id s.by_data_id) [
        | none ↦ err Error.not_found
        | some id ↦ (do n ← find_node id s; ok n.model)
      ])
      ids

unfoldable pub get_by_id : ℕ → ResourceService → Result ResourceModel
get_by_id id s = do n ← find_node id s; ok n.model

unfoldable pub get_by_ids : List ℕ → ResourceService → Result (List ResourceModel)
get_by_ids ids s = map_result (λ id. get_by_id id s) ids

unfoldable pub get_depths : List ℕ → ResourceService → Result (List ℕ)
get_depths ids s = map_result (λ id. do n ← find_node id s; ok n.depth) ids

-- a root that leaves the store stays among the roots
unfoldable pub keep_root :
    ℕ → ResourceNode → Dict (Option ResourceNode) → Dict (Option ResourceNode)
keep_root id n roots = elim (dict_get id roots) [
  | none ↦ roots
  | some (some _) ↦ roots
  | some none ↦ dict_set id (some n) roots
]

-- `rebase_resource`
unfoldable pub rebase_resource : ℕ → ℕ → ResourceService → Result ResourceService
rebase_resource id new_parent_id s = do
  n ← find_node id s
  parent ← find_node new_parent_id s
  removed ← elim n.parent [ none ↦ ok s.store | some former ↦ remove_child former id s.store ]
  added ← add_child new_parent_id id removed
  moved ← find_node id (with_store added s)
  ok (with_store (dict_set id (with_parent (some new_parent_id) moved) added) s)

-- the node of the parent that a model names
unfoldable pub parent_node : Option ℕ → ResourceService → Result (Option ResourceNode)
parent_node none s = ok none
parent_node (some parent_id) s = do n ← find_node parent_id s; ok (some n)

-- the new node in the store, under its parent if it has one
unfoldable pub store_node : ResourceModel → ResourceService → Result Nodes
store_node model s = elim model.parent_id [
  | none ↦ ok (dict_set model.id (new_node model) s.store)
  | some parent ↦
      add_child parent model.id
        (dict_set model.id (with_parent (some parent) (new_node model)) s.store)
]

-- the stores other than the indexes, with a new node
unfoldable pub register_node : ResourceModel → Nodes → ResourceService → ResourceService
register_node model nodes s = record {
  store = nodes;
  by_data_id = elim model.data_id [
    | none ↦ s.by_data_id
    | some data_id ↦ dict_set data_id model.id s.by_data_id
  ];
  attribute_indexes = s.attribute_indexes;
  tag_indexes = s.tag_indexes;
  root_resources = elim model.parent_id [
    | none ↦ dict_set model.id none s.root_resources
    | some _ ↦ s.root_resources
  ];
}

-- `del self._resource_store[id]`, and the entry of its data
unfoldable pub forget_node : ResourceModel → ResourceService → Result ResourceService
forget_node model s = do
  n ← elim (dict_get model.id s.store) [ none ↦ err Error.key_error | some n ↦ ok n ]
  by_data_id ← elim model.data_id [
    | none ↦ ok s.by_data_id
    | some data_id ↦ elim (dict_get data_id s.by_data_id) [
      | none ↦ err Error.key_error
      | some _ ↦ ok (dict_del data_id s.by_data_id)
    ]
  ]
  ok (record {
    store = dict_del model.id s.store;
    by_data_id = by_data_id;
    attribute_indexes = s.attribute_indexes;
    tag_indexes = s.tag_indexes;
    root_resources = keep_root model.id n s.root_resources;
  })

-- a node in the index of one tag
unfoldable pub index_tag : ℕ → ℕ → ResourceService → Result ResourceService
index_tag id tag s =
    ok (with_tag_indexes (dict_set tag (add_key id (tag_index tag s)) s.tag_indexes) s)

unfoldable pub unindex_tag : ℕ → List ℕ → ℕ → ResourceService → Result ResourceService
unindex_tag id blacklist tag s = if any (λ b. b == tag) blacklist then ok s else (do
  ids ← del_key id (tag_index tag s)
  ok (with_tag_indexes (dict_set tag ids s.tag_indexes) s))

module _ (tag_classes : ℕ → List ℕ) (used_by : ℕ → List ℕ) (value_of : ℕ → ResourceModel → Option ℕ)
    (levels : ℕ) where
  unfoldable pub add_resource_tag_to_index : ℕ → ℕ → ResourceService → Result ResourceService
  add_resource_tag_to_index tag id s = each (index_tag id) (tag_classes tag) s

  unfoldable pub remove_resource_tag_from_index :
      ℕ → ℕ → List ℕ → ResourceService → Result ResourceService
  remove_resource_tag_from_index tag id blacklist s =
      each (unindex_tag id blacklist) (tag_classes tag) s

  unfoldable pub add_resource_attribute_to_index :
      ℕ → ℕ → Option ℕ → ResourceModel → ResourceService → Result ResourceService
  add_resource_attribute_to_index fuel attribute none model s = ok s
  add_resource_attribute_to_index zero attribute (some value) model s = err Error.out_of_fuel
  add_resource_attribute_to_index (suc fuel) attribute (some value) model s = do
    ix ← add_resource_attribute value model.id (attribute_index attribute s)
    each (λ a. add_resource_attribute_to_index fuel a (value_of a model) model) (used_by attribute)
        (with_attribute_indexes (dict_set attribute ix s.attribute_indexes) s)

  unfoldable pub remove_resource_attribute_from_index :
      ℕ → ℕ → ℕ → ResourceService → Result ResourceService
  remove_resource_attribute_from_index zero attribute id s = err Error.out_of_fuel
  remove_resource_attribute_from_index (suc fuel) attribute id s = do
    ix ← remove_resource_attribute id (attribute_index attribute s)
    each (λ a. remove_resource_attribute_from_index fuel a id) (used_by attribute)
        (with_attribute_indexes (dict_set attribute ix s.attribute_indexes) s)

  unfoldable pub create : ResourceModel → ResourceService → Result ResourceService
  create model s = if dict_has model.id s.store then err Error.already_exists else (do
    parent ← parent_node model.parent_id s
    nodes ← store_node model s
    tagged ←
        each (λ tag. add_resource_tag_to_index tag model.id) model.tags
          (register_node model nodes s)
    each (λ e. add_resource_attribute_to_index levels e.0 e.1 model) model.index_values tagged)

  -- the indexes and stores, without a node
  unfoldable pub remove_tags : ℕ → List ℕ → List ℕ → ResourceService → Result ResourceService
  remove_tags id [] blacklist s = ok s
  remove_tags id (tag ∷ tags) blacklist s = do
    s' ← remove_resource_tag_from_index tag id blacklist s
    remove_tags id tags (tag_classes tag ++ blacklist) s'

  unfoldable pub forget : ResourceModel → ResourceService → Result ResourceService
  forget model s = do
    unindexed ←
        each (λ e. remove_resource_attribute_from_index levels e.0 model.id) model.index_values s
    untagged ← remove_tags model.id model.tags [] unindexed
    forget_node model untagged

  -- `_delete_resource_helper`: the subtree of a node, its own model last
  unfoldable pub delete_resource_helper :
      ℕ → ℕ → List ResourceModel × ResourceService → Result (List ResourceModel × ResourceService)
  delete_resource_helper zero id state = err Error.out_of_fuel
  delete_resource_helper (suc fuel) id (deleted, s) = do
    n ← elim (dict_get id s.store) [ none ↦ err Error.key_error | some n ↦ ok n ]
    (below, s') ← each (delete_resource_helper fuel) n.children (deleted, s)
    s'' ← forget n.model s'
    ok (below ++ (n.model ∷ []), s'')

  unfoldable pub delete_one :
      ℕ → List ResourceModel × ResourceService → Result (List ResourceModel × ResourceService)
  delete_one id (deleted, s) = elim (dict_get id s.store) [
    | none ↦ ok (deleted, s)
    | some n ↦ (do
      nodes ← elim n.parent [ none ↦ ok s.store | some former ↦ remove_child former id s.store ]
      delete_resource_helper (suc (length nodes)) id (deleted, with_store nodes s))
  ]

  unfoldable pub delete_resource :
      ℕ → ResourceService → Result (List ResourceModel × ResourceService)
  delete_resource id s = delete_one id ([], s)

  unfoldable pub delete_resources :
      List ℕ → ResourceService → Result (List ResourceModel × ResourceService)
  delete_resources ids s = each delete_one ids ([], s)
