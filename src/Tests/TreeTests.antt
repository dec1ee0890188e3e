-- ===== src/Tests/TreeTests.antt =====
-- ofrak_core/ofrak/service/resource_service.py: runs of the resource service, and the theorems on
-- the tree of resources at concrete inputs.
use ofrak.Resource.Node.{
  Nodes, ResourceModel, ResourceNode, add_child, add_key, child_ancestors, collect, count_up,
  del_id, del_key, each, get_node, has_ancestor, new_node, remove_ancestor_ids, remove_child,
  walk_ancestors, walk_descendants, walk_parents,
}
use ofrak.Resource.Node.Chain.{Linked, has_ancestor_exact}
use ofrak.Resource.Node.Linked.{Linked-With}
use ofrak.Resource.Store.Create.{StoredUnder, ParentFound, create-Linked}
use ofrak.Resource.Filter.Tags.{
  member, has_others, others_indexing, walk_tag_or_exact, walk_tag_and_exact,
}
use ofrak.Resource.Store.{
  ResourceService, add_resource_attribute_to_index, add_resource_tag_to_index, attribute_index,
  create, delete_one, delete_resource, delete_resource_helper, delete_resources, find_node, forget,
  forget_node, get_by_data_ids, get_by_id, get_by_ids, get_depths, get_root_resources, index_tag,
  keep_root, new_resource_service, parent_node, rebase_resource, register_node,
  remove_resource_attribute_from_index, remove_resource_tag_from_index, remove_tags, store_node,
  tag_index, unindex_tag, verify_ids_exist,
}
use ofrak.Resource.Filter.{
  as_set, count_below, count_tag_and, get_attribute, get_match_count, has_tag, in_all_tags,
  in_some_tag, index_of, other_tags, passes, passes_all, ranges_of, reversed_ranges, sum_lengths,
  sum_tags, values_filter, walk_attribute, walk_filter, walk_main, walk_new, walk_ranges, walk_sort,
  walk_tag, walk_tag_and, walk_tag_or, yield_in_tags, yield_main,
}
use ofrak.Resource.Query.{
  cheaper, collect_models, create_aggregate, create_attribute_filter, create_attribute_filters,
  create_filters, create_range_filter, create_tag_and, create_tag_filter, create_tag_or, empty_sort,
  filter_at, filter_cost, get_ancestors_by_id, get_descendants_by_id, get_siblings_by_id,
  ignore_filter, include_root, keep_passing, limit_to, plan_filters, run_plan, same_attribute,
  sort_cost, sort_models, sorts_chosen, walk_chosen, walk_plan, with_values,
}
use ofrak.Resource.Index.{
  add_resource_attribute, compute_range, compute_value_range, nodes_reversed, range_filter,
  remove_entry, remove_resource_attribute, value_filter, walk,
}
use ofrak.Prelude.{
  get-set, any, count, take, length, All, ◌==◌, ◌≤◌, ◌*◌, dict_get, dict_set, dict_del, dict_has,
  sort_by, insert_by, ℕ, ◌≡◌, refl, true, false, none, some, Option, List, [], ◌∷◌, map, Result, ok,
  err, Error, ◌>>=◌, if◌then◌else◌,
}

-- Each tag stands for itself, and there are no attributes.
abbrev classes : ℕ → List ℕ
classes tag = tag ∷ []

abbrev no_dependents : ℕ → List ℕ
no_dependents a = []

abbrev no_value : ℕ → ResourceModel → Option ℕ
no_value a model = none

abbrev resource : ℕ → Option ℕ → List ℕ → ResourceModel
resource id parent tags = record {
  id = id;
  data_id = none;
  parent_id = parent;
  tags = tags;
  index_values = [];
}

-- The runs below open this definition, and with it all of the service.
unfoldable create_all : List ResourceModel → ResourceService → Result ResourceService
unfolding get_node new_node child_ancestors count_up add_key del_key add_child each del_id
    remove_ancestor_ids remove_child has_ancestor walk_parents walk_ancestors collect
    walk_descendants new_resource_service tag_index attribute_index find_node get_root_resources
    verify_ids_exist get_by_data_ids get_by_id get_by_ids get_depths keep_root rebase_resource
    parent_node store_node register_node forget_node index_tag unindex_tag add_resource_tag_to_index
    remove_resource_tag_from_index add_resource_attribute_to_index
    remove_resource_attribute_from_index create remove_tags forget delete_resource_helper delete_one
    delete_resource delete_resources get_attribute reversed_ranges walk_ranges walk_attribute
    sum_lengths walk_new yield_in_tags yield_main walk_main walk_tag other_tags walk_tag_and
    walk_tag_or count_tag_and sum_tags as_set ranges_of count_below get_match_count index_of
    walk_filter values_filter walk_sort has_tag in_some_tag in_all_tags passes passes_all
    create_range_filter create_tag_or create_tag_and create_attribute_filter create_tag_filter
    create_attribute_filters include_root create_filters create_aggregate cheaper same_attribute
    filter_at ignore_filter limit_to keep_passing get_ancestors_by_id with_values sort_models
    filter_cost plan_filters walk_chosen sort_cost sorts_chosen walk_plan collect_models empty_sort
    run_plan get_descendants_by_id get_siblings_by_id remove_entry add_resource_attribute
    remove_resource_attribute compute_range range_filter compute_value_range value_filter
    nodes_reversed walk dict_get dict_set dict_del dict_has sort_by insert_by
create_all [] s = ok s
create_all (m ∷ ms) s = do s' ← create classes no_dependents no_value 1 m s; create_all ms s'

-- 1 has the children 2 and 3, and 2 has the child 4
abbrev family : Result ResourceService
family =
    create_all
      (resource 1 none []
        ∷ resource 2 (some 1) (7 ∷ [])
        ∷ resource 3 (some 1) (7 ∷ [])
        ∷ resource 4 (some 2) (8 ∷ [])
        ∷ [])
      new_resource_service

abbrev below : ℕ → ResourceService → Result (List ℕ)
below id s = do
  models ← get_descendants_by_id classes no_value (λ c. c) id none none none none s
  ok (map (λ m. m.id) models)

-- whom a query for one tag below a resource finds
abbrev below_with : List ℕ → ℕ → ResourceService → Result (List ℕ)
below_with tags id s = do
  models ←
      get_descendants_by_id classes no_value (λ c. c) id none none
        (some (record {
          include_self = false;
          tags = some tags;
          all_tags = true;
          attribute_filters = none;
        }))
        none s
  ok (map (λ m. m.id) models)

walks_family : (do s ← family; below 1 s) ≡ ok (2 ∷ 4 ∷ 3 ∷ [])
unfolding create_all
walks_family = refl

finds_tag : (do s ← family; below_with (8 ∷ []) 1 s) ≡ ok (4 ∷ [])
unfolding create_all
finds_tag = refl

-- 2 moves below 3, with its child 4: a walk finds 4 below 3, a query for its tag does not.
moved_walk : (do s ← family; t ← rebase_resource 2 3 s; below 3 t) ≡ ok (2 ∷ 4 ∷ [])
unfolding create_all
moved_walk = refl

moved_tag : (do s ← family; t ← rebase_resource 2 3 s; below_with (8 ∷ []) 3 t) ≡ ok []
unfolding create_all
moved_tag = refl

-- A resource with a child that was moved cannot be deleted.
moved_delete :
    (do s ← family; t ← rebase_resource 2 3 s; delete_resource classes no_dependents no_value 1 2 t)
    ≡ err Error.key_error
unfolding create_all
moved_delete = refl

-- A root that was deleted is still listed.
abbrev gone_and_roots : ResourceService → Result (List ℕ × List ℕ)
gone_and_roots s = do
  deleted ← delete_resource classes no_dependents no_value 1 1 s
  roots ← get_root_resources deleted.1
  ok (map (λ m. m.id) deleted.0, map (λ m. m.id) roots)

deleted_root : (do s ← family; gone_and_roots s) ≡ ok (4 ∷ 2 ∷ 3 ∷ 1 ∷ [], 1 ∷ [])
unfolding create_all
deleted_root = refl

abbrev tagged : Result ResourceService
tagged =
    create_all
      (resource 1 none []
        ∷ resource 2 (some 1) (10 ∷ 11 ∷ [])
        ∷ resource 3 (some 1) (12 ∷ [])
        ∷ resource 4 (some 1) (11 ∷ 12 ∷ [])
        ∷ [])
      new_resource_service

-- 2 has the tags 10 and 11 but not 12, and a query for all three finds it.
lacks_tag : (do s ← tagged; below_with (10 ∷ 11 ∷ 12 ∷ []) 1 s) ≡ ok (2 ∷ [])
unfolding create_all
lacks_tag = refl

-- a root and its child
abbrev node1 : ResourceNode
node1 = record {
  model = resource 1 none [];
  parent = none;
  children = 2 ∷ [];
  ancestor_ids = [];
  descendant_count = 1;
  depth = 0;
}

abbrev node2 : ResourceNode
node2 = record {
  model = resource 2 (some 1) [];
  parent = some 1;
  children = [];
  ancestor_ids = (1, 1) ∷ [];
  descendant_count = 0;
  depth = 1;
}

abbrev two_nodes : Nodes
two_nodes = (1, node1) ∷ (2, node2) ∷ []

no_nodes : Linked []
unfolding Linked dict_get
no_nodes id n e = absurd cc

one_node : Linked ((1, node1) ∷ [])
unfolding dict_get dict_set
one_node =
    Linked-With 1 node1 [] ((1, node1) ∷ []) (λ j. get-set 1 j node1 []) refl refl
      ((λ q. refl), refl) no_nodes

two_nodes-Linked : Linked two_nodes
unfolding dict_get dict_set child_ancestors
two_nodes-Linked =
    Linked-With 2 node2 ((1, node1) ∷ []) two_nodes (λ j. get-set 2 j node2 ((1, node1) ∷ [])) refl
      refl (node1, refl, refl, λ q. refl) one_node

abbrev two_resources : ResourceService
two_resources = record {
  store = two_nodes;
  by_data_id = [];
  attribute_indexes = [];
  tag_indexes = [];
  root_resources = (1, none) ∷ [];
}

has_ancestor_exact_example :
    (parents : List ℕ) × (walk_ancestors 2 false two_nodes ≡ ok parents)
    × (length parents ≡ 1)
    × ((q : ℕ) (max_depth : Option ℕ)
        → has_ancestor node2 q max_depth false
          ≡ any (λ p. p == q) (elim max_depth [ none ↦ parents | some k ↦ take k parents ]))
unfolding dict_get
has_ancestor_exact_example = has_ancestor_exact two_nodes 2 node2 two_nodes-Linked refl

create-Linked_example :
    (dict_has 3 two_nodes ≡ true
      → create classes no_dependents no_value 1 (resource 3 (some 2) []) two_resources
        ≡ err Error.already_exists)
    × ((p : ℕ)
        → dict_get 3 two_nodes ≡ none
        → some 2 ≡ some p
        → dict_get p two_nodes ≡ none
        → create classes no_dependents no_value 1 (resource 3 (some 2) []) two_resources
          ≡ err Error.not_found)
    × (dict_get 3 two_nodes ≡ none
        → ParentFound (some 2) two_nodes
        → (nodes : Nodes) × (n : ResourceNode) × (store_node (resource 3 (some 2) []) two_resources
            ≡ ok nodes)
          × Linked nodes
          × (dict_get 3 nodes ≡ some n)
          × (n.parent ≡ some 2)
          × (n.children ≡ [])
          × (n.descendant_count ≡ 0)
          × StoredUnder 3 (some 2) two_nodes nodes
          × ((s' : ResourceService)
              → create classes no_dependents no_value 1 (resource 3 (some 2) []) two_resources
                ≡ ok s'
              → s'.store ≡ nodes))
create-Linked_example =
    create-Linked classes no_dependents no_value 1 (resource 3 (some 2) []) two_resources
      two_nodes-Linked

-- two nodes with tag 10, one of them with tag 11
abbrev two_tags : ResourceService
two_tags = record {
  store = two_nodes;
  by_data_id = [];
  attribute_indexes = [];
  tag_indexes = (10, 1 ∷ 2 ∷ []) ∷ (11, 2 ∷ []) ∷ [];
  root_resources = (1, none) ∷ [];
}

walk_tag_or_exact_example :
    (ids : List ℕ) × (walk_tag_or (10 ∷ 11 ∷ []) two_tags ≡ ok ids)
    × ((id : ℕ)
        → (member id ids ≡ any (λ t. member id (tag_index t two_tags)) (10 ∷ 11 ∷ []))
          × (count (λ i. i == id) ids ≤ 1))
walk_tag_or_exact_example = walk_tag_or_exact 10 (11 ∷ []) two_tags

walk_tag_and_exact_example :
    (main : ℕ) × (ids : List ℕ) × (walk_tag_and (10 ∷ 11 ∷ []) two_tags ≡ ok ids)
    × (member main (10 ∷ 11 ∷ []) ≡ true)
    × All (λ t. length (tag_index main two_tags) ≤ length (tag_index t two_tags)) (10 ∷ 11 ∷ [])
    × ((id : ℕ)
        → count (λ i. i == id) ids
          ≡ count (λ i. i == id) (tag_index main two_tags)
            * (if has_others main (10 ∷ 11 ∷ [])
                then others_indexing main (10 ∷ 11 ∷ []) id two_tags
                else 1))
walk_tag_and_exact_example = walk_tag_and_exact 10 (11 ∷ []) two_tags
