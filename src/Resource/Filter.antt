-- ===== src/Resource/Filter.antt =====
-- ofrak_core/ofrak/service/resource_service.py: the filters and the sort of a query. A set of nodes
-- is walked in the order in which they were added to it. The tags that a tag stands for and the
-- values of the attributes are parameters, as in the store.
pub mod Tags
use ofrak.Resource.Index.{compute_range, compute_value_range, range_filter, value_filter, walk}
use ofrak.Resource.Node.{
  ResourceModel, ResourceNode, has_ancestor, walk_descendants, collect, add_key,
}
use ofrak.Resource.Store.{ResourceService, tag_index, attribute_index, find_node}
use ofrak.Range.{Range, range_length}
use ofrak.Data.Grid.{Axis}
use ofrak.Prelude.{
  ℕ, zero, suc, ◌+◌, Bool, true, false, not, ◌&&◌, ◌||◌, Option, none, some, List, [], ◌∷◌, ◌++◌,
  map, Result, ok, err, Error, ◌>>=◌, ltb, leb, ◌==◌, if◌then◌else◌, any, length, map_result,
  sort_by, dict_get,
}

-- the filters, with what each is given; an ancestor filter is given the id of the root
pub data FilterLogic : Type 0 where
  attribute_range : ℕ → Option ℕ → Option ℕ → FilterLogic
  attribute_value : ℕ → ℕ → FilterLogic
  attribute_values : ℕ → List ℕ → FilterLogic
  tag_or : List ℕ → FilterLogic
  tag_and : List ℕ → FilterLogic
  ancestor : ℕ → Bool → Option ℕ → FilterLogic

-- a sort by an attribute, upwards or downwards
pub record SortLogic : Type 0 where
  pub attribute : ℕ
  pub ascending : Bool

unfoldable pub get_attribute : FilterLogic → Option ℕ
get_attribute (attribute_range a min max) = some a
get_attribute (attribute_value a value) = some a
get_attribute (attribute_values a values) = some a
get_attribute (tag_or tags) = none
get_attribute (tag_and tags) = none
get_attribute (ancestor root include_root max_depth) = none

unfoldable pub reversed_ranges : List Range → List Range
reversed_ranges [] = []
reversed_ranges (r ∷ rs) = reversed_ranges rs ++ r ∷ []

-- the walk of an attribute filter over its ranges, sorted by their starts
unfoldable pub walk_ranges : Bool → List Range → Axis ℕ → List ℕ
walk_ranges ascending [] index = []
walk_ranges ascending (r ∷ rs) index = walk ascending r index ++ walk_ranges ascending rs index

unfoldable pub walk_attribute : Bool → List Range → Axis ℕ → List ℕ
walk_attribute ascending ranges index =
    let sorted = sort_by (λ a b. leb a.start b.start) ranges in
    walk_ranges ascending (if ascending then sorted else reversed_ranges sorted) index

unfoldable pub sum_lengths : List Range → ℕ
sum_lengths [] = 0
sum_lengths (r ∷ rs) = range_length r + sum_lengths rs

-- the nodes of some tags, each once
unfoldable pub walk_new : List ℕ → List ℕ → List ℕ
walk_new [] processed = []
walk_new (id ∷ ids) processed =
    if any (λ p. p == id) processed
    then walk_new ids processed
    else id ∷ walk_new ids (id ∷ processed)

-- `for tag in filter_tags: if resource in self.indexes[tag]: yield resource`
unfoldable pub yield_in_tags : List ℕ → ℕ → ResourceService → List ℕ
yield_in_tags [] id s = []
yield_in_tags (tag ∷ tags) id s =
    let rest = yield_in_tags tags id s in
    if any (λ i. i == id) (tag_index tag s) then id ∷ rest else rest

-- how often a node of the main index is yielded
unfoldable pub yield_main : List ℕ → ℕ → ResourceService → List ℕ
yield_main [] id s = id ∷ []
yield_main (tag ∷ tags) id s = yield_in_tags (tag ∷ tags) id s

unfoldable pub walk_main : List ℕ → List ℕ → ResourceService → List ℕ
walk_main [] filter_tags s = []
walk_main (id ∷ ids) filter_tags s = yield_main filter_tags id s ++ walk_main ids filter_tags s

-- the tag with the smallest index, the first of those
unfoldable pub walk_tag : ℕ → List ℕ → ResourceService → ℕ
walk_tag best [] s = best
walk_tag best (tag ∷ tags) s =
    walk_tag (if ltb (length (tag_index tag s)) (length (tag_index best s)) then tag else best) tags
      s

unfoldable pub other_tags : ℕ → List ℕ → List ℕ
other_tags t [] = []
other_tags t (u ∷ us) = let rest = other_tags t us in if u == t then rest else u ∷ rest

unfoldable pub walk_tag_and : List ℕ → ResourceService → Result (List ℕ)
walk_tag_and [] s = err Error.value_error
walk_tag_and (tag ∷ tags) s =
    let main = walk_tag tag tags s in
    ok (walk_main (tag_index main s) (other_tags main (tag ∷ tags)) s)

unfoldable pub walk_tag_or : List ℕ → ResourceService → Result (List ℕ)
walk_tag_or [] s = err Error.value_error
walk_tag_or (tag ∷ tags) s = do
  ids ← collect (λ t. ok (tag_index t s)) (tag ∷ tags)
  ok (walk_new ids [])

unfoldable pub count_tag_and : List ℕ → ResourceService → Result ℕ
count_tag_and [] s = err Error.value_error
count_tag_and (tag ∷ tags) s = ok (length (tag_index (walk_tag tag tags s) s))

unfoldable pub sum_tags : List ℕ → ResourceService → ℕ
sum_tags [] s = 0
sum_tags (tag ∷ tags) s = length (tag_index tag s) + sum_tags tags s

-- `set(values)`
unfoldable pub as_set : List ℕ → List ℕ
as_set [] = []
as_set (v ∷ vs) = add_key v (as_set vs)

-- the ranges of an attribute filter in its index
unfoldable pub ranges_of : FilterLogic → ResourceService → Result (List Range)
ranges_of (attribute_range a none none) s = err Error.value_error
ranges_of (attribute_range a min max) s = do
  r ← compute_range min max (attribute_index a s).index
  ok (r ∷ [])
ranges_of (attribute_value a value) s = do
  r ← compute_value_range value (attribute_index a s).index
  ok (r ∷ [])
ranges_of (attribute_values a values) s =
    map_result (λ v. compute_value_range v (attribute_index a s).index) (as_set values)
ranges_of _ s = ok []

-- the matches of an ancestor filter, whatever the depth that it allows
unfoldable pub count_below : ℕ → Bool → ResourceService → Result ℕ
count_below root include_root s = do
  n ← find_node root s
  ok (if include_root then n.descendant_count + 1 else n.descendant_count)

unfoldable pub get_match_count : FilterLogic → ResourceService → Result ℕ
get_match_count (tag_or []) s = err Error.value_error
get_match_count (tag_or (tag ∷ tags)) s = ok (sum_tags (tag ∷ tags) s)
get_match_count (tag_and tags) s = count_tag_and tags s
get_match_count (ancestor root include_root max_depth) s = count_below root include_root s
get_match_count f s = do ranges ← ranges_of f s; ok (sum_lengths ranges)

unfoldable pub index_of : FilterLogic → ResourceService → Axis ℕ
index_of f s = elim (get_attribute f) [ none ↦ [] | some a ↦ (attribute_index a s).index ]

unfoldable pub walk_filter : FilterLogic → Bool → ResourceService → Result (List ℕ)
walk_filter (tag_or tags) ascending s = walk_tag_or tags s
walk_filter (tag_and tags) ascending s = walk_tag_and tags s
walk_filter (ancestor root include_root max_depth) ascending s =
    walk_descendants (suc (length s.store)) include_root max_depth root s.store
walk_filter f ascending s = do
  ranges ← ranges_of f s
  ok (walk_attribute ascending ranges (index_of f s))

unfoldable pub values_filter : List ℕ → Option ℕ → Bool
values_filter values none = false
values_filter values (some v) = any (λ w. w == v) values

-- the walk of a sort over its whole index
unfoldable pub walk_sort : SortLogic → ResourceService → List ℕ
walk_sort sort s =
    let index = (attribute_index sort.attribute s).index in
    walk sort.ascending (record { start = 0; end = length index }) index

module _ (tag_classes : ℕ → List ℕ) (value_of : ℕ → ResourceModel → Option ℕ) where
  unfoldable pub has_tag : ResourceModel → ℕ → Bool
  has_tag model tag =
      any (λ t. t == tag) model.tags || any (λ t. any (λ u. u == tag) (tag_classes t)) model.tags

  unfoldable pub in_some_tag : List ℕ → ResourceModel → Bool
  in_some_tag [] model = false
  in_some_tag (tag ∷ tags) model = if has_tag model tag then true else in_some_tag tags model

  unfoldable pub in_all_tags : List ℕ → ResourceModel → Bool
  in_all_tags [] model = true
  in_all_tags (tag ∷ tags) model = if not (has_tag model tag) then false else in_all_tags tags model

  unfoldable pub passes : FilterLogic → ResourceNode → Result Bool
  passes (attribute_range a min max) n = range_filter min max (value_of a n.model)
  passes (attribute_value a value) n = ok (value_filter value (value_of a n.model))
  passes (attribute_values a values) n = ok (values_filter values (value_of a n.model))
  passes (tag_or tags) n = ok (in_some_tag tags n.model)
  passes (tag_and tags) n = ok (in_all_tags tags n.model)
  passes (ancestor root include_root max_depth) n = ok (has_ancestor n root max_depth include_root)

  -- `AggregateResourceFilterLogic.filter`
  unfoldable pub passes_all : List FilterLogic → ResourceNode → Result Bool
  passes_all [] n = ok true
  passes_all (f ∷ fs) n = do here ← passes f n; if not here then ok false else passes_all fs n
