-- ===== src/Resource/Query.antt =====
-- ofrak_core/ofrak/service/resource_service.py: the queries of `ResourceService` for ancestors,
-- descendants and siblings. A query for descendants plans first: it walks the filter with the fewest
-- matches, or the sort, and tests the nodes that come out with the other filters.
use ofrak.Resource.Filter.{
  FilterLogic, SortLogic, get_attribute, get_match_count, walk_filter, walk_sort, passes_all,
}
use ofrak.Resource.Node.{ResourceModel, ResourceNode, get_node, walk_ancestors}
use ofrak.Resource.Store.{ResourceService, find_node, attribute_index}
use ofrak.Prelude.{
  ℕ, zero, suc, Bool, true, false, not, ◌&&◌, Option, none, some, List, [], ◌∷◌, ◌++◌, map, Result,
  ok, err, Error, ◌>>=◌, ltb, leb, ◌==◌, if◌then◌else◌, length, take, map_result, sort_by,
}

-- the filter that a caller gives
pub record ResourceFilter : Type 0 where
  pub include_self : Bool
  pub tags : Option (List ℕ)
  pub all_tags : Bool
  pub attribute_filters : Option (List FilterLogic)

-- the constructors of the filters: a range needs a bound, and a filter of tags a tag
unfoldable pub create_range_filter : ℕ → Option ℕ → Option ℕ → Result FilterLogic
create_range_filter a none none = err Error.value_error
create_range_filter a none (some max) = ok (FilterLogic.attribute_range a none (some max))
create_range_filter a (some min) max = ok (FilterLogic.attribute_range a (some min) max)

unfoldable pub create_tag_or : List ℕ → Result FilterLogic
create_tag_or [] = err Error.value_error
create_tag_or (tag ∷ tags) = ok (FilterLogic.tag_or (tag ∷ tags))

unfoldable pub create_tag_and : List ℕ → Result FilterLogic
create_tag_and [] = err Error.value_error
create_tag_and (tag ∷ tags) = ok (FilterLogic.tag_and (tag ∷ tags))

-- a filter of an attribute; another is none that a caller can give
unfoldable pub create_attribute_filter : FilterLogic → Result FilterLogic
create_attribute_filter (FilterLogic.attribute_range a min max) = create_range_filter a min max
create_attribute_filter (FilterLogic.attribute_value a value) =
    ok (FilterLogic.attribute_value a value)
create_attribute_filter (FilterLogic.attribute_values a values) =
    ok (FilterLogic.attribute_values a values)
create_attribute_filter _ = err Error.value_error

unfoldable pub create_tag_filter : ResourceFilter → Result (List FilterLogic)
create_tag_filter r = elim r.tags [
  | none ↦ ok []
  | some tags ↦ (do f ← if r.all_tags then create_tag_and tags else create_tag_or tags; ok (f ∷ []))
]

unfoldable pub create_attribute_filters : ResourceFilter → Result (List FilterLogic)
create_attribute_filters r = elim r.attribute_filters [
  | none ↦ ok []
  | some filters ↦ map_result create_attribute_filter filters
]

-- `r_filter.include_self`, where there is a filter
unfoldable pub include_root : Option ResourceFilter → Bool
include_root none = false
include_root (some r) = r.include_self

-- `AggregateResourceFilterLogic.create`, without the filter for an ancestor and with it
unfoldable pub create_filters : Option ResourceFilter → Result (List FilterLogic)
create_filters none = ok []
create_filters (some r) = do
  tags ← create_tag_filter r
  attributes ← create_attribute_filters r
  ok (tags ++ attributes)

unfoldable pub create_aggregate : Option ResourceFilter → ℕ → Option ℕ → Result (List FilterLogic)
create_aggregate r_filter root max_depth = do
  filters ← create_filters r_filter
  ok (filters ++ FilterLogic.ancestor root (include_root r_filter) max_depth ∷ [])

-- the cheapest filter so far, by its position; no cost stands for `sys.maxsize`
pub record Plan : Type 0 where
  pub chosen : Option ℕ
  pub cost : Option ℕ

-- `a < b`
unfoldable pub cheaper : Option ℕ → Option ℕ → Bool
cheaper none b = false
cheaper (some a) none = true
cheaper (some a) (some b) = ltb a b

-- `a == b` on attributes that may be missing
unfoldable pub same_attribute : Option ℕ → Option ℕ → Bool
same_attribute none none = true
same_attribute none (some b) = false
same_attribute (some a) none = false
same_attribute (some a) (some b) = a == b

-- the filter at a position
unfoldable pub filter_at : ℕ → List FilterLogic → Option FilterLogic
filter_at i [] = none
filter_at zero (f ∷ fs) = some f
filter_at (suc i) (f ∷ fs) = filter_at i fs

unfoldable pub ignore_filter : ℕ → List FilterLogic → List FilterLogic
ignore_filter i [] = []
ignore_filter zero (f ∷ fs) = fs
ignore_filter (suc i) (f ∷ fs) = f ∷ ignore_filter i fs

-- `itertools.islice(resources, 0, max_count)`, where the count is not negative
unfoldable pub limit_to : Option ℕ → List ResourceModel → List ResourceModel
limit_to none models = models
limit_to (some n) models = take n models

module _ (tag_classes : ℕ → List ℕ) (value_of : ℕ → ResourceModel → Option ℕ) where
  -- the nodes that pass
  unfoldable pub keep_passing : List FilterLogic → List ResourceNode → Result (List ResourceNode)
  keep_passing filters [] = ok []
  keep_passing filters (n ∷ ns) = do
    here ← passes_all tag_classes value_of filters n
    rest ← keep_passing filters ns
    ok (if here then n ∷ rest else rest)

  unfoldable pub get_ancestors_by_id :
      ℕ → Option ℕ → Option ResourceFilter → ResourceService → Result (List ResourceModel)
  get_ancestors_by_id id max_count r_filter s = do
    _ ← find_node id s
    filters ← create_filters r_filter
    ids ← walk_ancestors id (include_root r_filter) s.store
    nodes ← map_result (λ i. get_node i s.store) ids
    kept ← keep_passing filters nodes
    ok (limit_to max_count (map (λ n. n.model) kept))

  -- `sorted` by the attribute: a model without it raises
  unfoldable pub with_values : ℕ → List ResourceModel → Result (List (ℕ × ResourceModel))
  with_values attribute models =
      map_result
        (λ m. elim (value_of attribute m) [ none ↦ err Error.value_error | some v ↦ ok (v, m) ])
        models

  unfoldable pub sort_models : Option SortLogic → List ResourceModel → Result (List ResourceModel)
  sort_models none models = ok models
  sort_models (some sort) models = do
    keyed ← with_values sort.attribute models
    ok (map (λ e. e.1) (sort_by (λ a b. if sort.ascending then leb a.0 b.0 else leb b.0 a.0) keyed))

  -- `int(cost * math.log2(cost))` is a parameter
  module _ (sorting_cost : ℕ → ℕ) where
    unfoldable pub filter_cost : Option SortLogic → FilterLogic → ℕ → ℕ
    filter_cost none f count = count
    filter_cost (some sort) f count =
        if same_attribute (some sort.attribute) (get_attribute f) then count else sorting_cost count

    -- the planning loop; no plan is a filter that nothing matches
    unfoldable pub plan_filters :
        Option SortLogic → ResourceService → List FilterLogic → ℕ → Plan → Result (Option Plan)
    plan_filters sort s [] i plan = ok (some plan)
    plan_filters sort s (f ∷ fs) i plan = do
      count ← get_match_count f s
      let cost = filter_cost sort f count
      let better : Plan = record { chosen = some i; cost = some cost }
      let next =
          plan_filters sort s fs (suc i) (if cheaper (some cost) plan.cost then better else plan)
      if count == 0 then ok none else next

    -- the nodes that are walked, the filters that are left, and the sort that is left
    pub record Walked : Type 0 where
      pub ids : List ℕ
      pub filters : List FilterLogic
      pub sort : Option SortLogic

    -- the walk of the chosen filter, which sorts if the sort is by the same attribute
    unfoldable pub walk_chosen :
        Option SortLogic → List FilterLogic → ℕ → ResourceService → Result Walked
    walk_chosen sort filters i s = elim (filter_at i filters) [
      | none ↦ err Error.index_error
      | some f ↦ elim sort [
        | none ↦ (do
          ids ← walk_filter f true s
          ok (record { ids = ids; filters = ignore_filter i filters; sort = none }))
        | some by ↦
            if same_attribute (get_attribute f) (some by.attribute)
            then (do
              ids ← walk_filter f by.ascending s
              ok (record { ids = ids; filters = ignore_filter i filters; sort = none }))
            else (do
              ids ← walk_filter f true s
              ok (record { ids = ids; filters = ignore_filter i filters; sort = some by }))
      ]
    ]

    unfoldable pub sort_cost : Option SortLogic → ResourceService → Option ℕ
    sort_cost none s = none
    sort_cost (some sort) s = some (length (attribute_index sort.attribute s).index)

    -- is the chosen filter one of the attribute that is sorted by?
    unfoldable pub sorts_chosen : Option SortLogic → List FilterLogic → ℕ → Bool
    sorts_chosen none filters i = false
    sorts_chosen (some sort) filters i = elim (filter_at i filters) [
      | none ↦ false
      | some f ↦ same_attribute (get_attribute f) (some sort.attribute)
    ]

    -- the walk that the plan says; a query for descendants always has a filter to walk
    unfoldable pub walk_plan :
        Option SortLogic → List FilterLogic → Plan → ResourceService → Result Walked
    walk_plan sort filters plan s = elim plan.chosen [
      | none ↦ err Error.index_error
      | some i ↦
          if not (sorts_chosen sort filters i) && cheaper (sort_cost sort s) plan.cost
          then elim sort [
            | none ↦ err Error.index_error
            | some by ↦ ok (record { ids = walk_sort by s; filters = filters; sort = none })
          ]
          else walk_chosen sort filters i s
    ]

    -- the models of the nodes that are walked
    unfoldable pub collect_models :
        Walked → Option ℕ → ResourceService → Result (List ResourceModel)
    collect_models walked max_count s = do
      nodes ← map_result (λ i. get_node i s.store) walked.ids
      kept ← keep_passing walked.filters nodes
      models ← sort_models walked.sort (map (λ n. n.model) kept)
      ok (limit_to max_count models)

    -- a sort whose index is empty gives nothing
    unfoldable pub empty_sort : Option SortLogic → ResourceService → Bool
    empty_sort sort s = elim (sort_cost sort s) [ none ↦ false | some cost ↦ cost == 0 ]

    unfoldable pub run_plan :
        Option SortLogic
        → List FilterLogic
        → Option ℕ
        → ResourceService
        → Result (List ResourceModel)
    run_plan sort filters max_count s = do
      planned ← plan_filters sort s filters 0 (record { chosen = none; cost = none })
      elim planned [
        | none ↦ ok []
        | some plan ↦ (do walked ← walk_plan sort filters plan s; collect_models walked max_count s)
      ]

    unfoldable pub get_descendants_by_id :
        ℕ
        → Option ℕ
        → Option ℕ
        → Option ResourceFilter
        → Option SortLogic
        → ResourceService
        → Result (List ResourceModel)
    get_descendants_by_id id max_count max_depth r_filter r_sort s = do
      n ← find_node id s
      filters ← create_aggregate r_filter id max_depth
      if empty_sort r_sort s then ok [] else run_plan r_sort filters max_count s

    unfoldable pub get_siblings_by_id :
        ℕ
        → Option ℕ
        → Option ResourceFilter
        → Option SortLogic
        → ResourceService
        → Result (List ResourceModel)
    get_siblings_by_id id max_count r_filter r_sort s = do
      n ← find_node id s
      elim n.parent [
        | none ↦ err Error.not_found
        | some parent ↦ (do
          p ← get_node parent s.store
          get_descendants_by_id p.model.id max_count (some 1) r_filter r_sort s)
      ]
