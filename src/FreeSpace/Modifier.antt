-- ===== src/FreeSpace/Modifier.antt =====
-- ofrak_core/ofrak/core/free_space.py, `RemoveFreeSpaceModifier`: which free spaces an allocation
-- finds, and what is done with them. The `FreeSpace` descendants are a list; a query for them is a
-- filter of that list by the index filters of the resource service.
pub mod Queries
use ofrak.Prelude.{
  ℕ, zero, suc, ◌+◌, ◌-◌, Bool, true, false, ◌&&◌, Option, none, some, List, [], ◌∷◌, ◌++◌, map,
  Result, ok, err, Error, ◌>>=◌, ◌>>◌, guard, ltb, leb, ◌==◌, if◌then◌else◌, Dict, dict_get,
  dict_set, any,
}
use ofrak.Range.{Range, mk_range, range_length, intersect, from_size, remove_subranges}
use ofrak.FreeSpace.{
  MemoryPermissions, value, FreeSpaceRanges, remove_allocation_from_cached_free_ranges,
}

-- A `FreeSpace` view with the id of its resource.
pub record FreeSpaceView : Type 0 where
  pub resource_id : ℕ
  pub virtual_address : ℕ
  pub size : ℕ
  pub permissions : MemoryPermissions

-- ofrak_core/ofrak/core/memory_region.py
unfoldable pub end_vaddr : FreeSpaceView → ℕ
end_vaddr fs = fs.virtual_address + fs.size

unfoldable pub vaddr_range : FreeSpaceView → Result Range
unfolding from_size mk_range
vaddr_range fs = from_size fs.virtual_address fs.size

unfoldable pub get_offset_in_self : FreeSpaceView → ℕ → Result ℕ
unfolding end_vaddr
get_offset_in_self fs vaddr =
    if leb fs.virtual_address vaddr && ltb vaddr (end_vaddr fs)
    then ok (vaddr - fs.virtual_address)
    else err Error.value_error

-- The branches of `ResourceAttributeRangeFilterLogic.filter`: the maximum is exclusive.
abbrev pub between : ℕ → ℕ → ℕ → Bool
between min max index = leb min index && ltb index max

abbrev pub at_least : ℕ → ℕ → Bool
at_least min index = leb min index

abbrev pub below : ℕ → ℕ → Bool
below max index = ltb index max

-- The filters of the query for wholly allocated resources. A maximum of -1 and one of 0 both let
-- nothing through.
unfoldable pub wholly_matches : MemoryPermissions → Range → FreeSpaceView → Bool
unfolding value end_vaddr
wholly_matches permissions alloc fs =
    value fs.permissions == value permissions
    && between alloc.start (alloc.end - 1) fs.virtual_address
    && between (alloc.start + 1) alloc.end (end_vaddr fs)

unfoldable pub overlaps_end_matches : MemoryPermissions → Range → FreeSpaceView → Bool
unfolding value end_vaddr
overlaps_end_matches permissions alloc fs =
    value fs.permissions == value permissions
    && below alloc.end fs.virtual_address
    && at_least (alloc.end + 1) (end_vaddr fs)

unfoldable pub overlaps_start_matches : MemoryPermissions → Range → FreeSpaceView → Bool
unfolding value end_vaddr
overlaps_start_matches permissions alloc fs =
    value fs.permissions == value permissions
    && below (alloc.start - 1) fs.virtual_address
    && at_least (alloc.start + 1) (end_vaddr fs)

unfoldable pub query : (FreeSpaceView → Bool) → List FreeSpaceView → List FreeSpaceView
query matches [] = []
query matches (fs ∷ rest) =
    let found = query matches rest in if matches fs then fs ∷ found else found

unfoldable pub get_partially_overlapping_resources :
    List FreeSpaceView → MemoryPermissions → Range → List FreeSpaceView
unfolding query
get_partially_overlapping_resources descendants permissions alloc =
    query (overlaps_end_matches permissions alloc) descendants
    ++ query (overlaps_start_matches permissions alloc) descendants

-- `partially_allocated_resources`: the views and their allocated ranges, by resource id
abbrev pub Partial : Type 0
Partial = Dict (FreeSpaceView × List Range)

unfoldable pub add_overlap : FreeSpaceView → Range → Partial → Partial
unfolding dict_get dict_set
add_overlap fs overlap partial = elim (dict_get fs.resource_id partial) [
  | none ↦ dict_set fs.resource_id (fs, overlap ∷ []) partial
  | some (first, ranges) ↦ dict_set fs.resource_id (first, ranges ++ overlap ∷ []) partial
]

unfoldable pub add_overlaps : List FreeSpaceView → Range → Partial → Result Partial
unfolding vaddr_range intersect range_length add_overlap
add_overlaps [] alloc partial = ok partial
add_overlaps (fs ∷ rest) alloc partial = do
  free_space_range ← vaddr_range fs
  overlap ← intersect alloc free_space_range
  guard (ltb 0 (range_length overlap)) Error.assertion_error
  add_overlaps rest alloc (add_overlap fs overlap partial)

-- The first loop: the wholly and the partially allocated resources.
unfoldable pub find_allocated :
    List FreeSpaceView
    → MemoryPermissions
    → List Range
    → Partial
    → Result (List FreeSpaceView × Partial)
unfolding query get_partially_overlapping_resources add_overlaps
find_allocated descendants permissions [] partial = ok ([], partial)
find_allocated descendants permissions (alloc ∷ allocations) partial = do
  let wholly = query (wholly_matches permissions alloc) descendants
  grown ←
      add_overlaps (get_partially_overlapping_resources descendants permissions alloc) alloc partial
  (more, all) ← find_allocated descendants permissions allocations grown
  ok (wholly ++ more, all)

-- A child that `create_child_from_view` is asked for: its parent, its view and its data range.
pub record NewChild : Type 0 where
  pub parent_id : ℕ
  pub virtual_address : ℕ
  pub size : ℕ
  pub permissions : MemoryPermissions
  pub data_range : Range

unfoldable pub create_children : FreeSpaceView → List Range → Result (List NewChild)
unfolding get_offset_in_self from_size mk_range range_length
create_children fs [] = ok []
create_children fs (r ∷ rs) = do
  offset ← get_offset_in_self fs r.start
  data_range ← from_size offset (range_length r)
  others ← create_children fs rs
  ok (
      record {
        parent_id = fs.resource_id;
        virtual_address = r.start;
        size = range_length r;
        permissions = fs.permissions;
        data_range = data_range;
      }
      ∷ others)

unfoldable pub split_partial : Partial → Result (List NewChild)
unfolding vaddr_range remove_subranges create_children
split_partial [] = ok []
split_partial ((_, (fs, allocated)) ∷ rest) = do
  whole ← vaddr_range fs
  remaining ← remove_subranges (whole ∷ []) allocated
  children ← create_children fs remaining
  others ← split_partial rest
  ok (children ++ others)

-- What `modify` does: the resources that lose the tag `FreeSpace`, the new children, and the
-- cached free ranges.
pub record Modified : Type 0 where
  pub untagged : List ℕ
  pub children : List NewChild
  pub free_space_ranges : FreeSpaceRanges

unfoldable pub modify :
    List FreeSpaceView → FreeSpaceRanges → MemoryPermissions → List Range → Result Modified
unfolding split_partial
modify descendants ranges permissions allocations = do
  (wholly, partial) ← find_allocated descendants permissions allocations []
  children ← split_partial partial
  cached ← remove_allocation_from_cached_free_ranges ranges allocations permissions
  ok (record {
    untagged = map (λ fs. fs.resource_id) wholly ++ map (λ e. e.1.0.resource_id) partial;
    children = children;
    free_space_ranges = cached;
  })
