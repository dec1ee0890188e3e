-- ===== src/FreeSpace.antt =====
-- ofrak_core/ofrak/core/free_space.py: free ranges by memory permissions, and their allocation.
pub mod Allocation
pub mod Cache
pub mod Analyzer
pub mod Modifier
pub mod Freeing
pub mod Allocate
use ofrak.Prelude.{
  ℕ, zero, suc, ◌+◌, ◌-◌, ◌*◌, ◌/◌, ◌%◌, ◌≤◌, min, Bool, true, false, ◌&&◌, ◌||◌, Option, none,
  some, List, [], ◌∷◌, ◌++◌, Result, ok, err, Error, ◌>>=◌, ◌>>◌, guard, ltb, leb, ◌==◌,
  if◌then◌else◌, sort_by, Dict, dict_get, dict_set, ◌≡◌, refl,
}
use ofrak.Range.{
  Range, mk_range, range_length, intersect, from_size, merge_ranges, remove_subranges,
}

-- ofrak_type/ofrak_type/memory_permissions.py
pub data MemoryPermissions : Type 0 where
  x w r rw rx rwx : MemoryPermissions

unfoldable pub value : MemoryPermissions → ℕ
value x = 1
value w = 2
value r = 4
value rw = 6
value rx = 5
value rwx = 7

-- The part of `Allocatable` that it keeps: its free ranges by permissions.
abbrev pub FreeSpaceRanges : Type 0
FreeSpaceRanges = Dict (List Range)

-- Python's `%`
abbrev pub modulo : ℕ → ℕ → Result ℕ
modulo n d = if d == 0 then err Error.zero_division else ok (n % d)

unfoldable pub align_range : Range → ℕ → Result Range
unfolding mk_range
align_range unaligned alignment = do
  rest ← modulo unaligned.start alignment
  offset ← modulo (alignment - rest) alignment
  aligned ← mk_range (unaligned.start + offset) (unaligned.end + 0)
  guard (leb unaligned.start aligned.start) Error.assertion_error
  guard (leb aligned.end unaligned.end) Error.assertion_error
  ok aligned

-- step 1 of the loop of `_allocate`: the constraint on the addresses
unfoldable pub narrow : Option Range → Range → Result Range
unfolding intersect
narrow none free_range = ok free_range
narrow (some within_range) free_range = intersect free_range within_range

-- `except ValueError: continue` around a step, with the rest of the round: `none` goes on with the
-- next free range.
abbrev pub or_continue : Result Range → (Range → Result (Option Range)) → Result (Option Range)
or_continue (ok free_range) rest = rest free_range
or_continue (err Error.value_error) rest = ok none
or_continue (err e) rest = err e

-- step 3: only what is still required, unless that is too small
unfoldable pub take_required : ℕ → ℕ → Range → Result (Option Range)
unfolding from_size range_length
take_required min_fragment_size unallocated free_range = do
  let new_length = min (range_length free_range) unallocated
  taken ← from_size free_range.start new_length
  ok (if ltb (range_length taken) min_fragment_size then none else some taken)

-- What one round of the loop takes from a free range, or `none` for `continue`.
unfoldable pub fragment : ℕ → ℕ → Option Range → ℕ → Range → Result (Option Range)
fragment alignment min_fragment_size within_range unallocated free_range =
    or_continue (narrow within_range free_range) λ inside.
      or_continue (align_range inside alignment) (take_required min_fragment_size unallocated)

-- The loop over the free ranges: the allocation, and the size that is left.
unfoldable pub allocate_loop : ℕ → ℕ → Option Range → List Range → ℕ → Result (List Range × ℕ)
unfolding range_length
allocate_loop alignment min_fragment_size within_range [] unallocated = ok ([], unallocated)
allocate_loop alignment min_fragment_size within_range (free_range ∷ rest) zero = ok ([], 0)
allocate_loop alignment min_fragment_size within_range (free_range ∷ rest) (suc n) = do
  taken ← fragment alignment min_fragment_size within_range (suc n) free_range
  elim taken [
    | none ↦ allocate_loop alignment min_fragment_size within_range rest (suc n)
    | some piece ↦ do
      (allocation, left) ←
          allocate_loop alignment min_fragment_size within_range rest (suc n - range_length piece)
      ok (piece ∷ allocation, left)
  ]

-- the `min_fragment_size` parameter: absent, or above 0
unfoldable pub fragment_size : ℕ → Option ℕ → Result ℕ
fragment_size requested_size none = ok requested_size
fragment_size requested_size (some size) = if leb size 0 then err Error.value_error else ok size

unfoldable pub allocate_from : List Range → ℕ → ℕ → Option ℕ → Option Range → Result (List Range)
unfolding fragment_size
allocate_from free_ranges requested_size alignment min_fragment_size within_range = do
  size ← fragment_size requested_size min_fragment_size
  (allocation, unallocated) ← allocate_loop alignment size within_range free_ranges requested_size
  if ltb 0 unallocated then err Error.free_space_allocation else ok allocation

-- `Allocatable._allocate`
unfoldable pub find_allocation :
    FreeSpaceRanges → MemoryPermissions → ℕ → ℕ → Option ℕ → Option Range → Result (List Range)
find_allocation ranges permissions requested_size alignment min_fragment_size within_range =
    elim (dict_get (value permissions) ranges) [
      | none ↦ err Error.free_space_allocation
      | some free_ranges ↦ elim free_ranges [
        | [] ↦ err Error.free_space_allocation
        | first ∷ others ↦
            allocate_from (first ∷ others) requested_size alignment min_fragment_size within_range
      ]
    ]

-- The sort key `(r.length(), r.start)`.
unfoldable pub size_then_start : Range → Range → Bool
unfolding range_length
size_then_start a b =
    ltb (range_length a) (range_length b)
    || (range_length a == range_length b && leb a.start b.start)

unfoldable pub sort_free_ranges : List Range → List Range
unfolding size_then_start sort_by
sort_free_ranges = sort_by size_then_start

unfoldable pub remove_allocation_from_cached_free_ranges :
    FreeSpaceRanges → List Range → MemoryPermissions → Result FreeSpaceRanges
remove_allocation_from_cached_free_ranges ranges [] permissions = ok ranges
remove_allocation_from_cached_free_ranges ranges (a ∷ allocation) permissions =
    elim (dict_get (value permissions) ranges) [
      | none ↦ err Error.key_error
      | some cached ↦ do
        new_free_ranges ← remove_subranges cached (a ∷ allocation)
        ok (dict_set (value permissions) (sort_free_ranges new_free_ranges) ranges)
    ]

-- `ranges_by_permissions[key]` of the `defaultdict(list)`
unfoldable pub ranges_at : ℕ → FreeSpaceRanges → List Range
unfolding dict_get
ranges_at key ranges = elim (dict_get key ranges) [ none ↦ [] | some rs ↦ rs ]

-- `ranges_by_permissions[...].append(...)` over the `FreeSpace` descendants, in their order
unfoldable pub group_ranges : List (MemoryPermissions × Range) → FreeSpaceRanges → FreeSpaceRanges
group_ranges [] ranges = ranges
group_ranges ((permissions, vaddr_range) ∷ rest) ranges =
    group_ranges rest (
      dict_set (value permissions) (ranges_at (value permissions) ranges ++ vaddr_range ∷ [])
        ranges)

unfoldable pub merge_groups : FreeSpaceRanges → Result FreeSpaceRanges
merge_groups [] = ok []
merge_groups ((permissions, ranges) ∷ rest) = do
  merged ← merge_ranges ranges
  others ← merge_groups rest
  ok ((permissions, sort_free_ranges merged) ∷ others)

-- `FreeSpaceAnalyzer.analyze`, from the permissions and ranges of the descendants.
unfoldable pub analyze : List (MemoryPermissions × Range) → Result FreeSpaceRanges
analyze free_spaces = merge_groups (group_ranges free_spaces [])
