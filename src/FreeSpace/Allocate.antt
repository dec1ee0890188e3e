-- ===== src/FreeSpace/Allocate.antt =====
-- ofrak_core/ofrak/core/free_space.py, `Allocatable.allocate`. The modifier loads a view of its own,
-- so that its cached free ranges are an argument beside those of the `Allocatable`.
pub mod Exact
use ofrak.Prelude.{ℕ, Option, List, Result, ok, ◌>>=◌, sort_by}
use ofrak.Range.{Range, start_le}
use ofrak.FreeSpace.{
  FreeSpaceRanges, MemoryPermissions, find_allocation, remove_allocation_from_cached_free_ranges,
}
use ofrak.FreeSpace.Modifier.{FreeSpaceView, Modified, modify}

-- What a call returns, what its modifier did, and the cached free ranges it leaves.
pub record AllocateResult : Type 0 where
  pub ranges : List Range
  pub modified : Modified
  pub free_space_ranges : FreeSpaceRanges

-- The returned list is the one that `remove_subranges` sorts in place by the starts.
unfoldable pub allocate :
    List FreeSpaceView
    → FreeSpaceRanges
    → FreeSpaceRanges
    → MemoryPermissions
    → ℕ
    → ℕ
    → Option ℕ
    → Option Range
    → Result AllocateResult
allocate descendants view_ranges ranges permissions size alignment min_fragment_size within_range =
    do
      allocated ← find_allocation ranges permissions size alignment min_fragment_size within_range
      modified ← modify descendants view_ranges permissions allocated
      cached ← remove_allocation_from_cached_free_ranges ranges allocated permissions
      ok (record {
        ranges = sort_by start_le allocated;
        modified = modified;
        free_space_ranges = cached;
      })
