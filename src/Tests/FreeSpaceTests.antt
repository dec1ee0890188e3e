-- ===== src/Tests/FreeSpaceTests.antt =====
-- FreeSpace: the theorems at concrete inputs, and runs on the inputs of the repository's tests.
use ofrak.Prelude.{
  ℕ, ◌<◌, ◌≤◌, ◌≡◌, ◌≢◌, ◌↔◌, refl, true, false, not, ◌&&◌, none, some, List, [], ◌∷◌, ok, err,
  Error, ◌⊎◌, arith, All, inl, inr, dict_get,
}
use ofrak.Range.{
  Range, covers, overlaps, range_length, mk_range, from_size, intersect, remove_subranges,
  merge_ranges,
}
use ofrak.Range.Remove.{Disjoint}
use ofrak.FreeSpace.{
  FreeSpaceRanges, MemoryPermissions, r, rx, value, align_range, narrow, take_required, fragment,
  allocate_loop, fragment_size, allocate_from, find_allocation, sort_free_ranges,
  remove_allocation_from_cached_free_ranges, ranges_at, group_ranges, merge_groups, analyze,
}
use ofrak.FreeSpace.Allocation.{
  Fits, total, InsideOne, find_allocation_sound, find_allocation_complete,
}
use ofrak.FreeSpace.Cache.{remove_allocation_exact, no_double_allocation}
use ofrak.FreeSpace.Analyzer.{with_permissions, analyze_exact}
use ofrak.FreeSpace.Modifier.{
  FreeSpaceView, Modified, end_vaddr, wholly_matches, overlaps_end_matches, overlaps_start_matches,
  find_allocated, modify,
}
use ofrak.FreeSpace.Modifier.Queries.{
  found, Missed, found-false_iff, found_overlaps, modify_exact_fit,
}
use ofrak.Prelude.{sort_by, length, ◌+◌}
use ofrak.Range.{start_le}
use ofrak.FreeSpace.Allocate.{AllocateResult, allocate}
use ofrak.FreeSpace.Allocate.Exact.{allocate_exact}
use ofrak.FreeSpace.Freeing.{MemoryRegion, region_end, Freed, free_part, free_region}
use ofrak.FreeSpace.Freeing.Exact.{free_part_exact, free_region_exact}

program : Unit {0}
unfolding mk_range from_size intersect range_length value align_range narrow take_required fragment
    allocate_loop fragment_size allocate_from find_allocation dict_get sort_free_ranges
    remove_subranges remove_allocation_from_cached_free_ranges merge_ranges ranges_at group_ranges
    merge_groups analyze wholly_matches overlaps_end_matches overlaps_start_matches find_allocated
    modify
program = tt

abbrev range : ℕ → ℕ → Range
range start end = record { start = start; end = end }

-- the free ranges of test_allocatable_allocate.py, under `RX`
abbrev free : List Range
free =
    range 0x100 0x110 ∷ range 0x80 0xa0 ∷ range 0xc0 0xe0 ∷ range 0x0 0x40 ∷ range 0x120 0x200 ∷ []

abbrev cached : FreeSpaceRanges
cached = (5, free) ∷ []

abbrev taken : List Range
taken = range 0x120 0x1e0 ∷ []

abbrev left : FreeSpaceRanges
left =
    (
      5,
      range 0x100 0x110
          ∷ range 0x80 0xa0
          ∷ range 0xc0 0xe0
          ∷ range 0x1e0 0x200
          ∷ range 0x0 0x40
          ∷ [],
    )
    ∷ []

allocate_run : find_allocation cached rx 0xc0 4 none none ≡ ok taken
unfolding program
allocate_run = refl

fragments_run :
    find_allocation cached rx 0x4c 4 (some 0x10) (some (range 0x84 0x200))
    ≡ ok (range 0x100 0x110 ∷ range 0x84 0xa0 ∷ range 0xc0 0xe0 ∷ [])
unfolding program
fragments_run = refl

remove_run : remove_allocation_from_cached_free_ranges cached taken rx ≡ ok left
unfolding program
remove_run = refl

again_run : find_allocation left rx 0x20 4 none none ≡ ok (range 0x80 0xa0 ∷ [])
unfolding program
again_run = refl

free-Disjoint : Disjoint free
unfolding overlaps
free-Disjoint = (
  (refl, (refl, (refl, (refl, tt)))),
  ((refl, (refl, (refl, tt))), ((refl, (refl, tt)), ((refl, tt), (tt, tt)))),
)

found_at : dict_get (value rx) cached ≡ some free
unfolding program
found_at = refl

find_allocation_sound_example :
    (rs : List Range) × (m : ℕ) × (dict_get (value rx) cached ≡ some rs)
    × (fragment_size 0xc0 none ≡ ok m)
    × (total taken ≡ 0xc0)
    × All (Fits 4 m none) taken
    × All (InsideOne rs) taken
    × (Disjoint rs → Disjoint taken)
find_allocation_sound_example = find_allocation_sound cached rx 0xc0 4 none none taken allocate_run

find_allocation_complete_example :
    (g : Range) × (find_allocation cached rx 0x40 4 none none ≡ ok (g ∷ []))
    × (range_length g ≡ 0x40)
unfolding program
find_allocation_complete_example =
    find_allocation_complete cached rx 0x40 4 none free (range 0x140 0x180) refl (omega arith)
      (omega arith) refl (omega arith) tt refl (inr (inr (inr (inr (inl (omega arith))))))

remove_allocation_exact_example :
    (ranges' : FreeSpaceRanges) × (out : List Range) × (remove_allocation_from_cached_free_ranges
        cached taken rx
      ≡ ok ranges')
    × (dict_get (value rx) ranges' ≡ some out)
    × ((v : ℕ) → covers out v ≡ (covers free v && not (covers taken v)))
    × ((k : ℕ) → k ≢ value rx → dict_get k ranges' ≡ dict_get k cached)
remove_allocation_exact_example =
    remove_allocation_exact cached taken rx free found_at (omega arith) free-Disjoint

no_double_allocation_example : (covers taken 0x90 && covers (range 0x80 0xa0 ∷ []) 0x90) ≡ false
no_double_allocation_example =
    no_double_allocation cached left rx free 0xc0 0x20 4 4 none none none none taken
      (range 0x80 0xa0 ∷ []) found_at (omega arith) free-Disjoint allocate_run remove_run again_run
      0x90

abbrev spaces : List (MemoryPermissions × Range)
spaces = (rx, range 0x20 0x40) ∷ (r, range 0 0x20) ∷ (rx, range 0x40 0x50) ∷ []

analyze_run : analyze spaces ≡ ok ((5, range 0x20 0x50 ∷ []) ∷ (4, range 0 0x20 ∷ []) ∷ [])
unfolding program
analyze_run = refl

analyze_exact_example :
    (out : FreeSpaceRanges) × (analyze spaces ≡ ok out)
    × ((p : MemoryPermissions) (v : ℕ)
        → covers (ranges_at (value p) out) v ≡ covers (with_permissions p spaces) v)
    × ((p : MemoryPermissions) → Disjoint (ranges_at (value p) out))
analyze_exact_example = analyze_exact spaces (omega arith)

-- the first case of test_allocation_modifier.py
abbrev space : FreeSpaceView
space = record { resource_id = 1; virtual_address = 0x80; size = 0x40; permissions = rx }

abbrev exact : Range
exact = range 0x80 0xc0

found-false_iff_example : (found rx exact space ≡ false) ↔ Missed exact space
unfolding end_vaddr
found-false_iff_example =
    found-false_iff rx exact space refl (omega arith) (omega arith) (omega arith) (omega arith)

found_overlaps_example :
    (value rx ≡ value rx)
    × (0x80 < 0xa0)
    × (0x80 < end_vaddr space)
    × (wholly_matches rx (range 0x80 0xa0) space ≡ true → (0x80 ≤ 0x80) × (end_vaddr space ≤ 0xa0))
unfolding program
found_overlaps_example = found_overlaps rx (range 0x80 0xa0) space (omega arith) refl

abbrev untouched : Modified
untouched = record { untagged = []; children = []; free_space_ranges = (5, []) ∷ [] }

exact_run : modify (space ∷ []) ((5, exact ∷ []) ∷ []) rx (exact ∷ []) ≡ ok untouched
unfolding program
exact_run = refl

modify_exact_fit_example : (untouched.untagged ≡ []) × (untouched.children ≡ [])
unfolding end_vaddr
modify_exact_fit_example =
    modify_exact_fit rx exact space ((5, exact ∷ []) ∷ []) untouched refl refl refl (omega arith)
      exact_run

abbrev allocated : AllocateResult
allocated = record {
  ranges = sort_by start_le taken;
  modified = record { untagged = []; children = []; free_space_ranges = left };
  free_space_ranges = left;
}

whole_run : allocate [] cached cached rx 0xc0 4 none none ≡ ok allocated
unfolding program allocate sort_by
whole_run = refl

allocate_exact_example :
    (m : ℕ) × (out : List Range) × (fragment_size 0xc0 none ≡ ok m)
    × (total allocated.ranges ≡ 0xc0)
    × All (Fits 4 m none) allocated.ranges
    × ((v : ℕ) → covers allocated.ranges v ≡ true → covers free v ≡ true)
    × (dict_get (value rx) allocated.free_space_ranges ≡ some out)
    × ((v : ℕ) → covers out v ≡ (covers free v && not (covers allocated.ranges v)))
    × ((k : ℕ) → k ≢ value rx → dict_get k allocated.free_space_ranges ≡ dict_get k cached)
allocate_exact_example =
    allocate_exact [] cached cached rx 0xc0 4 none none allocated free found_at (omega arith)
      free-Disjoint whole_run

abbrev region : MemoryRegion
region = record { resource_id = 3; virtual_address = 0x100; size = 0x20 }

abbrev part : Range
part = range 0x108 0x110

free_part_exact_example :
    (out : Freed) × (free_part region [] part rx (some (1 ∷ 2 ∷ [])) ≡ ok out)
    × (out.patch_offset + 0x100 ≡ 0x108)
    × (length out.patch_bytes ≡ range_length part)
    × (out.data_range.start ≡ out.patch_offset)
    × (out.data_range.end ≡ out.patch_offset + range_length part)
    × (out.virtual_address ≡ 0x108)
    × (out.virtual_address + out.size ≡ 0x110)
unfolding region_end range_length
free_part_exact_example =
    free_part_exact region [] part rx (some (1 ∷ 2 ∷ [])) (omega arith) (omega arith) (omega arith)
      (omega arith)

abbrev outer : MemoryRegion
outer = record { resource_id = 4; virtual_address = 0x80; size = 0x200 }

free_region_exact_example :
    (0x80 ≤ 0x100
      → 0x100 < region_end outer
      → region_end region ≤ region_end outer
      → (out : Freed) × (free_region region outer rx none ≡ ok out)
        × (out.patch_offset + 0x80 ≡ 0x100)
        × (length out.patch_bytes ≡ 0x20)
        × (out.data_range.start ≡ out.patch_offset)
        × (out.data_range.end ≡ out.patch_offset + 0x20)
        × (out.virtual_address ≡ 0x100)
        × (out.size ≡ 0x20))
    × (0x80 ≤ 0x100
        → 0x100 < region_end outer
        → region_end outer < region_end region
        → free_region region outer rx none ≡ err Error.modifier_error)
    × ((0x100 < 0x80) ⊎ (region_end outer ≤ 0x100)
        → free_region region outer rx none ≡ err Error.value_error)
free_region_exact_example = free_region_exact region outer rx none tt
