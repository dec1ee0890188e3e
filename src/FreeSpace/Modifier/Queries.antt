-- ===== src/FreeSpace/Modifier/Queries.antt =====
-- Which free spaces the queries of the modifier find.
use ofrak.Prelude.{
  ◌+◌, ◌≤◌, ◌<◌, ◌≡◌, ◌⊎◌, inl, ◌↔◌, Bool, true, false, ◌||◌, [], ◌∷◌, ok, arith, sym, >>=-eq-ok,
}
use ofrak.Range.{Range}
use ofrak.FreeSpace.{
  MemoryPermissions, value, FreeSpaceRanges, remove_allocation_from_cached_free_ranges,
}
use ofrak.FreeSpace.Modifier.{
  FreeSpaceView, end_vaddr, wholly_matches, overlaps_end_matches, overlaps_start_matches,
  find_allocated, modify, Modified,
}

-- A free space is found by one of the three queries.
abbrev pub found : MemoryPermissions → Range → FreeSpaceView → Bool
found p alloc fs =
    wholly_matches p alloc fs
    || overlaps_end_matches p alloc fs
    || overlaps_start_matches p alloc fs

-- The free spaces that the queries pass over: those that start inside the allocation and end where
-- it ends, and those that start one byte before it and end inside it.
abbrev pub Missed : Range → FreeSpaceView → Type 0
Missed alloc fs =
    ((alloc.start ≤ fs.virtual_address) × (end_vaddr fs ≡ alloc.end))
    ⊎ ((fs.virtual_address + 1 ≡ alloc.start) × (end_vaddr fs ≤ alloc.end))

-- A free space of the same permissions that has a value in common with an allocation is found by
-- no query exactly if it starts inside the allocation and ends where the allocation ends, or
-- starts one byte before the allocation and ends no later than it.
pub found-false_iff :
    (p : MemoryPermissions) (alloc : Range) (fs : FreeSpaceView)
    → value fs.permissions ≡ value p
    → fs.virtual_address < alloc.end
    → alloc.start < end_vaddr fs
    → alloc.start < alloc.end
    → fs.virtual_address < end_vaddr fs
    → (found p alloc fs ≡ false) ↔ Missed alloc fs
unfolding wholly_matches overlaps_end_matches overlaps_start_matches
found-false_iff p alloc fs same a b c d = ground arith

-- For an allocation that is not empty, what a query finds has the permissions, starts before the
-- allocation ends and ends behind its start; what the query for wholly allocated resources finds
-- lies inside the allocation.
pub found_overlaps :
    (p : MemoryPermissions) (alloc : Range) (fs : FreeSpaceView)
    → alloc.start < alloc.end
    → found p alloc fs ≡ true
    → (value fs.permissions ≡ value p)
      × (fs.virtual_address < alloc.end)
      × (alloc.start < end_vaddr fs)
      × (wholly_matches p alloc fs ≡ true
          → (alloc.start ≤ fs.virtual_address) × (end_vaddr fs ≤ alloc.end))
unfolding wholly_matches overlaps_end_matches overlaps_start_matches
found_overlaps p alloc fs c h = ground arith

nothing_found :
    (p : MemoryPermissions) (alloc : Range) (fs : FreeSpaceView)
    → found p alloc fs ≡ false
    → find_allocated (fs ∷ []) p (alloc ∷ []) [] ≡ ok ([], [])
unfolding find_allocated
nothing_found p alloc fs h = ground arith

-- Where one resource of positive size is the only free space, and the one allocation has its
-- permissions, its start and its end, a modifier that returns untags nothing and creates nothing:
-- the allocated resource keeps its tag `FreeSpace`.
pub modify_exact_fit :
    (p : MemoryPermissions) (alloc : Range) (fs : FreeSpaceView) (ranges : FreeSpaceRanges)
    (m : Modified)
    → value fs.permissions ≡ value p
    → alloc.start ≡ fs.virtual_address
    → alloc.end ≡ end_vaddr fs
    → fs.virtual_address < end_vaddr fs
    → modify (fs ∷ []) ranges p (alloc ∷ []) ≡ ok m
    → (m.untagged ≡ []) × (m.children ≡ [])
unfolding modify
modify_exact_fit p alloc fs ranges m same a b c h =
    let miss =
      (found-false_iff p alloc fs same (omega arith) (omega arith) (omega arith) c).1
        (inl (omega arith, sym b)) in
    let h' = rw (nothing_found p alloc fs miss, modify) at h in
    let (cached, _, e) =
      >>=-eq-ok (remove_allocation_from_cached_free_ranges ranges (alloc ∷ []) p) _ h' in
    (ground (arith, e), ground (arith, e))
