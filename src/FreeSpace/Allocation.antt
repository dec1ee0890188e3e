-- ===== src/FreeSpace/Allocation.antt =====
-- What `_allocate` returns: aligned pieces of the free ranges, of the requested size together.
mod Piece
mod Loop
mod Found
pub use Piece.{SubOf, InWindow, InsideOne}
pub use Loop.{Fits, total}
use Loop.{Allocated, allocate_from_lem}
use Found.{allocate_loop_finds}
use ofrak.Prelude.{
  ℕ, zero, suc, ◌%◌, ◌<◌, ◌≡◌, refl, Option, none, some, List, [], ◌∷◌, ok, err, Error, arith, All,
  Pairwise, dict_get, Option-cases, inl, inr,
}
use ofrak.Range.{Range, IsValid, range_length, overlaps}
use ofrak.Range.Remove.{Disjoint}
use ofrak.FreeSpace.{
  FreeSpaceRanges, MemoryPermissions, value, fragment_size, allocate_from, find_allocation,
}

find_allocation-from :
    (ranges : FreeSpaceRanges) (p : MemoryPermissions) (size a : ℕ) (min_size : Option ℕ)
    (w : Option Range) (fs : List Range)
    → find_allocation ranges p size a min_size w ≡ ok fs
    → (rs : List Range) × (dict_get (value p) ranges ≡ some rs)
      × (allocate_from rs size a min_size w ≡ ok fs)
unfolding find_allocation
find_allocation-from ranges p size a min_size w fs h =
    elim (Option-cases (dict_get (value p) ranges)) [
      | inl e ↦ absurd (ground (arith, rw (e, find_allocation) at h))
      | inr ([], e) ↦ absurd (ground (arith, rw (e, find_allocation) at h))
      | inr (r ∷ rs, e) ↦ (r ∷ rs, e, rw (e, find_allocation) at h)
    ]

-- An allocation comes from the free ranges of the requested permissions. Its pieces have the
-- requested size together; each lies inside one of the free ranges and inside the given window,
-- starts at a multiple of the alignment and has at least the minimum fragment size (the requested
-- size, where no minimum is given). Where no two free ranges overlap, no two pieces do.
pub find_allocation_sound :
    (ranges : FreeSpaceRanges) (p : MemoryPermissions) (size a : ℕ) (min_size : Option ℕ)
    (w : Option Range) (fs : List Range)
    → find_allocation ranges p size a min_size w ≡ ok fs
    → (rs : List Range) × (m : ℕ) × (dict_get (value p) ranges ≡ some rs)
      × (fragment_size size min_size ≡ ok m)
      × (total fs ≡ size)
      × All (Fits a m w) fs
      × All (InsideOne rs) fs
      × (Disjoint rs → Disjoint fs)
find_allocation_sound ranges p size a min_size w fs h =
    let (rs, e, k) = find_allocation-from ranges p size a min_size w fs h in
    let (m, em, al) = allocate_from_lem rs size a min_size w fs k in
    (rs, m, e, em, omega (arith, al.exact), al.fit, al.inside, al.apart)

-- With no minimum fragment size and a positive alignment, a request of positive size succeeds with
-- one piece of the requested size whenever some range of that size lies inside a free range of the permissions and
-- inside the window and starts at a multiple of the alignment.
pub find_allocation_complete :
    (ranges : FreeSpaceRanges) (p : MemoryPermissions) (size a : ℕ) (w : Option Range)
    (rs : List Range) (f : Range)
    → dict_get (value p) ranges ≡ some rs
    → 0 < a
    → 0 < size
    → range_length f ≡ size
    → IsValid f
    → InWindow w f
    → f.start % a ≡ 0
    → InsideOne rs f
    → (g : Range) × (find_allocation ranges p size a none w ≡ ok (g ∷ [])) × (range_length g ≡ size)
unfolding find_allocation allocate_from fragment_size
find_allocation_complete ranges p zero a w rs f d q k l v i e s = absurd (omega arith)
find_allocation_complete ranges p (suc n) a w [] f d q k l v i e s = absurd s
find_allocation_complete ranges p (suc n) a w (r ∷ rs) f d q k l v i e s =
    let (g, h) = allocate_loop_finds a n w (r ∷ rs) f q l i v e s in
    let found : find_allocation ranges p (suc n) a none w ≡ ok (g ∷ []) =
      rw (d, find_allocation, h, allocate_from) in
    let (_, _, _, _, size, _, _, _) =
      find_allocation_sound ranges p (suc n) a none w (g ∷ []) found in
    (g, found, omega (arith, size))
