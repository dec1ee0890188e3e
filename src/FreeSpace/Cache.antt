-- ===== src/FreeSpace/Cache.antt =====
-- The cached free ranges: how the analyzer builds them and how an allocation leaves them.
use ofrak.Prelude.{
  ℕ, ◌≡◌, ◌≢◌, refl, true, false, not, ◌&&◌, Option, some, List, [], ◌∷◌, ok, arith, All, inl, inr,
  any-sort, dict_get, dict_set, ◌∙◌, get-set_self, get-set_ne,
}
use ofrak.Range.{Range, covers, contains_value}
use ofrak.Range.Remove.{Disjoint, NonEmpty, remove_subranges_exact}
use ofrak.FreeSpace.{
  FreeSpaceRanges, MemoryPermissions, value, size_then_start, sort_free_ranges, find_allocation,
  remove_allocation_from_cached_free_ranges,
}
use ofrak.FreeSpace.Allocation.{InsideOne, find_allocation_sound}

covers-sort : (rs : List Range) (v : ℕ) → covers (sort_free_ranges rs) v ≡ covers rs v
unfolding sort_free_ranges covers
covers-sort rs v = any-sort size_then_start (λ r. contains_value r v) rs

covers-nil : (v : ℕ) → covers [] v ≡ false
unfolding covers
covers-nil v = refl

-- Where ranges are cached for the permissions, none of them empty and no two of them overlapping, an
-- allocation takes exactly its values out of them, and leaves the ranges of all other permissions
-- as they are.
pub remove_allocation_exact :
    (ranges : FreeSpaceRanges) (fs : List Range) (p : MemoryPermissions) (rs : List Range)
    → dict_get (value p) ranges ≡ some rs
    → All NonEmpty rs
    → Disjoint rs
    → (ranges' : FreeSpaceRanges) × (out : List Range) × (remove_allocation_from_cached_free_ranges
          ranges fs p
        ≡ ok ranges')
      × (dict_get (value p) ranges' ≡ some out)
      × ((v : ℕ) → covers out v ≡ (covers rs v && not (covers fs v)))
      × ((k : ℕ) → k ≢ value p → dict_get k ranges' ≡ dict_get k ranges)
unfolding remove_allocation_from_cached_free_ranges
remove_allocation_exact ranges [] p rs e n d =
    (ranges, rs, refl, e, λ v. ground (arith, covers-nil v), λ k h. refl)
remove_allocation_exact ranges (f ∷ fs) p rs e n d =
    let (out, r, x) = remove_subranges_exact rs (f ∷ fs) n d in
    let key = value p in
    (
      dict_set key (sort_free_ranges out) ranges,
      sort_free_ranges out,
      rw (e, remove_allocation_from_cached_free_ranges, r),
      get-set_self key (sort_free_ranges out) ranges,
      λ v. covers-sort out v ∙ x v,
      λ k h. get-set_ne key k (sort_free_ranges out) ranges h,
    )

InsideOne-covers :
    (rs : List Range) (f : Range) (v : ℕ)
    → InsideOne rs f
    → contains_value f v ≡ true
    → covers rs v ≡ true
unfolding covers contains_value
InsideOne-covers [] f v h k = absurd h
InsideOne-covers (r ∷ rs) f v (inl h) k = ground arith
InsideOne-covers (r ∷ rs) f v (inr h) k = ground (arith, InsideOne-covers rs f v h k)

pub All-inside-covers :
    (rs fs : List Range) (v : ℕ) → All (InsideOne rs) fs → covers fs v ≡ true → covers rs v ≡ true
unfolding covers
All-inside-covers rs [] v h k = cc
All-inside-covers rs (f ∷ fs) v h k =
    ground (arith, InsideOne-covers rs f v h.0, All-inside-covers rs fs v h.1)

-- Once an allocation is taken out of the cached free ranges, of which none was empty and no two
-- overlapped, the next allocation with the same permissions returns none of its values.
pub no_double_allocation :
    (ranges ranges' : FreeSpaceRanges) (p : MemoryPermissions) (rs : List Range)
    (size size' a a' : ℕ) (min_size min_size' : Option ℕ) (w w' : Option Range) (fs gs : List Range)
    → dict_get (value p) ranges ≡ some rs
    → All NonEmpty rs
    → Disjoint rs
    → find_allocation ranges p size a min_size w ≡ ok fs
    → remove_allocation_from_cached_free_ranges ranges fs p ≡ ok ranges'
    → find_allocation ranges' p size' a' min_size' w' ≡ ok gs
    → (v : ℕ) → (covers fs v && covers gs v) ≡ false
no_double_allocation ranges ranges' p rs size size' a a' m m' w w' fs gs e n d f r g v =
    let (after, out, r', e', x, _) = remove_allocation_exact ranges fs p rs e n d in
    let (rs', _, e'', _, _, _, inside, _) = find_allocation_sound ranges' p size' a' m' w' gs g in
    let same : after ≡ ranges' = cc (r, r') in
    let here : out ≡ rs' = cc (e', e'', same) in
    ground (arith, x v, rw (← here) at (All-inside-covers rs' gs v inside))
