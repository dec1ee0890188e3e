-- ===== src/FreeSpace/Allocate/Exact.antt =====
-- ofrak_core/ofrak/core/free_space.py, `Allocatable.allocate`: what it returns and what it leaves in
-- the cached free ranges.
use ofrak.Prelude.{
  ℕ, ◌≡◌, refl, true, not, ◌&&◌, Option, some, List, [], ◌∷◌, arith, All, All-sort, any-sort,
  Result, ok, err, dict_get, sort_by, insert_by, >>=-eq-ok, ◌∙◌, sym, ap, subst, ◌≢◌,
}
use ofrak.Range.{Range, covers, contains_value, start_le}
use ofrak.Range.Remove.{Disjoint, NonEmpty}
use ofrak.FreeSpace.{
  FreeSpaceRanges, MemoryPermissions, value, fragment_size, find_allocation,
  remove_allocation_from_cached_free_ranges,
}
use ofrak.FreeSpace.Allocation.{Fits, InsideOne, total, find_allocation_sound}
use ofrak.FreeSpace.Cache.{remove_allocation_exact, All-inside-covers}
use ofrak.FreeSpace.Modifier.{FreeSpaceView, modify}
use ofrak.FreeSpace.Allocate.{AllocateResult, allocate}

total-insert : (r : Range) (rs : List Range) → total (insert_by start_le r rs) ≡ total (r ∷ rs)
unfolding insert_by
total-insert r [] = refl
total-insert r (s ∷ rs) = ground (arith, total-insert r rs)

total-sort : (rs : List Range) → total (sort_by start_le rs) ≡ total rs
unfolding sort_by
total-sort [] = refl
total-sort (r ∷ rs) = ground (arith, total-insert r (sort_by start_le rs), total-sort rs)

covers-start_sort : (rs : List Range) (v : ℕ) → covers (sort_by start_le rs) v ≡ covers rs v
unfolding covers
covers-start_sort rs v = any-sort start_le (λ r. contains_value r v) rs

-- What a call that returns has computed.
allocate-parts :
    (views : List FreeSpaceView) (view_ranges ranges : FreeSpaceRanges) (p : MemoryPermissions)
    (size a : ℕ) (min_size : Option ℕ) (w : Option Range) (x : AllocateResult)
    → allocate views view_ranges ranges p size a min_size w ≡ ok x
    → (fs : List Range) × (find_allocation ranges p size a min_size w ≡ ok fs)
      × (remove_allocation_from_cached_free_ranges ranges fs p ≡ ok x.free_space_ranges)
      × (sort_by start_le fs ≡ x.ranges)
unfolding allocate
allocate-parts views view_ranges ranges p size a min_size w x h =
    let (fs, e, k) = >>=-eq-ok (find_allocation ranges p size a min_size w) _ h in
    let (modified, e', k') = >>=-eq-ok (modify views view_ranges p fs) _ k in
    let (cached, e'', k'') =
      >>=-eq-ok (remove_allocation_from_cached_free_ranges ranges fs p) _ k' in
    let same = ap (λ (r : Result AllocateResult). elim r [ err _ ↦ x | ok y ↦ y ]) k'' in
    (
      fs,
      e,
      e'' ∙ ap (λ (y : AllocateResult). ok y.free_space_ranges) same,
      ap (λ (y : AllocateResult). y.ranges) same,
    )

-- Where no cached free range of the permissions is empty and no two overlap, a call of `allocate`
-- that returns gives ranges of the requested size together, each with the asked alignment, size and
-- window and all of them free before. Afterwards the cached free ranges of the permissions cover
-- exactly what they covered without the returned ranges, and those of all others are as before.
pub allocate_exact :
    (views : List FreeSpaceView) (view_ranges ranges : FreeSpaceRanges) (p : MemoryPermissions)
    (size a : ℕ) (min_size : Option ℕ) (w : Option Range) (x : AllocateResult) (rs : List Range)
    → dict_get (value p) ranges ≡ some rs
    → All NonEmpty rs
    → Disjoint rs
    → allocate views view_ranges ranges p size a min_size w ≡ ok x
    → (m : ℕ) × (out : List Range) × (fragment_size size min_size ≡ ok m)
      × (total x.ranges ≡ size)
      × All (Fits a m w) x.ranges
      × ((v : ℕ) → covers x.ranges v ≡ true → covers rs v ≡ true)
      × (dict_get (value p) x.free_space_ranges ≡ some out)
      × ((v : ℕ) → covers out v ≡ (covers rs v && not (covers x.ranges v)))
      × ((k : ℕ) → k ≢ value p → dict_get k x.free_space_ranges ≡ dict_get k ranges)
allocate_exact views view_ranges ranges p size a min_size w x rs at n d h =
    let (fs, e, e', s) = allocate-parts views view_ranges ranges p size a min_size w x h in
    let (rs', m, at', em, t, fit, inside, _) =
      find_allocation_sound ranges p size a min_size w fs e in
    let (ranges', out, r, out_at, exact, others) = remove_allocation_exact ranges fs p rs at n d in
    let same : ranges' ≡ x.free_space_ranges = cc (r, e') in
    let here : rs' ≡ rs = cc (at, at') in
    let sorted : (v : ℕ) → covers x.ranges v ≡ covers fs v =
      λ v. subst (λ fs'. covers fs' v ≡ covers fs v) s (covers-start_sort fs v) in
    (
      m,
      out,
      em,
      subst (λ fs'. total fs' ≡ size) s (total-sort fs ∙ t),
      subst (λ fs'. All (Fits a m w) fs') s (All-sort start_le (Fits a m w) fs fit),
      λ v k.
          All-inside-covers rs fs v (subst (λ q. All (InsideOne q) fs) here inside)
            (sym (sorted v) ∙ k),
      subst (λ c. dict_get (value p) c ≡ some out) same out_at,
      λ v. ground (arith, exact v, sorted v),
      λ k i. subst (λ c. dict_get k c ≡ dict_get k ranges) same (others k i),
    )
