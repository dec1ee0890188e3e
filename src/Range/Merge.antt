-- ===== src/Range/Merge.antt =====
-- `merge_ranges`: what the sweep over the sorted markers returns.
mod Counts
mod Sweep
use Counts.{
  Later, opens, closes, total_opens, total_closes, closes-le-opens, covers-counts, totals_eq,
  opens-sort, closes-sort, total_opens-sort, total_closes-sort, marker_le-Later, marker_gt-Later,
  Later-trans,
}
pub use Sweep.{Apart}
use Sweep.{Sweeps, merge_markers_lem}
use ofrak.Prelude.{
  ℕ, zero, suc, ◌+◌, ◌≤◌, ◌<◌, ◌≡◌, ◌↔◌, true, false, List, [], ◌∷◌, ok, arith, All, sort_by,
  sort-Pairwise, Pairwise, count-sort,
}
use ofrak.Range.{Range, Marker, IsValid, merge_ranges, range_bounds_markers, marker_le, covers}

All-zero-le : (ms : List Marker) → All (λ m. 0 ≤ m.0) ms
All-zero-le [] = tt
All-zero-le (m ∷ ms) = (omega arith, All-zero-le ms)

sorted_markers : List Range → List Marker
sorted_markers rs = sort_by marker_le (range_bounds_markers rs)

sorted_markers-Sweeps : (rs : List Range) → All IsValid rs → Sweeps (sorted_markers rs) 0 0 0
unfolding sorted_markers
sorted_markers-Sweeps rs h = record {
  sorted =
      sort-Pairwise marker_le Later marker_le-Later marker_gt-Later Later-trans
        (range_bounds_markers rs);
  ahead = All-zero-le (sorted_markers rs);
  begun = omega arith;
  never_below = λ v. omega (arith, closes-le-opens v rs h, opens-sort ms v, closes-sort ms v);
  balanced = omega (arith, totals_eq rs, total_opens-sort ms, total_closes-sort ms);
}
  where
    ms : List Marker
    ms = range_bounds_markers rs

-- Merging valid ranges never raises: the counter of the sweep does not drop below 0. The merged
-- ranges cover exactly the values that the given ones cover; they are valid, in ascending order,
-- and each ends below the start of the next one, so that no two of them touch.
pub merge_ranges_exact :
    (rs : List Range)
    → All IsValid rs
    → (out : List Range) × (merge_ranges rs ≡ ok out)
      × Apart 0 out
      × ((v : ℕ) → covers out v ≡ covers rs v)
unfolding merge_ranges sorted_markers
merge_ranges_exact rs h =
    let (out, w) = merge_markers_lem (sorted_markers rs) 0 0 0 (sorted_markers-Sweeps rs h) in
    (
      out,
      w.returns,
      w.apart,
      λ v. ground (
        arith,
        w.exact v,
        covers-counts v rs h,
        opens-sort (range_bounds_markers rs) v,
        closes-sort (range_bounds_markers rs) v,
      ),
    )
