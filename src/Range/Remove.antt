-- ===== src/Range/Remove.antt =====
-- `remove_subranges`: the values that are left, and the rounds that the loop makes.
mod Order
mod Cases
pub use Order.{NonEmpty, Disjoint, overlaps_symm}
use Order.{Ascending, Sorted, rounds, Sorted-Ascending, All-above_zero, start_le-le, start_gt-le}
use Cases.{
  Case, skip, keep, left, right, drop, case_of, Removed, skip_last, skip_next, keep_last, keep_next,
  cut_left, cut_right, drop_last, drop_next,
}
use ofrak.Prelude.{
  ℕ, zero, suc, ◌+◌, ◌*◌, ◌≤◌, ◌<◌, ◌≡◌, refl, Bool, true, false, not, ◌&&◌, List, [], ◌∷◌, ok,
  arith, All, All-sort, Pairwise, Pairwise-sort, sort-Pairwise, length-sort, any-sort, sort_by,
  length, leb,
}
use ofrak.Range.{
  Range, IsValid, remove_sorted, remove_subranges, start_le, covers, overlaps, contains_value,
}

-- The fuel is enough, and what is left is what should be.
remove_loop_lem :
    (fuel : ℕ) (c : Range) (rs : List Range) (t : Range) (ts : List Range)
    → rounds c rs t ts ≤ fuel
    → Ascending c.start (c ∷ rs)
    → Sorted (t ∷ ts)
    → Case c t
    → (out : List Range) × Removed fuel c rs t ts out
remove_loop_lem zero c rs t ts h a s k = absurd (ground arith)
remove_loop_lem (suc fuel) c rs t [] h a s (skip e) = (c ∷ rs, skip_last fuel c rs t [] e a)
remove_loop_lem (suc fuel) c rs t (n ∷ ts) h a s (skip e) =
    let (out, r) = remove_loop_lem fuel c rs n ts (ground arith) a s.1 (case_of c n) in
    (out, skip_next fuel c rs t ts n out e a r)
remove_loop_lem (suc fuel) c [] t ts h a s (keep e f) = (c ∷ [], keep_last fuel c [] t ts e f s)
remove_loop_lem (suc fuel) c (n ∷ rs) t ts h a s (keep e f) =
    let (out, r) =
      remove_loop_lem fuel n rs t ts (ground arith) (omega arith, a.2.1, a.2.2) s (case_of n t) in
    (c ∷ out, keep_next fuel c rs t ts n out e f s r)
remove_loop_lem (suc fuel) c rs t ts h a s (left e f g) =
    let d : Range = record { start = t.start; end = c.end } in
    let (out, r) =
      remove_loop_lem fuel d rs t ts (ground arith) (omega arith, ground arith, a.2) s
        (case_of d t) in
    (record { start = c.start; end = t.start } ∷ out, cut_left fuel c rs t ts out e f g s r)
remove_loop_lem (suc fuel) c rs t ts h a s (right e f g i) =
    let d : Range = record { start = t.end; end = c.end } in
    let (out, r) =
      remove_loop_lem fuel d rs t ts (ground arith) (omega arith, ground arith, a.2) s
        (case_of d t) in
    (out, cut_right fuel c rs t ts out e f g i r)
remove_loop_lem (suc fuel) c [] t ts h a s (drop e f g i) = ([], drop_last fuel c [] t ts e f g i)
remove_loop_lem (suc fuel) c (n ∷ rs) t ts h a s (drop e f g i) =
    let (out, r) =
      remove_loop_lem fuel n rs t ts (ground arith) (omega arith, a.2.1, a.2.2) s (case_of n t) in
    (out, drop_next fuel c rs t ts n out e f g i r)

remove_sorted_lem :
    (rs ts : List Range)
    → Ascending 0 rs
    → Sorted ts
    → (out : List Range) × (remove_sorted rs ts ≡ ok out)
      × ((v : ℕ) → covers out v ≡ (covers rs v && not (covers ts v)))
unfolding remove_sorted covers
remove_sorted_lem [] ts a s = ([], refl, λ v. refl)
remove_sorted_lem (r ∷ rs) [] a s = (r ∷ rs, refl, λ v. ground arith)
remove_sorted_lem (r ∷ rs) (t ∷ ts) a s =
    let (out, w) =
      remove_loop_lem (3 * (length (r ∷ rs) + length (t ∷ ts))) r rs t ts (ground arith)
        (omega arith, a.1, a.2) s (case_of r t) in
    (out, w.returns, w.exact)

sort-Sorted : (rs : List Range) → Sorted (sort_by start_le rs)
sort-Sorted =
    sort-Pairwise start_le (λ r s. r.start ≤ s.start) start_le-le start_gt-le
      (λ r s t h k. omega arith)

sort-Ascending :
    (rs : List Range) → All NonEmpty rs → Disjoint rs → Ascending 0 (sort_by start_le rs)
sort-Ascending rs n d =
    Sorted-Ascending 0 (sort_by start_le rs) (All-above_zero (sort_by start_le rs)) (sort-Sorted rs)
      (Pairwise-sort start_le (λ r s. overlaps r s ≡ false) overlaps_symm rs d)
      (All-sort start_le NonEmpty rs n)

covers-sort : (rs : List Range) (v : ℕ) → covers (sort_by start_le rs) v ≡ covers rs v
unfolding covers
covers-sort rs v = any-sort start_le (λ r. contains_value r v) rs

-- For ranges of which none is empty and no two overlap, and any ranges to remove, the loop ends
-- within its fuel and never builds an invalid range, and the returned ranges cover exactly the
-- values of the first list that no range of the second holds.
pub remove_subranges_exact :
    (rs ts : List Range)
    → All NonEmpty rs
    → Disjoint rs
    → (out : List Range) × (remove_subranges rs ts ≡ ok out)
      × ((v : ℕ) → covers out v ≡ (covers rs v && not (covers ts v)))
unfolding remove_subranges covers
remove_subranges_exact [] ts n d = ([], refl, λ v. refl)
remove_subranges_exact (r ∷ rs) [] n d = (r ∷ rs, refl, λ v. ground arith)
remove_subranges_exact (r ∷ rs) (t ∷ ts) n d =
    let (out, e, x) =
      remove_sorted_lem (sort_by start_le (r ∷ rs)) (sort_by start_le (t ∷ ts))
        (sort-Ascending (r ∷ rs) n d) (sort-Sorted (t ∷ ts)) in
    (out, e, λ v. ground (arith, x v, covers-sort (r ∷ rs) v, covers-sort (t ∷ ts) v))
