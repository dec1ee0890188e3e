-- ===== src/Data/Shift.antt =====
-- ofrak_core/ofrak/service/data_service.py: `_shift_grid_axis`, `_merge_columns` and
-- `_resize_range`, which move the grids of a root when a range of its data changes its size. No
-- caller gives `_shift_grid_axis` a maximum, so that its end is the end of the axis.
pub mod LastPoint
use ofrak.Prelude.{
  ℕ, zero, suc, ◌-◌, Bool, true, false, ◌&&◌, not, Option, none, some, List, [], ◌∷◌, ◌++◌, map,
  length, get_elem?, Result, ok, err, Error, ◌>>=◌, ltb, ◌==◌, if◌then◌else◌,
}
use ofrak.Prelude.Int.{ℤ, pos, add_offset}
use ofrak.Range.{Range, range_length}
use ofrak.Data.Grid.{
  DataId, SetRef, Axis, Column, Grid, Heap, ids_of, new_set, set_union, lower_index, upper_index,
  iter_grid_axis, pop_at, set_at,
}

-- What the generator yields to `resize_range`: a child, and the shifts of its start and its end.
abbrev pub Shifted : Type 0
Shifted = DataId × (ℤ × ℤ)

-- A value that the loop body of the caller leaves behind, with what it yields on.
abbrev pub Visit : Type 0 → Type 0
Visit T = T → Heap → Result (List Shifted × (T × Heap))

module _ {T : Type 0} (merge : T → T → Heap → T × Heap) (visit : Visit T) (shift : ℤ) where
  -- The `while` loop from `min_i` on: the points before it stay.
  unfoldable pub shift_from : ℕ → Axis T → Heap → Result (List Shifted × (Axis T × Heap))
  shift_from min_i [] heap = ok ([], ([], heap))
  shift_from zero ((key, val) ∷ axis) heap = do
    (yielded, (val', heap')) ← visit val heap
    (later, (axis', heap'')) ← shift_from zero axis heap'
    ok (yielded ++ later, ((add_offset key shift, val') ∷ axis', heap''))
  shift_from (suc i) (point ∷ axis) heap = do
    (yielded, (axis', heap')) ← shift_from i axis heap
    ok (yielded, (point ∷ axis', heap'))

  -- The lowest shifted point becomes equal to the point before it: it is popped, handed to the
  -- caller, and merged into that point.
  unfoldable pub merge_lowest :
      ℕ → ℕ → T → T → Axis T → Heap → Result (List Shifted × (Axis T × Heap))
  unfolding shift_from pop_at set_at
  merge_lowest min_i post_shift_min val1 pre_yield axis heap = do
    (yielded, (pre, heap')) ← visit pre_yield heap
    let (merged, heap'') = merge val1 pre heap'
    let merged_axis = set_at (min_i - 1) (post_shift_min, merged) (pop_at min_i axis)
    (later, rest) ← shift_from min_i merged_axis heap''
    ok (yielded ++ later, rest)

  -- `min_i` lies strictly inside the axis: the shift must not pass the point before it.
  unfoldable pub shift_inside :
      ℕ → ℕ × T → ℕ × T → Axis T → Heap → Result (List Shifted × (Axis T × Heap))
  unfolding merge_lowest shift_from
  shift_inside min_i (previous, val1) (key, val) axis heap =
      let post_shift_min = add_offset key shift in
      if ltb post_shift_min previous
      then err Error.shift_breaks_sort
      else if post_shift_min == previous
      then merge_lowest min_i post_shift_min val1 val axis heap
      else shift_from min_i axis heap

  unfoldable pub shift_grid_axis :
      Axis T → Option ℕ → Bool → Heap → Result (List Shifted × (Axis T × Heap))
  unfolding shift_inside lower_index
  shift_grid_axis axis minimum inclusive heap =
      let min_i = lower_index axis minimum inclusive in
      if ltb 0 min_i && ltb min_i (length axis - 1)
      then elim (get_elem? axis (min_i - 1)) [
        | none ↦ err Error.index_error
        | some before ↦ elim (get_elem? axis min_i) [
          | none ↦ err Error.index_error
          | some lowest ↦ shift_inside min_i before lowest axis heap
        ]
      ]
      else shift_from min_i axis heap

-- `set.union` makes a new set.
unfoldable pub union_refs : SetRef → SetRef → Heap → SetRef × Heap
unfolding set_union ids_of new_set
union_refs a b heap = new_set (set_union (ids_of heap a) (ids_of heap b)) heap

-- `heapq.merge`: a point of the first column goes first where the keys are equal.
unfoldable pub merge_sorted : Column → Column → Column
merge_sorted [] ys = ys
merge_sorted xs [] = xs
merge_sorted ((j, a) ∷ xs) ((k, b) ∷ ys) = elim (ltb k j) [
  | true ↦ (k, b) ∷ merge_sorted ((j, a) ∷ xs) ys
  | false ↦ (j, a) ∷ merge_sorted xs ((k, b) ∷ ys)
]

-- `itertools.groupby`: the sets of the group at `key` that is open, and the rest. A group of one
-- keeps its set, a larger group has the new union of its sets.
unfoldable pub close_group : SetRef → List SetRef → Heap → SetRef × Heap
unfolding union_refs
close_group first [] heap = (first, heap)
close_group first (ref ∷ refs) heap =
    let (joined, heap') = union_refs first ref heap in close_group joined refs heap'

unfoldable pub group_points : ℕ → SetRef → List SetRef → Column → Heap → Column × Heap
unfolding close_group
group_points key first refs [] heap =
    let (ref, heap') = close_group first refs heap in ((key, ref) ∷ [], heap')
group_points key first refs ((k, ref) ∷ points) heap = elim (k == key) [
  | true ↦ group_points key first (refs ++ ref ∷ []) points heap
  | false ↦
      let (val, heap') = close_group first refs heap in
      let (column, heap'') = group_points k ref [] points heap' in ((key, val) ∷ column, heap'')
]

unfoldable pub merge_columns : Column → Column → Heap → Column × Heap
unfolding merge_sorted group_points
merge_columns col1 col2 heap = elim (merge_sorted col1 col2) [
  | [] ↦ ([], heap)
  | (key, ref) ∷ points ↦ group_points key ref [] points heap
]

-- a loop body that yields each id of the set with fixed shifts
unfoldable pub yield_ids : ℤ × ℤ → Visit SetRef
unfolding ids_of
yield_ids shifts ref heap = ok (map (λ x. (x, shifts)) (ids_of heap ref), (ref, heap))

-- `pass`
unfoldable pub pass_over : Visit SetRef
pass_over ref heap = ok ([], (ref, heap))

unfoldable pub yield_column : ℤ × ℤ → Column → Heap → List Shifted
unfolding ids_of
yield_column shifts [] heap = []
yield_column shifts ((_, ref) ∷ column) heap =
    map (λ x. (x, shifts)) (ids_of heap ref) ++ yield_column shifts column heap

module _ (resized : Range) (size_diff : ℤ) where
  -- the first loop's body, for the starts that end behind the range
  unfoldable pub visit_starts : Visit Column
  unfolding iter_grid_axis yield_column shift_grid_axis union_refs yield_ids
  visit_starts starts heap = do
    let before = iter_grid_axis starts none (some resized.end) (true, false)
    let only_end = yield_column (pos 0, size_diff) before heap
    (both, rest) ←
        shift_grid_axis union_refs (yield_ids (size_diff, size_diff)) size_diff starts
          (some resized.end) true heap
    ok (only_end ++ both, rest)

  -- The second loop: the ends behind the range, in the columns that start before it.
  unfoldable pub shift_columns : ℕ → Grid → Heap → Result (Grid × Heap)
  unfolding shift_grid_axis union_refs pass_over
  shift_columns n [] heap = ok ([], heap)
  shift_columns zero grid heap = ok (grid, heap)
  shift_columns (suc n) ((start, ends) ∷ grid) heap = do
    (_, (ends', heap')) ←
        shift_grid_axis union_refs pass_over size_diff ends (some resized.start) false heap
    (grid', heap'') ← shift_columns n grid heap'
    ok ((start, ends') ∷ grid', heap'')

  -- the third loop's body: all ends of a column that starts behind the range
  unfoldable pub visit_ends : Visit Column
  unfolding shift_grid_axis union_refs pass_over
  visit_ends ends heap = shift_grid_axis union_refs pass_over size_diff ends none true heap

  -- `_resize_range`, over the grids by starts and by ends
  unfoldable pub resize_grids : Grid → Grid → Heap → Result (List Shifted × (Grid × (Grid × Heap)))
  unfolding shift_grid_axis merge_columns visit_starts shift_columns visit_ends range_length
      upper_index
  resize_grids starts_first ends_first heap = do
    let sized = not (range_length resized == 0)
    (yielded, (ends_first', heap1)) ←
        shift_grid_axis merge_columns visit_starts size_diff ends_first (some resized.end) sized
          heap
    (starts1, heap2) ←
        shift_columns (upper_index starts_first (some resized.start) sized) starts_first heap1
    (_, (starts_first', heap3)) ←
        shift_grid_axis merge_columns visit_ends size_diff starts1 (some resized.end) true heap2
    ok (yielded, (starts_first', (ends_first', heap3)))
