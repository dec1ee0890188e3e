-- ===== src/Data/Shift/LastPoint.antt =====
-- ofrak_core/ofrak/service/data_service.py, `_shift_grid_axis`: a shift down onto the point before,
-- of the last point of an axis and of one before the last.
use ofrak.Prelude.{ℕ, suc, ◌+◌, ◌-◌, ◌<◌, ◌≡◌, ◌||◌, true, some, [], ◌∷◌, arith, ok}
use ofrak.Prelude.Int.{neg}
use ofrak.Data.Grid.{
  DataId, SetRef, Heap, ids_of, contains_id, lower_index, bisect_left, set_at, pop_at,
}
use ofrak.Data.Grid.Search.{Above}
use ofrak.Data.Root.Sets.{ids_of-union}
use ofrak.Data.Shift.{
  union_refs, pass_over, shift_grid_axis, shift_inside, shift_from, merge_lowest,
}

-- Where the second of two points is shifted down onto the first and is the last of its axis, the two
-- are not merged: the axis has the key twice, and is no longer sorted. Where a third point follows,
-- the two are merged into one with the union of their sets:
-- the set of that point has exactly the ids of both.
pub last_point_unmerged :
    (j d : ℕ) (a b : SetRef) (heap : Heap)
    → (shift_grid_axis union_refs pass_over
          (neg (suc d))
          ((j, a) ∷ (j + suc d, b) ∷ [])
          (some (j + suc d))
          true
          heap
        ≡ ok ([], ((j, a) ∷ (j, b) ∷ [], heap)))
      × (Above 0 ((j, a) ∷ (j, b) ∷ []) → ⊥)
      × ((k : ℕ) (c : SetRef)
          → j + suc d < k
          → (u : SetRef) × (heap' : Heap) × (shift_grid_axis union_refs pass_over
                (neg (suc d))
                ((j, a) ∷ (j + suc d, b) ∷ (k, c) ∷ [])
                (some (j + suc d))
                true
                heap
              ≡ ok ([], ((j, u) ∷ (k - suc d, c) ∷ [], heap')))
            × ((x : DataId)
                → contains_id x (ids_of heap' u)
                  ≡ (contains_id x (ids_of heap a) || contains_id x (ids_of heap b))))
unfolding shift_grid_axis shift_inside merge_lowest lower_index bisect_left shift_from pass_over
    set_at pop_at
last_point_unmerged j d a b heap = (
  ground arith,
  λ h. omega arith,
  λ k c l. ((union_refs a b heap).0, (union_refs a b heap).1, ground arith, ids_of-union a b heap),
)
