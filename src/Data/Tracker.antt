-- ===== src/Data/Tracker.antt =====
-- ofrak_core/ofrak/service/data_service.py: `_PatchResizeTracker`.
pub mod Shifts
use ofrak.Prelude.{
  ℕ, Bool, ◌||◌, Option, none, some, List, [], ◌∷◌, ◌++◌, any, Result, ok, err, Error, ◌>>=◌, leb,
  ◌==◌, if◌then◌else◌,
}
use ofrak.Prelude.Int.{ℤ, pos, ◌+ℤ◌}
use ofrak.Range.{Range, mk_range, overlaps}

-- `resizing_shifts` holds `[offset, shift]`, sorted by the offset.
pub record Tracker : Type 0 where
  pub resizing_shifts : List (ℕ × ℤ)
  pub resized_ranges : List Range

abbrev pub new_tracker : Tracker
new_tracker = record { resizing_shifts = (0, pos 0) ∷ []; resized_ranges = [] }

unfoldable pub overlaps_resized_range : Tracker → Range → Bool
unfolding overlaps
overlaps_resized_range tracker r =
    any (λ resized. overlaps resized r || resized.start == r.start) tracker.resized_ranges

-- The shift of the last node at or before a point; `none` is the failed assertion.
unfoldable pub last_shift : ℕ → List (ℕ × ℤ) → Option ℤ
last_shift point [] = none
last_shift point ((offset, shift) ∷ nodes) =
    let later = last_shift point nodes in
    if leb offset point then elim later [ none ↦ some shift | some s ↦ some s ] else none

-- `point + shift`. The code goes on with a sum below zero, which is no offset of the model.
unfoldable pub shift_point : ℕ → ℤ → Result ℕ
shift_point point shift = elim (pos point +ℤ shift) [
  | ℤ.pos n ↦ ok n
  | ℤ.negsuc _ ↦ err Error.below_zero
]

unfoldable pub get_shifted_point : Tracker → ℕ → Result ℕ
unfolding last_shift shift_point
get_shifted_point tracker point = elim (last_shift point tracker.resizing_shifts) [
  | none ↦ err Error.assertion_error
  | some shift ↦ shift_point point shift
]

unfoldable pub translate_range : Tracker → Range → Result Range
unfolding get_shifted_point mk_range
translate_range tracker r = do
  start ← get_shifted_point tracker r.start
  end ← get_shifted_point tracker r.end
  mk_range start end

unfoldable pub grow_shifts : ℤ → List (ℕ × ℤ) → List (ℕ × ℤ)
grow_shifts size_diff [] = []
grow_shifts size_diff ((offset, shift) ∷ nodes) =
    (offset, shift +ℤ size_diff) ∷ grow_shifts size_diff nodes

-- The nodes behind `end` grow by `size_diff`, and a new node at `end` stands before them: it has
-- the shift of the node before it, and `size_diff` more.
unfoldable pub add_node : ℕ → ℤ → ℤ → List (ℕ × ℤ) → List (ℕ × ℤ)
unfolding grow_shifts
add_node end size_diff before [] = (end, before +ℤ size_diff) ∷ []
add_node end size_diff before ((offset, shift) ∷ nodes) =
    if leb offset end
    then (offset, shift) ∷ add_node end size_diff shift nodes
    else (end, before +ℤ size_diff) ∷ grow_shifts size_diff ((offset, shift) ∷ nodes)

unfoldable pub add_new_resized_range : Tracker → Range → ℤ → Tracker
unfolding add_node
add_new_resized_range tracker r size_diff = record {
  resizing_shifts = add_node r.end size_diff (pos 0) tracker.resizing_shifts;
  resized_ranges = tracker.resized_ranges ++ r ∷ [];
}
