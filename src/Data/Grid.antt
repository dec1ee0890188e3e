-- ===== src/Data/Grid.antt =====
-- ofrak_core/ofrak/service/data_service.py: the sorted axes of `_DataRoot`, the search in them, and
-- the shift of a part of an axis. A point of a grid is a reference to a set of data ids, so that
-- the two grids can share it.
pub mod Search
pub mod Cut
pub mod Points
pub mod Deletion
use ofrak.Prelude.{
  ℕ, zero, suc, ◌+◌, Bool, Option, none, some, List, [], ◌∷◌, ◌++◌, length, get_elem?, take, drop,
  Result, ok, err, Error, ltb, leb, ◌==◌, if◌then◌else◌, any, Dict, dict_get, dict_set,
}

abbrev pub DataId : Type 0
DataId = ℕ

-- A reference to a set object.
abbrev pub SetRef : Type 0
SetRef = ℕ

-- `_GridYAxisT` and `_GridXAxisT`
abbrev pub Axis : Type 0 → Type 0
Axis T = List (ℕ × T)

abbrev pub Column : Type 0
Column = Axis SetRef

abbrev pub Grid : Type 0
Grid = Axis Column

-- The set objects by reference, and the next reference that is free.
pub record Heap : Type 0 where
  pub sets : Dict (List DataId)
  pub next_ref : SetRef

unfoldable pub ids_of : Heap → SetRef → List DataId
unfolding dict_get
ids_of heap ref = elim (dict_get ref heap.sets) [ none ↦ [] | some ids ↦ ids ]

unfoldable pub new_set : List DataId → Heap → SetRef × Heap
unfolding dict_set
new_set ids heap = (
  heap.next_ref,
  record { sets = dict_set heap.next_ref ids heap.sets; next_ref = heap.next_ref + 1 },
)

-- `x in s`
abbrev pub contains_id : DataId → List DataId → Bool
contains_id x = any (λ y. y == x)

-- `s.add(x)`
unfoldable pub set_add : DataId → List DataId → List DataId
set_add x s = if contains_id x s then s else s ++ x ∷ []

unfoldable pub set_union : List DataId → List DataId → List DataId
unfolding set_add
set_union a [] = a
set_union a (x ∷ xs) = set_union (set_add x a) xs

-- `s.remove(x)`, `d.pop(x)` of an id that is there
unfoldable pub set_remove : DataId → List DataId → List DataId
set_remove x [] = []
set_remove x (y ∷ s) = let rest = set_remove x s in if y == x then rest else y ∷ rest

module _ {T : Type 0} where
  -- The insertion points of `bisect` in a sorted axis.
  unfoldable pub bisect_left : Axis T → ℕ → ℕ
  bisect_left [] val = 0
  bisect_left ((key, _) ∷ axis) val =
      let further = bisect_left axis val in if ltb key val then suc further else 0

  unfoldable pub bisect_right : Axis T → ℕ → ℕ
  bisect_right [] val = 0
  bisect_right ((key, _) ∷ axis) val =
      let further = bisect_right axis val in if leb key val then suc further else 0

  unfoldable pub insert_at : ℕ → ℕ × T → Axis T → Axis T
  insert_at zero x axis = x ∷ axis
  insert_at (suc i) x [] = x ∷ []
  insert_at (suc i) x (y ∷ axis) = y ∷ insert_at i x axis

  unfoldable pub pop_at : ℕ → Axis T → Axis T
  pop_at i [] = []
  pop_at zero (y ∷ axis) = axis
  pop_at (suc i) (y ∷ axis) = y ∷ pop_at i axis

  unfoldable pub set_at : ℕ → ℕ × T → Axis T → Axis T
  set_at i x [] = []
  set_at zero x (y ∷ axis) = x ∷ axis
  set_at (suc i) x (y ∷ axis) = y ∷ set_at i x axis

  -- the value at an index whose key is the given one
  unfoldable pub value_at : Axis T → ℕ → ℕ → Option T
  value_at axis i key = elim (get_elem? axis i) [
    | none ↦ none
    | some (found, val) ↦ if found == key then some val else none
  ]

  unfoldable pub lower_index : Axis T → Option ℕ → Bool → ℕ
  unfolding bisect_left bisect_right
  lower_index axis none inclusive = 0
  lower_index axis (some minimum) inclusive =
      if inclusive then bisect_left axis minimum else bisect_right axis minimum

  unfoldable pub upper_index : Axis T → Option ℕ → Bool → ℕ
  unfolding bisect_left bisect_right
  upper_index axis none inclusive = length axis
  upper_index axis (some maximum) inclusive =
      if inclusive then bisect_right axis maximum else bisect_left axis maximum

  unfoldable pub iter_grid_axis : Axis T → Option ℕ → Option ℕ → Bool × Bool → Axis T
  unfolding lower_index upper_index
  iter_grid_axis axis minimum maximum (from, to) =
      drop (lower_index axis minimum from) (take (upper_index axis maximum to) axis)

-- The column at `x`, which is inserted where there is none, and the set at `(x, y)` in it, which is
-- `default` where there is none.
unfoldable pub column_set : Column → ℕ → SetRef → SetRef × Column
column_set column y default =
    let j = bisect_left column y in
    elim (value_at column j y) [
      | some ref ↦ (ref, column)
      | none ↦ (default, insert_at j (y, default) column)
    ]

unfoldable pub add_to_grid : Grid → ℕ → ℕ → SetRef → SetRef × Grid
add_to_grid grid x y default =
    let i = bisect_left grid x in
    elim (value_at grid i x) [
      | some column ↦
          let (ref, column') = column_set column y default in (ref, set_at i (x, column') grid)
      | none ↦ let (ref, column') = column_set [] y default in (ref, insert_at i (x, column') grid)
    ]

unfoldable pub remove_from_grid : Grid → ℕ → ℕ → Result Grid
remove_from_grid grid x y =
    let i = bisect_left grid x in
    elim (value_at grid i x) [
      | none ↦ err Error.key_error
      | some column ↦
          let j = bisect_left column y in
          elim (value_at column j y) [
            | none ↦ err Error.key_error
            | some _ ↦
                let column' = pop_at j column in
                ok (if length column' == 0 then pop_at i grid else set_at i (x, column') grid)
          ]
    ]

unfoldable pub get_ids_at : Grid → ℕ → ℕ → Result SetRef
get_ids_at grid start end = elim (value_at grid (bisect_left grid start) start) [
  | none ↦ err Error.key_error
  | some column ↦ elim (value_at column (bisect_left column end) end) [
    | none ↦ err Error.key_error
    | some ref ↦ ok ref
  ]
]
