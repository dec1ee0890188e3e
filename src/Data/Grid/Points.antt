-- ===== src/Data/Grid/Points.antt =====
-- ofrak_core/ofrak/service/data_service.py, `_add_to_grid`, `_remove_from_grid` and `_get_ids_at`:
-- the sorted two-dimensional arrays as a map from points to sets.
use ofrak.Prelude.{
  ℕ, ◌≡◌, refl, ◌&&◌, Option, none, some, [], arith, ok, err, Error, ◌==◌, if◌then◌else◌,
  Option-cases, inl, inr,
}
use ofrak.Data.Grid.{
  SetRef, Column, Grid, bisect_left, insert_at, set_at, column_set, add_to_grid, get_ids_at,
}
use ofrak.Data.Grid.Search.{
  find_key, Above, value_at-find, find-insert, insert-Above, find-set, set-Above,
}

-- The set at a point of a grid.
unfoldable pub grid_at : Grid → ℕ → ℕ → Option SetRef
grid_at grid x y = elim (find_key grid x) [ none ↦ none | some column ↦ find_key column y ]

pub record SortedGrid (grid : Grid) : Type 0 where
  pub columns : Above 0 grid
  pub points : (x : ℕ) (column : Column) → find_key grid x ≡ some column → Above 0 column

abbrev pub or_default : SetRef → Option SetRef → SetRef
or_default default none = default
or_default default (some ref) = ref

-- The search for a point finds what the grid holds there, and raises where it holds nothing.
pub get_ids_at_lem :
    (grid : Grid) (x y : ℕ)
    → SortedGrid grid
    → get_ids_at grid x y
      ≡ elim (grid_at grid x y) [ none ↦ err Error.key_error | some ref ↦ ok ref ]
unfolding get_ids_at grid_at
get_ids_at_lem grid x y s = elim (Option-cases (find_key grid x)) [
  | inl e ↦ rw (value_at-find 0 x grid s.columns, e, get_ids_at, grid_at) refl
  | inr (column, e) ↦
      rw
        (
          value_at-find 0 x grid s.columns,
          e,
          value_at-find 0 y column (s.points x column e),
          get_ids_at,
          grid_at,
        )
        refl
]

-- What `column_set` returns.
record ColumnSet (column : Column) (y : ℕ) (default : SetRef) : Type 0 where
  set : (column_set column y default).0 ≡ or_default default (find_key column y)
  sorted : Above 0 (column_set column y default).1
  found :
      (m : ℕ)
      → find_key (column_set column y default).1 m
        ≡ (if y == m then some (or_default default (find_key column y)) else find_key column m)

column_set_lem :
    (column : Column) (y : ℕ) (default : SetRef) → Above 0 column → ColumnSet column y default
unfolding column_set
column_set_lem column y default h = elim (Option-cases (find_key column y)) [
  | inl e ↦ record {
    set = rw (value_at-find 0 y column h, e, column_set) refl;
    sorted =
        rw (value_at-find 0 y column h, e, column_set)
          (insert-Above 0 y default column h (omega arith) e);
    found =
        λ m. rw (value_at-find 0 y column h, e, column_set) (find-insert 0 y m default column h);
  }
  | inr (ref, e) ↦ record {
    set = rw (value_at-find 0 y column h, e, column_set) refl;
    sorted = rw (value_at-find 0 y column h, e, column_set) h;
    found = λ m. rw (value_at-find 0 y column h, e, column_set) (ground arith);
  }
]

grid_at-none :
    (grid : Grid) (x y : ℕ) → find_key grid x ≡ none → grid_at grid x y ≡ find_key {T = SetRef} [] y
unfolding grid_at find_key
grid_at-none grid x y e = rw (e, grid_at) refl

pub grid_at-some :
    (grid : Grid) (x y : ℕ) (column : Column)
    → find_key grid x ≡ some column
    → grid_at grid x y ≡ find_key column y
unfolding grid_at
grid_at-some grid x y column e = rw (e, grid_at) refl

-- A grid in which one column is another one.
pub replace-SortedGrid :
    (grid grid' : Grid) (x : ℕ) (column : Column)
    → SortedGrid grid
    → Above 0 grid'
    → Above 0 column
    → ((i : ℕ) → find_key grid' i ≡ (if x == i then some column else find_key grid i))
    → SortedGrid grid'
replace-SortedGrid grid grid' x column s h k f = record {
  columns = h;
  points = λ i c e. ground (arith, f i, s.points i c);
}

-- What `_add_to_grid` leaves: the set that was at the point, or the default, at the point.
pub record Added (grid : Grid) (x y : ℕ) (default ref : SetRef) (grid' : Grid) : Type 0 where
  pub set : ref ≡ or_default default (grid_at grid x y)
  pub sorted : SortedGrid grid'
  pub found :
      (i j : ℕ)
      → grid_at grid' i j ≡ (
          if x == i && y == j
          then some (or_default default (grid_at grid x y))
          else grid_at grid i j)

-- from the new column at `x`, where `column` is what the grid had there
Added-by_column :
    (grid grid' : Grid) (x y : ℕ) (default : SetRef) (column : Column)
    → SortedGrid grid
    → Above 0 grid'
    → ColumnSet column y default
    → ((j : ℕ) → grid_at grid x j ≡ find_key column j)
    → ((i : ℕ)
        → find_key grid' i
          ≡ (if x == i then some (column_set column y default).1 else find_key grid i))
    → Added grid x y default (column_set column y default).0 grid'
unfolding grid_at
Added-by_column grid grid' x y default column s h c before f = record {
  set = rw (before y) c.set;
  sorted = replace-SortedGrid grid grid' x (column_set column y default).1 s h c.sorted f;
  found = λ i j. ground (arith, f i, c.found j, before y, before j);
}

pub add_to_grid_lem :
    (grid : Grid) (x y : ℕ) (default : SetRef)
    → SortedGrid grid
    → Added grid x y default (add_to_grid grid x y default).0 (add_to_grid grid x y default).1
unfolding add_to_grid
add_to_grid_lem grid x y default s = elim (Option-cases (find_key grid x)) [
  | inl e ↦
      let new : Column = (column_set [] y default).1 in
      rw (value_at-find 0 x grid s.columns, e, add_to_grid)
        (Added-by_column grid (insert_at (bisect_left grid x) (x, new) grid) x y default [] s
          (insert-Above 0 x new grid s.columns (omega arith) e) (column_set_lem [] y default tt)
          (λ j. grid_at-none grid x j e) (λ i. find-insert 0 x i new grid s.columns))
  | inr (column, e) ↦
      let new : Column = (column_set column y default).1 in
      rw (value_at-find 0 x grid s.columns, e, add_to_grid)
        (Added-by_column grid (set_at (bisect_left grid x) (x, new) grid) x y default column s
          (set-Above 0 x column new grid s.columns e)
          (column_set_lem column y default (s.points x column e))
          (λ j. grid_at-some grid x j column e) (λ i. find-set 0 x i column new grid s.columns e))
]
