-- ===== src/Data/Grid/Deletion.antt =====
-- ofrak_core/ofrak/service/data_service.py, `_remove_from_grid`: a point goes, all
-- others stay.
use ofrak.Prelude.{
  ℕ, ◌≡◌, refl, true, ◌&&◌, none, some, [], ◌∷◌, arith, ok, ◌==◌, if◌then◌else◌, length,
  Option-cases, Bool-cases, inl, inr, ◌∙◌, sym,
}
use ofrak.Data.Grid.{SetRef, Column, Grid, bisect_left, set_at, pop_at, remove_from_grid}
use ofrak.Data.Grid.Search.{
  find_key, Above, value_at-find, find-set, set-Above, find-pop, pop-Above,
}
use ofrak.Data.Grid.Points.{grid_at, SortedGrid, grid_at-some, replace-SortedGrid}

find-empty : (column : Column) (m : ℕ) → (length column == 0) ≡ true → find_key column m ≡ none
unfolding find_key
find-empty [] m h = refl
find-empty (p ∷ column) m h = ground arith

-- What `_remove_from_grid` leaves: nothing at the point.
pub record Removed (grid : Grid) (x y : ℕ) (grid' : Grid) : Type 0 where
  pub sorted : SortedGrid grid'
  pub found : (i j : ℕ) → grid_at grid' i j ≡ (if x == i && y == j then none else grid_at grid i j)

pop_column :
    (grid : Grid) (x y : ℕ) (column : Column) (ref : SetRef)
    → SortedGrid grid
    → find_key grid x ≡ some column
    → find_key column y ≡ some ref
    → (length (pop_at (bisect_left column y) column) == 0) ≡ true
    → Removed grid x y (pop_at (bisect_left grid x) grid)
unfolding grid_at
pop_column grid x y column ref s e k empty = record {
  sorted = record {
    columns = pop-Above 0 x column grid s.columns e;
    points = λ i c h. ground (arith, find-pop 0 x i column grid s.columns e, s.points i c);
  };
  found = λ i j. ground (
    arith,
    find-pop 0 x i column grid s.columns e,
    find-pop 0 y j ref column (s.points x column e) k,
    find-empty (pop_at (bisect_left column y) column) j empty,
  );
}

shrink_column :
    (grid : Grid) (x y : ℕ) (column : Column) (ref : SetRef)
    → SortedGrid grid
    → find_key grid x ≡ some column
    → find_key column y ≡ some ref
    → Removed grid x y (set_at (bisect_left grid x) (x, pop_at (bisect_left column y) column) grid)
unfolding grid_at
shrink_column grid x y column ref s e k =
    let left : Column = pop_at (bisect_left column y) column in
    let h : Above 0 column = s.points x column e in
    record {
      sorted =
          replace-SortedGrid grid (set_at (bisect_left grid x) (x, left) grid) x left s
            (set-Above 0 x column left grid s.columns e) (pop-Above 0 y ref column h k)
            (λ i. find-set 0 x i column left grid s.columns e);
      found = λ i j.
          ground
            (arith, find-set 0 x i column left grid s.columns e, find-pop 0 y j ref column h k);
    }

pub remove_from_grid_lem :
    (grid : Grid) (x y : ℕ) (ref : SetRef)
    → SortedGrid grid
    → grid_at grid x y ≡ some ref
    → (grid' : Grid) × (remove_from_grid grid x y ≡ ok grid') × Removed grid x y grid'
unfolding grid_at remove_from_grid
remove_from_grid_lem grid x y ref s at = elim (Option-cases (find_key grid x)) [
  | inl e ↦ cc
  | inr (column, e) ↦
      let k : find_key column y ≡ some ref = sym (grid_at-some grid x y column e) ∙ at in
      elim (Bool-cases (length (pop_at (bisect_left column y) column) == 0)) [
        | inl empty ↦ (
          pop_at (bisect_left grid x) grid,
          rw
              (
                value_at-find 0 x grid s.columns,
                e,
                value_at-find 0 y column (s.points x column e),
                k,
                empty,
                remove_from_grid,
              )
              refl,
          pop_column grid x y column ref s e k empty,
        )
        | inr left ↦ (
          set_at (bisect_left grid x) (x, pop_at (bisect_left column y) column) grid,
          rw
              (
                value_at-find 0 x grid s.columns,
                e,
                value_at-find 0 y column (s.points x column e),
                k,
                left,
                remove_from_grid,
              )
              refl,
          shrink_column grid x y column ref s e k,
        )
      ]
]
