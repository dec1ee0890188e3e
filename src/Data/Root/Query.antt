-- ===== src/Data/Root/Query.antt =====
-- ofrak_core/ofrak/service/data_service.py, `_DataRoot._get_ids_in_range`: what the queries of the
-- grids yield, against the index as a set of ids with ranges.
use ofrak.Prelude.{ℕ, suc, ◌≡◌, Bool, true, ◌&&◌, some, List, [], ◌∷◌, arith, Bool-cases, inl, inr}
use ofrak.Data.Grid.{DataId, SetRef, Column, Grid, Heap, ids_of, contains_id, iter_grid_axis}
use ofrak.Data.Grid.Search.{find_key, Above, find_below}
use ofrak.Data.Grid.Cut.{at_lower, at_upper, iter-Above}
use ofrak.Data.Root.{Bounds, column_ids, grid_ids}
use ofrak.Data.Root.Sets.{contains-append}

-- Whether a key lies between two bounds.
abbrev pub in_bounds : Bounds → Bool × Bool → ℕ → Bool
in_bounds bounds inclusive k = at_lower bounds.0 inclusive.0 k && at_upper bounds.1 inclusive.1 k

module _ (heap : Heap) (c : DataId) where
  -- A column holds the id at a key.
  abbrev pub InColumn : Column → Type 0
  InColumn column =
      (y : ℕ) × (ref : SetRef) × (find_key column y ≡ some ref)
      × (contains_id c (ids_of heap ref) ≡ true)

  column_ids-in :
      (b : ℕ) (column : Column)
      → Above b column
      → contains_id c (column_ids heap column) ≡ true
      → InColumn column
  unfolding column_ids find_key
  column_ids-in b [] h k = cc
  column_ids-in b ((y, ref) ∷ column) h k = elim (Bool-cases (contains_id c (ids_of heap ref))) [
    | inl here ↦ (y, ref, ground arith, here)
    | inr absent ↦
        let (y', ref', at, has) = column_ids-in (suc y) column h.1 (
          ground
            (arith, k, absent, contains-append c (ids_of heap ref) (column_ids heap column))) in
        (y', ref', ground (arith, at, find_below (suc y) y' column h.1), has)
  ]

  pub in-column_ids :
      (column : Column) (y : ℕ) (ref : SetRef)
      → find_key column y ≡ some ref
      → contains_id c (ids_of heap ref) ≡ true
      → contains_id c (column_ids heap column) ≡ true
  unfolding column_ids find_key
  in-column_ids [] y ref at has = cc
  in-column_ids ((x, r) ∷ column) y ref at has = ground (
    arith,
    at,
    has,
    in-column_ids column y ref,
    contains-append c (ids_of heap r) (column_ids heap column),
  )

  -- A grid holds the id in a column, between two bounds on the column's keys.
  abbrev pub InGrid : Bounds → Bool × Bool → Grid → Type 0
  InGrid bounds inclusive grid =
      (x : ℕ) × (column : Column) × (find_key grid x ≡ some column)
      × InColumn (iter_grid_axis column bounds.0 bounds.1 inclusive)

  module _ (bounds : Bounds) (inclusive : Bool × Bool) where
    abbrev pub cut : Column → Column
    cut column = iter_grid_axis column bounds.0 bounds.1 inclusive

    abbrev pub ids : Grid → List DataId
    ids grid = grid_ids heap bounds.0 bounds.1 inclusive grid

    pub grid_ids-in :
        (b : ℕ) (grid : Grid)
        → Above b grid
        → ((x : ℕ) (column : Column) → find_key grid x ≡ some column → Above 0 column)
        → contains_id c (ids grid) ≡ true
        → InGrid bounds inclusive grid
    unfolding grid_ids find_key
    grid_ids-in b [] h p k = cc
    grid_ids-in b ((x, column) ∷ grid) h p k =
        elim (Bool-cases (contains_id c (column_ids heap (cut column)))) [
          | inl here ↦ (
            x,
            column,
            ground arith,
            column_ids-in 0 (cut column)
                (iter-Above 0 column bounds.0 bounds.1 inclusive.0 inclusive.1
                  (p x column (ground arith)))
                here,
          )
          | inr absent ↦
              let (x', column', at, has) =
                grid_ids-in (suc x) grid h.1
                  (λ i col e. p i col (ground (arith, e, find_below (suc x) i grid h.1)))
                  (ground (
                    arith,
                    k,
                    absent,
                    contains-append c (column_ids heap (cut column)) (ids grid),
                  )) in
              (x', column', ground (arith, at, find_below (suc x) x' grid h.1), has)
        ]

    pub in-grid_ids :
        (grid : Grid) (x : ℕ) (column : Column)
        → find_key grid x ≡ some column
        → contains_id c (column_ids heap (cut column)) ≡ true
        → contains_id c (ids grid) ≡ true
    unfolding grid_ids find_key
    in-grid_ids [] x column at has = cc
    in-grid_ids ((i, col) ∷ grid) x column at has = ground (
      arith,
      at,
      has,
      in-grid_ids grid x column,
      contains-append c (column_ids heap (cut col)) (ids grid),
    )
