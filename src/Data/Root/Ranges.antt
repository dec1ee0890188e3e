-- ===== src/Data/Root/Ranges.antt =====
-- ofrak_core/ofrak/service/data_service.py, `_DataRoot._get_ids_in_range` and
-- `get_children_with_boundaries_intersecting_range`: which children a query finds.
use ofrak.Prelude.{
  ℕ, ◌≡◌, ◌↔◌, refl, Bool, true, false, none, some, List, [], ◌∷◌, arith, Option-cases, Bool-cases,
  inl, inr, ◌∙◌, sym, ap,
}
use ofrak.Data.Grid.{
  DataId, SetRef, Column, Grid, Heap, ids_of, contains_id, iter_grid_axis, lower_index, upper_index,
  Axis,
}
use ofrak.Data.Grid.Search.{find_key}
use ofrak.Data.Grid.Cut.{find-iter, iter-Above}
use ofrak.Data.Grid.Points.{grid_at, SortedGrid}
use ofrak.Data.Root.{DataRoot, Bounds, unbounded, grid_ids, get_ids_in_range}
use ofrak.Data.Root.Index.{Mirrored, holds}
use ofrak.Data.Root.Query.{in_bounds, grid_ids-in, in-grid_ids, in-column_ids}

module _ (heap : Heap) (c : DataId) (xs ys : Bounds) (xi yi : Bool × Bool) where
  -- A grid holds the id at a point between the bounds.
  record Found (grid : Grid) : Type 0 where
    x : ℕ
    y : ℕ
    ref : SetRef
    at : grid_at grid x y ≡ some ref
    has : contains_id c (ids_of heap ref) ≡ true
    x_inside : in_bounds xs xi x ≡ true
    y_inside : in_bounds ys yi y ≡ true

  abbrev cut_grid : Grid → Grid
  cut_grid grid = iter_grid_axis grid xs.0 xs.1 xi

  cut_columns :
      (grid : Grid) (x : ℕ) (column : Column)
      → SortedGrid grid
      → find_key (cut_grid grid) x ≡ some column
      → (find_key grid x ≡ some column) × (in_bounds xs xi x ≡ true)
  cut_columns grid x column s e =
      ground (arith, e, find-iter 0 x grid xs.0 xs.1 xi.0 xi.1 s.columns)

  query-Found :
      (grid : Grid)
      → SortedGrid grid
      → contains_id c (grid_ids heap ys.0 ys.1 yi (cut_grid grid)) ≡ true
      → Found grid
  unfolding grid_at
  query-Found grid s k =
      let (x, column, e, in_column) =
        grid_ids-in heap c ys yi 0 (cut_grid grid) (iter-Above 0 grid xs.0 xs.1 xi.0 xi.1 s.columns)
          (λ i col e. s.points i col (cut_columns grid i col s e).0) k in
      let (y, ref, at, has) = in_column in
      let (e', x_in) = cut_columns grid x column s e in
      let f = find-iter 0 y column ys.0 ys.1 yi.0 yi.1 (s.points x column e') in
      record {
        x = x;
        y = y;
        ref = ref;
        at = ground (arith, e', at, f);
        has = has;
        x_inside = x_in;
        y_inside = ground (arith, at, f);
      }

  Found-query :
      (grid : Grid)
      → SortedGrid grid
      → Found grid
      → contains_id c (grid_ids heap ys.0 ys.1 yi (cut_grid grid)) ≡ true
  unfolding grid_at
  Found-query grid s f = elim (Option-cases (find_key grid f.x)) [
    | inl e ↦ ground (arith, f.at, e)
    | inr (column, e) ↦
        in-grid_ids heap c ys yi (cut_grid grid) f.x column
          (ground (arith, e, f.x_inside, find-iter 0 f.x grid xs.0 xs.1 xi.0 xi.1 s.columns))
          (in-column_ids heap c (iter_grid_axis column ys.0 ys.1 yi) f.y f.ref
            (ground (
              arith,
              e,
              f.at,
              f.y_inside,
              find-iter 0 f.y column ys.0 ys.1 yi.0 yi.1 (s.points f.x column e),
            ))
            f.has)
  ]

iter-all : {T : Type 0} (axis : Axis T) → iter_grid_axis axis none none (true, false) ≡ axis
unfolding iter_grid_axis lower_index upper_index
iter-all [] = refl
iter-all (p ∷ axis) = ap (λ rest. p ∷ rest) (iter-all axis)

unbounded-in : (b : Bounds) (i : Bool × Bool) (k : ℕ) → unbounded b ≡ true → in_bounds b i k ≡ true
unbounded-in (none, none) i k h = refl
unbounded-in (some x, high) i k h = cc
unbounded-in (none, some x) i k h = cc

abbrev all_ids : Heap → Grid → List DataId
all_ids heap grid = grid_ids heap none none (true, false) grid

-- What the index holds, as a point of either grid.
module _ (root : DataRoot) (m : Mirrored root) (c : DataId) (start_range end_range : Bounds)
    (start_inclusivity end_inclusivity : Bool × Bool) where
  -- The index holds the id at a range with its start and its end in the bounds.
  abbrev pub HeldWithin : Type 0
  HeldWithin =
      (s : ℕ) × (e : ℕ) × (holds root c s e ≡ true)
      × (in_bounds start_range start_inclusivity s ≡ true)
      × (in_bounds end_range end_inclusivity e ≡ true)

  from_starts :
      Found root.heap c start_range end_range start_inclusivity end_inclusivity
        root.grid_starts_first
      → HeldWithin
  unfolding holds
  from_starts f = (f.x, f.y, ground (arith, f.at, f.has), f.x_inside, f.y_inside)

  to_starts :
      HeldWithin
      → Found root.heap c start_range end_range start_inclusivity end_inclusivity
          root.grid_starts_first
  unfolding holds
  to_starts (s, e, h, s_in, e_in) = elim (Option-cases (grid_at root.grid_starts_first s e)) [
    | inl none_at ↦ ground (arith, h, none_at)
    | inr (ref, at) ↦ record {
      x = s;
      y = e;
      ref = ref;
      at = at;
      has = ground (arith, h, at);
      x_inside = s_in;
      y_inside = e_in;
    }
  ]

  from_ends :
      Found root.heap c end_range start_range end_inclusivity start_inclusivity root.grid_ends_first
      → HeldWithin
  unfolding holds
  from_ends f = (f.y, f.x, ground (arith, f.at, f.has, m.mirror f.y f.x), f.y_inside, f.x_inside)

  to_ends :
      HeldWithin
      → Found root.heap c end_range start_range end_inclusivity start_inclusivity
          root.grid_ends_first
  to_ends h =
      let f = to_starts h in
      record {
        x = f.y;
        y = f.x;
        ref = f.ref;
        at = sym (m.mirror f.x f.y) ∙ f.at;
        has = f.has;
        x_inside = f.y_inside;
        y_inside = f.x_inside;
      }

  no_bounds :
      unbounded start_range ≡ true
      → unbounded end_range ≡ true
      → (contains_id c (all_ids root.heap root.grid_starts_first) ≡ true) ↔ HeldWithin
  unfolding holds
  no_bounds free free' = (
    λ k.
        let f =
          query-Found root.heap c (none, none) (none, none) (true, false) (true, false)
            root.grid_starts_first m.starts (rw (iter-all root.grid_starts_first) k) in
        (
          f.x,
          f.y,
          ground (arith, f.at, f.has),
          unbounded-in start_range start_inclusivity f.x free,
          unbounded-in end_range end_inclusivity f.y free',
        ),
    λ h.
        let f = to_starts h in
        rw (← iter-all root.grid_starts_first) (
          Found-query root.heap c (none, none) (none, none) (true, false) (true, false)
            root.grid_starts_first m.starts
            (record {
              x = f.x;
              y = f.y;
              ref = f.ref;
              at = f.at;
              has = f.has;
              x_inside = refl;
              y_inside = refl;
            })),
  )

  -- Where the two grids of a root mirror each other, a query by bounds on the starts and the ends
  -- yields exactly the ids that the index holds at a range within the bounds, whichever grid it
  -- passes over.
  pub get_ids_in_range_iff :
      (contains_id c (get_ids_in_range root start_range end_range start_inclusivity end_inclusivity)
        ≡ true)
      ↔ HeldWithin
  unfolding get_ids_in_range
  get_ids_in_range_iff = elim (Bool-cases (unbounded start_range)) [
    | inr bounded ↦ (
      λ k. from_starts (
          query-Found root.heap c start_range end_range start_inclusivity end_inclusivity
            root.grid_starts_first m.starts (rw (bounded, get_ids_in_range) at k)),
      λ h.
          rw (bounded, get_ids_in_range)
            (Found-query root.heap c start_range end_range start_inclusivity end_inclusivity
              root.grid_starts_first m.starts (to_starts h)),
    )
    | inl free ↦ elim (Bool-cases (unbounded end_range)) [
      | inr bounded ↦ (
        λ k. from_ends (
            query-Found root.heap c end_range start_range end_inclusivity start_inclusivity
              root.grid_ends_first m.ends (rw (free, bounded, get_ids_in_range) at k)),
        λ h.
            rw (free, bounded, get_ids_in_range)
              (Found-query root.heap c end_range start_range end_inclusivity start_inclusivity
                root.grid_ends_first m.ends (to_ends h)),
      )
      | inl free' ↦ rw (free, free', get_ids_in_range) (no_bounds free free')
    ]
  ]
