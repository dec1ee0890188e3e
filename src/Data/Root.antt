-- ===== src/Data/Root.antt =====
-- ofrak_core/ofrak/model/data_model.py, and `_DataRoot` of
-- ofrak_core/ofrak/service/data_service.py. The models are one store by id: `_children` holds the
-- same objects as the service's `_model_store`, so a root lists the ids of its children.
pub mod Sets
pub mod Index
pub mod Unmap
pub mod Query
pub mod Ranges
pub mod Boundaries
use ofrak.Prelude.{
  ℕ, Bool, true, false, not, Option, none, some, List, [], ◌∷◌, ◌++◌, length, Result, ok, err,
  Error, ◌>>=◌, ◌>>◌, guard, leb, ◌==◌, if◌then◌else◌, Dict, dict_get, dict_set,
}
use ofrak.Prelude.Int.{ℤ, neg, add_offset}
use ofrak.Range.{Range, mk_range, intersect, translate}
use ofrak.Data.Grid.{
  DataId, SetRef, Column, Grid, Heap, ids_of, new_set, set_add, set_remove, contains_id,
  iter_grid_axis, add_to_grid, remove_from_grid, get_ids_at,
}
use ofrak.Data.Shift.{Shifted, resize_grids}

pub record DataModel : Type 0 where
  pub id : DataId
  pub range : Range
  pub root_id : DataId

unfoldable pub is_mapped : DataModel → Bool
is_mapped model = not (model.root_id == model.id)

-- `DataPatch`: `data` is a keyword
pub record DataPatch : Type 0 where
  pub range : Range
  pub data_id : DataId
  pub bytes : List ℕ

pub record DataPatchesResult : Type 0 where
  pub data_id : DataId
  pub patches : List Range

abbrev pub Models : Type 0
Models = Dict DataModel

pub record DataRoot : Type 0 where
  pub model_id : DataId
  pub bytes : List ℕ
  pub children : List DataId
  pub heap : Heap
  pub grid_starts_first : Grid
  pub grid_ends_first : Grid

unfoldable pub new_root : DataId → List ℕ → DataRoot
new_root model_id bytes = record {
  model_id = model_id;
  bytes = bytes;
  children = [];
  heap = record { sets = []; next_ref = 0 };
  grid_starts_first = [];
  grid_ends_first = [];
}

-- `s.add(x)` on the set object
unfoldable pub add_to_set : DataId → SetRef → Heap → Heap
unfolding ids_of set_add dict_set
add_to_set x ref heap = record heap { sets = dict_set ref (set_add x (ids_of heap ref)) heap.sets }

unfoldable pub add_mapped_model : DataModel → DataRoot → Result DataRoot
add_mapped_model model root = do
  guard (leb model.range.end (length root.bytes)) Error.out_of_bound
  let (default_set, heap) = new_set [] root.heap
  let (set1, starts) =
      add_to_grid root.grid_starts_first model.range.start model.range.end default_set
  let (set2, ends) = add_to_grid root.grid_ends_first model.range.end model.range.start default_set
  guard (set1 == set2) Error.assertion_error
  ok (record root {
    children = set_add model.id root.children;
    heap = add_to_set model.id set1 heap;
    grid_starts_first = starts;
    grid_ends_first = ends;
  })

unfoldable pub delete_mapped_model : DataModel → DataRoot → Result DataRoot
delete_mapped_model model root = do
  guard (contains_id model.id root.children) Error.not_found
  let start = model.range.start
  let end = model.range.end
  ref ← get_ids_at root.grid_starts_first start end
  guard (contains_id model.id (ids_of root.heap ref)) Error.key_error
  let left = set_remove model.id (ids_of root.heap ref)
  let smaller = record root {
    children = set_remove model.id root.children;
    heap = record root.heap { sets = dict_set ref left root.heap.sets };
  }
  elim (length left == 0) [
    | true ↦ do
      starts ← remove_from_grid root.grid_starts_first start end
      ends ← remove_from_grid root.grid_ends_first end start
      ok (record smaller { grid_starts_first = starts; grid_ends_first = ends })
    | false ↦ ok smaller
  ]

unfoldable pub column_ids : Heap → Column → List DataId
column_ids heap [] = []
column_ids heap ((_, ref) ∷ column) = ids_of heap ref ++ column_ids heap column

-- The ids of the columns, each column cut to a range of its keys.
unfoldable pub grid_ids : Heap → Option ℕ → Option ℕ → Bool × Bool → Grid → List DataId
grid_ids heap minimum maximum inclusive [] = []
grid_ids heap minimum maximum inclusive ((_, column) ∷ grid) =
    column_ids heap (iter_grid_axis column minimum maximum inclusive)
    ++ grid_ids heap minimum maximum inclusive grid

abbrev pub Bounds : Type 0
Bounds = Option ℕ × Option ℕ

abbrev pub unbounded : Bounds → Bool
unbounded (none, none) = true
unbounded _ = false

unfoldable pub get_ids_in_range :
    DataRoot → Bounds → Bounds → Bool × Bool → Bool × Bool → List DataId
get_ids_in_range root start_range end_range start_inclusivity end_inclusivity =
    if not (unbounded start_range)
    then grid_ids root.heap end_range.0 end_range.1 end_inclusivity
        (iter_grid_axis root.grid_starts_first start_range.0 start_range.1 start_inclusivity)
    else if not (unbounded end_range)
    then grid_ids root.heap start_range.0 start_range.1 start_inclusivity
        (iter_grid_axis root.grid_ends_first end_range.0 end_range.1 end_inclusivity)
    else grid_ids root.heap none none (true, false) root.grid_starts_first

unfoldable pub add_all : List DataId → List DataId → List DataId
unfolding set_add
add_all [] s = s
add_all (x ∷ xs) s = add_all xs (set_add x s)

-- the ids of the children: the service only asks whether there are any
unfoldable pub get_children_with_boundaries_intersecting_range : DataRoot → Range → List DataId
get_children_with_boundaries_intersecting_range root r =
    add_all
      (get_ids_in_range root (none, none) (some r.start, some r.end) (true, false) (false, false))
      (add_all
        (get_ids_in_range root (some r.start, some r.end) (none, none) (false, false) (true, false))
        [])

-- the children that overlap one patched range, each with the range of the overlap in the child
unfoldable pub affected_by : Models → Range → List DataId → Result (List (DataId × Range))
affected_by models patched [] = ok []
affected_by models patched (x ∷ ids) = elim (dict_get x models) [
  | none ↦ err Error.key_error
  | some model ↦ do
    overlap ← intersect patched model.range
    in_child ← translate overlap (neg model.range.start)
    others ← affected_by models patched ids
    ok ((x, in_child) ∷ others)
]

unfoldable pub get_children_affected_by_ranges :
    Models → DataRoot → List Range → Result (List (DataId × Range))
get_children_affected_by_ranges models root [] = ok []
get_children_affected_by_ranges models root (patched ∷ ranges) = do
  first ← affected_by models patched (
      get_ids_in_range root (none, some patched.end) (some patched.start, none) (false, false)
        (false, false))
  others ← get_children_affected_by_ranges models root ranges
  ok (first ++ others)

unfoldable pub shift_models : List Shifted → Models → Result Models
unfolding dict_get dict_set mk_range
shift_models [] models = ok models
shift_models ((x, (start_shift, end_shift)) ∷ shifted) models = elim (dict_get x models) [
  | none ↦ err Error.key_error
  | some child ↦ do
    range ←
        mk_range (add_offset child.range.start start_shift) (add_offset child.range.end end_shift)
    shift_models shifted (dict_set x (record child { range = range }) models)
]

abbrev pub as_overlap {ℓ} : {A : Type ℓ} → Result A → Result A
as_overlap (err Error.shift_breaks_sort) = err Error.patch_overlap
as_overlap (err e) = err e
as_overlap (ok a) = ok a

-- `resize_range`, over the models of the service and the root
unfoldable pub resize_range : Range → ℤ → Models → DataRoot → Result (Models × DataRoot)
unfolding resize_grids shift_models mk_range dict_get dict_set
resize_range resized size_diff models root = do
  (shifted, (starts, (ends, heap))) ←
      as_overlap
        (resize_grids resized size_diff root.grid_starts_first root.grid_ends_first root.heap)
  moved ← shift_models shifted models
  elim (dict_get root.model_id moved) [
    | none ↦ err Error.key_error
    | some model ↦ do
      range ← mk_range 0 (add_offset model.range.end size_diff)
      ok (
        dict_set root.model_id (record model { range = range }) moved,
        record root { heap = heap; grid_starts_first = starts; grid_ends_first = ends },
      )
  ]
