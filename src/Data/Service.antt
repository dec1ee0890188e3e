-- ===== src/Data/Service.antt =====
-- ofrak_core/ofrak/service/data_service.py: `DataService`. A call that raises ends a run of the
-- model: the state that it leaves behind is not modelled.
pub mod Consistent
pub mod Mapping
pub mod Views
pub mod Affected
pub mod SameSize
pub mod Splice
pub mod Patched
pub mod Patching
pub mod Refused
pub mod Reach
use ofrak.Prelude.{
  ℕ, zero, Bool, true, false, ◌&&◌, ◌||◌, not, Option, none, some, List, [], ◌∷◌, ◌++◌, length, map,
  take, drop, map_result, Result, ok, err, Error, ◌>>=◌, ◌>>◌, guard, ltb, leb, ◌==◌, if◌then◌else◌,
  Dict, dict_get, dict_set, dict_del, dict_has,
}
use ofrak.Prelude.Int.{ℤ, pos, neg, sub_ℕ}
use ofrak.Range.{Range, mk_range, range_length, intersect, translate, merge_ranges, from_size}
use ofrak.Data.Grid.{DataId}
use ofrak.Data.Root.{
  DataModel, is_mapped, DataPatch, DataPatchesResult, Models, DataRoot, new_root, add_mapped_model,
  delete_mapped_model, get_children_with_boundaries_intersecting_range,
  get_children_affected_by_ranges, resize_range,
}
use ofrak.Data.Tracker.{
  Tracker, new_tracker, overlaps_resized_range, translate_range, add_new_resized_range,
}

pub record DataService : Type 0 where
  pub model_store : Models
  pub roots : Dict DataRoot

abbrev pub new_service : DataService
new_service = record { model_store = []; roots = [] }

-- a `dict` lookup that raises
abbrev pub find_or {ℓ} : {V : Type ℓ} → Error → ℕ → Dict V → Result V
find_or error key d = elim (dict_get key d) [ none ↦ err error | some v ↦ ok v ]

unfoldable pub get_by_id : DataService → DataId → Result DataModel
get_by_id s data_id = find_or Error.not_found data_id s.model_store

unfoldable pub get_by_ids : DataService → List DataId → Result (List DataModel)
unfolding get_by_id
get_by_ids s = map_result (get_by_id s)

unfoldable pub get_root_by_id : DataService → DataId → Result DataRoot
get_root_by_id s data_id = find_or Error.not_found data_id s.roots

unfoldable pub is_root : DataService → DataId → Bool
is_root s data_id = dict_has data_id s.roots

unfoldable pub create_root : DataId → List ℕ → DataService → Result (DataModel × DataService)
create_root data_id bytes s = do
  guard (not (dict_has data_id s.model_store)) Error.already_exists
  range ← mk_range 0 (length bytes)
  let new_model : DataModel = record { id = data_id; range = range; root_id = data_id }
  ok (
    new_model,
    record {
      model_store = dict_set data_id new_model s.model_store;
      roots = dict_set data_id (new_root data_id bytes) s.roots;
    },
  )

unfoldable pub create_mapped :
    DataId → DataId → Range → DataService → Result (DataModel × DataService)
create_mapped data_id parent_id range_in_parent s = do
  guard (not (dict_has data_id s.model_store)) Error.already_exists
  parent_model ← get_by_id s parent_id
  range_in_root ← translate range_in_parent (pos parent_model.range.start)
  guard (leb range_in_root.end parent_model.range.end) Error.out_of_bound
  let new_model : DataModel = record {
    id = data_id;
    range = range_in_root;
    root_id = parent_model.root_id;
  }
  root ← find_or Error.key_error parent_model.root_id s.roots
  root' ← add_mapped_model new_model root
  ok (
    new_model,
    record {
      model_store = dict_set data_id new_model s.model_store;
      roots = dict_set parent_model.root_id root' s.roots;
    },
  )

unfoldable pub get_data_length : DataService → DataId → Result ℕ
unfolding get_by_id range_length
get_data_length s data_id = do model ← get_by_id s data_id; ok (range_length model.range)

unfoldable pub get_data_range_within_root : DataService → DataId → Result Range
unfolding get_by_id
get_data_range_within_root s data_id = do model ← get_by_id s data_id; ok model.range

unfoldable pub get_range_within_other : DataService → DataId → DataId → Result Range
unfolding get_by_id is_root from_size range_length
get_range_within_other s data_id within_data_id = do
  model ← get_by_id s data_id
  within_model ← get_by_id s within_data_id
  if data_id == within_data_id
      then from_size 0 (range_length model.range)
      else if is_root s data_id
      then err Error.value_error
      else if is_root s within_data_id && not (model.root_id == within_model.id)
      then err Error.value_error
      else if not (is_root s within_data_id) && not (model.root_id == within_model.root_id)
      then err Error.value_error
      else do
        common ← intersect within_model.range model.range
        translate common (neg within_model.range.start)

-- `data[start:end]`
abbrev pub slice : List ℕ → Range → List ℕ
slice bytes r = drop r.start (take r.end bytes)

unfoldable pub get_data : DataService → DataId → Option Range → Result (List ℕ)
get_data s data_id data_range = do
  model ← get_by_id s data_id
  root ← get_root_by_id s model.root_id
  elim data_range [
    | none ↦ ok (slice root.bytes model.range)
    | some r ↦ do
      root_model ← find_or Error.key_error root.model_id s.model_store
      translated ← translate r (pos model.range.start)
      inside ← intersect translated root_model.range
      ok (slice root.bytes inside)
  ]

unfoldable pub get_range_in_root : DataModel → Range → Result Range
unfolding range_length
get_range_in_root model r =
    if ltb (range_length model.range) r.end
    then err Error.out_of_bound
    else translate r (pos model.range.start)

-- A patch ready to be applied: its range in the patched root, its data, and the size difference.
abbrev pub Finalized : Type 0
Finalized = Range × (List ℕ × ℤ)

abbrev pub is_zero : ℤ → Bool
is_zero (pos zero) = true
is_zero _ = false

-- What the screening of the patches of one root carries from patch to patch.
pub record Screening : Type 0 where
  pub tracker : Tracker
  pub finalized_ordered_patches : List Finalized
  pub raw_patch_ranges_in_root : List Range

unfoldable pub screen_patch : DataService → DataRoot → DataPatch → Screening → Result Screening
screen_patch s root patch screening = do
  target_model ← get_by_id s patch.data_id
  prepatch ← get_range_in_root target_model patch.range
  guard (not (overlaps_resized_range screening.tracker prepatch)) Error.patch_overlap
  patched ← translate_range screening.tracker prepatch
  let intersecting = get_children_with_boundaries_intersecting_range root prepatch
  let size_diff = sub_ℕ (length patch.bytes) (range_length patch.range)
  guard (is_zero size_diff || length intersecting == 0) Error.patch_overlap
  ok (record {
    tracker =
        if is_zero size_diff
        then screening.tracker
        else add_new_resized_range screening.tracker patched size_diff;
    finalized_ordered_patches =
        screening.finalized_ordered_patches ++ (patched, (patch.bytes, size_diff)) ∷ [];
    raw_patch_ranges_in_root = screening.raw_patch_ranges_in_root ++ prepatch ∷ [];
  })

unfoldable pub screen_patches :
    DataService → DataRoot → List DataPatch → Screening → Result Screening
screen_patches s root [] screening = ok screening
screen_patches s root (patch ∷ patches) screening = do
  next ← screen_patch s root patch screening
  screen_patches s root patches next

-- `results[id].append(range)` on a `defaultdict(list)`
unfoldable pub append_result : DataId → Range → Dict (List Range) → Dict (List Range)
unfolding dict_get dict_set
append_result data_id r results = elim (dict_get data_id results) [
  | none ↦ dict_set data_id (r ∷ []) results
  | some ranges ↦ dict_set data_id (ranges ++ r ∷ []) results
]

unfoldable pub collect_results : List (DataId × Range) → Dict (List Range) → Dict (List Range)
collect_results [] results = results
collect_results ((data_id, r) ∷ affected) results =
    collect_results affected (append_result data_id r results)

-- `new_root_data[start:end] = data`
unfoldable pub splice : List ℕ → Range → List ℕ → List ℕ
splice bytes r new = take r.start bytes ++ (new ++ drop r.end bytes)

-- The loop that applies the patches to the data and moves the models.
unfoldable pub apply_finalized :
    List Finalized → List ℕ → Models → DataRoot → Result (List ℕ × (Models × DataRoot))
apply_finalized [] bytes models root = ok (bytes, (models, root))
apply_finalized ((r, (new, size_diff)) ∷ patches) bytes models root = do
  (models', root') ← elim (is_zero size_diff) [
    | true ↦ ok (models, root)
    | false ↦ resize_range r size_diff models root
  ]
  apply_finalized patches (splice bytes r new) models' root'

unfoldable pub apply_patches_to_root :
    DataId → List DataPatch → DataService → Result (List DataPatchesResult × DataService)
apply_patches_to_root root_id patches s = do
  root ← find_or Error.key_error root_id s.roots
  screening ← screen_patches s root patches (record {
    tracker = new_tracker;
    finalized_ordered_patches = [];
    raw_patch_ranges_in_root = [];
  })
  affected_ranges ← merge_ranges screening.raw_patch_ranges_in_root
  affected ← get_children_affected_by_ranges s.model_store root affected_ranges
  let results =
      collect_results (map (λ r. (root_id, r)) affected_ranges) (collect_results affected [])
  (bytes, (models, root')) ←
      apply_finalized screening.finalized_ordered_patches root.bytes s.model_store root
  ok (
    map (λ e. record { data_id = e.0; patches = e.1 }) results,
    record {
      model_store = models;
      roots = dict_set root_id (record root' { bytes = bytes }) s.roots;
    },
  )

-- `patches_by_root[root_id].append(patch)`, in the order of the roots' first patches
unfoldable pub group_by_root :
    DataService → List DataPatch → Dict (List DataPatch) → Result (Dict (List DataPatch))
unfolding get_by_id dict_get dict_set
group_by_root s [] groups = ok groups
group_by_root s (patch ∷ patches) groups = do
  target ← get_by_id s patch.data_id
  let before : List DataPatch = elim (dict_get target.root_id groups) [ none ↦ [] | some ps ↦ ps ]
  group_by_root s patches (dict_set target.root_id (before ++ patch ∷ []) groups)

unfoldable pub apply_groups :
    Dict (List DataPatch) → DataService → Result (List DataPatchesResult × DataService)
apply_groups [] s = ok ([], s)
apply_groups ((root_id, patches) ∷ groups) s = do
  (results, s') ← apply_patches_to_root root_id patches s
  (others, s'') ← apply_groups groups s'
  ok (results ++ others, s'')

unfoldable pub apply_patches :
    List DataPatch → DataService → Result (List DataPatchesResult × DataService)
apply_patches patches s = do groups ← group_by_root s patches []; apply_groups groups s

-- The first loop of `delete_models`: the roots and the mapped models to delete, by id.
unfoldable pub to_delete :
    DataService → List DataId → Dict DataModel → Dict DataModel → Dict DataModel × Dict DataModel
unfolding get_by_id is_mapped dict_set
to_delete s [] roots mapped = (roots, mapped)
to_delete s (data_id ∷ ids) roots mapped = elim (get_by_id s data_id) [
  | err _ ↦ to_delete s ids roots mapped
  | ok model ↦ elim (is_mapped model) [
    | true ↦ to_delete s ids roots (dict_set model.id model mapped)
    | false ↦ to_delete s ids (dict_set model.id model roots) mapped
  ]
]

-- the children of a deleted root
unfoldable pub delete_children :
    List DataId → Dict DataModel → Models → Result (Dict DataModel × Models)
unfolding dict_del
delete_children [] mapped models = ok (mapped, models)
delete_children (child ∷ children) mapped models = do
  guard (dict_has child models) Error.key_error
  delete_children children (dict_del child mapped) (dict_del child models)

unfoldable pub delete_roots :
    Dict DataModel → Dict DataModel → DataService → Result (Dict DataModel × DataService)
unfolding delete_children dict_del
delete_roots [] mapped s = ok (mapped, s)
delete_roots ((root_id, _) ∷ roots) mapped s = do
  root ← find_or Error.key_error root_id s.roots
  (mapped', models) ← delete_children root.children mapped s.model_store
  guard (dict_has root_id models) Error.key_error
  delete_roots roots mapped'
      (record { model_store = dict_del root_id models; roots = dict_del root_id s.roots })

unfoldable pub delete_mapped : Dict DataModel → DataService → Result DataService
unfolding get_root_by_id dict_del dict_set
delete_mapped [] s = ok s
delete_mapped ((data_id, model) ∷ mapped) s = do
  root ← get_root_by_id s model.root_id
  root' ← delete_mapped_model model root
  guard (dict_has data_id s.model_store) Error.key_error
  delete_mapped mapped (record {
    model_store = dict_del data_id s.model_store;
    roots = dict_set model.root_id root' s.roots;
  })

unfoldable pub delete_models : List DataId → DataService → Result DataService
unfolding to_delete delete_roots delete_mapped
delete_models ids s = do
  let (roots, mapped) = to_delete s ids [] []
  (mapped', s') ← delete_roots roots mapped s
  delete_mapped mapped' s'
