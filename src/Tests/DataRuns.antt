-- ===== src/Tests/DataRuns.antt =====
-- ofrak_core/ofrak/service/data_service.py: runs of the model of the data service.
use ofrak.Prelude.{
  ℕ, ◌≡◌, refl, none, List, [], ◌∷◌, ok, err, Error, ◌>>=◌, dict_get, dict_set, dict_del, dict_has,
  sort_by,
}
use ofrak.Range.{
  Range, mk_range, range_length, intersect, translate, merge_ranges, overlaps, contains_value,
}
use ofrak.Data.Grid.{
  ids_of, new_set, set_add, set_union, set_remove, bisect_left, bisect_right, insert_at, pop_at,
  set_at, value_at, lower_index, upper_index, iter_grid_axis, column_set, add_to_grid,
  remove_from_grid, get_ids_at,
}
use ofrak.Data.Shift.{
  shift_from, merge_lowest, shift_inside, shift_grid_axis, union_refs, merge_sorted, close_group,
  group_points, merge_columns, yield_ids, pass_over, yield_column, visit_starts, shift_columns,
  visit_ends, resize_grids,
}
use ofrak.Data.Tracker.{
  overlaps_resized_range, last_shift, shift_point, get_shifted_point, translate_range, grow_shifts,
  add_node, add_new_resized_range,
}
use ofrak.Data.Root.{
  DataPatch, is_mapped, new_root, add_to_set, add_mapped_model, delete_mapped_model, column_ids,
  grid_ids, get_ids_in_range, add_all, get_children_with_boundaries_intersecting_range, affected_by,
  get_children_affected_by_ranges, shift_models, resize_range,
}
use ofrak.Data.Service.{
  new_service, get_by_id, get_root_by_id, create_root, create_mapped, get_data, get_range_in_root,
  screen_patch, screen_patches, append_result, collect_results, splice, apply_finalized,
  apply_patches_to_root, group_by_root, apply_groups, apply_patches, to_delete, delete_children,
  delete_roots, delete_mapped, delete_models,
}

data_program : Unit {0}
unfolding dict_get dict_set dict_del dict_has sort_by mk_range range_length intersect translate
    merge_ranges overlaps contains_value ids_of new_set set_add set_union set_remove bisect_left
    bisect_right insert_at pop_at set_at value_at lower_index upper_index iter_grid_axis column_set
    add_to_grid remove_from_grid get_ids_at shift_from merge_lowest shift_inside shift_grid_axis
    union_refs merge_sorted close_group group_points merge_columns yield_ids pass_over yield_column
    visit_starts shift_columns visit_ends resize_grids overlaps_resized_range last_shift shift_point
    get_shifted_point translate_range grow_shifts add_node add_new_resized_range is_mapped new_root
    add_to_set add_mapped_model delete_mapped_model column_ids grid_ids get_ids_in_range add_all
    get_children_with_boundaries_intersecting_range affected_by get_children_affected_by_ranges
    shift_models resize_range get_by_id get_root_by_id create_root create_mapped get_data
    get_range_in_root screen_patch screen_patches append_result collect_results splice
    apply_finalized apply_patches_to_root group_by_root apply_groups apply_patches to_delete
    delete_children delete_roots delete_mapped delete_models
data_program = tt

abbrev ten : List ℕ
ten = 0 ∷ 1 ∷ 2 ∷ 3 ∷ 4 ∷ 5 ∷ 6 ∷ 7 ∷ 8 ∷ 9 ∷ []

abbrev range : ℕ → ℕ → Range
range a b = record { start = a; end = b }

-- Two inserts, and then a patch of byte 5, which is less than the first insert behind the second.
abbrev three_patches : List DataPatch
three_patches =
    record { range = range 1 1; data_id = 1; bytes = 100 ∷ 101 ∷ 102 ∷ [] }
    ∷ record { range = range 4 4; data_id = 1; bytes = 200 ∷ [] }
    ∷ record { range = range 5 6; data_id = 1; bytes = 255 ∷ [] }
    ∷ []

-- The third patch is written over byte 4.
patches_run :
    (do
      (_, s) ← create_root 1 ten new_service
      (_, s') ← apply_patches three_patches s
      get_data s' 1 none)
    ≡ ok (0 ∷ 100 ∷ 101 ∷ 102 ∷ 1 ∷ 2 ∷ 3 ∷ 200 ∷ 255 ∷ 5 ∷ 6 ∷ 7 ∷ 8 ∷ 9 ∷ [])
unfolding data_program
patches_run = refl

-- Children at (0, 5) and (0, 10), of which the second is deleted after the bytes 5 to 10 are
-- patched away.
delete_run :
    (do
      (_, s) ← create_root 1 ten new_service
      (_, s') ← create_mapped 2 1 (range 0 5) s
      (_, s'') ← create_mapped 3 1 (range 0 10) s'
      (_, s''') ← apply_patches (record { range = range 5 10; data_id = 1; bytes = [] } ∷ []) s''
      delete_models (3 ∷ []) s''')
    ≡ err Error.key_error
unfolding data_program
delete_run = refl
