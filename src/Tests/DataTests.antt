-- ===== src/Tests/DataTests.antt =====
-- ofrak_core/ofrak/service/data_service.py: the theorems on the data service at concrete inputs.
use ofrak.Prelude.{
  ℕ, ◌+◌, ◌≤◌, ◌<◌, ◌≡◌, ◌↔◌, refl, true, false, ◌&&◌, ◌||◌, none, some, List, [], ◌∷◌, arith, ok,
  err, Error, ◌==◌, length, dict_get, dict_set,
}
use ofrak.Range.{Range}
use ofrak.Data.Grid.{DataId, contains_id}
use ofrak.Data.Root.{DataModel, DataRoot, new_root, add_mapped_model, get_ids_in_range}
use ofrak.Data.Root.Index.{
  Mirrored, holds, after, new_root-Mirrored, after-Mirrored, holds-after, add_mapped_model_exact,
}
use ofrak.Data.Root.Sets.{contains-add}
use ofrak.Data.Root.Unmap.{Unmapped, delete_mapped_model_exact}
use ofrak.Data.Root.Ranges.{HeldWithin, get_ids_in_range_iff}
use ofrak.Data.Service.{DataService, new_service, create_root, create_mapped, get_data, slice}
use ofrak.Data.Service.Consistent.{
  Consistent, new_service-Consistent, root_model, with_root, with_root-Consistent,
}
use ofrak.Data.Service.Reach.{start, by_create_root, Reaches-Consistent}
use ofrak.Data.Service.Consistent.{create_root-ok}
use ofrak.Data.Service.Views.{create_root_exact, create_mapped_exact}
use ofrak.Data.Root.{DataPatch, DataPatchesResult}
use ofrak.Prelude.{get_elem?, ◌-◌}
use ofrak.Prelude.Int.{pos, neg}
use ofrak.Range.{range_length}
use ofrak.Data.Grid.{Heap, SetRef, ids_of}
use ofrak.Data.Grid.Search.{Above}
use ofrak.Data.Shift.{shift_grid_axis, union_refs, pass_over}
use ofrak.Data.Shift.LastPoint.{last_point_unmerged}
use ofrak.Data.Tracker.{get_shifted_point, add_new_resized_range, new_tracker}
use ofrak.Data.Tracker.Shifts.{shift_twice_short}
use ofrak.Data.Service.{apply_patches_to_root}
use ofrak.Data.Service.{Screening}
use ofrak.Data.Service.SameSize.{InPlace}
use ofrak.Data.Service.Patching.{latest, apply_patches_to_root_exact}

abbrev ten : List ℕ
ten = 10 ∷ 11 ∷ 12 ∷ 13 ∷ 14 ∷ 15 ∷ 16 ∷ 17 ∷ 18 ∷ 19 ∷ []

abbrev child : DataModel
child = record { id = 2; range = record { start = 2; end = 6 }; root_id = 1 }

abbrev bare : DataRoot
bare = new_root 1 ten

bare-Mirrored : Mirrored bare
bare-Mirrored = new_root-Mirrored 1 ten

add_mapped_model_exact_example :
    (child.range.end ≤ length bare.bytes
      → (root' : DataRoot) × (add_mapped_model child bare ≡ ok root')
        × Mirrored root'
        × ((c : DataId) (s e : ℕ)
            → holds root' c s e ≡ (holds bare c s e || 2 == c && (2 == s && 6 == e)))
        × ((c : DataId) → contains_id c root'.children ≡ (contains_id c bare.children || 2 == c)))
    × (length bare.bytes < child.range.end → add_mapped_model child bare ≡ err Error.out_of_bound)
add_mapped_model_exact_example = add_mapped_model_exact child bare bare-Mirrored

abbrev parent : DataRoot
parent = after child bare bare-Mirrored

parent-Mirrored : Mirrored parent
parent-Mirrored = after-Mirrored child bare bare-Mirrored

child_held : holds parent 2 2 6 ≡ true
child_held = ground (arith, holds-after child bare bare-Mirrored 2 2 6)

child_listed : contains_id 2 parent.children ≡ true
child_listed = ground (arith, contains-add 2 2 bare.children)

delete_mapped_model_exact_example : (root' : DataRoot) × Unmapped child parent root'
delete_mapped_model_exact_example =
    delete_mapped_model_exact child parent parent-Mirrored child_listed child_held

get_ids_in_range_iff_example :
    (contains_id 2
        (get_ids_in_range parent (some 1, none) (none, some 7) (true, false) (true, false))
      ≡ true)
    ↔ HeldWithin parent parent-Mirrored 2 (some 1, none) (none, some 7) (true, false) (true, false)
get_ids_in_range_iff_example =
    get_ids_in_range_iff parent parent-Mirrored 2 (some 1, none) (none, some 7) (true, false)
      (true, false)

abbrev patched : Range
patched = record { start = 4; end = 8 }

create_root_exact_example :
    (dict_get 1 new_service.model_store ≡ none
      → (model : DataModel) × (s' : DataService) × (create_root 1 ten new_service ≡ ok (model, s'))
        × Consistent s'
        × (get_data s' 1 none ≡ ok ten))
    × ((model : DataModel)
        → dict_get 1 new_service.model_store ≡ some model
        → create_root 1 ten new_service ≡ err Error.already_exists)
create_root_exact_example = create_root_exact 1 ten new_service new_service-Consistent

abbrev service : DataService
service = with_root 1 ten new_service

service-Consistent : Consistent service
unfolding dict_get
service-Consistent = with_root-Consistent 1 ten new_service new_service-Consistent refl

abbrev third : Range
third = record { start = 2; end = 6 }

create_mapped_exact_example :
    (dict_get 2 service.model_store ≡ none
      → 6 + 0 ≤ 10
      → (model : DataModel) × (s' : DataService) × (bytes : List ℕ) × (create_mapped 2 1 third
            service
          ≡ ok (model, s'))
        × Consistent s'
        × (get_data service 1 none ≡ ok bytes)
        × (get_data s' 2 none ≡ ok (slice bytes third)))
    × ((model : DataModel)
        → dict_get 2 service.model_store ≡ some model
        → create_mapped 2 1 third service ≡ err Error.already_exists)
    × (dict_get 2 service.model_store ≡ none
        → 10 < 6 + 0
        → create_mapped 2 1 third service ≡ err Error.out_of_bound)
unfolding dict_get dict_set
create_mapped_exact_example =
    create_mapped_exact 2 1 third service (root_model 1 ten) service-Consistent refl (omega arith)

-- a patch that makes the cut range shorter
abbrev shrinking : DataPatch
shrinking = record { range = patched; data_id = 1; bytes = 20 ∷ 21 ∷ 22 ∷ [] }

abbrev first_screening : Screening
first_screening = record {
  tracker = new_tracker;
  finalized_ordered_patches = [];
  raw_patch_ranges_in_root = [];
}

abbrev patch : DataPatch
patch = record { range = record { start = 1; end = 3 }; data_id = 1; bytes = 20 ∷ 21 ∷ [] }

abbrev over : DataPatch
over = record { range = record { start = 2; end = 4 }; data_id = 1; bytes = 30 ∷ 31 ∷ [] }

abbrev service_root : DataRoot
service_root = new_root 1 ten

patch-InPlace : InPlace service 1 patch
unfolding dict_get dict_set range_length
patch-InPlace = record {
  model = root_model 1 ten;
  at = refl;
  of_root = refl;
  valid = omega arith;
  within = omega arith;
  keeps = refl;
}

over-InPlace : InPlace service 1 over
unfolding dict_get dict_set range_length
over-InPlace = record {
  model = root_model 1 ten;
  at = refl;
  of_root = refl;
  valid = omega arith;
  within = omega arith;
  keeps = refl;
}

apply_patches_to_root_exact_example :
    (results : List DataPatchesResult) × (bytes : List ℕ) × (apply_patches_to_root 1
        (patch ∷ over ∷ [])
        service
      ≡ ok (
        results,
        record {
          model_store = service.model_store;
          roots = dict_set 1 (record service_root { bytes = bytes }) service.roots;
        },
      ))
    × Consistent (record {
      model_store = service.model_store;
      roots = dict_set 1 (record service_root { bytes = bytes }) service.roots;
    })
    × (length bytes ≡ length service_root.bytes)
    × ((i : ℕ)
        → get_elem? bytes i ≡ latest service (patch ∷ over ∷ []) i (get_elem? service_root.bytes i))
unfolding dict_get dict_set
apply_patches_to_root_exact_example =
    apply_patches_to_root_exact service 1 service_root (patch ∷ over ∷ []) service-Consistent refl
      (patch-InPlace, (over-InPlace, tt))

shift_twice_short_example :
    get_shifted_point
      (add_new_resized_range
        (add_new_resized_range new_tracker (record { start = 1; end = 1 }) (pos 3))
        (record { start = 7; end = 7 })
        (pos 1))
      5
    ≡ ok 8
shift_twice_short_example =
    shift_twice_short (record { start = 1; end = 1 }) (record { start = 4; end = 4 }) 3 1 5
      (omega arith) (omega arith) (omega arith)

abbrev no_sets : Heap
no_sets = record { sets = []; next_ref = 2 }

last_point_unmerged_example :
    (shift_grid_axis union_refs pass_over (neg 5) ((5, 0) ∷ (10, 1) ∷ []) (some 10) true no_sets
      ≡ ok ([], ((5, 0) ∷ (5, 1) ∷ [], no_sets)))
    × (Above {T = SetRef} 0 ((5, 0) ∷ (5, 1) ∷ []) → ⊥)
    × ((k : ℕ) (c : SetRef)
        → 10 < k
        → (u : SetRef) × (heap' : Heap) × (shift_grid_axis union_refs pass_over
              (neg 5)
              ((5, 0) ∷ (10, 1) ∷ (k, c) ∷ [])
              (some 10)
              true
              no_sets
            ≡ ok ([], ((5, u) ∷ (k - 5, c) ∷ [], heap')))
          × ((x : DataId)
              → contains_id x (ids_of heap' u)
                ≡ (contains_id x (ids_of no_sets 0) || contains_id x (ids_of no_sets 1))))
last_point_unmerged_example = last_point_unmerged 5 4 0 1 no_sets

service_run : create_root 1 ten new_service ≡ ok (root_model 1 ten, service)
unfolding dict_get
service_run = create_root-ok 1 ten new_service refl

Reaches-Consistent_example : Consistent service
Reaches-Consistent_example =
    Reaches-Consistent service
      (by_create_root 1 ten new_service service (root_model 1 ten) start service_run)
