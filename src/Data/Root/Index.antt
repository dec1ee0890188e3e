-- ===== src/Data/Root/Index.antt =====
-- ofrak_core/ofrak/service/data_service.py, `_DataRoot`: the two grids as an index of the mapped
-- children by their ranges, and `add_mapped_model`.
use ofrak.Prelude.{
  ℕ, ◌≤◌, ◌<◌, ◌≡◌, refl, Bool, false, ◌&&◌, ◌||◌, none, some, List, [], arith, ok, err, Error,
  ◌==◌, length, Option-cases, Bool-cases, inl, inr,
}
use ofrak.Data.Grid.{DataId, SetRef, Grid, ids_of, new_set, contains_id, set_add, add_to_grid}
use ofrak.Data.Grid.Points.{grid_at, SortedGrid, Added, add_to_grid_lem}
use ofrak.Data.Grid.Search.{find_key}
use ofrak.Data.Root.{DataModel, DataRoot, new_root, add_to_set, add_mapped_model}
use ofrak.Data.Root.Sets.{contains-add, ids_of-new, ids_of-add}

-- Both grids are sorted and hold the same sets, at mirrored points; no two points share a set, and
-- no set is newer than the next free reference.
pub record Mirrored (root : DataRoot) : Type 0 where
  pub starts : SortedGrid root.grid_starts_first
  pub ends : SortedGrid root.grid_ends_first
  pub mirror : (s e : ℕ) → grid_at root.grid_starts_first s e ≡ grid_at root.grid_ends_first e s
  pub fresh :
      (s e : ℕ) (ref : SetRef)
      → grid_at root.grid_starts_first s e ≡ some ref
      → ref < root.heap.next_ref
  pub alone :
      (s e s' e' : ℕ) (ref : SetRef)
      → grid_at root.grid_starts_first s e ≡ some ref
      → grid_at root.grid_starts_first s' e' ≡ some ref
      → (s ≡ s') × (e ≡ e')

-- Whether the index holds an id at a range.
unfoldable pub holds : DataRoot → DataId → ℕ → ℕ → Bool
holds root c s e = elim (grid_at root.grid_starts_first s e) [
  | none ↦ false
  | some ref ↦ contains_id c (ids_of root.heap ref)
]

-- the root after a model is added, from the new grids and the set at the model's point
abbrev pub added : DataModel → DataRoot → Grid → Grid → SetRef → DataRoot
added model root starts ends ref = record root {
  children = set_add model.id root.children;
  heap = add_to_set model.id ref (new_set [] root.heap).1;
  grid_starts_first = starts;
  grid_ends_first = ends;
}

abbrev pub starts_with : DataModel → DataRoot → SetRef × Grid
starts_with model root =
    add_to_grid root.grid_starts_first model.range.start model.range.end root.heap.next_ref

abbrev pub ends_with : DataModel → DataRoot → SetRef × Grid
ends_with model root =
    add_to_grid root.grid_ends_first model.range.end model.range.start root.heap.next_ref

module _ (model : DataModel) (root : DataRoot) (m : Mirrored root) where
  in_starts :
      Added root.grid_starts_first model.range.start model.range.end root.heap.next_ref
        (starts_with model root).0
        (starts_with model root).1
  in_starts =
      add_to_grid_lem root.grid_starts_first model.range.start model.range.end root.heap.next_ref
        m.starts

  in_ends :
      Added root.grid_ends_first model.range.end model.range.start root.heap.next_ref
        (ends_with model root).0
        (ends_with model root).1
  in_ends =
      add_to_grid_lem root.grid_ends_first model.range.end model.range.start root.heap.next_ref
        m.ends

  -- the assertion on the two sets
  same_set : (starts_with model root).0 ≡ (ends_with model root).0
  same_set = ground (arith, in_starts.set, in_ends.set, m.mirror model.range.start model.range.end)

  pub add_mapped_model-ok :
      model.range.end ≤ length root.bytes
      → add_mapped_model model root
        ≡ ok (
            added model root
              (starts_with model root).1
              (ends_with model root).1
              (starts_with model root).0)
  unfolding add_mapped_model new_set
  add_mapped_model-ok h = ground (arith, same_set)

  abbrev pub after : DataRoot
  after =
      added model root (starts_with model root).1 (ends_with model root).1
        (starts_with model root).0

  -- the set at a point other than the model's
  other_set :
      (s e : ℕ) (ref : SetRef)
      → (model.range.start == s && model.range.end == e) ≡ false
      → grid_at root.grid_starts_first s e ≡ some ref
      → ids_of after.heap ref ≡ ids_of root.heap ref
  other_set s e ref d at = ground (
    arith,
    ids_of-add model.id (starts_with model root).0 ref (new_set [] root.heap).1,
    ids_of-new root.heap ref,
    m.fresh s e ref at,
    in_starts.set,
    m.alone s e model.range.start model.range.end ref at,
  )

  own_set :
      (c : DataId)
      → contains_id c (ids_of (new_set [] root.heap).1 (starts_with model root).0)
        ≡ holds root c model.range.start model.range.end
  unfolding holds
  own_set c =
      elim (Option-cases (grid_at root.grid_starts_first model.range.start model.range.end)) [
        | inl none_at ↦
            ground (arith, none_at, in_starts.set, ids_of-new root.heap (starts_with model root).0)
        | inr (ref, at) ↦ ground (
          arith,
          at,
          in_starts.set,
          ids_of-new root.heap (starts_with model root).0,
          m.fresh model.range.start model.range.end ref at,
        )
      ]

  pub after-Mirrored : Mirrored after
  unfolding add_to_set new_set
  after-Mirrored = record {
    starts = in_starts.sorted;
    ends = in_ends.sorted;
    mirror = λ s e. ground (
      arith,
      in_starts.found s e,
      in_ends.found e s,
      m.mirror s e,
      m.mirror model.range.start model.range.end,
    );
    fresh = λ s e ref at. ground (
      arith,
      in_starts.found s e,
      at,
      m.fresh s e ref,
      m.fresh model.range.start model.range.end ref,
    );
    alone = λ s e s' e' ref at at'. ground (
      arith,
      in_starts.found s e,
      in_starts.found s' e',
      at,
      at',
      m.alone s e s' e' ref,
      m.alone s e model.range.start model.range.end ref,
      m.alone model.range.start model.range.end s' e' ref,
      m.fresh s e ref,
      m.fresh s' e' ref,
    );
  }

  pub holds-after :
      (c : DataId) (s e : ℕ)
      → holds after c s e
        ≡ (holds root c s e || model.id == c && (model.range.start == s && model.range.end == e))
  unfolding holds
  holds-after c s e = elim (Bool-cases (model.range.start == s && model.range.end == e)) [
    | inl here ↦ ground (
      arith,
      in_starts.found s e,
      own_set c,
      in_starts.set,
      ids_of-add model.id (starts_with model root).0 (starts_with model root).0
          (new_set [] root.heap).1,
      contains-add model.id c (ids_of (new_set [] root.heap).1 (starts_with model root).0),
    )
    | inr elsewhere ↦ elim (Option-cases (grid_at root.grid_starts_first s e)) [
      | inl none_at ↦ ground (arith, in_starts.found s e, none_at)
      | inr (ref, at) ↦ ground (arith, in_starts.found s e, at, other_set s e ref elsewhere at)
    ]
  ]

add_mapped_model-err :
    (model : DataModel) (root : DataRoot)
    → length root.bytes < model.range.end
    → add_mapped_model model root ≡ err Error.out_of_bound
unfolding add_mapped_model
add_mapped_model-err model root h = ground arith

-- A root without children mirrors itself.
pub new_root-Mirrored : (id : DataId) (bytes : List ℕ) → Mirrored (new_root id bytes)
unfolding new_root grid_at find_key
new_root-Mirrored id bytes = record {
  starts = record { columns = tt; points = λ x column e. cc };
  ends = record { columns = tt; points = λ x column e. cc };
  mirror = λ s e. refl;
  fresh = λ s e ref at. cc;
  alone = λ s e s' e' ref at at'. cc;
}

-- Where the two grids of a root mirror each other, adding a model that ends within the data never
-- fails its assertion. The grids mirror each other afterwards, and they hold exactly what they held
-- and the new id at its range. A model that ends behind the data is out of bounds.
pub add_mapped_model_exact :
    (model : DataModel) (root : DataRoot)
    → Mirrored root
    → (model.range.end ≤ length root.bytes
        → (root' : DataRoot) × (add_mapped_model model root ≡ ok root')
          × Mirrored root'
          × ((c : DataId) (s e : ℕ)
              → holds root' c s e ≡ (
                  holds root c s e
                  || model.id == c && (model.range.start == s && model.range.end == e)))
          × ((c : DataId)
              → contains_id c root'.children ≡ (contains_id c root.children || model.id == c)))
      × (length root.bytes < model.range.end → add_mapped_model model root ≡ err Error.out_of_bound)
add_mapped_model_exact model root m = (
  λ h. (
    after model root m,
    add_mapped_model-ok model root m h,
    after-Mirrored model root m,
    holds-after model root m,
    λ c. contains-add model.id c root.children,
  ),
  λ h. add_mapped_model-err model root h,
)
