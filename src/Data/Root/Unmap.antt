-- ===== src/Data/Root/Unmap.antt =====
-- ofrak_core/ofrak/service/data_service.py, `_DataRoot.delete_mapped_model`.
use ofrak.Prelude.{
  ℕ, ◌≡◌, refl, true, false, ◌&&◌, not, some, List, [], ◌∷◌, arith, ok, ◌==◌, if◌then◌else◌, length,
  Option-cases, Bool-cases, inl, inr, ◌∙◌, sym, dict_set,
}
use ofrak.Data.Grid.{
  DataId, SetRef, Grid, ids_of, contains_id, set_remove, remove_from_grid, get_ids_at,
}
use ofrak.Data.Grid.Points.{grid_at, get_ids_at_lem}
use ofrak.Data.Grid.Deletion.{Removed, remove_from_grid_lem}
use ofrak.Data.Root.{DataModel, DataRoot, delete_mapped_model}
use ofrak.Data.Root.Sets.{contains-remove, ids_of-set}
use ofrak.Data.Root.Index.{Mirrored, holds}

-- the root without the model, its set being `left`
abbrev smaller : DataModel → DataRoot → SetRef → List DataId → DataRoot
smaller model root ref left = record root {
  children = set_remove model.id root.children;
  heap = record root.heap { sets = dict_set ref left root.heap.sets };
}

-- What deletion leaves: all ranges but the model's.
pub record Unmapped (model : DataModel) (root root' : DataRoot) : Type 0 where
  pub returns : delete_mapped_model model root ≡ ok root'
  pub mirrored : Mirrored root'
  pub exact :
      (c : DataId) (s e : ℕ)
      → holds root' c s e ≡ (
          holds root c s e
          && not (model.id == c && (model.range.start == s && model.range.end == e)))
  pub others :
      (c : DataId)
      → contains_id c root'.children ≡ (contains_id c root.children && not (model.id == c))

no_ids : (c : DataId) (s : List DataId) → (length s == 0) ≡ true → contains_id c s ≡ false
no_ids c [] h = refl
no_ids c (x ∷ s) h = ground arith

module _ (model : DataModel) (root : DataRoot) (m : Mirrored root) (ref : SetRef)
    (at : grid_at root.grid_starts_first model.range.start model.range.end ≡ some ref)
    (has : contains_id model.id (ids_of root.heap ref) ≡ true)
    (child : contains_id model.id root.children ≡ true) where
  abbrev left : List DataId
  left = set_remove model.id (ids_of root.heap ref)

  set-smaller :
      (r : SetRef)
      → ids_of (smaller model root ref left).heap r
        ≡ (if ref == r then left else ids_of root.heap r)
  set-smaller r = ids_of-set left ref r root.heap

  got : get_ids_at root.grid_starts_first model.range.start model.range.end ≡ ok ref
  got =
      rw (get_ids_at_lem root.grid_starts_first model.range.start model.range.end m.starts, at) refl

  keep_point : (length left == 0) ≡ false → Unmapped model root (smaller model root ref left)
  unfolding holds delete_mapped_model
  keep_point nonempty = record {
    returns = rw (child, got, has, nonempty, delete_mapped_model) refl;
    mirrored = record {
      starts = m.starts;
      ends = m.ends;
      mirror = m.mirror;
      fresh = m.fresh;
      alone = m.alone;
    };
    exact = λ c s e. elim (Option-cases (grid_at root.grid_starts_first s e)) [
      | inl none_at ↦ ground (arith, none_at)
      | inr (r, r_at) ↦ ground (
        arith,
        at,
        r_at,
        set-smaller r,
        contains-remove model.id c (ids_of root.heap ref),
        m.alone s e model.range.start model.range.end r r_at,
      )
    ];
    others = λ c. contains-remove model.id c root.children;
  }

  drop_point :
      (starts ends : Grid)
      → (length left == 0) ≡ true
      → remove_from_grid root.grid_starts_first model.range.start model.range.end ≡ ok starts
      → remove_from_grid root.grid_ends_first model.range.end model.range.start ≡ ok ends
      → Removed root.grid_starts_first model.range.start model.range.end starts
      → Removed root.grid_ends_first model.range.end model.range.start ends
      → Unmapped model root (record (smaller model root ref left) {
        grid_starts_first = starts;
        grid_ends_first = ends;
      })
  unfolding holds delete_mapped_model
  drop_point starts ends empty from_starts from_ends in_starts in_ends = record {
    returns = rw (child, got, has, empty, from_starts, from_ends, delete_mapped_model) refl;
    mirrored = record {
      starts = in_starts.sorted;
      ends = in_ends.sorted;
      mirror = λ s e. ground (arith, in_starts.found s e, in_ends.found e s, m.mirror s e);
      fresh = λ s e r r_at. ground (arith, in_starts.found s e, r_at, m.fresh s e r);
      alone = λ s e s' e' r r_at r_at'.
          ground
            (arith, in_starts.found s e, in_starts.found s' e', r_at, r_at', m.alone s e s' e' r);
    };
    exact = λ c s e. elim (Option-cases (grid_at root.grid_starts_first s e)) [
      | inl none_at ↦ ground (arith, in_starts.found s e, none_at)
      | inr (r, r_at) ↦ ground (
        arith,
        at,
        r_at,
        in_starts.found s e,
        set-smaller r,
        no_ids c left empty,
        contains-remove model.id c (ids_of root.heap ref),
        m.alone s e model.range.start model.range.end r r_at,
      )
    ];
    others = λ c. contains-remove model.id c root.children;
  }

  unmap : (root' : DataRoot) × Unmapped model root root'
  unmap =
      let s = model.range.start in
      let e = model.range.end in
      let (starts, from_starts, in_starts) =
        remove_from_grid_lem root.grid_starts_first s e ref m.starts at in
      let (ends, from_ends, in_ends) =
        remove_from_grid_lem root.grid_ends_first e s ref m.ends (sym (m.mirror s e) ∙ at) in
      elim (Bool-cases (length left == 0)) [
        | inl empty ↦ (
          record (smaller model root ref left) {
            grid_starts_first = starts;
            grid_ends_first = ends;
          },
          drop_point starts ends empty from_starts from_ends in_starts in_ends,
        )
        | inr nonempty ↦ (smaller model root ref left, keep_point nonempty)
      ]

-- Where the two grids of a root mirror each other and hold a child at its range, deleting the child
-- never raises. The grids mirror each other afterwards and hold exactly what they held but the
-- child's range, and the child is no longer listed.
pub delete_mapped_model_exact :
    (model : DataModel) (root : DataRoot)
    → Mirrored root
    → contains_id model.id root.children ≡ true
    → holds root model.id model.range.start model.range.end ≡ true
    → (root' : DataRoot) × Unmapped model root root'
unfolding holds
delete_mapped_model_exact model root m child here =
    elim (Option-cases (grid_at root.grid_starts_first model.range.start model.range.end)) [
      | inl none_at ↦ ground (arith, none_at, here)
      | inr (ref, at) ↦ unmap model root m ref at (ground (arith, at, here)) child
    ]
