-- ===== src/Data/Service/Reach.antt =====
-- ofrak_core/ofrak/service/data_service.py: the states that a data service reaches by creating models
-- and by patches that keep the size.
use ofrak.Prelude.{
  ℕ, ◌+◌, ◌≡◌, some, List, arith, All, Result, ok, err, dict_get, ap, subst, sym, ◌∙◌, Option-cases,
  inl, inr, Bool-cases, leb, tests,
}
use ofrak.Range.{Range, IsValid}
use ofrak.Data.Grid.{DataId}
use ofrak.Data.Root.{DataModel, DataRoot, DataPatch, DataPatchesResult}
use ofrak.Data.Service.{DataService, new_service, create_root, create_mapped, apply_patches_to_root}
use ofrak.Data.Service.Consistent.{Consistent, new_service-Consistent}
use ofrak.Data.Service.Views.{
  create_root_exact, create_mapped_exact, create_mapped-parent, create_mapped-taken,
}
use ofrak.Data.Service.SameSize.{InPlace}
use ofrak.Data.Service.Patching.{apply_patches_to_root_exact}

-- A service as it is after some calls, each of which returned.
pub data Reaches : DataService → Type 0 where
  start : Reaches new_service
  by_create_root :
      (id : DataId) (bytes : List ℕ) (s s' : DataService) (model : DataModel)
      → Reaches s
      → create_root id bytes s ≡ ok (model, s')
      → Reaches s'
  by_create_mapped :
      (id parent_id : DataId) (r : Range) (s s' : DataService) (model : DataModel)
      → Reaches s
      → IsValid r
      → create_mapped id parent_id r s ≡ ok (model, s')
      → Reaches s'
  by_patches :
      (id : DataId) (patches : List DataPatch) (root : DataRoot) (s s' : DataService)
      (results : List DataPatchesResult)
      → Reaches s
      → dict_get id s.roots ≡ some root
      → All (InPlace s id) patches
      → apply_patches_to_root id patches s ≡ ok (results, s')
      → Reaches s'

same_state :
    {A : Type 0} (a b : A) (s t : DataService) (call : Result (A × DataService))
    → call ≡ ok (a, s)
    → call ≡ ok (b, t)
    → s ≡ t
same_state {A = A} a b s t call e e' =
    ap (λ (r : Result (A × DataService)). elim r [ err _ ↦ s | ok y ↦ y.1 ]) (sym e ∙ e')

keep_create_root :
    (id : DataId) (bytes : List ℕ) (s s' : DataService) (model : DataModel)
    → Consistent s
    → create_root id bytes s ≡ ok (model, s')
    → Consistent s'
keep_create_root id bytes s s' model c e =
    let x = create_root_exact id bytes s c in
    elim (Option-cases (dict_get id s.model_store)) [
      | inl new ↦
          let (m, t, e', c', _) = x.0 new in
          subst Consistent (same_state m model t s' (create_root id bytes s) e' e) c'
      | inr (taken, at) ↦ absurd (cc (x.1 taken at, e))
    ]

keep_create_mapped :
    (id parent_id : DataId) (r : Range) (s s' : DataService) (model : DataModel)
    → Consistent s
    → IsValid r
    → create_mapped id parent_id r s ≡ ok (model, s')
    → Consistent s'
keep_create_mapped id parent_id r s s' model c v e =
    elim (Option-cases (dict_get id s.model_store)) [
      | inr (taken, at) ↦ absurd (cc (create_mapped-taken id parent_id r s taken at, e))
      | inl new ↦ elim (Option-cases (dict_get parent_id s.model_store)) [
        | inl none_at ↦ absurd (cc (create_mapped-parent id parent_id r s none_at new, e))
        | inr (parent, at) ↦
            let (inside, taken, outside) = create_mapped_exact id parent_id r s parent c at v in
            elim (Bool-cases (leb (r.end + parent.range.start) parent.range.end)) [
              | inl within ↦
                  let (m, t, _, e', c', _, _) = inside new (omega (tests, within)) in
                  subst Consistent (same_state m model t s' (create_mapped id parent_id r s) e' e)
                    c'
              | inr behind ↦ absurd (cc (outside new (ground (arith, behind)), e))
            ]
      ]
    ]

-- Every service that is reached from a new one by `create_root`, `create_mapped` and patches that
-- keep the size has its models, roots and indexes in agreement.
pub Reaches-Consistent : (s : DataService) → Reaches s → Consistent s
Reaches-Consistent s start = new_service-Consistent
Reaches-Consistent s (by_create_root id bytes t s' model h e) =
    keep_create_root id bytes t s model (Reaches-Consistent t h) e
Reaches-Consistent s (by_create_mapped id parent_id r t s' model h v e) =
    keep_create_mapped id parent_id r t s model (Reaches-Consistent t h) v e
Reaches-Consistent s (by_patches id patches root t s' results h at p e) =
    let (results', bytes, e', c', _, _) =
      apply_patches_to_root_exact t id root patches (Reaches-Consistent t h) at p in
    subst Consistent (same_state results' results _ s (apply_patches_to_root id patches t) e' e) c'
