-- ===== src/Data/Service/Mapping.antt =====
-- ofrak_core/ofrak/service/data_service.py, `DataService.create_mapped`, on a service whose models,
-- roots and indexes agree.
use ofrak.Prelude.{
  ℕ, ◌+◌, ◌≤◌, ◌≡◌, ◌≢◌, refl, true, none, some, arith, ok, ◌==◌, length, Bool-cases, inl, inr, ◌∙◌,
  sym, ap, subst, dict_get, dict_set, dict_has, get-set, get-set_cases, leb,
}
use ofrak.Range.{Range, IsValid}
use ofrak.Data.Grid.{DataId, contains_id}
use ofrak.Data.Root.{DataModel, DataRoot}
use ofrak.Data.Root.Sets.{contains-add}
use ofrak.Data.Root.Index.{Mirrored, holds, after, add_mapped_model-ok, after-Mirrored, holds-after}
use ofrak.Data.Service.{DataService, create_mapped, get_by_id}
use ofrak.Data.Service.Consistent.{Placed, HeldModel, RootModel, Consistent, translate-pos}

-- the model that maps a range of its parent
abbrev pub mapped_model : DataId → DataModel → Range → DataModel
mapped_model id parent r = record {
  id = id;
  range = record { start = r.start + parent.range.start; end = r.end + parent.range.start };
  root_id = parent.root_id;
}

module _ (id parent_id : DataId) (r : Range) (s : DataService) (c : Consistent s)
    (parent : DataModel) (parent_at : dict_get parent_id s.model_store ≡ some parent)
    (new : dict_get id s.model_store ≡ none) (v : IsValid r)
    (inside : r.end + parent.range.start ≤ parent.range.end) where
  abbrev pub p : Placed s parent
  p = c.placed parent_id parent parent_at

  abbrev pub model : DataModel
  model = mapped_model id parent r

  pub m : Mirrored p.root
  m = c.mirrored parent.root_id p.root p.at

  abbrev pub root' : DataRoot
  root' = after model p.root m

  abbrev pub with_mapped : DataService
  with_mapped = record {
    model_store = dict_set id model s.model_store;
    roots = dict_set parent.root_id root' s.roots;
  }

  within_bound : leb model.range.end parent.range.end ≡ true
  within_bound = ground (arith, inside)

  pub create_mapped-ok : create_mapped id parent_id r s ≡ ok (model, with_mapped)
  unfolding create_mapped dict_has get_by_id
  create_mapped-ok = ground (
    arith,
    new,
    parent_at,
    translate-pos r parent.range.start v,
    p.at,
    inside,
    add_mapped_model-ok model p.root m (omega (arith, inside, p.bounded)),
  )

  kept :
      (x : DataId) (y : DataModel)
      → dict_get x s.model_store ≡ some y
      → dict_get x with_mapped.model_store ≡ some y
  kept x y at = ground (arith, get-set id x model s.model_store, at, new)

  own_Placed : Placed with_mapped model
  own_Placed = record {
    root = root';
    at = ground (arith, get-set parent.root_id parent.root_id root' s.roots);
    valid = omega (arith, v);
    bounded = omega (arith, inside, p.bounded);
    child = λ h. ground (arith, contains-add id id p.root.children);
    held = λ h. ground (arith, holds-after model p.root m id model.range.start model.range.end);
  }

  sibling_Placed : (x : DataModel) → Placed s x → parent.root_id ≡ x.root_id → Placed with_mapped x
  sibling_Placed x q e =
      let same : p.root ≡ q.root =
        ap (λ o. elim o [ none ↦ p.root | some t ↦ t ])
          (sym p.at ∙ ap (λ k. dict_get k s.roots) e ∙ q.at) in
      record {
        root = root';
        at = ground (arith, get-set parent.root_id x.root_id root' s.roots, e);
        valid = q.valid;
        bounded = subst (λ t. x.range.end ≤ length t.bytes) (sym same) q.bounded;
        child = λ h. ground (
          arith,
          contains-add id x.id p.root.children,
          subst (λ t. contains_id x.id t.children ≡ true) (sym same) (q.child h),
        );
        held = λ h. ground (
          arith,
          holds-after model p.root m x.id x.range.start x.range.end,
          subst (λ t. holds t x.id x.range.start x.range.end ≡ true) (sym same) (q.held h),
        );
      }

  other_Placed : (x : DataModel) → Placed s x → parent.root_id ≢ x.root_id → Placed with_mapped x
  other_Placed x q d = record {
    root = q.root;
    at = ground (arith, get-set parent.root_id x.root_id root' s.roots, d, q.at);
    valid = q.valid;
    bounded = q.bounded;
    child = q.child;
    held = q.held;
  }

  mapped-Placed : (x : DataModel) → Placed s x → Placed with_mapped x
  mapped-Placed x q = elim (Bool-cases (parent.root_id == x.root_id)) [
    | inl e ↦ sibling_Placed x q (ground arith)
    | inr d ↦ other_Placed x q (ground arith)
  ]

  kept_HeldModel :
      (k x : DataId) (start end : ℕ)
      → HeldModel s k x start end
      → HeldModel with_mapped k x start end
  kept_HeldModel k x start end h = record {
    model = h.model;
    at = kept x h.model h.at;
    of_root = h.of_root;
    starts = h.starts;
    ends = h.ends;
  }

  kept_RootModel :
      (k : DataId) (root root'' : DataRoot)
      → length root.bytes ≡ length root''.bytes
      → root.model_id ≡ root''.model_id
      → RootModel s k root
      → RootModel with_mapped k root''
  kept_RootModel k root root'' l i h = record {
    model = h.model;
    at = kept k h.model h.at;
    own = h.own;
    starts = h.starts;
    ends = h.ends ∙ l;
    same = sym i ∙ h.same;
  }

  grown-HeldModel :
      (x : DataId) (start end : ℕ)
      → holds root' x start end ≡ true
      → HeldModel with_mapped parent.root_id x start end
  grown-HeldModel x start end h = elim (Bool-cases (holds p.root x start end)) [
    | inl before ↦
        kept_HeldModel parent.root_id x start end
          (c.holding parent.root_id p.root x start end p.at before)
    | inr absent ↦ record {
      model = model;
      at = ground (
        arith,
        get-set id x model s.model_store,
        h,
        absent,
        holds-after model p.root m x start end,
      );
      of_root = refl;
      starts = ground (arith, h, absent, holds-after model p.root m x start end);
      ends = ground (arith, h, absent, holds-after model p.root m x start end);
    }
  ]

  pub with_mapped-Consistent : Consistent with_mapped
  with_mapped-Consistent = record {
    named = λ k x at. ground (arith, get-set id k model s.model_store, at, c.named k x);
    placed = λ k x at. elim (get-set_cases id k model x s.model_store at) [
      | inl (_, e) ↦ subst (λ y. Placed with_mapped y) e own_Placed
      | inr (_, e) ↦ mapped-Placed x (c.placed k x e)
    ];
    rooted = λ k root at. elim (get-set_cases parent.root_id k root' root s.roots at) [
      | inl (i, e) ↦
          subst (λ j. RootModel with_mapped j root) i
            (kept_RootModel parent.root_id p.root root (ap (λ t. length t.bytes) e)
              (ap (λ t. t.model_id) e) (c.rooted parent.root_id p.root p.at))
      | inr (_, e) ↦ kept_RootModel k root root refl refl (c.rooted k root e)
    ];
    mirrored = λ k root at. elim (get-set_cases parent.root_id k root' root s.roots at) [
      | inl (_, e) ↦ subst (λ t. Mirrored t) e (after-Mirrored model p.root m)
      | inr (_, e) ↦ c.mirrored k root e
    ];
    holding = λ k root x start end at h.
        elim (get-set_cases parent.root_id k root' root s.roots at) [
          | inl (i, e) ↦
              subst (λ j. HeldModel with_mapped j x start end) i
                (grown-HeldModel x start end (subst (λ t. holds t x start end ≡ true) (sym e) h))
          | inr (_, e) ↦ kept_HeldModel k x start end (c.holding k root x start end e h)
        ];
  }
