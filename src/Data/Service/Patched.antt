-- ===== src/Data/Service/Patched.antt =====
-- ofrak_core/ofrak/service/data_service.py: new data of the same length in a root keeps the models,
-- roots and indexes in agreement.
use ofrak.Prelude.{
  ℕ, ◌≤◌, ◌≡◌, refl, true, none, some, List, arith, length, dict_get, dict_set, ap, ◌∙◌, sym, subst,
  get-set_cases, get-set, inl, inr, Bool-cases, ◌==◌,
}
use ofrak.Data.Grid.{DataId, contains_id}
use ofrak.Data.Root.{DataModel, DataRoot}
use ofrak.Data.Root.Index.{Mirrored, holds}
use ofrak.Data.Service.{DataService}
use ofrak.Data.Service.Consistent.{Placed, HeldModel, RootModel, Consistent}

module _ (s : DataService) (c : Consistent s) (id : DataId) (root : DataRoot)
    (at : dict_get id s.roots ≡ some root) (bytes : List ℕ)
    (l : length bytes ≡ length root.bytes) where
  abbrev pub patched_root : DataRoot
  patched_root = record root { bytes = bytes }

  abbrev pub patched : DataService
  patched = record { model_store = s.model_store; roots = dict_set id patched_root s.roots }

  sibling_Placed : (x : DataModel) → Placed s x → id ≡ x.root_id → Placed patched x
  unfolding holds
  sibling_Placed x q e =
      let same : q.root ≡ root =
        ap (λ o. elim o [ none ↦ q.root | some t ↦ t ])
          (sym q.at ∙ ap (λ k. dict_get k s.roots) (sym e) ∙ at) in
      record {
        root = patched_root;
        at = ground (arith, get-set id x.root_id patched_root s.roots, e);
        valid = q.valid;
        bounded = rw (l) (subst (λ t. x.range.end ≤ length t.bytes) same q.bounded);
        child = λ h. subst (λ t. contains_id x.id t.children ≡ true) same (q.child h);
        held = λ h. subst (λ t. holds t x.id x.range.start x.range.end ≡ true) same (q.held h);
      }

  patched-Placed : (x : DataModel) → Placed s x → Placed patched x
  patched-Placed x q = elim (Bool-cases (id == x.root_id)) [
    | inl e ↦ sibling_Placed x q (ground arith)
    | inr d ↦ record {
      root = q.root;
      at = ground (arith, get-set id x.root_id patched_root s.roots, d, q.at);
      valid = q.valid;
      bounded = q.bounded;
      child = q.child;
      held = q.held;
    }
  ]

  patched-Mirrored : Mirrored patched_root
  patched-Mirrored =
      let m = c.mirrored id root at in
      record {
        starts = m.starts;
        ends = m.ends;
        mirror = m.mirror;
        fresh = m.fresh;
        alone = m.alone;
      }

  move_RootModel :
      (k : DataId) (r r' : DataRoot)
      → length r.bytes ≡ length r'.bytes
      → r.model_id ≡ r'.model_id
      → RootModel s k r
      → RootModel patched k r'
  move_RootModel k r r' b i h = record {
    model = h.model;
    at = h.at;
    own = h.own;
    starts = h.starts;
    ends = h.ends ∙ b;
    same = sym i ∙ h.same;
  }

  move_HeldModel :
      (k x : DataId) (start end : ℕ) → HeldModel s k x start end → HeldModel patched k x start end
  move_HeldModel k x start end h = record {
    model = h.model;
    at = h.at;
    of_root = h.of_root;
    starts = h.starts;
    ends = h.ends;
  }

  pub patched-Consistent : Consistent patched
  unfolding holds
  patched-Consistent = record {
    named = c.named;
    placed = λ k x e. patched-Placed x (c.placed k x e);
    rooted = λ k r e. elim (get-set_cases id k patched_root r s.roots e) [
      | inl (i, e') ↦
          subst (λ j. RootModel patched j r) i
            (move_RootModel id root r (sym l ∙ ap (λ t. length t.bytes) e')
              (ap (λ t. t.model_id) e') (c.rooted id root at))
      | inr (_, e') ↦ move_RootModel k r r refl refl (c.rooted k r e')
    ];
    mirrored = λ k r e. elim (get-set_cases id k patched_root r s.roots e) [
      | inl (_, e') ↦ subst (λ t. Mirrored t) e' patched-Mirrored
      | inr (_, e') ↦ c.mirrored k r e'
    ];
    holding = λ k r x start end e h. elim (get-set_cases id k patched_root r s.roots e) [
      | inl (i, e') ↦
          subst (λ j. HeldModel patched j x start end) i
            (move_HeldModel id x start end (
              c.holding id root x start end at
                (subst (λ t. holds t x start end ≡ true) (sym e') h)))
      | inr (_, e') ↦ move_HeldModel k x start end (c.holding k r x start end e' h)
    ];
  }
