-- ===== src/Data/Service/Consistent.antt =====
-- ofrak_core/ofrak/service/data_service.py, `DataService`: the models, the roots and the indexes of
-- the roots agree, and `create_root` and `create_mapped` keep it so.
use ofrak.Prelude.{
  ℕ, zero, suc, ◌+◌, ◌≤◌, ◌≡◌, refl, true, none, some, List, arith, ok, ◌==◌, if◌then◌else◌, length,
  Option-cases, inl, inr, sym, dict_get, dict_set, dict_has, get-set, get-set_cases, ap, subst, ◌≢◌,
}
use ofrak.Prelude.Int.{pos}
use ofrak.Range.{Range, IsValid, mk_range, translate}
use ofrak.Data.Grid.{DataId, contains_id}
use ofrak.Data.Grid.Search.{find_key}
use ofrak.Data.Grid.Points.{grid_at}
use ofrak.Data.Root.{DataModel, DataRoot, is_mapped, new_root}
use ofrak.Data.Root.Index.{Mirrored, holds, new_root-Mirrored}
use ofrak.Data.Service.{DataService, new_service, create_root}

-- A model has its root; its range is valid and within the root's data; and a mapped model is a child
-- of the root, which holds it at its range.
pub record Placed (s : DataService) (model : DataModel) : Type 0 where
  pub root : DataRoot
  pub at : dict_get model.root_id s.roots ≡ some root
  pub valid : IsValid model.range
  pub bounded : model.range.end ≤ length root.bytes
  pub child : is_mapped model ≡ true → contains_id model.id root.children ≡ true
  pub held : is_mapped model ≡ true → holds root model.id model.range.start model.range.end ≡ true

-- A model that a root holds at a range is one of the root with that range.
pub record HeldModel (s : DataService) (root_id c : DataId) (start end : ℕ) : Type 0 where
  pub model : DataModel
  pub at : dict_get c s.model_store ≡ some model
  pub of_root : model.root_id ≡ root_id
  pub starts : model.range.start ≡ start
  pub ends : model.range.end ≡ end

-- A root has a model that is its own root and covers the root's data.
pub record RootModel (s : DataService) (id : DataId) (root : DataRoot) : Type 0 where
  pub model : DataModel
  pub at : dict_get id s.model_store ≡ some model
  pub own : model.root_id ≡ id
  pub starts : model.range.start ≡ 0
  pub ends : model.range.end ≡ length root.bytes
  pub same : root.model_id ≡ id

pub record Consistent (s : DataService) : Type 0 where
  pub named :
      (id : DataId) (model : DataModel) → dict_get id s.model_store ≡ some model → model.id ≡ id
  pub placed :
      (id : DataId) (model : DataModel) → dict_get id s.model_store ≡ some model → Placed s model
  pub rooted :
      (id : DataId) (root : DataRoot) → dict_get id s.roots ≡ some root → RootModel s id root
  pub mirrored : (id : DataId) (root : DataRoot) → dict_get id s.roots ≡ some root → Mirrored root
  pub holding :
      (id : DataId) (root : DataRoot) (c : DataId) (start end : ℕ)
      → dict_get id s.roots ≡ some root
      → holds root c start end ≡ true
      → HeldModel s id c start end

pub translate-pos :
    (r : Range) (n : ℕ)
    → IsValid r
    → translate r (pos n) ≡ ok (record { start = r.start + n; end = r.end + n })
unfolding translate mk_range
translate-pos r zero v = ground arith
translate-pos r (suc n) v = ground arith

no_root :
    (s : DataService) (id : DataId)
    → Consistent s
    → dict_get id s.model_store ≡ none
    → dict_get id s.roots ≡ none
no_root s id c e = elim (Option-cases (dict_get id s.roots)) [
  | inl none_at ↦ none_at
  | inr (root, at) ↦ let r = c.rooted id root at in cc (r.at, e)
]

-- the model of a new root
abbrev pub root_model : DataId → List ℕ → DataModel
root_model id bytes = record {
  id = id;
  range = record { start = 0; end = length bytes };
  root_id = id;
}

abbrev pub with_root : DataId → List ℕ → DataService → DataService
with_root id bytes s = record {
  model_store = dict_set id (root_model id bytes) s.model_store;
  roots = dict_set id (new_root id bytes) s.roots;
}

pub create_root-ok :
    (id : DataId) (bytes : List ℕ) (s : DataService)
    → dict_get id s.model_store ≡ none
    → create_root id bytes s ≡ ok (root_model id bytes, with_root id bytes s)
unfolding create_root mk_range dict_has
create_root-ok id bytes s e = ground (arith, e)

module _ (id : DataId) (bytes : List ℕ) (s : DataService) (c : Consistent s)
    (new : dict_get id s.model_store ≡ none) where
  model_at :
      (k : DataId)
      → dict_get k (with_root id bytes s).model_store
        ≡ (if id == k then some (root_model id bytes) else dict_get k s.model_store)
  model_at k = get-set id k (root_model id bytes) s.model_store

  root_at :
      (k : DataId)
      → dict_get k (with_root id bytes s).roots
        ≡ (if id == k then some (new_root id bytes) else dict_get k s.roots)
  root_at k = get-set id k (new_root id bytes) s.roots

  own_Placed : Placed (with_root id bytes s) (root_model id bytes)
  unfolding is_mapped new_root
  own_Placed = record {
    root = new_root id bytes;
    at = ground (arith, root_at id);
    valid = omega arith;
    bounded = omega arith;
    child = λ h. ground (arith, h);
    held = λ h. ground (arith, h);
  }

  other_Placed : (model : DataModel) → Placed s model → Placed (with_root id bytes s) model
  other_Placed model p = record {
    root = p.root;
    at = ground (arith, root_at model.root_id, p.at, no_root s id c new);
    valid = p.valid;
    bounded = p.bounded;
    child = p.child;
    held = p.held;
  }

  own_RootModel :
      (k : DataId) (root : DataRoot)
      → id ≡ k
      → new_root id bytes ≡ root
      → RootModel (with_root id bytes s) k root
  unfolding new_root
  own_RootModel k root i e = record {
    model = root_model id bytes;
    at = ground (arith, model_at k, i);
    own = i;
    starts = refl;
    ends = ap (λ r. length r.bytes) e;
    same = cc (ap (λ r. r.model_id) e, i);
  }

  other_RootModel :
      (k : DataId) (root : DataRoot)
      → id ≢ k
      → RootModel s k root
      → RootModel (with_root id bytes s) k root
  other_RootModel k root d r = record {
    model = r.model;
    at = ground (arith, model_at k, d, r.at);
    own = r.own;
    starts = r.starts;
    ends = r.ends;
    same = r.same;
  }

  other_HeldModel :
      (k x : DataId) (start end : ℕ)
      → HeldModel s k x start end
      → HeldModel (with_root id bytes s) k x start end
  other_HeldModel k x start end h = record {
    model = h.model;
    at = ground (arith, model_at x, new, h.at);
    of_root = h.of_root;
    starts = h.starts;
    ends = h.ends;
  }

  new_root-empty : (x : DataId) (start end : ℕ) → holds (new_root id bytes) x start end ≡ true → ⊥
  unfolding new_root holds grid_at find_key
  new_root-empty x start end h = cc

  pub with_root-Consistent : Consistent (with_root id bytes s)
  with_root-Consistent = record {
    named = λ k model at. ground (arith, model_at k, at, c.named k model);
    placed = λ k model at. elim (get-set_cases id k (root_model id bytes) model s.model_store at) [
      | inl (_, e) ↦ subst (λ m. Placed (with_root id bytes s) m) e own_Placed
      | inr (_, e) ↦ other_Placed model (c.placed k model e)
    ];
    rooted = λ k root at. elim (get-set_cases id k (new_root id bytes) root s.roots at) [
      | inl (i, e) ↦ own_RootModel k root i e
      | inr (d, e) ↦ other_RootModel k root d (c.rooted k root e)
    ];
    mirrored = λ k root at. elim (get-set_cases id k (new_root id bytes) root s.roots at) [
      | inl (_, e) ↦ subst (λ r. Mirrored r) e (new_root-Mirrored id bytes)
      | inr (_, e) ↦ c.mirrored k root e
    ];
    holding = λ k root x start end at h.
        elim (get-set_cases id k (new_root id bytes) root s.roots at) [
          | inl (_, e) ↦
              absurd
                (new_root-empty x start end (subst (λ r. holds r x start end ≡ true) (sym e) h))
          | inr (_, e) ↦ other_HeldModel k x start end (c.holding k root x start end e h)
        ];
  }

-- A service without models agrees with itself.
pub new_service-Consistent : Consistent new_service
unfolding dict_get
new_service-Consistent = record {
  named = λ id model at. cc;
  placed = λ id model at. absurd cc;
  rooted = λ id root at. absurd cc;
  mirrored = λ id root at. absurd cc;
  holding = λ id root x start end at h. absurd cc;
}
