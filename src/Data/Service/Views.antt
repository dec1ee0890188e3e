-- ===== src/Data/Service/Views.antt =====
-- ofrak_core/ofrak/service/data_service.py: what `get_data` returns for the models that
-- `create_root` and `create_mapped` make.
use ofrak.Prelude.{
  ℕ, zero, suc, ◌+◌, ◌≤◌, ◌<◌, ◌≡◌, refl, none, some, List, [], ◌∷◌, arith, ok, err, Error, take,
  drop, length, sym, ◌∙◌, dict_get, dict_has, ap, get-set_self,
}
use ofrak.Range.{Range, IsValid}
use ofrak.Data.Grid.{DataId}
use ofrak.Data.Root.{DataModel, DataRoot, new_root}
use ofrak.Data.Service.{
  DataService, create_root, create_mapped, get_by_id, get_root_by_id, get_data, slice,
}
use ofrak.Data.Service.Consistent.{
  Consistent, root_model, with_root, create_root-ok, with_root-Consistent, translate-pos,
}
use ofrak.Data.Service.Mapping.{
  mapped_model, root', with_mapped, create_mapped-ok, with_mapped-Consistent,
}

take-take : (n k : ℕ) (xs : List ℕ) → n ≤ k → take n (take k xs) ≡ take n xs
take-take zero k xs h = refl
take-take (suc n) zero xs h = absurd (omega arith)
take-take (suc n) (suc k) [] h = refl
take-take (suc n) (suc k) (x ∷ xs) h = ap (λ t. x ∷ t) (take-take n k xs (omega arith))

take-empty : (n : ℕ) → take {A = ℕ} n [] ≡ []
take-empty zero = refl
take-empty (suc n) = refl

drop-empty : (n : ℕ) → drop {A = ℕ} n [] ≡ []
drop-empty zero = refl
drop-empty (suc n) = refl

take-drop : (n k : ℕ) (xs : List ℕ) → take n (drop k xs) ≡ drop k (take (k + n) xs)
take-drop n zero xs = ap (λ i. take i xs) (omega arith)
take-drop n (suc k) [] = let e : suc k + n ≡ suc (k + n) = omega arith in rw e (take-empty n)
take-drop n (suc k) (x ∷ xs) =
    let e : suc k + n ≡ suc (k + n) = omega arith in rw e (take-drop n k xs)

drop-drop : (n k : ℕ) (xs : List ℕ) → drop n (drop k xs) ≡ drop (k + n) xs
drop-drop n zero xs = ap (λ i. drop i xs) (omega arith)
drop-drop n (suc k) [] = let e : suc k + n ≡ suc (k + n) = omega arith in rw e (drop-empty n)
drop-drop n (suc k) (x ∷ xs) =
    let e : suc k + n ≡ suc (k + n) = omega arith in rw e (drop-drop n k xs)

-- A slice of a slice that ends within it.
pub slice-slice :
    (bytes : List ℕ) (outer r : Range)
    → r.end + outer.start ≤ outer.end
    → slice (slice bytes outer) r
      ≡ slice bytes (record { start = r.start + outer.start; end = r.end + outer.start })
slice-slice bytes outer r h =
    let e : outer.start + r.end ≡ r.end + outer.start = omega arith in
    let e' : outer.start + r.start ≡ r.start + outer.start = omega arith in
    rw
      (
        take-drop r.end outer.start (take outer.end bytes),
        e,
        take-take (r.end + outer.start) outer.end bytes h,
        drop-drop r.start outer.start (take (r.end + outer.start) bytes),
        e',
      )
      refl

-- the data of a model, from its root
pub get_data-none :
    (s : DataService) (id : DataId) (model : DataModel) (root : DataRoot)
    → dict_get id s.model_store ≡ some model
    → dict_get model.root_id s.roots ≡ some root
    → get_data s id none ≡ ok (slice root.bytes model.range)
unfolding get_data get_by_id get_root_by_id
get_data-none s id model root e e' = ground (arith, e, e')

take-all : (xs : List ℕ) → take (length xs) xs ≡ xs
take-all [] = refl
take-all (x ∷ xs) = ap (λ t. x ∷ t) (take-all xs)

get_new_root :
    (id : DataId) (bytes : List ℕ) (s : DataService)
    → get_data (with_root id bytes s) id none ≡ ok bytes
unfolding new_root
get_new_root id bytes s =
    get_data-none (with_root id bytes s) id (root_model id bytes) (new_root id bytes)
      (get-set_self id (root_model id bytes) s.model_store)
      (get-set_self id (new_root id bytes) s.roots)
    ∙ ap ok (take-all bytes)

create_root-taken :
    (id : DataId) (bytes : List ℕ) (s : DataService) (model : DataModel)
    → dict_get id s.model_store ≡ some model
    → create_root id bytes s ≡ err Error.already_exists
unfolding create_root dict_has
create_root-taken id bytes s model e = ground (arith, e)

pub create_mapped-taken :
    (id parent_id : DataId) (r : Range) (s : DataService) (model : DataModel)
    → dict_get id s.model_store ≡ some model
    → create_mapped id parent_id r s ≡ err Error.already_exists
unfolding create_mapped dict_has
create_mapped-taken id parent_id r s model e = ground (arith, e)

pub create_mapped-parent :
    (id parent_id : DataId) (r : Range) (s : DataService)
    → dict_get parent_id s.model_store ≡ none
    → dict_get id s.model_store ≡ none
    → create_mapped id parent_id r s ≡ err Error.not_found
unfolding create_mapped dict_has get_by_id
create_mapped-parent id parent_id r s e new = ground (arith, e, new)

create_mapped-outside :
    (id parent_id : DataId) (r : Range) (s : DataService) (parent : DataModel)
    → dict_get parent_id s.model_store ≡ some parent
    → dict_get id s.model_store ≡ none
    → IsValid r
    → parent.range.end < r.end + parent.range.start
    → create_mapped id parent_id r s ≡ err Error.out_of_bound
unfolding create_mapped dict_has get_by_id
create_mapped-outside id parent_id r s parent e new v h =
    ground (arith, e, new, h, translate-pos r parent.range.start v)

-- On a service whose models, roots and indexes agree, `create_root` with a new id returns and keeps
-- the agreement, and `get_data` returns the data it was given. With an id that is taken it raises.
pub create_root_exact :
    (id : DataId) (bytes : List ℕ) (s : DataService)
    → Consistent s
    → (dict_get id s.model_store ≡ none
        → (model : DataModel) × (s' : DataService) × (create_root id bytes s ≡ ok (model, s'))
          × Consistent s'
          × (get_data s' id none ≡ ok bytes))
      × ((model : DataModel)
          → dict_get id s.model_store ≡ some model
          → create_root id bytes s ≡ err Error.already_exists)
create_root_exact id bytes s c = (
  λ new. (
    root_model id bytes,
    with_root id bytes s,
    create_root-ok id bytes s new,
    with_root-Consistent id bytes s c new,
    get_new_root id bytes s,
  ),
  λ model e. create_root-taken id bytes s model e,
)

-- On a service whose models, roots and indexes agree, mapping a valid range within a parent to a new
-- id returns and keeps the agreement, and the data of the new model is that slice of the parent's
-- data. It raises where the id is taken, and where the range ends behind the parent.
pub create_mapped_exact :
    (id parent_id : DataId) (r : Range) (s : DataService) (parent : DataModel)
    → Consistent s
    → dict_get parent_id s.model_store ≡ some parent
    → IsValid r
    → (dict_get id s.model_store ≡ none
        → r.end + parent.range.start ≤ parent.range.end
        → (model : DataModel) × (s' : DataService) × (bytes : List ℕ) × (create_mapped id parent_id
              r s
            ≡ ok (model, s'))
          × Consistent s'
          × (get_data s parent_id none ≡ ok bytes)
          × (get_data s' id none ≡ ok (slice bytes r)))
      × ((model : DataModel)
          → dict_get id s.model_store ≡ some model
          → create_mapped id parent_id r s ≡ err Error.already_exists)
      × (dict_get id s.model_store ≡ none
          → parent.range.end < r.end + parent.range.start
          → create_mapped id parent_id r s ≡ err Error.out_of_bound)
create_mapped_exact id parent_id r s parent c e v = (
  λ new inside.
      let p = c.placed parent_id parent e in
      (
        mapped_model id parent r,
        with_mapped id parent_id r s c parent e new v inside,
        slice p.root.bytes parent.range,
        create_mapped-ok id parent_id r s c parent e new v inside,
        with_mapped-Consistent id parent_id r s c parent e new v inside,
        get_data-none s parent_id parent p.root e p.at,
        get_data-none (with_mapped id parent_id r s c parent e new v inside) id
              (mapped_model id parent r) (root' id parent_id r s c parent e new v inside)
              (get-set_self id (mapped_model id parent r) s.model_store)
              (get-set_self parent.root_id (root' id parent_id r s c parent e new v inside) s.roots)
            ∙ ap ok (sym (slice-slice p.root.bytes parent.range r inside)),
      ),
  λ model taken. create_mapped-taken id parent_id r s model taken,
  λ new outside. create_mapped-outside id parent_id r s parent e new v outside,
)
