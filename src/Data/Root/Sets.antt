-- ===== src/Data/Root/Sets.antt =====
-- ofrak_core/ofrak/service/data_service.py: the set objects at the points of a root's grids.
use ofrak.Prelude.{
  ◌≡◌, refl, ◌||◌, not, ◌&&◌, none, some, ap, ◌∙◌, List, [], ◌∷◌, ◌++◌, arith, ◌==◌, if◌then◌else◌,
  dict_set, get-set, get-set_self,
}
use ofrak.Data.Grid.{
  DataId, SetRef, Heap, ids_of, new_set, contains_id, set_add, set_union, set_remove,
}
use ofrak.Data.Shift.{union_refs}
use ofrak.Data.Root.{add_to_set}

pub contains-append :
    (x : DataId) (xs ys : List DataId)
    → contains_id x (xs ++ ys) ≡ (contains_id x xs || contains_id x ys)
contains-append x [] ys = refl
contains-append x (z ∷ xs) ys = ground (arith, contains-append x xs ys)

pub contains-add :
    (x c : DataId) (s : List DataId) → contains_id c (set_add x s) ≡ (contains_id c s || x == c)
unfolding set_add
contains-add x c s = ground (arith, contains-append c s (x ∷ []))

pub contains-remove :
    (x c : DataId) (s : List DataId)
    → contains_id c (set_remove x s) ≡ (contains_id c s && not (x == c))
unfolding set_remove
contains-remove x c [] = refl
contains-remove x c (z ∷ s) = ground (arith, contains-remove x c s)

pub contains-union :
    (c : DataId) (a b : List DataId)
    → contains_id c (set_union a b) ≡ (contains_id c a || contains_id c b)
unfolding set_union
contains-union c a [] = ground arith
contains-union c a (x ∷ b) = ground (arith, contains-union c (set_add x a) b, contains-add x c a)

pub ids_of-union :
    (a b : SetRef) (heap : Heap) (c : DataId)
    → contains_id c (ids_of (union_refs a b heap).1 (union_refs a b heap).0)
      ≡ (contains_id c (ids_of heap a) || contains_id c (ids_of heap b))
unfolding union_refs new_set ids_of
ids_of-union a b heap c =
    let ids = set_union (ids_of heap a) (ids_of heap b) in
    ap (λ o. contains_id c (elim o [ none ↦ [] | some xs ↦ xs ]))
      (get-set_self heap.next_ref ids heap.sets)
    ∙ contains-union c (ids_of heap a) (ids_of heap b)

pub ids_of-new :
    (heap : Heap) (ref : SetRef)
    → ids_of (new_set [] heap).1 ref ≡ (if heap.next_ref == ref then [] else ids_of heap ref)
unfolding ids_of new_set
ids_of-new heap ref = ground (arith, get-set heap.next_ref ref [] heap.sets)

pub ids_of-add :
    (x : DataId) (at ref : SetRef) (heap : Heap)
    → ids_of (add_to_set x at heap) ref
      ≡ (if at == ref then set_add x (ids_of heap at) else ids_of heap ref)
unfolding ids_of add_to_set
ids_of-add x at ref heap = ground (arith, get-set at ref (set_add x (ids_of heap at)) heap.sets)

pub ids_of-set :
    (s : List DataId) (at ref : SetRef) (heap : Heap)
    → ids_of (record heap { sets = dict_set at s heap.sets }) ref
      ≡ (if at == ref then s else ids_of heap ref)
unfolding ids_of
ids_of-set s at ref heap = ground (arith, get-set at ref s heap.sets)
