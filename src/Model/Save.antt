-- ===== src/Model/Save.antt =====
-- A diff that `MutableResourceModel` has collected and `save` has handed out, against the model that
-- the changes started from.
use ofrak.Model.{
  ResourceTag, ResourceModel, ResourceModelDiff, MutableResourceModel, mem, update_members, del_all,
  updated_model, apply, new_diff, from_model, add_tag, remove_tag, add_attributes,
  remove_attributes, save,
}
use ofrak.Model.Sets.{mem-update_members, mem-difference_update, get-set_all, del_all_ok}
use ofrak.Prelude.{ℕ, ◌≡◌, refl, true, none, ok, if◌then◌else◌, Dict, dict_get, dict_has, arith}
use ofrak.Model.Tracked.{Tracked}
use ofrak.Model.Edits.{
  Unremoved, add_tag-Tracked, remove_tag-Tracked, add_attributes-Tracked, remove_attributes-Tracked,
  from_model-Tracked,
}

-- A mutable model after some changes since it was made from a model. A tag is added only if neither
-- it nor a base of it was removed; attributes replace others only where the model had some of the
-- type, and are removed only if they were not added.
pub data Edited (model : ResourceModel) : MutableResourceModel → Type 0 where
  start : Edited model (from_model model)
  by_add_tag :
      (t : ResourceTag) (m : MutableResourceModel)
      → Edited model m
      → Unremoved t m.diff.tags_removed
      → Edited model (add_tag t m).0
  by_remove_tag :
      (t : ℕ) (m m' : MutableResourceModel)
      → Edited model m
      → remove_tag t m ≡ ok m'
      → Edited model m'
  by_add_attributes :
      (k v : ℕ) (m : MutableResourceModel)
      → Edited model m
      → (dict_has k m.attributes ≡ true → dict_has k model.attributes ≡ true)
      → Edited model (add_attributes k v m)
  by_remove_attributes :
      (k : ℕ) (m m' : MutableResourceModel)
      → Edited model m
      → dict_get k m.diff.attributes_added ≡ none
      → remove_attributes k m ≡ ok m'
      → Edited model m'

Edited-Tracked :
    (model : ResourceModel) (m : MutableResourceModel) → Edited model m → Tracked model m
Edited-Tracked model m start = from_model-Tracked model
Edited-Tracked model m (by_add_tag t m0 h new) =
    (add_tag-Tracked model t m0 new (Edited-Tracked model m0 h)).0
Edited-Tracked model m (by_remove_tag t m0 m1 h e) =
    remove_tag-Tracked model t m0 m (Edited-Tracked model m0 h) e
Edited-Tracked model m (by_add_attributes k v m0 h before) =
    add_attributes-Tracked model k v m0 (Edited-Tracked model m0 h) before
Edited-Tracked model m (by_remove_attributes k m0 m1 h old e) =
    remove_attributes-Tracked model k m0 m (Edited-Tracked model m0 h) old e

updated_id :
    (diff : ResourceModelDiff) (d : Dict ℕ) (model : ResourceModel)
    → (updated_model diff d model).id ≡ model.id
unfolding updated_model
updated_id diff d model = refl

apply_lem :
    (diff : ResourceModelDiff) (model : ResourceModel) (d : Dict ℕ)
    → del_all diff.attributes_removed model.attributes ≡ ok d
    → apply diff model ≡ ok (updated_model diff d model)
unfolding apply
apply_lem diff model d e = rw e refl

updated_tags :
    (model : ResourceModel) (m : MutableResourceModel) (d : Dict ℕ)
    → Tracked model m
    → (t : ℕ) → mem t (updated_model m.diff d model).tags ≡ mem t m.tags
unfolding updated_model
updated_tags model m d h t = ground (
  arith,
  mem-difference_update t (update_members model.tags m.diff.tags_added) m.diff.tags_removed,
  mem-update_members t model.tags m.diff.tags_added,
  h.0 t,
)

updated_attributes :
    (model : ResourceModel) (m : MutableResourceModel) (d : Dict ℕ)
    → Tracked model m
    → (k : ℕ)
    → dict_get k d ≡ (if mem k m.diff.attributes_removed then none else dict_get k model.attributes)
    → dict_get k (updated_model m.diff d model).attributes ≡ dict_get k m.attributes
unfolding updated_model
updated_attributes model m d h k at =
    ground (arith, get-set_all k m.diff.attributes_added d h.1.3, at, h.1.0 k)

apply-Tracked :
    (model : ResourceModel) (m : MutableResourceModel)
    → Tracked model m
    → (r : ResourceModel) × (apply m.diff model ≡ ok r)
      × (r.id ≡ model.id)
      × ((t : ℕ) → mem t r.tags ≡ mem t m.tags)
      × ((k : ℕ) → dict_get k r.attributes ≡ dict_get k m.attributes)
apply-Tracked model m h =
    let (d, e, at) = del_all_ok m.diff.attributes_removed model.attributes h.1.2 h.1.1 in
    (
      updated_model m.diff d model,
      apply_lem m.diff model d e,
      updated_id m.diff d model,
      updated_tags model m d h,
      λ k. updated_attributes model m d h k (at k),
    )

-- A mutable model is made from a model and changed by adding and removing tags and attributes, where
-- no tag is added after it was removed, attributes replace others only of a type that the model had,
-- and attributes are removed only if they were not added before. Then the diff that `save` hands out
-- applies to the model without an error, and the result has its id, and the tags and the attributes
-- of the mutable model. `save` leaves an empty diff.
pub apply-save :
    (model : ResourceModel) (m : MutableResourceModel)
    → Edited model m
    → (r : ResourceModel) × (apply (save m).0 model ≡ ok r)
      × (r.id ≡ model.id)
      × ((t : ℕ) → mem t r.tags ≡ mem t m.tags)
      × ((k : ℕ) → dict_get k r.attributes ≡ dict_get k m.attributes)
      × ((save m).1.diff ≡ new_diff m.id)
unfolding save
apply-save model m h =
    let (r, e, id, tags, attributes) = apply-Tracked model m (Edited-Tracked model m h) in
    (r, e, id, tags, attributes, refl)
