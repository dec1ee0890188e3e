-- ===== src/Tests/ModelTests.antt =====
-- Runs of `MutableResourceModel`: changes that are saved, and those that a diff does not hold.
use ofrak.Model.{
  ResourceTag, tag, no_base, base, ResourceModel, MutableResourceModel, mem, add_member,
  update_members, difference_update, remove_member, del_attributes, del_all, set_all, updated_model,
  apply, new_diff, from_model, leave_tags, leave_attributes, add_new_tag, add_tag, remove_tag,
  write_attributes, add_attributes, remove_attributes, save,
}
use ofrak.Model.Edits.{Unremoved}
use ofrak.Model.Save.{
  Edited, start, by_add_tag, by_remove_tag, by_add_attributes, by_remove_attributes, apply-save,
}
use ofrak.Prelude.{
  ℕ, ◌≡◌, refl, Bool, true, false, Option, none, some, [], ◌∷◌, Result, ok, err, Error, ◌>>=◌,
  dict_get, dict_set, dict_del, dict_has,
}

abbrev sample : ResourceModel
sample = record { id = 1; tags = 10 ∷ []; attributes = (5, 50) ∷ (6, 60) ∷ [] }

-- a tag 12 that has the base 11
abbrev derived : ResourceTag
derived = tag 12 (base (tag 11 no_base) no_base)

abbrev tagged : MutableResourceModel
tagged = (add_tag derived (from_model sample)).0

abbrev untagged : MutableResourceModel
untagged = leave_tags 10 (difference_update tagged.tags (10 ∷ [])) tagged

abbrev changed : MutableResourceModel
changed = add_attributes 5 51 untagged

abbrev edited : MutableResourceModel
edited = leave_attributes 6 (dict_del 6 changed.attributes) changed

unfoldable edited-Edited : Edited sample edited
unfolding add_tag add_new_tag remove_tag remove_member difference_update leave_tags add_attributes
    write_attributes remove_attributes del_attributes dict_has dict_get dict_set from_model new_diff
    Unremoved
edited-Edited =
    by_remove_attributes 6 changed edited
      (by_add_attributes 5 51 untagged
        (by_remove_tag 10 tagged untagged
          (by_add_tag derived (from_model sample) start (refl, ((refl, tt), tt))) refl)
        (λ h. refl))
      refl refl

apply-save_example :
    (r : ResourceModel) × (apply (save edited).0 sample ≡ ok r)
    × (r.id ≡ sample.id)
    × ((t : ℕ) → mem t r.tags ≡ mem t edited.tags)
    × ((k : ℕ) → dict_get k r.attributes ≡ dict_get k edited.attributes)
    × ((save edited).1.diff ≡ new_diff edited.id)
apply-save_example = apply-save sample edited edited-Edited

-- Whether the mutable model has a tag, and whether the model that its diff gives has it.
unfoldable tag_after_save : ℕ → ResourceModel → Result MutableResourceModel → Result (Bool × Bool)
tag_after_save t model call = do
  m ← call
  r ← apply (save m).0 model
  ok (mem t m.tags, mem t r.tags)

-- The same of attributes, with their values.
unfoldable attributes_after_save :
    ℕ → ResourceModel → Result MutableResourceModel → Result (Option ℕ × Option ℕ)
attributes_after_save k model call = do
  m ← call
  r ← apply (save m).0 model
  ok (dict_get k m.attributes, dict_get k r.attributes)

-- A tag that is removed and added again is lost.
tagged_again :
    tag_after_save 10 sample
      (do m ← remove_tag 10 (from_model sample); ok (add_tag (tag 10 no_base) m).0)
    ≡ ok (true, false)
unfolding tag_after_save attributes_after_save apply updated_model del_all del_attributes
    update_members add_member difference_update set_all save new_diff from_model add_tag add_new_tag
    remove_tag remove_member leave_tags add_attributes write_attributes remove_attributes
    leave_attributes dict_has dict_get dict_set dict_del
tagged_again = refl

-- Attributes of a new type that are changed before they are saved cannot be saved.
changed_twice :
    attributes_after_save 7 sample
      (ok (add_attributes 7 71 (add_attributes 7 70 (from_model sample))))
    ≡ err Error.key_error
unfolding tag_after_save attributes_after_save apply updated_model del_all del_attributes
    update_members add_member difference_update set_all save new_diff from_model add_tag add_new_tag
    remove_tag remove_member leave_tags add_attributes write_attributes remove_attributes
    leave_attributes dict_has dict_get dict_set dict_del
changed_twice = refl

-- nor those that are added and removed again,
added_and_removed :
    attributes_after_save 7 sample (remove_attributes 7 (add_attributes 7 70 (from_model sample)))
    ≡ err Error.key_error
unfolding tag_after_save attributes_after_save apply updated_model del_all del_attributes
    update_members add_member difference_update set_all save new_diff from_model add_tag add_new_tag
    remove_tag remove_member leave_tags add_attributes write_attributes remove_attributes
    leave_attributes dict_has dict_get dict_set dict_del
added_and_removed = refl

-- and where the model had some of the type, the removal is lost.
changed_and_removed :
    attributes_after_save 5 sample (remove_attributes 5 (add_attributes 5 51 (from_model sample)))
    ≡ ok (none, some 51)
unfolding tag_after_save attributes_after_save apply updated_model del_all del_attributes
    update_members add_member difference_update set_all save new_diff from_model add_tag add_new_tag
    remove_tag remove_member leave_tags add_attributes write_attributes remove_attributes
    leave_attributes dict_has dict_get dict_set dict_del
changed_and_removed = refl
