-- ===== src/Model/Edits.antt =====
-- Each operation of `MutableResourceModel` notes in the diff what it does.
use ofrak.Model.{
  ResourceTag, tag, BaseTags, no_base, base, ResourceModel, MutableResourceModel, mem, add_member,
  difference_update, remove_member, del_attributes, new_diff, from_model, leave_tags,
  leave_attributes, add_new_tag, add_tag, add_base_tags, remove_tag, write_attributes,
  add_attributes, remove_attributes,
}
use ofrak.Prelude.{
  ℕ, ◌≡◌, refl, sym, ◌∙◌, true, false, none, List, [], ◌∷◌, Result, ok, err, Error, ◌⊎◌, ◌==◌,
  dict_get, dict_del, dict_has, subst, Bool-cases, Option-cases, inl, inr, arith,
}
use ofrak.Model.Tracked.{
  Tracked, tag_added, tag_taken, attributes_written, attributes_replaced, attributes_taken,
}

-- No tag of the class and of its bases was removed.
unfoldable mutual
  pub Unremoved : ResourceTag → List ℕ → Type 0
  Unremoved (tag t bases) removed = (mem t removed ≡ false) × UnremovedBases bases removed

  pub UnremovedBases : BaseTags → List ℕ → Type 0
  UnremovedBases no_base removed = Unit
  UnremovedBases (base b bases) removed = Unremoved b removed × UnremovedBases bases removed

-- What adding tags keeps.
abbrev Kept : ResourceModel → MutableResourceModel → MutableResourceModel → Type 0
Kept model m m' = Tracked model m' × (m'.diff.tags_removed ≡ m.diff.tags_removed)

add_tag-there :
    (t : ℕ) (bases : BaseTags) (m : MutableResourceModel)
    → mem t m.tags ≡ true
    → m ≡ (add_tag (tag t bases) m).0
unfolding add_tag
add_tag-there t bases m there = rw there refl

add_tag-absent :
    (t : ℕ) (bases : BaseTags) (m : MutableResourceModel)
    → mem t m.tags ≡ false
    → (add_base_tags bases (add_new_tag t m)).0 ≡ (add_tag (tag t bases) m).0
unfolding add_tag
add_tag-absent t bases m absent = rw absent refl

no_more_tags : (m : MutableResourceModel) → m ≡ (add_base_tags no_base m).0
unfolding add_tag
no_more_tags m = refl

more_tags :
    (b : ResourceTag) (bases : BaseTags) (m : MutableResourceModel)
    → (add_base_tags bases (add_tag b m).0).0 ≡ (add_base_tags (base b bases) m).0
unfolding add_tag
more_tags b bases m = refl

add_new_tag-Tracked :
    (model : ResourceModel) (t : ℕ) (m : MutableResourceModel)
    → mem t m.diff.tags_removed ≡ false
    → Tracked model m
    → Kept model m (add_new_tag t m)
unfolding add_new_tag
add_new_tag-Tracked model t m new h =
    ((tag_added t model.tags m.tags m.diff.tags_added m.diff.tags_removed new h.0, h.1), refl)

mutual
  unfolding Unremoved

  pub add_tag-Tracked :
      (model : ResourceModel) (t : ResourceTag) (m : MutableResourceModel)
      → Unremoved t m.diff.tags_removed
      → Tracked model m
      → Kept model m (add_tag t m).0
  add_tag-Tracked model (tag t bases) m new h = elim (Bool-cases (mem t m.tags)) [
    | inl there ↦ subst (Kept model m) (add_tag-there t bases m there) (h, refl)
    | inr absent ↦
        let first = add_new_tag-Tracked model t m new.0 h in
        let rest =
          add_base_tags-Tracked model bases (add_new_tag t m)
            (subst (UnremovedBases bases) (sym first.1) new.1) first.0 in
        subst (Kept model m) (add_tag-absent t bases m absent) (rest.0, rest.1 ∙ first.1)
  ]

  add_base_tags-Tracked :
      (model : ResourceModel) (bases : BaseTags) (m : MutableResourceModel)
      → UnremovedBases bases m.diff.tags_removed
      → Tracked model m
      → Kept model m (add_base_tags bases m).0
  add_base_tags-Tracked model no_base m new h = subst (Kept model m) (no_more_tags m) (h, refl)
  add_base_tags-Tracked model (base b bases) m new h =
      let first = add_tag-Tracked model b m new.0 h in
      let rest =
        add_base_tags-Tracked model bases (add_tag b m).0
          (subst (UnremovedBases bases) (sym first.1) new.1) first.0 in
      subst (Kept model m) (more_tags b bases m) (rest.0, rest.1 ∙ first.1)

one_return : {A : Type 0} {a b : A} (call : Result A) → call ≡ ok a → call ≡ ok b → a ≡ b
one_return call e e' = cc (e, e')

remove_tag_cases :
    (t : ℕ) (m : MutableResourceModel)
    → (remove_tag t m ≡ err Error.key_error)
      ⊎ (remove_tag t m ≡ ok (leave_tags t (difference_update m.tags (t ∷ [])) m))
unfolding remove_tag remove_member
remove_tag_cases t m = elim (Bool-cases (mem t m.tags)) [
  | inl there ↦ inr (rw there refl)
  | inr absent ↦ inl (rw absent refl)
]

leave_tags-Tracked :
    (model : ResourceModel) (t : ℕ) (m : MutableResourceModel)
    → Tracked model m
    → Tracked model (leave_tags t (difference_update m.tags (t ∷ [])) m)
unfolding leave_tags
leave_tags-Tracked model t m h =
    (tag_taken t model.tags m.tags m.diff.tags_added m.diff.tags_removed h.0, h.1)

pub remove_tag-Tracked :
    (model : ResourceModel) (t : ℕ) (m m' : MutableResourceModel)
    → Tracked model m
    → remove_tag t m ≡ ok m'
    → Tracked model m'
remove_tag-Tracked model t m m' h e = elim (remove_tag_cases t m) [
  | inl absent ↦ absurd (cc (absent, e))
  | inr there ↦
      subst (Tracked model) (one_return (remove_tag t m) there e) (leave_tags-Tracked model t m h)
]

add_attributes_cases :
    (k v : ℕ) (m : MutableResourceModel)
    → (add_attributes k v m ≡ m)
      ⊎ (add_attributes k v m ≡ write_attributes k v m.diff.attributes_removed m)
      ⊎ ((dict_has k m.attributes ≡ true)
          × (add_attributes k v m
              ≡ write_attributes k v (add_member k m.diff.attributes_removed) m))
unfolding add_attributes dict_has
add_attributes_cases k v m = elim (Option-cases (dict_get k m.attributes)) [
  | inl new ↦ inr (inl (rw (new, add_attributes) refl))
  | inr (prev, at) ↦ elim (Bool-cases (prev == v)) [
    | inl same ↦ inl (rw (at, same, add_attributes) refl)
    | inr other ↦ inr (inr (rw (at, dict_has) refl, rw (at, other, add_attributes) refl))
  ]
]

pub add_attributes-Tracked :
    (model : ResourceModel) (k v : ℕ) (m : MutableResourceModel)
    → Tracked model m
    → (dict_has k m.attributes ≡ true → dict_has k model.attributes ≡ true)
    → Tracked model (add_attributes k v m)
unfolding write_attributes
add_attributes-Tracked model k v m h before = elim (add_attributes_cases k v m) [
  | inl e ↦ subst (Tracked model) (sym e) h
  | inr (inl e) ↦ subst (Tracked model) (sym e) (
    h.0,
    attributes_written k v model.attributes m.attributes m.diff.attributes_added
        m.diff.attributes_removed h.1,
  )
  | inr (inr (there, e)) ↦ subst (Tracked model) (sym e) (
    h.0,
    attributes_replaced k v model.attributes m.attributes m.diff.attributes_added
        m.diff.attributes_removed (before there) h.1,
  )
]

remove_attributes_cases :
    (k : ℕ) (m : MutableResourceModel)
    → (remove_attributes k m ≡ err Error.key_error)
      ⊎ ((dict_has k m.attributes ≡ true)
          × (remove_attributes k m ≡ ok (leave_attributes k (dict_del k m.attributes) m)))
unfolding remove_attributes del_attributes
remove_attributes_cases k m = elim (Bool-cases (dict_has k m.attributes)) [
  | inl there ↦ inr (there, rw there refl)
  | inr absent ↦ inl (rw absent refl)
]

leave_attributes-Tracked :
    (model : ResourceModel) (k : ℕ) (m : MutableResourceModel)
    → Tracked model m
    → dict_get k m.diff.attributes_added ≡ none
    → dict_has k m.attributes ≡ true
    → Tracked model (leave_attributes k (dict_del k m.attributes) m)
unfolding leave_attributes
leave_attributes-Tracked model k m h old there = (
  h.0,
  attributes_taken k model.attributes m.attributes m.diff.attributes_added m.diff.attributes_removed
      old there h.1,
)

pub remove_attributes-Tracked :
    (model : ResourceModel) (k : ℕ) (m m' : MutableResourceModel)
    → Tracked model m
    → dict_get k m.diff.attributes_added ≡ none
    → remove_attributes k m ≡ ok m'
    → Tracked model m'
remove_attributes-Tracked model k m m' h old e = elim (remove_attributes_cases k m) [
  | inl absent ↦ absurd (cc (absent, e))
  | inr (there, e') ↦
      subst (Tracked model) (one_return (remove_attributes k m) e' e)
        (leave_attributes-Tracked model k m h old there)
]

pub from_model-Tracked : (model : ResourceModel) → Tracked model (from_model model)
unfolding from_model new_diff dict_get
from_model-Tracked model = (λ t. ground arith, (λ k. refl, λ k h. absurd (cc h), tt, tt))
