-- ===== src/Model/Tracked.antt =====
-- What a diff holds after each change of the tags and of the attributes, against the model that the
-- changes started from.
use ofrak.Model.{ResourceModel, MutableResourceModel, mem, add_member, difference_update}
use ofrak.Model.Sets.{
  mem-add_member, mem-difference_update, Once, OnceKeys, add_member-Once, dict_set-OnceKeys,
  mem_same,
}
use ofrak.Prelude.{
  ℕ, ◌≡◌, sym, ◌∙◌, ap, true, false, not, ◌&&◌, ◌||◌, none, some, List, [], ◌∷◌, ◌==◌,
  if◌then◌else◌, Dict, dict_get, dict_set, dict_del, dict_has, get-set, get-del, ==_iff, Bool-cases,
  inl, inr, arith,
}

-- The tags of now are those of before and the added ones, less the removed ones.
abbrev TagsTracked : List ℕ → List ℕ → List ℕ → List ℕ → Type 0
TagsTracked before now added removed =
    (t : ℕ) → mem t now ≡ ((mem t added || mem t before) && not (mem t removed))

-- The attributes of now are the added ones, and those of before that are not removed; only
-- attributes of before are removed.
abbrev AttributesTracked : Dict ℕ → Dict ℕ → Dict ℕ → List ℕ → Type 0
AttributesTracked before now added removed =
    ((k : ℕ)
      → dict_get k now ≡ elim (dict_get k added) [
        | none ↦ if mem k removed then none else dict_get k before
        | some v ↦ some v
      ])
    × ((k : ℕ) → mem k removed ≡ true → dict_has k before ≡ true)
    × Once removed
    × OnceKeys added

abbrev pub Tracked : ResourceModel → MutableResourceModel → Type 0
Tracked model m =
    TagsTracked model.tags m.tags m.diff.tags_added m.diff.tags_removed
    × AttributesTracked model.attributes m.attributes m.diff.attributes_added
        m.diff.attributes_removed

pub tag_added :
    (t : ℕ) (before now added removed : List ℕ)
    → mem t removed ≡ false
    → TagsTracked before now added removed
    → TagsTracked before (t ∷ now) (add_member t added) removed
tag_added t before now added removed new h u = elim (Bool-cases (t == u)) [
  | inl same ↦ ground (arith, mem-add_member t u added, mem_same t u removed same ∙ new, same)
  | inr other ↦ ground (arith, mem-add_member t u added, h u, other)
]

pub tag_taken :
    (t : ℕ) (before now added removed : List ℕ)
    → TagsTracked before now added removed
    → TagsTracked before (difference_update now (t ∷ [])) added (add_member t removed)
tag_taken t before now added removed h u =
    ground (arith, mem-add_member t u removed, mem-difference_update u now (t ∷ []), h u)

pub attributes_written :
    (k v : ℕ) (before now added : Dict ℕ) (removed : List ℕ)
    → AttributesTracked before now added removed
    → AttributesTracked before (dict_set k v now) (dict_set k v added) removed
attributes_written k v before now added removed h = (
  λ j. ground (arith, get-set k v now, get-set k j v now, get-set k j v added, h.0 j),
  h.1,
  h.2,
  dict_set-OnceKeys k v added h.3,
)

pub attributes_replaced :
    (k v : ℕ) (before now added : Dict ℕ) (removed : List ℕ)
    → dict_has k before ≡ true
    → AttributesTracked before now added removed
    → AttributesTracked before (dict_set k v now) (dict_set k v added) (add_member k removed)
attributes_replaced k v before now added removed there h = (
  λ j. ground (arith, get-set k j v now, get-set k j v added, mem-add_member k j removed, h.0 j),
  λ j inside. elim (Bool-cases (k == j)) [
    | inl same ↦ ap (λ z. dict_has z before) (sym ((==_iff k j).0 same)) ∙ there
    | inr other ↦ h.1 j (ground (arith, mem-add_member k j removed, inside, other))
  ],
  add_member-Once k removed h.2,
  dict_set-OnceKeys k v added h.3,
)

-- What is there now and was not added was there before.
was_there :
    (k : ℕ) (before now added : Dict ℕ) (removed : List ℕ)
    → AttributesTracked before now added removed
    → dict_get k added ≡ none
    → dict_has k now ≡ true
    → dict_has k before ≡ true
unfolding dict_has
was_there k before now added removed h old there = ground (arith, h.0 k, old, there)

pub attributes_taken :
    (k : ℕ) (before now added : Dict ℕ) (removed : List ℕ)
    → dict_get k added ≡ none
    → dict_has k now ≡ true
    → AttributesTracked before now added removed
    → AttributesTracked before (dict_del k now) added (add_member k removed)
attributes_taken k before now added removed old there h = (
  λ j. elim (Bool-cases (k == j)) [
    | inl same ↦ ground (
      arith,
      get-del k j now,
      mem-add_member k j removed,
      ap (λ z. dict_get z added) (sym ((==_iff k j).0 same)) ∙ old,
      same,
    )
    | inr other ↦ ground (arith, get-del k j now, mem-add_member k j removed, h.0 j, other)
  ],
  λ j inside. elim (Bool-cases (k == j)) [
    | inl same ↦
        ap (λ z. dict_has z before) (sym ((==_iff k j).0 same))
        ∙ was_there k before now added removed h old there
    | inr other ↦ h.1 j (ground (arith, mem-add_member k j removed, inside, other))
  ],
  add_member-Once k removed h.2,
  h.3,
)
