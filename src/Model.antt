-- ===== src/Model.antt =====
-- ofrak_core/ofrak/model/resource_model.py: `MutableResourceModel`, which records its changes in a
-- `ResourceModelDiff`, for the tags and the attributes. A class of tags or of attributes is a number,
-- and so is the value of attributes. A set is the list of its members, each of them once.
pub mod Sets
pub mod Tracked
pub mod Edits
pub mod Save
use ofrak.Prelude.{
  ℕ, Bool, true, false, Option, none, some, List, [], ◌∷◌, Result, ok, err, Error, ◌>>=◌, ◌==◌,
  if◌then◌else◌, any, Dict, dict_get, dict_set, dict_del, dict_has,
}

-- A class of tags with its direct base classes.
mutual
  pub data ResourceTag : Type 0 where
    tag : ℕ → BaseTags → ResourceTag

  pub data BaseTags : Type 0 where
    no_base : BaseTags
    base : ResourceTag → BaseTags → BaseTags

pub record ResourceModel : Type 0 where
  pub id : ℕ
  pub tags : List ℕ
  pub attributes : Dict ℕ

pub record ResourceModelDiff : Type 0 where
  pub id : ℕ
  pub tags_added : List ℕ
  pub tags_removed : List ℕ
  pub attributes_added : Dict ℕ
  pub attributes_removed : List ℕ

pub record MutableResourceModel : Type 0 where
  pub id : ℕ
  pub tags : List ℕ
  pub attributes : Dict ℕ
  pub is_modified : Bool
  pub diff : ResourceModelDiff

-- `x in s`
abbrev pub mem : ℕ → List ℕ → Bool
mem x s = any (λ y. y == x) s

-- `s.add(x)`
unfoldable pub add_member : ℕ → List ℕ → List ℕ
add_member x s = if mem x s then s else x ∷ s

-- `s.update(t)`
unfoldable pub update_members : List ℕ → List ℕ → List ℕ
update_members s [] = s
update_members s (x ∷ t) = add_member x (update_members s t)

-- `s.difference_update(t)`
unfoldable pub difference_update : List ℕ → List ℕ → List ℕ
difference_update [] t = []
difference_update (x ∷ s) t = let rest = difference_update s t in if mem x t then rest else x ∷ rest

-- `s.remove(x)`
unfoldable pub remove_member : ℕ → List ℕ → Result (List ℕ)
remove_member x s = if mem x s then ok (difference_update s (x ∷ [])) else err Error.key_error

-- `del d[k]`
unfoldable pub del_attributes : ℕ → Dict ℕ → Result (Dict ℕ)
del_attributes k d = if dict_has k d then ok (dict_del k d) else err Error.key_error

-- `for attributes_type_removed in self.attributes_removed`
unfoldable pub del_all : List ℕ → Dict ℕ → Result (Dict ℕ)
del_all [] d = ok d
del_all (k ∷ ks) d = do rest ← del_attributes k d; del_all ks rest

-- `for type_attributes_added, attributes_added in self.attributes_added.items()`
unfoldable pub set_all : Dict ℕ → Dict ℕ → Dict ℕ
set_all [] d = d
set_all ((k, v) ∷ added) d = set_all added (dict_set k v d)

-- the tags and the added attributes, where the removed ones are gone
unfoldable pub updated_model : ResourceModelDiff → Dict ℕ → ResourceModel → ResourceModel
updated_model diff attributes model = record {
  id = model.id;
  tags = difference_update (update_members model.tags diff.tags_added) diff.tags_removed;
  attributes = set_all diff.attributes_added attributes;
}

unfoldable pub apply : ResourceModelDiff → ResourceModel → Result ResourceModel
apply diff model = do
  attributes ← del_all diff.attributes_removed model.attributes
  ok (updated_model diff attributes model)

unfoldable pub new_diff : ℕ → ResourceModelDiff
new_diff id = record {
  id = id;
  tags_added = [];
  tags_removed = [];
  attributes_added = [];
  attributes_removed = [];
}

unfoldable pub from_model : ResourceModel → MutableResourceModel
from_model model = record {
  id = model.id;
  tags = model.tags;
  attributes = model.attributes;
  is_modified = false;
  diff = new_diff model.id;
}

-- the tag alone, where it is not there yet
unfoldable pub add_new_tag : ℕ → MutableResourceModel → MutableResourceModel
add_new_tag t m = record {
  id = m.id;
  tags = t ∷ m.tags;
  attributes = m.attributes;
  is_modified = true;
  diff = record {
    id = m.diff.id;
    tags_added = add_member t m.diff.tags_added;
    tags_removed = m.diff.tags_removed;
    attributes_added = m.diff.attributes_added;
    attributes_removed = m.diff.attributes_removed;
  };
}

unfoldable mutual
  -- with the tags that are new
  pub add_tag : ResourceTag → MutableResourceModel → MutableResourceModel × List ℕ
  add_tag (tag t bases) m =
      let rest = add_base_tags bases (add_new_tag t m) in
      if mem t m.tags then (m, []) else (rest.0, add_member t rest.1)

  pub add_base_tags : BaseTags → MutableResourceModel → MutableResourceModel × List ℕ
  add_base_tags no_base m = (m, [])
  add_base_tags (base b bases) m =
      let first = add_tag b m in
      let rest = add_base_tags bases first.0 in (rest.0, update_members rest.1 first.1)

-- the tags that are left, and the one that went
unfoldable pub leave_tags : ℕ → List ℕ → MutableResourceModel → MutableResourceModel
leave_tags t tags m = record {
  id = m.id;
  tags = tags;
  attributes = m.attributes;
  is_modified = true;
  diff = record {
    id = m.diff.id;
    tags_added = m.diff.tags_added;
    tags_removed = add_member t m.diff.tags_removed;
    attributes_added = m.diff.attributes_added;
    attributes_removed = m.diff.attributes_removed;
  };
}

unfoldable pub remove_tag : ℕ → MutableResourceModel → Result MutableResourceModel
remove_tag t m = do tags ← remove_member t m.tags; ok (leave_tags t tags m)

-- the write of the attributes, with the types that are removed first
unfoldable pub write_attributes : ℕ → ℕ → List ℕ → MutableResourceModel → MutableResourceModel
write_attributes k v removed m = record {
  id = m.id;
  tags = m.tags;
  attributes = dict_set k v m.attributes;
  is_modified = true;
  diff = record {
    id = m.diff.id;
    tags_added = m.diff.tags_added;
    tags_removed = m.diff.tags_removed;
    attributes_added = dict_set k v m.diff.attributes_added;
    attributes_removed = removed;
  };
}

-- attributes of the type `k` with the value `v`
unfoldable pub add_attributes : ℕ → ℕ → MutableResourceModel → MutableResourceModel
add_attributes k v m = elim (dict_get k m.attributes) [
  | none ↦ write_attributes k v m.diff.attributes_removed m
  | some prev ↦
      if prev == v then m else write_attributes k v (add_member k m.diff.attributes_removed) m
]

-- the attributes that are left, and the type that went
unfoldable pub leave_attributes : ℕ → Dict ℕ → MutableResourceModel → MutableResourceModel
leave_attributes k attributes m = record {
  id = m.id;
  tags = m.tags;
  attributes = attributes;
  is_modified = true;
  diff = record {
    id = m.diff.id;
    tags_added = m.diff.tags_added;
    tags_removed = m.diff.tags_removed;
    attributes_added = m.diff.attributes_added;
    attributes_removed = add_member k m.diff.attributes_removed;
  };
}

unfoldable pub remove_attributes : ℕ → MutableResourceModel → Result MutableResourceModel
remove_attributes k m = do
  attributes ← del_attributes k m.attributes
  ok (leave_attributes k attributes m)

unfoldable pub save : MutableResourceModel → ResourceModelDiff × MutableResourceModel
save m = (
  m.diff,
  record {
    id = m.id;
    tags = m.tags;
    attributes = m.attributes;
    is_modified = false;
    diff = new_diff m.id;
  },
)
