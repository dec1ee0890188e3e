-- ===== src/Model/Sets.antt =====
-- The sets and dicts of a `ResourceModel`: what each operation leaves at a member or a key.
use ofrak.Model.{
  mem, add_member, update_members, difference_update, del_attributes, del_all, set_all,
}
use ofrak.Prelude.{
  ℕ, ◌≡◌, refl, sym, ◌∙◌, ap, true, false, not, ◌&&◌, ◌||◌, none, some, List, [], ◌∷◌, ok,
  if◌then◌else◌, Dict, dict_get, dict_set, dict_del, dict_has, get-set, get-del, ◌==◌, ==_iff,
  Bool-cases, inl, inr, arith,
}

-- one number in two spellings
pub mem_same : (x y : ℕ) (s : List ℕ) → (x == y) ≡ true → mem y s ≡ mem x s
mem_same x y s same = ap (λ z. mem z s) (sym ((==_iff x y).0 same))

mem-add_member_old : (x y : ℕ) (s : List ℕ) → mem x s ≡ true → mem y s ≡ ((x == y) || mem y s)
mem-add_member_old x y s e = elim (Bool-cases (x == y)) [
  | inl same ↦ rw same (mem_same x y s same ∙ e)
  | inr other ↦ rw other refl
]

pub mem-add_member : (x y : ℕ) (s : List ℕ) → mem y (add_member x s) ≡ ((x == y) || mem y s)
unfolding add_member
mem-add_member x y s = elim (Bool-cases (mem x s)) [
  | inl e ↦ rw e (mem-add_member_old x y s e)
  | inr e ↦ rw e refl
]

pub mem-update_members : (y : ℕ) (s t : List ℕ) → mem y (update_members s t) ≡ (mem y t || mem y s)
unfolding update_members
mem-update_members y s [] = refl
mem-update_members y s (x ∷ t) =
    ground (arith, mem-add_member x y (update_members s t), mem-update_members y s t)

pub mem-difference_update :
    (y : ℕ) (s t : List ℕ) → mem y (difference_update s t) ≡ (mem y s && not (mem y t))
unfolding difference_update
mem-difference_update y [] t = refl
mem-difference_update y (x ∷ s) t = elim (Bool-cases (x == y)) [
  | inl same ↦ ground (arith, mem-difference_update y s t, mem_same x y t same, same)
  | inr other ↦ ground (arith, mem-difference_update y s t, other)
]

-- A set holds a member once, and a dict a key.
abbrev pub Once : List ℕ → Type 0
Once [] = Unit
Once (x ∷ s) = (mem x s ≡ false) × Once s

abbrev pub OnceKeys : Dict ℕ → Type 0
OnceKeys [] = Unit
OnceKeys ((k, v) ∷ d) = (dict_get k d ≡ none) × OnceKeys d

pub add_member-Once : (x : ℕ) (s : List ℕ) → Once s → Once (add_member x s)
unfolding add_member
add_member-Once x s h = elim (Bool-cases (mem x s)) [ inl e ↦ rw e h | inr e ↦ rw e (e, h) ]

pub dict_set-OnceKeys : (k v : ℕ) (d : Dict ℕ) → OnceKeys d → OnceKeys (dict_set k v d)
unfolding dict_set dict_get
dict_set-OnceKeys k v [] h = (refl, tt)
dict_set-OnceKeys k v ((j, w) ∷ d) h = elim (Bool-cases (j == k)) [
  | inl same ↦ rw same (ap (λ z. dict_get z d) (sym ((==_iff j k).0 same)) ∙ h.0, h.1)
  | inr other ↦ rw other (ground (arith, get-set k j v d, h.0, other), dict_set-OnceKeys k v d h.1)
]

pub get-set_all :
    (j : ℕ) (added d : Dict ℕ)
    → OnceKeys added
    → dict_get j (set_all added d)
      ≡ elim (dict_get j added) [ none ↦ dict_get j d | some v ↦ some v ]
unfolding set_all dict_get
get-set_all j [] d h = refl
get-set_all j ((k, v) ∷ added) d h = elim (Bool-cases (k == j)) [
  | inl same ↦ ground (
    arith,
    get-set_all j added (dict_set k v d) h.1,
    get-set k j v d,
    ap (λ z. dict_get z added) (sym ((==_iff k j).0 same)) ∙ h.0,
    same,
  )
  | inr other ↦
      rw other (get-set_all j added (dict_set k v d) h.1 ∙ ground (arith, get-set k j v d, other))
]

has-del :
    (k j : ℕ) (d : Dict ℕ) → dict_has j (dict_del k d) ≡ (if k == j then false else dict_has j d)
unfolding dict_has
has-del k j d = ground (arith, get-del k j d)

del_attributes_ok :
    (k : ℕ) (d : Dict ℕ) → dict_has k d ≡ true → del_attributes k d ≡ ok (dict_del k d)
unfolding del_attributes
del_attributes_ok k d h = rw h refl

others_there :
    (k j : ℕ) (ks : List ℕ) (d : Dict ℕ)
    → mem k ks ≡ false
    → mem j ks ≡ true
    → dict_has j d ≡ true
    → dict_has j (dict_del k d) ≡ true
others_there k j ks d once inside there = elim (Bool-cases (k == j)) [
  | inl same ↦ absurd (cc (mem_same k j ks same, once, inside))
  | inr other ↦ ground (arith, has-del k j d, there, other)
]

-- Keys that are all there are removed, in any order, without an error.
pub del_all_ok :
    (ks : List ℕ) (d : Dict ℕ)
    → Once ks
    → ((k : ℕ) → mem k ks ≡ true → dict_has k d ≡ true)
    → (d' : Dict ℕ) × (del_all ks d ≡ ok d')
      × ((j : ℕ) → dict_get j d' ≡ (if mem j ks then none else dict_get j d))
unfolding del_all
del_all_ok [] d once there = (d, refl, λ j. refl)
del_all_ok (k ∷ ks) d once there =
    let (d', e, at) =
      del_all_ok ks (dict_del k d) once.1
        (λ j inside. others_there k j ks d once.0 inside (there j (ground (arith, inside)))) in
    (
      d',
      rw (del_attributes_ok k d (there k (ground arith))) e,
      λ j. ground (arith, at j, get-del k j d),
    )
