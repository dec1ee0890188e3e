-- ===== src/Resource/Filter/Tags.antt =====
-- The walks of the tag filters: which nodes they yield, and how often.
use ofrak.Resource.Node.{collect}
use ofrak.Resource.Store.{ResourceService, tag_index}
use ofrak.Resource.Filter.{
  walk_new, walk_tag_or, walk_tag_and, yield_in_tags, yield_main, walk_main, walk_tag, other_tags,
}
use ofrak.Prelude.{
  ℕ, ◌+◌, ◌*◌, ◌≤◌, ◌≡◌, refl, sym, ap, ◌∙◌, Bool, true, false, not, ◌&&◌, ◌||◌, List, [], ◌∷◌,
  ◌++◌, ok, subst, ltb, ◌==◌, if◌then◌else◌, any, count, length, All, arith, Bool-cases, inl, inr,
}

-- the node is in the set
abbrev pub member : ℕ → List ℕ → Bool
member id ids = any (λ i. i == id) ids

member-append : (id : ℕ) (xs ys : List ℕ) → member id (xs ++ ys) ≡ (member id xs || member id ys)
member-append id [] ys = refl
member-append id (x ∷ xs) ys = ground (arith, member-append id xs ys)

count-append : (p : ℕ → Bool) (xs ys : List ℕ) → count p (xs ++ ys) ≡ count p xs + count p ys
count-append p [] ys = omega arith
count-append p (x ∷ xs) ys = omega (arith, count-append p xs ys)

member-walk_new :
    (id : ℕ) (ids processed : List ℕ)
    → member id (walk_new ids processed) ≡ (member id ids && not (member id processed))
unfolding walk_new
member-walk_new id [] processed = refl
member-walk_new id (x ∷ ids) processed =
    let seen = member-walk_new id ids processed in
    let fresh = member-walk_new id ids (x ∷ processed) in
    elim (Bool-cases (x == id)) [
      | inl e ↦
          let z : x ≡ id = ground (arith, e) in
          let same = ap (λ i. member i processed) z in
          elim (Bool-cases (member x processed)) [
            | inl f ↦ ground (arith, e, f, same, seen)
            | inr f ↦ ground (arith, e, f, same, fresh)
          ]
      | inr e ↦ elim (Bool-cases (member x processed)) [
        | inl f ↦ ground (arith, e, f, seen)
        | inr f ↦ ground (arith, e, f, fresh)
      ]
    ]

count-walk_new :
    (id : ℕ) (ids processed : List ℕ)
    → count (λ i. i == id) (walk_new ids processed) ≤ (if member id processed then 0 else 1)
unfolding walk_new
count-walk_new id [] processed = ground arith
count-walk_new id (x ∷ ids) processed =
    let seen = count-walk_new id ids processed in
    let fresh = count-walk_new id ids (x ∷ processed) in
    elim (Bool-cases (x == id)) [
      | inl e ↦
          let z : x ≡ id = ground (arith, e) in
          let same = ap (λ i. member i processed) z in
          elim (Bool-cases (member x processed)) [
            | inl f ↦ ground (arith, e, f, same, seen)
            | inr f ↦ ground (arith, e, f, same, fresh)
          ]
      | inr e ↦ elim (Bool-cases (member x processed)) [
        | inl f ↦ ground (arith, e, f, seen)
        | inr f ↦ ground (arith, e, f, fresh)
      ]
    ]

and_true : (b : Bool) → (b && true) ≡ b
and_true true = refl
and_true false = refl

collected :
    (tags : List ℕ) (s : ResourceService)
    → (ids : List ℕ) × (collect (λ t. ok (tag_index t s)) tags ≡ ok ids)
      × ((id : ℕ) → member id ids ≡ any (λ t. member id (tag_index t s)) tags)
unfolding collect
collected [] s = ([], refl, λ id. refl)
collected (tag ∷ tags) s =
    let (ids, w, m) = collected tags s in
    (
      tag_index tag s ++ ids,
      rw w refl,
      λ id.
          member-append id (tag_index tag s) ids
          ∙ ap (λ b. member id (tag_index tag s) || b) (m id),
    )

-- The walk of an `OR` filter yields the nodes that some of its tags indexes, each once.
pub walk_tag_or_exact :
    (tag : ℕ) (tags : List ℕ) (s : ResourceService)
    → (ids : List ℕ) × (walk_tag_or (tag ∷ tags) s ≡ ok ids)
      × ((id : ℕ)
          → (member id ids ≡ any (λ t. member id (tag_index t s)) (tag ∷ tags))
            × (count (λ i. i == id) ids ≤ 1))
unfolding walk_tag_or
walk_tag_or_exact tag tags s =
    let (ids, w, m) = collected (tag ∷ tags) s in
    (
      walk_new ids [],
      rw w refl,
      λ id. (member-walk_new id ids [] ∙ and_true (member id ids) ∙ m id, count-walk_new id ids []),
    )

-- how often the test of the other tags yields a node
abbrev pub times_yielded : List ℕ → ℕ → ResourceService → ℕ
times_yielded [] id s = 1
times_yielded (tag ∷ tags) id s = count (λ t. member id (tag_index t s)) (tag ∷ tags)

count-yield_in_tags :
    (id j : ℕ) (tags : List ℕ) (s : ResourceService)
    → count (λ i. i == id) (yield_in_tags tags j s)
      ≡ (if j == id then count (λ t. member id (tag_index t s)) tags else 0)
unfolding yield_in_tags
count-yield_in_tags id j [] s = ground arith
count-yield_in_tags id j (tag ∷ tags) s =
    let rest = count-yield_in_tags id j tags s in
    elim (Bool-cases (j == id)) [
      | inl e ↦
          let z : j ≡ id = ground (arith, e) in
          let same = ap (λ i. member i (tag_index tag s)) z in ground (arith, e, rest, same)
      | inr e ↦ ground (arith, e, rest)
    ]

count-yield_main :
    (id j : ℕ) (tags : List ℕ) (s : ResourceService)
    → count (λ i. i == id) (yield_main tags j s) ≡ (if j == id then times_yielded tags id s else 0)
unfolding yield_main
count-yield_main id j [] s = ground arith
count-yield_main id j (tag ∷ tags) s = count-yield_in_tags id j (tag ∷ tags) s

count_step :
    (id j : ℕ) (ids : List ℕ) (times : ℕ) (here rest : List ℕ)
    → count (λ i. i == id) here ≡ (if j == id then times else 0)
    → count (λ i. i == id) rest ≡ count (λ i. i == id) ids * times
    → count (λ i. i == id) here + count (λ i. i == id) rest
      ≡ ((if j == id then 1 else 0) + count (λ i. i == id) ids) * times
count_step id j ids times here rest h r = elim (Bool-cases (j == id)) [
  | inl e ↦ rw (h, r, e) (omega arith)
  | inr e ↦ rw (h, r, e) (omega arith)
]

count-walk_main :
    (id : ℕ) (ids tags : List ℕ) (s : ResourceService)
    → count (λ i. i == id) (walk_main ids tags s)
      ≡ count (λ i. i == id) ids * times_yielded tags id s
unfolding walk_main
count-walk_main id [] tags s = omega arith
count-walk_main id (j ∷ ids) tags s =
    count-append (λ i. i == id) (yield_main tags j s) (walk_main ids tags s)
    ∙ count_step id j ids (times_yielded tags id s) (yield_main tags j s) (walk_main ids tags s)
        (count-yield_main id j tags s) (count-walk_main id ids tags s)

-- a tag among some tags, with the smallest index of theirs
abbrev Smallest : ℕ → ℕ → List ℕ → ResourceService → Type 0
Smallest main best tags s =
    (length (tag_index main s) ≤ length (tag_index best s))
    × All (λ t. length (tag_index main s) ≤ length (tag_index t s)) tags
    × (member main (best ∷ tags) ≡ true)

later :
    (best tag m : ℕ) (tags : List ℕ)
    → member m (tag ∷ tags) ≡ true
    → member m (best ∷ tag ∷ tags) ≡ true
later best tag m tags h = ground (arith, h)

inserted :
    (best tag m : ℕ) (tags : List ℕ)
    → member m (best ∷ tags) ≡ true
    → member m (best ∷ tag ∷ tags) ≡ true
inserted best tag m tags h = ground (arith, h)

walk_tag-cons :
    (best tag : ℕ) (tags : List ℕ) (s : ResourceService)
    → walk_tag best (tag ∷ tags) s
      ≡ walk_tag
          (if ltb (length (tag_index tag s)) (length (tag_index best s)) then tag else best)
          tags
          s
unfolding walk_tag
walk_tag-cons best tag tags s = refl

walk_tag-Smallest :
    (best : ℕ) (tags : List ℕ) (s : ResourceService) → Smallest (walk_tag best tags s) best tags s
unfolding walk_tag
walk_tag-Smallest best [] s = (omega arith, tt, ground arith)
walk_tag-Smallest best (tag ∷ tags) s =
    elim (Bool-cases (ltb (length (tag_index tag s)) (length (tag_index best s)))) [
      | inl e ↦
          let (here, all, among) = walk_tag-Smallest tag tags s in
          let same : walk_tag best (tag ∷ tags) s ≡ walk_tag tag tags s =
            walk_tag-cons best tag tags s ∙ rw e refl in
          subst (λ m. Smallest m best (tag ∷ tags) s) (sym same)
            (ground (arith, e, here), (here, all), later best tag (walk_tag tag tags s) tags among)
      | inr e ↦
          let (here, all, among) = walk_tag-Smallest best tags s in
          let same : walk_tag best (tag ∷ tags) s ≡ walk_tag best tags s =
            walk_tag-cons best tag tags s ∙ rw e refl in
          subst (λ m. Smallest m best (tag ∷ tags) s) (sym same)
            (
              here,
              (ground (arith, e, here), all),
              inserted best tag (walk_tag best tags s) tags among,
            )
    ]

-- is there a tag other than the walked one?
abbrev pub has_others : ℕ → List ℕ → Bool
has_others main tags = any (λ t. not (t == main)) tags

-- how many of the tags other than the walked one index a node
abbrev pub others_indexing : ℕ → List ℕ → ℕ → ResourceService → ℕ
others_indexing main tags id s = count (λ t. not (t == main) && member id (tag_index t s)) tags

count-other_tags :
    (main : ℕ) (tags : List ℕ) (id : ℕ) (s : ResourceService)
    → count (λ t. member id (tag_index t s)) (other_tags main tags) ≡ others_indexing main tags id s
unfolding other_tags
count-other_tags main [] id s = refl
count-other_tags main (t ∷ tags) id s = ground (arith, count-other_tags main tags id s)

drop_zero : (b : Bool) (n : ℕ) → (if b then n else 1) ≡ (if b then 0 + n else 1)
drop_zero true n = omega arith
drop_zero false n = refl

times_yielded_lem :
    (main : ℕ) (tags : List ℕ) (id : ℕ) (s : ResourceService)
    → times_yielded (other_tags main tags) id s
      ≡ (if has_others main tags then others_indexing main tags id s else 1)
unfolding other_tags
times_yielded_lem main [] id s = refl
times_yielded_lem main (t ∷ tags) id s = elim (Bool-cases (t == main)) [
  | inl e ↦ rw e (
      times_yielded_lem main tags id s
      ∙ drop_zero (has_others main tags) (others_indexing main tags id s))
  | inr e ↦ rw e (ground (arith, count-other_tags main tags id s))
]

-- The walk of an `AND` filter goes over the smallest of the indexes of its tags. It yields each node
-- of that index as often as there are tags other than the walked one that index it, and once if no
-- other tag is given: not only the nodes that all the tags index.
pub walk_tag_and_exact :
    (tag : ℕ) (tags : List ℕ) (s : ResourceService)
    → (main : ℕ) × (ids : List ℕ) × (walk_tag_and (tag ∷ tags) s ≡ ok ids)
      × (member main (tag ∷ tags) ≡ true)
      × All (λ t. length (tag_index main s) ≤ length (tag_index t s)) (tag ∷ tags)
      × ((id : ℕ)
          → count (λ i. i == id) ids
            ≡ count (λ i. i == id) (tag_index main s)
              * (if has_others main (tag ∷ tags)
                  then others_indexing main (tag ∷ tags) id s
                  else 1))
unfolding walk_tag_and
walk_tag_and_exact tag tags s =
    let main = walk_tag tag tags s in
    let (here, all, among) = walk_tag-Smallest tag tags s in
    let others = other_tags main (tag ∷ tags) in
    (
      main,
      walk_main (tag_index main s) others s,
      refl,
      among,
      (here, all),
      λ id.
          count-walk_main id (tag_index main s) others s
          ∙ ap (λ k. count (λ i. i == id) (tag_index main s) * k)
              (times_yielded_lem main (tag ∷ tags) id s),
    )
