-- ===== src/FreeSpace/Analyzer.antt =====
-- `FreeSpaceAnalyzer`: the free ranges by permissions, from the free spaces.
use ofrak.Prelude.{
  ℕ, suc, ◌<◌, ◌≡◌, ◌∙◌, refl, false, ◌||◌, List, [], ◌∷◌, ◌++◌, ok, arith, All, All-append,
  Pairwise-sort, any-sort, dict_set, get-set, ◌==◌, if◌then◌else◌, Bool-cases, inl, inr,
}
use ofrak.Range.{Range, IsValid, covers, contains_value, overlaps}
use ofrak.Range.Merge.{Apart, merge_ranges_exact}
use ofrak.Range.Remove.{Disjoint, overlaps_symm}
use ofrak.FreeSpace.{
  FreeSpaceRanges, MemoryPermissions, value, size_then_start, sort_free_ranges, ranges_at,
  group_ranges, merge_groups, analyze,
}

-- The ranges of the free spaces with the given permissions, in their order.
abbrev pub with_permissions : MemoryPermissions → List (MemoryPermissions × Range) → List Range
with_permissions p [] = []
with_permissions p ((q, r) ∷ fs) =
    let rest = with_permissions p fs in if value q == value p then r ∷ rest else rest

covers-append : (xs ys : List Range) (v : ℕ) → covers (xs ++ ys) v ≡ (covers xs v || covers ys v)
unfolding covers
covers-append [] ys v = refl
covers-append (x ∷ xs) ys v = ground (arith, covers-append xs ys v)

covers-one : (r : Range) (v : ℕ) → covers (r ∷ []) v ≡ contains_value r v
unfolding covers
covers-one r v = ground arith

covers-cons :
    (r : Range) (rs : List Range) (v : ℕ) → covers (r ∷ rs) v ≡ (contains_value r v || covers rs v)
unfolding covers
covers-cons r rs v = refl

covers-none : (v : ℕ) → covers [] v ≡ false
unfolding covers
covers-none v = refl

ranges_at-nil : (k : ℕ) → ranges_at k [] ≡ []
unfolding ranges_at
ranges_at-nil k = refl

ranges_at-cons :
    (k j : ℕ) (rs : List Range) (d : FreeSpaceRanges)
    → ranges_at k ((j, rs) ∷ d) ≡ (if j == k then rs else ranges_at k d)
unfolding ranges_at
ranges_at-cons k j rs d = ground arith

ranges_at-set :
    (k j : ℕ) (rs : List Range) (d : FreeSpaceRanges)
    → ranges_at j (dict_set k rs d) ≡ (if k == j then rs else ranges_at j d)
unfolding ranges_at
ranges_at-set k j rs d = ground (arith, get-set k j rs d)

group-covers :
    (p : MemoryPermissions) (fs : List (MemoryPermissions × Range)) (d : FreeSpaceRanges) (v : ℕ)
    → covers (ranges_at (value p) (group_ranges fs d)) v
      ≡ (covers (ranges_at (value p) d) v || covers (with_permissions p fs) v)
unfolding group_ranges
group-covers p [] d v = ground (arith, covers-none v)
group-covers p ((q, r) ∷ fs) d v =
    let k = value q in
    let new = ranges_at k d ++ r ∷ [] in
    ground (
      arith,
      group-covers p fs (dict_set k new d) v,
      ranges_at-set k (value p) new d,
      covers-append (ranges_at k d) (r ∷ []) v,
      covers-one r v,
      covers-cons r (with_permissions p fs) v,
    )

abbrev AllValid : FreeSpaceRanges → Type 0
AllValid = All (λ e. All IsValid e.1)

ranges_at-IsValid : (k : ℕ) (d : FreeSpaceRanges) → AllValid d → All IsValid (ranges_at k d)
ranges_at-IsValid k [] h = rw ranges_at-nil tt
ranges_at-IsValid k ((j, rs) ∷ d) h = elim (Bool-cases (j == k)) [
  | inl e ↦ rw (ranges_at-cons, e) h.0
  | inr e ↦ rw (ranges_at-cons, e) (ranges_at-IsValid k d h.1)
]

set-AllValid :
    (k : ℕ) (rs : List Range) (d : FreeSpaceRanges)
    → All IsValid rs
    → AllValid d
    → AllValid (dict_set k rs d)
unfolding dict_set
set-AllValid k rs [] h d = (h, tt)
set-AllValid k rs ((j, qs) ∷ d) h e = elim (Bool-cases (j == k)) [
  | inl c ↦ rw c (h, e.1)
  | inr c ↦ rw c (e.0, set-AllValid k rs d h e.1)
]

group-AllValid :
    (fs : List (MemoryPermissions × Range)) (d : FreeSpaceRanges)
    → All (λ e. IsValid e.1) fs
    → AllValid d
    → AllValid (group_ranges fs d)
unfolding group_ranges
group-AllValid [] d h e = e
group-AllValid ((q, r) ∷ fs) d h e =
    let rs = ranges_at (value q) d in
    group-AllValid fs (dict_set (value q) (rs ++ r ∷ []) d) h.1 (
      set-AllValid (value q) (rs ++ r ∷ []) d
        (All-append IsValid rs (r ∷ []) (ranges_at-IsValid (value q) d e) (h.0, tt)) e)

behind :
    (r : Range) (b : ℕ) (rs : List Range)
    → r.end < b
    → Apart b rs
    → All (λ s. overlaps r s ≡ false) rs
unfolding overlaps
behind r b [] h a = tt
behind r b (s ∷ rs) h a = (ground arith, behind r (suc s.end) rs (omega arith) a.2)

Apart-Disjoint : (b : ℕ) (rs : List Range) → Apart b rs → Disjoint rs
Apart-Disjoint b [] a = tt
Apart-Disjoint b (r ∷ rs) a =
    (behind r (suc r.end) rs (omega arith) a.2, Apart-Disjoint (suc r.end) rs a.2)

sort-Disjoint : (rs : List Range) → Disjoint rs → Disjoint (sort_free_ranges rs)
unfolding sort_free_ranges
sort-Disjoint = Pairwise-sort size_then_start (λ r s. overlaps r s ≡ false) overlaps_symm

covers-sort : (rs : List Range) (v : ℕ) → covers (sort_free_ranges rs) v ≡ covers rs v
unfolding sort_free_ranges covers
covers-sort rs v = any-sort size_then_start (λ r. contains_value r v) rs

-- What merging keeps of each permission's ranges.
record Merges (d out : FreeSpaceRanges) : Type 0 where
  exact : (k v : ℕ) → covers (ranges_at k out) v ≡ covers (ranges_at k d) v
  disjoint : (k : ℕ) → Disjoint (ranges_at k out)

Merges-cons :
    (j : ℕ) (rs merged : List Range) (d out : FreeSpaceRanges)
    → ((v : ℕ) → covers merged v ≡ covers rs v)
    → Disjoint merged
    → Merges d out
    → Merges ((j, rs) ∷ d) ((j, merged) ∷ out)
Merges-cons j rs merged d out x a m = record {
  exact = λ k v. elim (Bool-cases (j == k)) [
    | inl e ↦ simp (ranges_at-cons, e) (x v)
    | inr e ↦ simp (ranges_at-cons, e) (m.exact k v)
  ];
  disjoint = λ k. elim (Bool-cases (j == k)) [
    | inl e ↦ rw (ranges_at-cons, e) a
    | inr e ↦ rw (ranges_at-cons, e) (m.disjoint k)
  ];
}

merge_groups_lem :
    (d : FreeSpaceRanges)
    → AllValid d
    → (out : FreeSpaceRanges) × (merge_groups d ≡ ok out) × Merges d out
unfolding merge_groups
merge_groups_lem [] h =
    ([], refl, record { exact = λ k v. refl; disjoint = λ k. rw ranges_at-nil tt })
merge_groups_lem ((j, rs) ∷ d) h =
    let (merged, e, a, x) = merge_ranges_exact rs h.0 in
    let (out, e', m) = merge_groups_lem d h.1 in
    (
      (j, sort_free_ranges merged) ∷ out,
      rw (e, e'),
      Merges-cons j rs (sort_free_ranges merged) d out (λ v. covers-sort merged v ∙ x v)
          (sort-Disjoint merged (Apart-Disjoint 0 merged a)) m,
    )

-- From free spaces with valid ranges the analyzer builds, without a raise, free ranges that cover
-- for each permission exactly the values of the free spaces with that permission, and of which no
-- two with one permission overlap.
pub analyze_exact :
    (fs : List (MemoryPermissions × Range))
    → All (λ e. IsValid e.1) fs
    → (out : FreeSpaceRanges) × (analyze fs ≡ ok out)
      × ((p : MemoryPermissions) (v : ℕ)
          → covers (ranges_at (value p) out) v ≡ covers (with_permissions p fs) v)
      × ((p : MemoryPermissions) → Disjoint (ranges_at (value p) out))
unfolding analyze
analyze_exact fs h =
    let (out, e, m) = merge_groups_lem (group_ranges fs []) (group-AllValid fs [] h tt) in
    (
      out,
      e,
      λ p v. ground (
        arith,
        m.exact (value p) v,
        group-covers p fs [] v,
        ranges_at-nil (value p),
        covers-none v,
      ),
      λ p. m.disjoint (value p),
    )
