-- ===== src/Resource/Index/Walk.antt =====
-- ofrak_core/ofrak/service/resource_service.py: a walk of the index by a range filter, against a
-- filter of all entries.
use ofrak.Prelude.{
  ℕ, ◌≤◌, ◌≡◌, refl, Bool, true, false, ◌&&◌, Option, none, some, [], ◌∷◌, map, arith, ok,
  if◌then◌else◌, drop, take, ap, Bool-cases, inl, inr, sym,
}
use ofrak.Range.{Range, mk_range}
use ofrak.Data.Grid.{Axis, bisect_left, lower_index, upper_index}
use ofrak.Data.Grid.Cut.{
  at_lower, at_upper, lower_index-cons, upper_index-cons, lower-later, upper-later, take-nil,
  drop-nil,
}
use ofrak.Resource.Index.{compute_range, range_filter, walk, nodes_reversed}

-- The values do not descend, from a bound on.
abbrev pub FromValue : ℕ → Axis ℕ → Type 0
FromValue b [] = Unit
FromValue b ((v, _) ∷ index) = (b ≤ v) × FromValue v index

-- The entries whose value passes the test of the filter.
unfoldable pub passing : Option ℕ → Option ℕ → Axis ℕ → Axis ℕ
passing min max [] = []
passing min max ((v, node) ∷ index) =
    let rest = passing min max index in
    if at_lower min true v && at_upper max false v then (v, node) ∷ rest else rest

-- A minimum is at most the maximum, where both are given.
abbrev pub Ordered : Option ℕ → Option ℕ → Type 0
Ordered (some min) (some max) = min ≤ max
Ordered min max = Unit

none_passing :
    (min max : Option ℕ) (b : ℕ) (index : Axis ℕ)
    → FromValue b index
    → at_upper max false b ≡ false
    → passing min max index ≡ []
unfolding passing
none_passing min max b [] s h = refl
none_passing min max b ((v, node) ∷ index) s h = ground (
  arith,
  upper-later max false b v s.0 h,
  none_passing min max v index s.1 (upper-later max false b v s.0 h),
)

take-passing :
    (min max : Option ℕ) (b : ℕ) (index : Axis ℕ)
    → FromValue b index
    → at_lower min true b ≡ true
    → take (upper_index index max false) index ≡ passing min max index
unfolding passing
take-passing min max b [] s h = take-nil (upper_index [] max false)
take-passing min max b ((v, node) ∷ index) s h =
    let low = lower-later min true b v s.0 h in
    elim (Bool-cases (at_upper max false v)) [
      | inl u ↦
          rw (upper_index-cons v node index max false, u, low)
            (ap (λ rest. (v, node) ∷ rest) (take-passing min max v index s.1 low))
      | inr u ↦
          rw (upper_index-cons v node index max false, u, low)
            (sym (none_passing min max v index s.1 u))
    ]

cut-passing :
    (min max : Option ℕ) (b : ℕ) (index : Axis ℕ)
    → FromValue b index
    → drop (lower_index index min true) (take (upper_index index max false) index)
      ≡ passing min max index
unfolding passing
cut-passing min max b [] s =
    rw
      (
        take-nil {T = ℕ} (upper_index {T = ℕ} [] max false),
        drop-nil {T = ℕ} (lower_index {T = ℕ} [] min true),
      )
      refl
cut-passing min max b ((v, node) ∷ index) s = elim (Bool-cases (at_lower min true v)) [
  | inl l ↦
      rw (lower_index-cons v node index min true, l)
        (rw l at (take-passing min max v ((v, node) ∷ index) (omega arith, s.1) l))
  | inr l ↦ elim (Bool-cases (at_upper max false v)) [
    | inl u ↦
        rw (lower_index-cons v node index min true, upper_index-cons v node index max false, l, u)
          (cut-passing min max v index s.1)
    | inr u ↦
        rw (lower_index-cons v node index min true, upper_index-cons v node index max false, l, u)
          (sym (none_passing min max v index s.1 u))
  ]
]

upper→lower :
    (min max : Option ℕ) (v : ℕ)
    → Ordered min max
    → at_upper max false v ≡ false
    → at_lower min true v ≡ true
upper→lower none max v o h = refl
upper→lower (some min) none v o h = cc
upper→lower (some min) (some max) v o h = ground arith

lower-empty : (min : Option ℕ) → lower_index {T = ℕ} [] min true ≡ 0
unfolding lower_index bisect_left
lower-empty none = refl
lower-empty (some min) = refl

range-le :
    (min max : Option ℕ) (b : ℕ) (index : Axis ℕ)
    → Ordered min max
    → FromValue b index
    → lower_index index min true ≤ upper_index index max false
range-le min max b [] o s = rw (lower-empty min) (omega arith)
range-le min max b ((v, node) ∷ index) o s = elim (Bool-cases (at_upper max false v)) [
  | inl u ↦
      rw (lower_index-cons v node index min true, upper_index-cons v node index max false, u)
        (ground (arith, range-le min max v index o s.1))
  | inr u ↦
      rw
        (
          lower_index-cons v node index min true,
          upper_index-cons v node index max false,
          u,
          upper→lower min max v o u,
        )
        (omega arith)
]

-- In an index sorted by the values, a range filter whose minimum is at most its maximum walks, in
-- either direction, exactly the nodes of the entries whose value passes the filter's test, each
-- entry once and in the order of the index or against it. It never raises.
pub walk_exact :
    (min max : Option ℕ) (index : Axis ℕ)
    → Ordered min max
    → FromValue 0 index
    → (r : Range) × (compute_range min max index ≡ ok r)
      × (walk true r index ≡ map (λ e. e.1) (passing min max index))
      × (walk false r index ≡ nodes_reversed (passing min max index))
unfolding compute_range mk_range walk
walk_exact min max index o s =
    let l = range-le min max 0 index o s in
    let e = cut-passing min max 0 index s in
    (
      record { start = lower_index index min true; end = upper_index index max false },
      ground (arith, l),
      ap (λ es. map (λ x. x.1) es) e,
      ap nodes_reversed e,
    )

-- The test of the filter on a value is the one by which its walk chooses the entries.
range_filter_lem :
    (min max : Option ℕ) (value : ℕ) (passes : Bool)
    → range_filter min max (some value) ≡ ok passes
    → passes ≡ (at_lower min true value && at_upper max false value)
unfolding range_filter
range_filter_lem (some min) (some max) value passes h = ground (arith, h)
range_filter_lem (some min) none value passes h = ground (arith, h)
range_filter_lem none (some max) value passes h = ground (arith, h)
range_filter_lem none none value passes h = ground (arith, h)
