-- ===== src/Data/Grid/Cut.antt =====
-- ofrak_core/ofrak/service/data_service.py, `_iter_grid_axis`: the part of a sorted axis between
-- two bounds.
use ofrak.Prelude.{
  ℕ, zero, suc, ◌≤◌, ◌≡◌, refl, Bool, true, false, ◌&&◌, Option, none, some, [], ◌∷◌, arith, ltb,
  leb, if◌then◌else◌, drop, take, Bool-cases, inl, inr,
}
use ofrak.Data.Grid.{Axis, bisect_left, bisect_right, lower_index, upper_index, iter_grid_axis}
use ofrak.Data.Grid.Search.{find_key, Above, find_below, Above-weaken}

abbrev pub at_lower : Option ℕ → Bool → ℕ → Bool
at_lower none inclusive k = true
at_lower (some minimum) inclusive k = if inclusive then leb minimum k else ltb minimum k

abbrev pub at_upper : Option ℕ → Bool → ℕ → Bool
at_upper none inclusive k = true
at_upper (some maximum) inclusive k = if inclusive then leb k maximum else ltb k maximum

pub upper-later :
    (m : Option ℕ) (to : Bool) (j k : ℕ) → j ≤ k → at_upper m to j ≡ false → at_upper m to k ≡ false
upper-later none to j k l h = h
upper-later (some m) true j k l h = ground arith
upper-later (some m) false j k l h = ground arith

pub lower-later :
    (m : Option ℕ) (from : Bool) (j k : ℕ)
    → j ≤ k
    → at_lower m from j ≡ true
    → at_lower m from k ≡ true
lower-later none from j k l h = h
lower-later (some m) true j k l h = ground arith
lower-later (some m) false j k l h = ground arith

module _ {T : Type 0} where
  pub take-nil : (n : ℕ) → take {A = ℕ × T} n [] ≡ []
  take-nil zero = refl
  take-nil (suc n) = refl

  pub drop-nil : (n : ℕ) → drop {A = ℕ × T} n [] ≡ []
  drop-nil zero = refl
  drop-nil (suc n) = refl

  pub lower_index-cons :
      (j : ℕ) (v : T) (axis : Axis T) (m : Option ℕ) (from : Bool)
      → lower_index ((j, v) ∷ axis) m from
        ≡ (if at_lower m from j then 0 else suc (lower_index axis m from))
  unfolding lower_index bisect_left bisect_right
  lower_index-cons j v axis none from = refl
  lower_index-cons j v axis (some m) true = ground arith
  lower_index-cons j v axis (some m) false = ground arith

  pub upper_index-cons :
      (j : ℕ) (v : T) (axis : Axis T) (m : Option ℕ) (to : Bool)
      → upper_index ((j, v) ∷ axis) m to
        ≡ (if at_upper m to j then suc (upper_index axis m to) else 0)
  unfolding upper_index bisect_left bisect_right
  upper_index-cons j v axis none to = refl
  upper_index-cons j v axis (some m) true = ground arith
  upper_index-cons j v axis (some m) false = ground arith

  find-take :
      (b k : ℕ) (axis : Axis T) (m : Option ℕ) (to : Bool)
      → Above b axis
      → find_key (take (upper_index axis m to) axis) k
        ≡ (if at_upper m to k then find_key axis k else none)
  unfolding find_key
  find-take b k [] m to h = rw (take-nil (upper_index [] m to)) (ground arith)
  find-take b k ((j, v) ∷ axis) m to h = rw (upper_index-cons j v axis m to) (
      ground (
        arith,
        find-take (suc j) k axis m to h.1,
        find_below (suc j) k axis h.1,
        upper-later m to j k,
      ))

  -- An axis cut to two bounds holds at each key between them what it held, and nothing elsewhere.
  pub find-iter :
      (b k : ℕ) (axis : Axis T) (low high : Option ℕ) (from to : Bool)
      → Above b axis
      → find_key (iter_grid_axis axis low high (from, to)) k
        ≡ (if at_lower low from k && at_upper high to k then find_key axis k else none)
  unfolding find_key iter_grid_axis
  find-iter b k [] low high from to h =
      rw (take-nil (upper_index [] high to), drop-nil (lower_index [] low from)) (ground arith)
  find-iter b k ((j, v) ∷ axis) low high from to h = elim (Bool-cases (at_lower low from j)) [
    | inl e ↦
        rw (lower_index-cons j v axis low from, e)
          (ground (
            arith,
            find-take b k ((j, v) ∷ axis) high to h,
            lower-later low from j k,
            find_below j k ((j, v) ∷ axis) (omega arith, h.1),
          ))
    | inr e ↦ elim (Bool-cases (at_upper high to j)) [
      | inl u ↦
          rw (lower_index-cons j v axis low from, e, upper_index-cons j v axis high to, u)
            (ground
              (arith, find-iter (suc j) k axis low high from to h.1, find_below (suc j) k axis h.1))
      | inr u ↦
          rw (lower_index-cons j v axis low from, e, upper_index-cons j v axis high to, u)
            (ground
              (arith, upper-later high to j k, find_below j k ((j, v) ∷ axis) (omega arith, h.1)))
    ]
  ]

  take-Above : (b n : ℕ) (axis : Axis T) → Above b axis → Above b (take n axis)
  take-Above b zero axis h = tt
  take-Above b (suc n) [] h = tt
  take-Above b (suc n) ((j, v) ∷ axis) h = (h.0, take-Above (suc j) n axis h.1)

  drop-Above : (b n : ℕ) (axis : Axis T) → Above b axis → Above b (drop n axis)
  drop-Above b zero axis h = h
  drop-Above b (suc n) [] h = tt
  drop-Above b (suc n) ((j, v) ∷ axis) h =
      Above-weaken b (suc j) (drop n axis) (omega arith) (drop-Above (suc j) n axis h.1)

  pub iter-Above :
      (b : ℕ) (axis : Axis T) (low high : Option ℕ) (from to : Bool)
      → Above b axis
      → Above b (iter_grid_axis axis low high (from, to))
  unfolding iter_grid_axis
  iter-Above b axis low high from to h =
      drop-Above b (lower_index axis low from) (take (upper_index axis high to) axis)
        (take-Above b (upper_index axis high to) axis h)
