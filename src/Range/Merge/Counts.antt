-- ===== src/Range/Merge/Counts.antt =====
-- The markers that stand at or before a value, counted by kind.
use ofrak.Prelude.{
  ℕ, ◌+◌, ◌*◌, ◌≤◌, ◌<◌, ◌≡◌, refl, Bool, true, false, ◌&&◌, not, List, [], ◌∷◌, arith, All,
  All-map, count, count-sort, sort_by, leb, ltb,
}
use ofrak.Range.{
  Range, IsValid, Marker, Incr, plus_one, minus_one, marker_le, range_bounds_markers, covers,
  contains_value,
}

abbrev opening : Incr → Bool
opening plus_one = true
opening minus_one = false

-- The sort key as one number.
abbrev pub code : Marker → ℕ
code (i, plus_one) = 2 * i
code (i, minus_one) = 2 * i + 1

abbrev pub Later : Marker → Marker → Type 0
Later m n = code m ≤ code n

pub marker_le-Later : (m n : Marker) → marker_le m n ≡ true → Later m n
unfolding marker_le
marker_le-Later m n h = ground arith

pub marker_gt-Later : (m n : Marker) → marker_le m n ≡ false → Later n m
unfolding marker_le
marker_gt-Later m n h = ground arith

pub Later-trans : (l m n : Marker) → Later l m → Later m n → Later l n
Later-trans l m n h k = omega arith

-- Starts and ends at or before a value.
abbrev pub opens : ℕ → List Marker → ℕ
opens v = count (λ m. opening m.1 && leb m.0 v)

abbrev pub closes : ℕ → List Marker → ℕ
closes v = count (λ m. not (opening m.1) && leb m.0 v)

abbrev pub total_opens : List Marker → ℕ
total_opens = count (λ m. opening m.1)

abbrev pub total_closes : List Marker → ℕ
total_closes = count (λ m. not (opening m.1))

pub none_before :
    (i v : ℕ) (ms : List Marker)
    → v < i
    → All (λ m. i ≤ m.0) ms
    → (opens v ms ≡ 0) × (closes v ms ≡ 0)
none_before i v [] h k = (refl, refl)
none_before i v (m ∷ ms) h k = ground (arith, none_before i v ms)

-- The ends at a value sort behind the starts.
pub no_opens : (i : ℕ) (ms : List Marker) → All (Later (i, minus_one)) ms → opens i ms ≡ 0
no_opens i [] h = refl
no_opens i ((j, plus_one) ∷ ms) h = ground (arith, no_opens i ms)
no_opens i ((j, minus_one) ∷ ms) h = ground (arith, no_opens i ms)

pub idx-le_of_Later : (m : Marker) (ms : List Marker) → All (Later m) ms → All (λ n. m.0 ≤ n.0) ms
idx-le_of_Later m = All-map (Later m) (λ n. m.0 ≤ n.0) (λ n h. ground arith)

pub closes-le-opens :
    (v : ℕ) (rs : List Range)
    → All IsValid rs
    → closes v (range_bounds_markers rs) ≤ opens v (range_bounds_markers rs)
unfolding range_bounds_markers
closes-le-opens v [] h = omega arith
closes-le-opens v (r ∷ rs) h = ground (arith, closes-le-opens v rs h.1)

-- A value is covered exactly if more ranges start than end at or before it.
pub covers-counts :
    (v : ℕ) (rs : List Range)
    → All IsValid rs
    → covers rs v ≡ ltb (closes v (range_bounds_markers rs)) (opens v (range_bounds_markers rs))
unfolding range_bounds_markers covers contains_value
covers-counts v [] h = refl
covers-counts v (r ∷ rs) h = ground (arith, covers-counts v rs h.1, closes-le-opens v rs h.1)

pub totals_eq :
    (rs : List Range)
    → total_opens (range_bounds_markers rs) ≡ total_closes (range_bounds_markers rs)
unfolding range_bounds_markers
totals_eq [] = refl
totals_eq (r ∷ rs) = omega (arith, totals_eq rs)

-- A sort changes no count.
module _ (ms : List Marker) where
  pub opens-sort : (v : ℕ) → opens v (sort_by marker_le ms) ≡ opens v ms
  opens-sort v = count-sort marker_le _ ms

  pub closes-sort : (v : ℕ) → closes v (sort_by marker_le ms) ≡ closes v ms
  closes-sort v = count-sort marker_le _ ms

  pub total_opens-sort : total_opens (sort_by marker_le ms) ≡ total_opens ms
  total_opens-sort = count-sort marker_le _ ms

  pub total_closes-sort : total_closes (sort_by marker_le ms) ≡ total_closes ms
  total_closes-sort = count-sort marker_le _ ms
