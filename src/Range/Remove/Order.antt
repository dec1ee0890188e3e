-- ===== src/Range/Remove/Order.antt =====
-- The order of the two lists, and the measure of the loop.
use ofrak.Prelude.{
  ℕ, ◌+◌, ◌*◌, ◌≤◌, ◌<◌, ◌≡◌, refl, true, false, ◌&&◌, ◌||◌, List, [], ◌∷◌, arith, All, Pairwise,
  length, leb, ltb, if◌then◌else◌,
}
use ofrak.Range.{Range, covers, contains_value, overlaps, start_le}

-- Valid ranges in order from a bound on, none over another.
abbrev pub Ascending : ℕ → List Range → Type 0
Ascending bound [] = Unit
Ascending bound (r ∷ rs) = (bound ≤ r.start) × (r.start ≤ r.end) × Ascending r.end rs

abbrev pub Sorted : List Range → Type 0
Sorted = Pairwise (λ r s. r.start ≤ s.start)

-- How many rounds the current pair can take before one of its two ranges is done.
abbrev pub weight : Range → Range → ℕ
weight c t = if ltb c.start t.start then 3 else if ltb c.start t.end then 2 else 1

abbrev pub rounds : Range → List Range → Range → List Range → ℕ
rounds c rs t ts = 3 * (length rs + length ts) + weight c t

pub covers-nil : (v : ℕ) → covers [] v ≡ false
unfolding covers
covers-nil v = refl

pub covers-cons :
    (r : Range) (rs : List Range) (v : ℕ)
    → covers (r ∷ rs) v ≡ ((leb r.start v && ltb v r.end) || covers rs v)
unfolding covers contains_value
covers-cons r rs v = refl

pub covers_below : (b : ℕ) (rs : List Range) (v : ℕ) → Ascending b rs → v < b → covers rs v ≡ false
covers_below b [] v h k = covers-nil v
covers_below b (r ∷ rs) v h k = ground (arith, covers-cons r rs v, covers_below r.end rs v h.2)

covers_under :
    (b : ℕ) (ts : List Range) (v : ℕ) → All (λ s. b ≤ s.start) ts → v < b → covers ts v ≡ false
covers_under b [] v h k = covers-nil v
covers_under b (t ∷ ts) v h k = ground (arith, covers-cons t ts v, covers_under b ts v h.1)

pub covers_below-Sorted :
    (t : Range) (ts : List Range) (v : ℕ)
    → Sorted (t ∷ ts)
    → v < t.start
    → covers (t ∷ ts) v ≡ false
covers_below-Sorted t ts v h k = ground (arith, covers-cons t ts v, covers_under t.start ts v h.0)

abbrev pub NonEmpty : Range → Type 0
NonEmpty r = r.start < r.end

-- No two of the ranges overlap.
abbrev pub Disjoint : List Range → Type 0
Disjoint = Pairwise (λ r s. overlaps r s ≡ false)

pub overlaps_symm : (r s : Range) → overlaps r s ≡ false → overlaps s r ≡ false
unfolding overlaps
overlaps_symm r s h = ground arith

ends_below :
    (r : Range) (ss : List Range)
    → NonEmpty r
    → All (λ s. r.start ≤ s.start) ss
    → All (λ s. overlaps r s ≡ false) ss
    → All NonEmpty ss
    → All (λ s. r.end ≤ s.start) ss
unfolding overlaps
ends_below r [] h a d n = tt
ends_below r (s ∷ ss) h a d n = (ground arith, ends_below r ss h a.1 d.1 n.1)

-- Ranges sorted by their starts, none of which is empty or overlaps another, ascend.
pub Sorted-Ascending :
    (bound : ℕ) (rs : List Range)
    → All (λ r. bound ≤ r.start) rs
    → Sorted rs
    → Disjoint rs
    → All NonEmpty rs
    → Ascending bound rs
Sorted-Ascending bound [] b s d n = tt
Sorted-Ascending bound (r ∷ rs) b s d n =
    (b.0, omega arith, Sorted-Ascending r.end rs (ends_below r rs n.0 s.0 d.0 n.1) s.1 d.1 n.1)

pub All-above_zero : (rs : List Range) → All (λ r. 0 ≤ r.start) rs
All-above_zero [] = tt
All-above_zero (r ∷ rs) = (omega arith, All-above_zero rs)

pub start_le-le : (r s : Range) → start_le r s ≡ true → r.start ≤ s.start
unfolding start_le
start_le-le r s h = ground arith

pub start_gt-le : (r s : Range) → start_le r s ≡ false → s.start ≤ r.start
unfolding start_le
start_gt-le r s h = ground arith
