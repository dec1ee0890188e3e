-- ===== src/Range/Merge/Sweep.antt =====
-- The loop over the sorted markers.
use ofrak.Prelude.{
  ℕ, zero, suc, ◌+◌, ◌≤◌, ◌<◌, ◌≡◌, refl, false, ◌&&◌, ◌||◌, List, [], ◌∷◌, ok, arith, All, All-map,
  Pairwise, leb, ltb, ◌==◌, if◌then◌else◌,
}
use ofrak.Range.{
  Range, Marker, plus_one, minus_one, merge_marker, merge_markers, covers, contains_value, mk_range,
}
use ofrak.Range.Merge.Counts.{
  Later, opens, closes, total_opens, total_closes, none_before, no_opens, idx-le_of_Later,
}

-- Valid ranges in order, from a bound on, with a gap between any two.
abbrev pub Apart : ℕ → List Range → Type 0
Apart bound [] = Unit
Apart bound (r ∷ rs) = (bound ≤ r.start) × (r.start ≤ r.end) × Apart (suc r.end) rs

pub Apart-le : (a b : ℕ) (rs : List Range) → a ≤ b → Apart b rs → Apart a rs
Apart-le a b [] h k = tt
Apart-le a b (r ∷ rs) h k = (omega arith, k.1, k.2)

-- What a state of the loop promises: `lo` is a bound below the markers that are left.
pub record Sweeps (ms : List Marker) (current last lo : ℕ) : Type 0 where
  pub sorted : Pairwise Later ms
  pub ahead : All (λ m. lo ≤ m.0) ms
  pub begun : last ≤ lo
  pub never_below : (v : ℕ) → closes v ms ≤ current + opens v ms
  pub balanced : current + total_opens ms ≡ total_closes ms

-- A bound below the next range that the loop returns.
abbrev next_start : ℕ → ℕ → ℕ → ℕ
next_start zero last lo = lo
next_start (suc n) last lo = last

-- What the loop returns from that state.
pub record Swept (ms : List Marker) (current last lo : ℕ) (out : List Range) : Type 0 where
  pub returns : merge_markers ms current last ≡ ok out
  pub apart : Apart (next_start current last lo) out
  pub exact :
      (v : ℕ)
      → covers out v ≡ ((leb last v || current == 0) && ltb (closes v ms) (current + opens v ms))

Sweeps-start :
    (i : ℕ) (ms : List Marker) (current last lo : ℕ)
    → Sweeps ((i, plus_one) ∷ ms) current last lo
    → Sweeps ms (suc current) (if current == 0 then i else last) i
Sweeps-start i ms current last lo s = record {
  sorted = s.sorted.1;
  ahead = idx-le_of_Later (i, plus_one) ms s.sorted.0;
  begun = ground arith;
  never_below = λ v.
      ground
        (arith, s.never_below v, none_before i v ms, idx-le_of_Later (i, plus_one) ms s.sorted.0);
  balanced = omega (arith, s.balanced);
}

suc-ne-zero : (n : ℕ) → (suc n == 0) ≡ false
suc-ne-zero n = ground arith

Swept-start :
    (i : ℕ) (ms : List Marker) (current last lo : ℕ) (out : List Range)
    → Sweeps ((i, plus_one) ∷ ms) current last lo
    → Swept ms (suc current) (if current == 0 then i else last) i out
    → Swept ((i, plus_one) ∷ ms) current last lo out
unfolding merge_markers merge_marker
Swept-start i ms zero last lo out s w = record {
  returns = w.returns;
  apart = Apart-le lo i out s.ahead.0 w.apart;
  exact = λ v.
      ground (arith, w.exact v, none_before i v ms, idx-le_of_Later (i, plus_one) ms s.sorted.0);
}
Swept-start i ms (suc n) last lo out s w = record {
  returns = w.returns;
  apart = rw (suc-ne-zero n) at (w.apart);
  exact = λ v.
      ground (arith, w.exact v, none_before i v ms, idx-le_of_Later (i, plus_one) ms s.sorted.0);
}

-- At an end the counter is not 0.
positive_end :
    (i : ℕ) (ms : List Marker) (current last lo : ℕ)
    → Sweeps ((i, minus_one) ∷ ms) current last lo
    → 0 < current
positive_end i ms current last lo s = ground (arith, s.never_below i, no_opens i ms s.sorted.0)

Sweeps-end :
    (i : ℕ) (ms : List Marker) (n last lo : ℕ)
    → Sweeps ((i, minus_one) ∷ ms) (suc n) last lo
    → Sweeps ms n last i
Sweeps-end i ms n last lo s = record {
  sorted = s.sorted.1;
  ahead = idx-le_of_Later (i, minus_one) ms s.sorted.0;
  begun = omega (arith, s.begun, s.ahead.0);
  never_below = λ v.
      ground
        (arith, s.never_below v, none_before i v ms, idx-le_of_Later (i, minus_one) ms s.sorted.0);
  balanced = omega (arith, s.balanced);
}

Swept-inside :
    (i : ℕ) (ms : List Marker) (n last lo : ℕ) (out : List Range)
    → Sweeps ((i, minus_one) ∷ ms) (suc (suc n)) last lo
    → Swept ms (suc n) last i out
    → Swept ((i, minus_one) ∷ ms) (suc (suc n)) last lo out
unfolding merge_markers merge_marker
Swept-inside i ms n last lo out s w = record {
  returns = w.returns;
  apart = w.apart;
  exact = λ v.
      ground (arith, w.exact v, none_before i v ms, idx-le_of_Later (i, minus_one) ms s.sorted.0);
}

Sweeps-further :
    (ms : List Marker) (current last i : ℕ)
    → Sweeps ms current last i
    → All (λ m. suc i ≤ m.0) ms
    → Sweeps ms current last (suc i)
Sweeps-further ms current last i s h = record {
  sorted = s.sorted;
  ahead = h;
  begun = omega (arith, s.begun);
  never_below = s.never_below;
  balanced = s.balanced;
}

-- Behind the last end the next marker is a start, and stands further on.
gap_behind :
    (i : ℕ) (ms : List Marker) (last lo : ℕ)
    → Sweeps ((i, minus_one) ∷ ms) 1 last lo
    → All (λ m. suc i ≤ m.0) ms
gap_behind i [] last lo s = tt
gap_behind i ((j, plus_one) ∷ ms) last lo s = (
  ground (arith, s.sorted.0.0),
  All-map (λ m. j ≤ m.0) (λ m. suc i ≤ m.0) (λ m h. ground (arith, s.sorted.0.0)) ms
      (idx-le_of_Later (j, plus_one) ms s.sorted.1.0),
)
gap_behind i ((j, minus_one) ∷ ms) last lo s = absurd (
    ground (
      arith,
      s.never_below j,
      no_opens j ms s.sorted.1.0,
      no_opens i ((j, minus_one) ∷ ms) s.sorted.0,
      s.sorted.0.0,
    ))

Swept-end :
    (i : ℕ) (ms : List Marker) (last lo : ℕ) (out : List Range)
    → Sweeps ((i, minus_one) ∷ ms) 1 last lo
    → Swept ms 0 last (suc i) out
    → Swept ((i, minus_one) ∷ ms) 1 last lo (record { start = last; end = i } ∷ out)
unfolding merge_markers merge_marker mk_range covers contains_value
Swept-end i ms last lo out s w = record {
  returns = ground (arith, w.returns, s.begun, s.ahead.0);
  apart = (omega arith, omega (arith, s.begun, s.ahead.0), w.apart);
  exact = λ v. ground (
    arith,
    w.exact v,
    none_before i v ms,
    idx-le_of_Later (i, minus_one) ms s.sorted.0,
    s.begun,
    s.ahead.0,
  );
}

pub merge_markers_lem :
    (ms : List Marker) (current last lo : ℕ)
    → Sweeps ms current last lo
    → (out : List Range) × Swept ms current last lo out
unfolding merge_markers covers
merge_markers_lem [] current last lo s =
    ([], record { returns = refl; apart = tt; exact = λ v. ground (arith, s.balanced) })
merge_markers_lem ((i, plus_one) ∷ ms) current last lo s =
    let (out, w) =
      merge_markers_lem ms (suc current) (if current == 0 then i else last) i
        (Sweeps-start i ms current last lo s) in
    (out, Swept-start i ms current last lo out s w)
merge_markers_lem ((i, minus_one) ∷ ms) zero last lo s =
    absurd (omega (arith, positive_end i ms zero last lo s))
merge_markers_lem ((i, minus_one) ∷ ms) (suc zero) last lo s =
    let t = Sweeps-end i ms 0 last lo s in
    let (out, w) =
      merge_markers_lem ms 0 last (suc i)
        (Sweeps-further ms 0 last i t (gap_behind i ms last lo s)) in
    (record { start = last; end = i } ∷ out, Swept-end i ms last lo out s w)
merge_markers_lem ((i, minus_one) ∷ ms) (suc (suc n)) last lo s =
    let (out, w) = merge_markers_lem ms (suc n) last i (Sweeps-end i ms (suc n) last lo s) in
    (out, Swept-inside i ms n last lo out s w)
