-- ===== src/Range.antt =====
-- ofrak_type/ofrak_type/range.py: ranges of addresses, and the functions on lists of them.
pub mod Laws
pub mod Merge
pub mod Chunk
pub mod Remove
use ofrak.Prelude.{
  ℕ, zero, suc, ◌+◌, ◌-◌, ◌*◌, ◌/◌, ◌≤◌, min, max, Bool, true, false, not, ◌&&◌, ◌||◌, List, [],
  ◌∷◌, ◌++◌, Result, ok, err, Error, ◌>>=◌, ltb, leb, ◌==◌, if◌then◌else◌, any, length, sort_by,
}
use ofrak.Prelude.Int.{ℤ, pos, negsuc}

pub record Range : Type 0 where
  pub start : ℕ
  pub end : ℕ

-- the constructor, with `__post_init__`
unfoldable pub mk_range : ℕ → ℕ → Result Range
mk_range start end =
    if ltb end start then err Error.value_error else ok (record { start = start; end = end })

unfoldable pub range_length : Range → ℕ
range_length r = r.end - r.start

unfoldable pub contains_value : Range → ℕ → Bool
contains_value r value = leb r.start value && ltb value r.end

unfoldable pub within : Range → Range → Bool
within r other = leb other.start r.start && leb r.end other.end

unfoldable pub overlaps : Range → Range → Bool
overlaps r other = ltb other.start r.end && ltb r.start other.end

unfoldable pub intersect : Range → Range → Result Range
unfolding mk_range
intersect r other =
    let start = max other.start r.start in
    let end = min other.end r.end in
    if ltb end start then err Error.value_error else mk_range start end

unfoldable pub split : Range → Range → Result (List Range)
unfolding mk_range within
split r other =
    if leb r.end other.start || leb other.end r.start
    then ok (r ∷ [])
    else if within r other
    then ok []
    else if leb other.start r.start && ltb other.end r.end
    then (do right ← mk_range other.end r.end; ok (right ∷ []))
    else if ltb r.start other.start && leb r.end other.end
    then (do left ← mk_range r.start other.start; ok (left ∷ []))
    else if within other r
    then (do
      left ← mk_range r.start other.start
      right ← mk_range other.end r.end
      ok (left ∷ right ∷ []))
    else err Error.value_error

-- The offset may be negative; a start that would fall below zero is refused.
unfoldable pub translate : Range → ℤ → Result Range
unfolding mk_range
translate r (pos zero) = ok r
translate r (pos (suc n)) = mk_range (r.start + suc n) (r.end + suc n)
translate r (negsuc n) =
    if ltb r.start (suc n)
    then err Error.value_error
    else mk_range (r.start - suc n) (r.end - suc n)

unfoldable pub from_size : ℕ → ℕ → Result Range
unfolding mk_range
from_size start size = mk_range start (start + size)

-- The second item of a marker: +1 at the start of a range, -1 at its end.
pub data Incr : Type 0 where
  plus_one minus_one : Incr

-- `(idx, incr)`
abbrev pub Marker : Type 0
Marker = ℕ × Incr

unfoldable pub range_bounds_markers : List Range → List Marker
range_bounds_markers [] = []
range_bounds_markers (r ∷ rs) = (r.start, plus_one) ∷ (r.end, minus_one) ∷ range_bounds_markers rs

-- the keys `-incr`: whether the first is at most the second
abbrev pub incr_key_le : Incr → Incr → Bool
incr_key_le minus_one plus_one = false
incr_key_le _ _ = true

-- the order of the sort keys `(idx, -incr)`
unfoldable pub marker_le : Marker → Marker → Bool
marker_le m n = ltb m.0 n.0 || (m.0 == n.0 && incr_key_le m.1 n.1)

-- One round of the loop over the sorted markers, by `current_overlapping_ranges` and
-- `last_range_start`; the last argument is the rest of the loop, from their new values.
unfoldable pub merge_marker : ℕ → Incr → ℕ → ℕ → (ℕ → ℕ → Result (List Range)) → Result (List Range)
unfolding mk_range
merge_marker idx plus_one current last rest =
    rest (suc current) (if current == 0 then idx else last)
merge_marker idx minus_one zero last rest = err Error.assertion_error
merge_marker idx minus_one (suc zero) last rest = do
  merged ← mk_range last idx
  others ← rest 0 last
  ok (merged ∷ others)
merge_marker idx minus_one (suc (suc n)) last rest = rest (suc n) last

unfoldable pub merge_markers : List Marker → ℕ → ℕ → Result (List Range)
unfolding merge_marker
merge_markers [] current last = ok []
merge_markers ((idx, incr) ∷ ms) current last =
    merge_marker idx incr current last (merge_markers ms)

unfoldable pub merge_ranges : List Range → Result (List Range)
unfolding range_bounds_markers marker_le merge_markers sort_by
merge_ranges ranges = merge_markers (sort_by marker_le (range_bounds_markers ranges)) 0 0

-- The rounds of `for i in range(start, end, chunk_size)`, by the number of rounds left.
unfoldable pub chunks_from : ℕ → ℕ → ℕ → ℕ → Result (List Range)
unfolding mk_range
chunks_from zero i end chunk_size = ok []
chunks_from (suc n) i end chunk_size = do
  chunk ← mk_range i (min (i + chunk_size) end)
  chunks ← chunks_from n (i + chunk_size) end chunk_size
  ok (chunk ∷ chunks)

-- `range` raises on a step of 0; it has ⌈(end - start) / step⌉ values.
unfoldable pub chunk_region : Range → ℕ → Result (List Range)
unfolding chunks_from
chunk_region region chunk_size =
    if chunk_size == 0
    then err Error.value_error
    else chunks_from ((region.end - region.start + (chunk_size - 1)) / chunk_size) region.start
        region.end chunk_size

unfoldable pub chunk_regions : List Range → ℕ → Result (List Range)
unfolding chunk_region
chunk_regions [] chunk_size = ok []
chunk_regions (region ∷ regions) chunk_size = do
  chunks ← chunk_region region chunk_size
  others ← chunk_regions regions chunk_size
  ok (chunks ++ others)

unfoldable pub chunk_ranges : List Range → ℕ → Result (List Range)
unfolding merge_ranges chunk_regions
chunk_ranges ranges chunk_size = do regions ← merge_ranges ranges; chunk_regions regions chunk_size

-- the sort key of `remove_subranges`
unfoldable pub start_le : Range → Range → Bool
start_le r s = leb r.start s.start

-- The `while True` loop, on fuel: `ranges` and `to_remove` are what stands behind index i and j.
-- The cases of an `elim` wait, so that a round makes one call.
unfoldable pub remove_loop : ℕ → Range → List Range → Range → List Range → Result (List Range)
unfolding mk_range
remove_loop zero current ranges current_to_remove to_remove = err Error.out_of_fuel
remove_loop (suc fuel) current ranges ctr to_remove = elim (leb ctr.end current.start) [
  | true ↦ elim to_remove [
    | [] ↦ ok (current ∷ ranges)
    | next_to_remove ∷ later ↦ remove_loop fuel current ranges next_to_remove later
  ]
  | false ↦ elim (leb current.end ctr.start) [
    | true ↦ elim ranges [
      | [] ↦ ok (current ∷ [])
      | next ∷ others ↦ (do kept ← remove_loop fuel next others ctr to_remove; ok (current ∷ kept))
    ]
    | false ↦ elim (ltb current.start ctr.start) [
      | true ↦ (do
        left ← mk_range current.start ctr.start
        right ← mk_range ctr.start current.end
        kept ← remove_loop fuel right ranges ctr to_remove
        ok (left ∷ kept))
      | false ↦ elim (ltb ctr.end current.end) [
        | true ↦ (do
          right ← mk_range ctr.end current.end
          remove_loop fuel right ranges ctr to_remove)
        | false ↦ elim ranges [
          | [] ↦ ok []
          | next ∷ others ↦ remove_loop fuel next others ctr to_remove
        ]
      ]
    ]
  ]
]

-- Three rounds for each range and for each range to remove suffice.
abbrev remove_fuel : List Range → List Range → ℕ
remove_fuel ranges to_remove = 3 * (length ranges + length to_remove)

unfoldable pub remove_sorted : List Range → List Range → Result (List Range)
unfolding remove_loop
remove_sorted (r ∷ rs) (t ∷ ts) = remove_loop (remove_fuel (r ∷ rs) (t ∷ ts)) r rs t ts
remove_sorted rs _ = ok rs

-- An empty argument returns `ranges` unsorted.
unfoldable pub remove_subranges : List Range → List Range → Result (List Range)
unfolding start_le remove_sorted sort_by
remove_subranges [] to_remove = ok []
remove_subranges (r ∷ rs) [] = ok (r ∷ rs)
remove_subranges (r ∷ rs) (t ∷ ts) =
    remove_sorted (sort_by start_le (r ∷ rs)) (sort_by start_le (t ∷ ts))

-- Whether a value lies in one of the ranges.
unfoldable pub covers : List Range → ℕ → Bool
unfolding contains_value
covers rs value = any (λ r. contains_value r value) rs

-- What `__post_init__` checks of every range.
abbrev pub IsValid : Range → Type 0
IsValid r = r.start ≤ r.end
