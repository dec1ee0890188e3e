-- ===== src/Tests/RangeTests.antt =====
-- Range: the theorems at concrete inputs, and runs of the functions.
use ofrak.Prelude.{ℕ, ◌+◌, ◌<◌, ◌≡◌, refl, true, not, ◌&&◌, List, [], ◌∷◌, ok, arith, All}
use ofrak.Prelude.Int.{pos, neg}
use ofrak.Range.{
  Range, IsValid, contains_value, overlaps, intersect, split, translate, merge_ranges, chunk_ranges,
  remove_subranges, covers,
}
use ofrak.Range.Laws.{split_partition, intersect_exact, translate_back}
use ofrak.Range.Merge.{Apart, merge_ranges_exact}
use ofrak.Range.Chunk.{InOrder, chunk_ranges_exact}
use ofrak.Range.Remove.{Disjoint, remove_subranges_exact}

abbrev range : ℕ → ℕ → Range
range start end = record { start = start; end = end }

merge_run :
    merge_ranges (range 4 6 ∷ range 0 2 ∷ range 2 3 ∷ range 5 9 ∷ [])
    ≡ ok (range 0 3 ∷ range 4 9 ∷ [])
unfolding merge_ranges
merge_run = refl

remove_run :
    remove_subranges (range 10 20 ∷ range 0 6 ∷ []) (range 3 12 ∷ range 14 15 ∷ [])
    ≡ ok (range 0 3 ∷ range 12 14 ∷ range 15 20 ∷ [])
unfolding remove_subranges
remove_run = refl

chunk_run :
    chunk_ranges (range 0 5 ∷ range 5 9 ∷ []) 4 ≡ ok (range 0 4 ∷ range 4 8 ∷ range 8 9 ∷ [])
unfolding chunk_ranges
chunk_run = refl

split_run : split (range 0 10) (range 3 5) ≡ ok (range 0 3 ∷ range 5 10 ∷ [])
unfolding split
split_run = refl

split_partition_example :
    (pieces : List Range) × (split (range 0 10) (range 3 5) ≡ ok pieces)
    × All IsValid pieces
    × ((v : ℕ)
        → covers pieces v ≡ (contains_value (range 0 10) v && not (contains_value (range 3 5) v)))
split_partition_example = split_partition (range 0 10) (range 3 5) (omega arith) (omega arith)

intersect_exact_example :
    (overlaps (range 0 10) (range 3 15) ≡ true
      → IsValid (range 0 10)
      → IsValid (range 3 15)
      → (m : Range) × (intersect (range 0 10) (range 3 15) ≡ ok m)
        × IsValid m
        × ((v : ℕ)
            → contains_value m v
              ≡ (contains_value (range 0 10) v && contains_value (range 3 15) v)))
    × ((v : ℕ)
        → (contains_value (range 0 10) v && contains_value (range 3 15) v) ≡ true
        → overlaps (range 0 10) (range 3 15) ≡ true)
    × (0 < 10
        → 3 < 15
        → overlaps (range 0 10) (range 3 15) ≡ true
        → (v : ℕ) × ((contains_value (range 0 10) v && contains_value (range 3 15) v) ≡ true))
intersect_exact_example = intersect_exact (range 0 10) (range 3 15)

translate_back_example :
    (s : Range) × (translate (range 3 5) (pos 7) ≡ ok s)
    × (translate s (neg 7) ≡ ok (range 3 5))
    × ((v : ℕ) → contains_value s (v + 7) ≡ contains_value (range 3 5) v)
translate_back_example = translate_back (range 3 5) 7 (omega arith)

abbrev three : List Range
three = range 4 6 ∷ range 0 2 ∷ range 2 3 ∷ []

merge_ranges_exact_example :
    (out : List Range) × (merge_ranges three ≡ ok out)
    × Apart 0 out
    × ((v : ℕ) → covers out v ≡ covers three v)
merge_ranges_exact_example = merge_ranges_exact three (omega arith)

chunk_ranges_exact_example :
    (out : List Range) × (chunk_ranges three 2 ≡ ok out)
    × InOrder 2 0 out
    × ((v : ℕ) → covers out v ≡ covers three v)
chunk_ranges_exact_example = chunk_ranges_exact three 2 (omega arith) (omega arith)

three-Disjoint : Disjoint three
unfolding overlaps
three-Disjoint = ((refl, (refl, tt)), ((refl, tt), (tt, tt)))

remove_subranges_exact_example :
    (out : List Range) × (remove_subranges three (range 1 5 ∷ []) ≡ ok out)
    × ((v : ℕ) → covers out v ≡ (covers three v && not (covers (range 1 5 ∷ []) v)))
remove_subranges_exact_example =
    remove_subranges_exact three (range 1 5 ∷ []) (omega arith) three-Disjoint
