-- ===== src/Range/Chunk.antt =====
-- `chunk_ranges`: the chunks against the ranges that they are cut from.
use native.Mathlib.Nat.{div-mul-le_self, lt-div-mul-add}
use ofrak.Range.Merge.{Apart, merge_ranges_exact}
use ofrak.Prelude.{
  ℕ, zero, suc, ◌+◌, ◌-◌, ◌*◌, ◌/◌, ◌≤◌, ◌<◌, ◌≡◌, refl, ◌&&◌, ◌||◌, List, [], ◌∷◌, ◌++◌, ok, arith,
  All, All-map, min, ◌∙◌, leb, ltb,
}
use ofrak.Range.{
  Range, IsValid, chunks_from, chunk_region, chunk_regions, chunk_ranges, covers, contains_value,
}

-- Non-empty ranges of at most `size` values, in order from a bound on, none over another.
abbrev pub InOrder : ℕ → ℕ → List Range → Type 0
InOrder size bound [] = Unit
InOrder size bound (r ∷ rs) =
    (bound ≤ r.start) × (r.start < r.end) × (r.end ≤ r.start + size) × InOrder size r.end rs

InOrder-append :
    (size a b : ℕ) (xs ys : List Range)
    → a ≤ b
    → InOrder size a xs
    → All (λ r. r.end ≤ b) xs
    → InOrder size b ys
    → InOrder size a (xs ++ ys)
InOrder-append size a b [] [] h hx hb hy = tt
InOrder-append size a b [] (y ∷ ys) h hx hb hy = (omega arith, hy.1, hy.2, hy.3)
InOrder-append size a b (x ∷ xs) ys h hx hb hy =
    (hx.0, hx.1, hx.2, InOrder-append size x.end b xs ys hb.0 hx.3 hb.1 hy)

InOrder-le : (size a b : ℕ) (xs : List Range) → a ≤ b → InOrder size b xs → InOrder size a xs
InOrder-le size a b [] h k = tt
InOrder-le size a b (x ∷ xs) h k = (omega arith, k.1, k.2, k.3)

covers-cons :
    (r : Range) (rs : List Range) (v : ℕ)
    → covers (r ∷ rs) v ≡ ((leb r.start v && ltb v r.end) || covers rs v)
unfolding covers contains_value
covers-cons r rs v = refl

covers-append : (xs ys : List Range) (v : ℕ) → covers (xs ++ ys) v ≡ (covers xs v || covers ys v)
unfolding covers
covers-append [] ys v = refl
covers-append (x ∷ xs) ys v = ground (arith, covers-append xs ys v)

-- `n` rounds of size `size` go from `i` to `end`, and no fewer.
abbrev Rounds : ℕ → ℕ → ℕ → ℕ → Type 0
Rounds zero i end size = end ≤ i
Rounds (suc k) i end size = (i + k * size < end) × (end ≤ i + suc k * size)

record Chunks (size i end : ℕ) (out : List Range) : Type 0 where
  in_order : InOrder size i out
  bounded : All (λ r. r.end ≤ end) out
  exact : (v : ℕ) → covers out v ≡ (leb i v && ltb v end)

Rounds-next : (k i end size : ℕ) → Rounds (suc k) i end size → Rounds k (i + size) end size
Rounds-next zero i end size h = omega arith
Rounds-next (suc k) i end size h = omega arith

-- The rest starts where the first chunk ends, or is empty.
after_chunk :
    (n i end size : ℕ) (out : List Range)
    → Rounds (suc n) i end size
    → Chunks size (i + size) end out
    → InOrder size (min (i + size) end) out
after_chunk n i end size [] k c = tt
after_chunk n i end size (r ∷ rs) k c = let o = c.in_order in (omega (arith, o.0), o.1, o.2, o.3)

chunks_from_lem :
    (n i end size : ℕ)
    → 0 < size
    → Rounds n i end size
    → (out : List Range) × (chunks_from n i end size ≡ ok out) × Chunks size i end out
unfolding chunks_from covers contains_value
chunks_from_lem zero i end size h k =
    ([], refl, record { in_order = tt; bounded = tt; exact = λ v. ground arith })
chunks_from_lem (suc n) i end size h k =
    let (out, e, c) = chunks_from_lem n (i + size) end size h (Rounds-next n i end size k) in
    let chunk : Range = record { start = i; end = min (i + size) end } in
    (
      chunk ∷ out,
      ground (arith, e),
      record {
        in_order = (omega arith, omega arith, omega arith, after_chunk n i end size out k c);
        bounded = (omega arith, c.bounded);
        exact = λ v. ground (arith, c.exact v);
      },
    )

Rounds-of :
    (n start end size : ℕ)
    → n * size ≤ end - start + (size - 1)
    → end - start + (size - 1) < n * size + size
    → 0 < size
    → Rounds n start end size
Rounds-of zero start end size h k p = omega arith
Rounds-of (suc n) start end size h k p = omega arith

chunk_region_lem :
    (r : Range) (size : ℕ)
    → 0 < size
    → (out : List Range) × (chunk_region r size ≡ ok out) × Chunks size r.start r.end out
unfolding chunk_region
chunk_region_lem r size h =
    let x = r.end - r.start + (size - 1) in
    let (out, e, c) =
      chunks_from_lem (x / size) r.start r.end size h
        (Rounds-of (x / size) r.start r.end size (div-mul-le_self x size) (lt-div-mul-add h) h) in
    (out, ground (arith, e), c)

chunk_regions_lem :
    (size bound : ℕ) (rs : List Range)
    → 0 < size
    → Apart bound rs
    → (out : List Range) × (chunk_regions rs size ≡ ok out)
      × InOrder size bound out
      × ((v : ℕ) → covers out v ≡ covers rs v)
unfolding chunk_regions
chunk_regions_lem size bound [] h a = ([], refl, tt, λ v. refl)
chunk_regions_lem size bound (r ∷ rs) h a =
    let (out, e, c) = chunk_region_lem r size h in
    let (rest, e', o, x) = chunk_regions_lem size (suc r.end) rs h a.2 in
    (
      out ++ rest,
      ground (arith, e, e'),
      InOrder-append size bound (suc r.end) out rest (omega arith)
          (InOrder-le size bound r.start out a.0 c.in_order)
          (All-map (λ q. q.end ≤ r.end) (λ q. q.end ≤ suc r.end) (λ q k. omega arith) out c.bounded)
          o,
      λ v. rw covers-append (ground (arith, c.exact v, x v, covers-cons r rs v)),
    )

-- For valid ranges and a chunk size above 0 the chunks cover exactly the values that the ranges
-- cover. They are not empty, hold at most `size` values each, and stand in ascending order with no
-- value in two of them.
pub chunk_ranges_exact :
    (rs : List Range) (size : ℕ)
    → All IsValid rs
    → 0 < size
    → (out : List Range) × (chunk_ranges rs size ≡ ok out)
      × InOrder size 0 out
      × ((v : ℕ) → covers out v ≡ covers rs v)
unfolding chunk_ranges
chunk_ranges_exact rs size h p =
    let (merged, e, a, x) = merge_ranges_exact rs h in
    let (out, e', o, y) = chunk_regions_lem size 0 merged p a in
    (out, rw (e, e'), o, λ v. y v ∙ x v)
