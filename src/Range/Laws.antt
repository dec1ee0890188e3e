-- ===== src/Range/Laws.antt =====
-- The operations of a single range, against membership in the range.
use ofrak.Prelude.{
  ℕ, zero, suc, ◌<◌, ◌+◌, ◌≡◌, ◌↔◌, refl, true, not, ◌&&◌, List, ok, err, Error, arith, All,
  ok_of_ne_err, max,
}
use ofrak.Prelude.Int.{pos, neg}
use ofrak.Range.{Range, IsValid, contains_value, overlaps, intersect, split, translate, covers}

split-ne-err : (r q : Range) → IsValid r → IsValid q → (e : Error) → split r q ≡ err e → ⊥
unfolding split
split-ne-err r q hr hq e h = ground arith

split-IsValid :
    (r q : Range) (pieces : List Range) → IsValid r → split r q ≡ ok pieces → All IsValid pieces
unfolding split
split-IsValid r q pieces hr h = ground arith

split-covers :
    (r q : Range) (pieces : List Range) (v : ℕ)
    → split r q ≡ ok pieces
    → IsValid r
    → IsValid q
    → covers pieces v ≡ (contains_value r v && not (contains_value q v))
unfolding split covers contains_value
split-covers r q pieces v h hr hq = ground arith

-- Splitting a valid range never raises; the pieces are valid, and together they hold exactly the
-- values of the range that lie outside the given one.
pub split_partition :
    (r q : Range)
    → IsValid r
    → IsValid q
    → (pieces : List Range) × (split r q ≡ ok pieces)
      × All IsValid pieces
      × ((v : ℕ) → covers pieces v ≡ (contains_value r v && not (contains_value q v)))
split_partition r q hr hq =
    let (pieces, e) = ok_of_ne_err (split r q) (split-ne-err r q hr hq) in
    (pieces, e, split-IsValid r q pieces hr e, λ v. split-covers r q pieces v e hr hq)

intersect-ok :
    (r q m : Range) (v : ℕ)
    → intersect r q ≡ ok m
    → contains_value m v ≡ (contains_value r v && contains_value q v)
unfolding intersect contains_value
intersect-ok r q m v h = ground arith

intersect-IsValid : (r q m : Range) → intersect r q ≡ ok m → IsValid m
unfolding intersect
intersect-IsValid r q m h = ground arith

intersect-ne-err :
    (r q : Range)
    → IsValid r
    → IsValid q
    → overlaps r q ≡ true
    → (e : Error) → intersect r q ≡ err e
    → ⊥
unfolding intersect overlaps
intersect-ne-err r q hr hq h e k = ground arith

-- Two valid ranges that overlap have an intersection: a valid range that holds exactly the values
-- that lie in both. Two ranges that are not empty overlap exactly if they have a value in common,
-- so that ranges that only touch do not.
pub intersect_exact :
    (r q : Range)
    → (overlaps r q ≡ true
        → IsValid r
        → IsValid q
        → (m : Range) × (intersect r q ≡ ok m)
          × IsValid m
          × ((v : ℕ) → contains_value m v ≡ (contains_value r v && contains_value q v)))
      × ((v : ℕ) → (contains_value r v && contains_value q v) ≡ true → overlaps r q ≡ true)
      × (r.start < r.end
          → q.start < q.end
          → overlaps r q ≡ true
          → (v : ℕ) × ((contains_value r v && contains_value q v) ≡ true))
unfolding overlaps contains_value
intersect_exact r q = (
  λ h hr hq.
      let (m, e) = ok_of_ne_err (intersect r q) (intersect-ne-err r q hr hq h) in
      (m, e, intersect-IsValid r q m e, λ v. intersect-ok r q m v e),
  λ v h. ground arith,
  λ hr hq h. (max r.start q.start, ground arith),
)

-- Translating forward and back by the same offset gives the range back, and the translated range
-- holds a value exactly if the range holds it before the offset.
pub translate_back :
    (r : Range) (n : ℕ)
    → IsValid r
    → (s : Range) × (translate r (pos n) ≡ ok s)
      × (translate s (neg n) ≡ ok r)
      × ((v : ℕ) → contains_value s (v + n) ≡ contains_value r v)
unfolding translate contains_value
translate_back r zero h = (r, refl, refl, λ v. ground arith)
translate_back r (suc n) h = (
  record { start = r.start + suc n; end = r.end + suc n },
  ground arith,
  ground arith,
  λ v. ground arith,
)

-- A translation towards zero raises exactly if the range starts below the offset.
translate-err_iff :
    (r : Range) (n : ℕ) → IsValid r → (translate r (neg n) ≡ err Error.value_error) ↔ (r.start < n)
unfolding translate
translate-err_iff r zero h = ground arith
translate-err_iff r (suc n) h = ground arith
