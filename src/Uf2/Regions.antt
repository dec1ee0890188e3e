-- ===== src/Uf2/Regions.antt =====
-- The payloads of a region: they fit, and put together they are the region.
use ofrak.Range.{Range}
use ofrak.Uf2.{region_payloads}
use ofrak.Uf2.Loop.{placed, IsPayload}
use ofrak.Prelude.{
  ℕ, zero, suc, ◌+◌, ◌-◌, ◌*◌, ◌/◌, ◌≤◌, ◌≡◌, refl, sym, ap, ◌∙◌, true, false, List, [], ◌∷◌, ◌++◌,
  length, take, drop, All, ◌==◌, arith,
}
use ofrak.Prelude.Bytes.{Bytes, byte_slice}
use ofrak.Prelude.Padding.{take_nil, suc_add}

length-take_all : (n : ℕ) (xs : Bytes) → n ≤ length xs → length (take n xs) ≡ n
length-take_all zero xs h = refl
length-take_all (suc n) [] h = absurd (omega arith)
length-take_all (suc n) (x ∷ xs) h = ap suc (length-take_all n xs (omega arith))

length-drop_all : (n : ℕ) (xs : Bytes) → n ≤ length xs → n + length (drop n xs) ≡ length xs
length-drop_all zero xs h = omega arith
length-drop_all (suc n) [] h = absurd (omega arith)
length-drop_all (suc n) (x ∷ xs) h = omega (arith, length-drop_all n xs (omega arith))

take_whole : (xs : Bytes) → take (length xs) xs ≡ xs
take_whole [] = refl
take_whole (x ∷ xs) = ap (λ ys. x ∷ ys) (take_whole xs)

take-add : (m n : ℕ) (xs : Bytes) → take m xs ++ take n (drop m xs) ≡ take (m + n) xs
take-add zero n xs = ap (λ k. take k xs) (omega arith)
take-add (suc m) n [] = take_nil n ∙ sym (take_nil (suc m + n))
take-add (suc m) n (x ∷ xs) =
    ap (λ ys. x ∷ ys) (take-add m n xs) ∙ ap (λ k. take k (x ∷ xs)) (sym (suc_add m n))

width : (i : ℕ) → (i + 256) - i ≡ 256
width i = omega arith

slice-add : (i : ℕ) (xs : Bytes) → take i xs ++ byte_slice xs i (i + 256) ≡ take (i + 256) xs
slice-add i xs = ap (λ k. take i xs ++ take k (drop i xs)) (width i) ∙ take-add i 256 xs

length-slice : (i : ℕ) (xs : Bytes) → i + 256 ≤ length xs → length (byte_slice xs i (i + 256)) ≡ 256
length-slice i xs h =
    ap (λ k. length (take k (drop i xs))) (width i)
    ∙ length-take_all 256 (drop i xs) (omega (arith, length-drop_all i xs (omega arith)))

-- The ranges after some payloads.
abbrev pub placed_all : List (ℕ × ℕ × Bytes) → List (Range × Bytes) → List (Range × Bytes)
placed_all [] ranges = ranges
placed_all ((t, s, d) ∷ ps) ranges = placed_all ps (placed t s d ranges)

pub placed_all-append :
    (ps qs : List (ℕ × ℕ × Bytes)) (ranges : List (Range × Bytes))
    → placed_all (ps ++ qs) ranges ≡ placed_all qs (placed_all ps ranges)
placed_all-append [] qs ranges = refl
placed_all-append ((t, s, d) ∷ ps) qs ranges = placed_all-append ps qs (placed t s d ranges)

pub region_payloads_fit :
    (k i addr : ℕ) (bytes : Bytes)
    → length bytes ≡ i + 256 * k
    → addr + length bytes ≤ 4294967296
    → All IsPayload (region_payloads k i addr bytes)
unfolding region_payloads
region_payloads_fit zero i addr bytes h fit = tt
region_payloads_fit (suc k) i addr bytes h fit = (
  (refl, length-slice i bytes (omega arith), omega arith),
  region_payloads_fit k (i + 256) addr bytes (omega arith) fit,
)

-- a range with its bytes
abbrev pub piece : ℕ → ℕ → Bytes → Range × Bytes
piece start end bytes = (record { start = start; end = end }, bytes)

extend_step :
    (addr i : ℕ) (bytes : Bytes) (ranges : List (Range × Bytes))
    → placed
        (addr + i)
        256
        (byte_slice bytes i (i + 256))
        (piece addr (addr + i) (take i bytes) ∷ ranges)
      ≡ piece addr (addr + (i + 256)) (take (i + 256) bytes) ∷ ranges
extend_step addr i bytes ranges =
    let same : ((addr + i) == (addr + i)) ≡ true = ground arith in
    rw same (
      ap (λ e. piece addr e (take i bytes ++ byte_slice bytes i (i + 256)) ∷ ranges) (omega arith)
      ∙ ap (λ b. piece addr (addr + (i + 256)) b ∷ ranges) (slice-add i bytes))

extend_all :
    (k i addr : ℕ) (bytes : Bytes) (ranges : List (Range × Bytes))
    → length bytes ≡ i + 256 * k
    → placed_all (region_payloads k i addr bytes) (piece addr (addr + i) (take i bytes) ∷ ranges)
      ≡ piece addr (addr + length bytes) bytes ∷ ranges
unfolding region_payloads
extend_all zero i addr bytes ranges h =
    let e : i ≡ length bytes = omega arith in
    ap (λ k. piece addr (addr + k) (take k bytes) ∷ ranges) e
    ∙ ap (λ b. piece addr (addr + length bytes) b ∷ ranges) (take_whole bytes)
extend_all (suc k) i addr bytes ranges h =
    ap (placed_all (region_payloads k (i + 256) addr bytes)) (extend_step addr i bytes ranges)
    ∙ extend_all k (i + 256) addr bytes ranges (omega arith)

-- The last of the ranges does not end at an address.
abbrev pub EndsElsewhere : ℕ → List (Range × Bytes) → Type 0
EndsElsewhere addr [] = Unit
EndsElsewhere addr ((last, bytes) ∷ ranges) = (addr == last.end) ≡ false

first_place :
    (addr : ℕ) (bytes : Bytes) (ranges : List (Range × Bytes))
    → EndsElsewhere addr ranges
    → placed (addr + 0) 256 (byte_slice bytes 0 (0 + 256)) ranges
      ≡ piece addr (addr + (0 + 256)) (take (0 + 256) bytes) ∷ ranges
first_place addr bytes [] h = ap (λ a. piece a (a + 256) (take 256 bytes) ∷ []) (omega arith)
first_place addr bytes ((last, ld) ∷ ranges) h =
    let new : ((addr + 0) == last.end) ≡ false = ground (arith, h) in
    rw new (ap (λ a. piece a (a + 256) (take 256 bytes) ∷ (last, ld) ∷ ranges) (omega arith))

pub rounds_lem : (n l : ℕ) → l ≡ 256 * suc n → (l + 255) / 256 ≡ suc n
rounds_lem n l h = omega arith

-- A region of some blocks comes out of its payloads.
pub region_placed :
    (n addr : ℕ) (bytes : Bytes) (ranges : List (Range × Bytes))
    → length bytes ≡ 256 * suc n
    → EndsElsewhere addr ranges
    → placed_all (region_payloads ((length bytes + 255) / 256) 0 addr bytes) ranges
      ≡ piece addr (addr + length bytes) bytes ∷ ranges
unfolding region_payloads
region_placed n addr bytes ranges h new =
    ap (λ k. placed_all (region_payloads k 0 addr bytes) ranges) (rounds_lem n (length bytes) h)
    ∙ ap (placed_all (region_payloads n (0 + 256) addr bytes)) (first_place addr bytes ranges new)
    ∙ extend_all n (0 + 256) addr bytes ranges (omega arith)
