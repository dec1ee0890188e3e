-- ===== src/FreeSpace/Allocation/Found.antt =====
-- A contiguous allocation is found where there is one.
use native.Mathlib.Nat.{mod-lt, mod_self, mod-eq_of_lt, div-add-mod}
use native.Mathlib.Decide.{dec_lt}
use ofrak.FreeSpace.Allocation.Piece.{SubOf, InWindow, InsideOne, fragment-Piece}
use ofrak.Prelude.{
  ℕ, suc, ◌+◌, ◌-◌, ◌*◌, ◌/◌, ◌%◌, ◌≤◌, ◌<◌, ◌≡◌, inl, inr, refl, max, min, Option, none, some,
  List, [], ◌∷◌, Result, ok, err, Error, arith, Result-cases,
}
use ofrak.Range.{Range, IsValid, mk_range, range_length, intersect}
use ofrak.FreeSpace.{or_continue, take_required, narrow, align_range, fragment, allocate_loop}

mul_gap : (a x y : ℕ) → x < y → a * x + a ≤ a * y
mul_gap a x y h = grind arith

next_multiple : (a x y s : ℕ) → a * x < s → s ≤ a * y → a * x + a ≤ a * y
next_multiple a x y s h k = elim (dec_lt x y) [
  | yes p ↦ mul_gap a x y p
  | no p ↦ absurd (grind arith)
]

least_aligned : (s t a : ℕ) → 0 < a → s ≤ t → t % a ≡ 0 → s + (a - s % a) % a ≤ t
least_aligned s t a h k e = elim (dec_lt 0 (s % a)) [
  | yes p ↦ omega (
    arith,
    mod-eq_of_lt {n = a - s % a} {m = a} (omega (arith, mod-lt s h)),
    div-add-mod s a,
    div-add-mod t a,
    next_multiple a (s / a) (t / a) s (omega (arith, div-add-mod s a))
        (omega (arith, div-add-mod t a)),
  )
  | no p ↦ let z : a - s % a ≡ a = omega arith in rw z (omega (arith, mod_self a))
]

narrow_finds :
    (w : Option Range) (r f : Range)
    → SubOf f r
    → InWindow w f
    → IsValid f
    → (n : Range) × (narrow w r ≡ ok n) × SubOf f n
unfolding narrow intersect mk_range
narrow_finds none r f s w v = (r, refl, s)
narrow_finds (some q) r f s w v =
    (record { start = max q.start r.start; end = min q.end r.end }, ground arith, omega arith)

align_finds :
    (n f : Range) (a : ℕ)
    → 0 < a
    → SubOf f n
    → IsValid f
    → f.start % a ≡ 0
    → (c : Range) × (align_range n a ≡ ok c) × SubOf f c
unfolding align_range mk_range
align_finds n f a p s v e = (
  record { start = n.start + (a - n.start % a) % a; end = n.end + 0 },
  ground (arith, least_aligned n.start f.start a p s.0 e),
  (least_aligned n.start f.start a p s.0 e, omega arith),
)

take_required_finds :
    (c f : Range)
    → SubOf f c
    → IsValid f
    → (g : Range) × (take_required (range_length f) (range_length f) c ≡ ok (some g))
unfolding take_required range_length mk_range
take_required_finds c f s v =
    (record { start = c.start; end = c.start + (f.end - f.start) }, ground arith)

fragment_finds :
    (a : ℕ) (w : Option Range) (r f : Range)
    → 0 < a
    → SubOf f r
    → InWindow w f
    → IsValid f
    → f.start % a ≡ 0
    → (g : Range) × (fragment a (range_length f) w (range_length f) r ≡ ok (some g))
unfolding fragment
fragment_finds a w r f p s i v e =
    let (n, en, sn) = narrow_finds w r f s i v in
    let (c, ec, sc) = align_finds n f a p sn v e in
    let (g, eg) = take_required_finds c f sc v in (g, rw (en, ec) eg)

narrow-err : (w : Option Range) (r : Range) (e : Error) → narrow w r ≡ err e → e ≡ Error.value_error
unfolding narrow intersect mk_range
narrow-err none r e h = cc
narrow-err (some q) r e h = ground arith

align-err :
    (n : Range) (a : ℕ) (e : Error) → 0 < a → align_range n a ≡ err e → e ≡ Error.value_error
unfolding align_range mk_range
align-err n a e p h = ground arith

take_required-err : (m u : ℕ) (c : Range) (e : Error) → take_required m u c ≡ err e → ⊥
unfolding take_required mk_range range_length
take_required-err m u c e h = ground arith

-- A raise behind `or_continue` is no `ValueError` of the step, or it comes from the rest.
or_continue-err :
    (x : Result Range) (k : Range → Result (Option Range)) (e : Error)
    → or_continue x k ≡ err e
    → ((d : Error) → x ≡ err d → d ≡ Error.value_error)
    → (n : Range) × (x ≡ ok n) × (k n ≡ err e)
or_continue-err (ok n) k e h v = (n, refl, h)
or_continue-err (err Error.value_error) k e h v = cc
or_continue-err (err d) k e h v = cc (v d refl)

-- With a positive alignment a round never raises.
pub fragment_raises_nothing :
    (a m : ℕ) (w : Option Range) (u : ℕ) (r : Range) (e : Error)
    → 0 < a
    → fragment a m w u r ≡ err e
    → ⊥
unfolding fragment
fragment_raises_nothing a m w u r e p h =
    let (n, en, h') = or_continue-err (narrow w r) _ e h (λ d. narrow-err w r d) in
    let (c, ec, h'') = or_continue-err (align_range n a) _ e h' (λ d. align-err n a d p) in
    take_required-err m u c e h''

loop_done : (a m : ℕ) (w : Option Range) (rs : List Range) → allocate_loop a m w rs 0 ≡ ok ([], 0)
unfolding allocate_loop
loop_done a m w [] = refl
loop_done a m w (r ∷ rs) = refl

loop_takes :
    (a n : ℕ) (w : Option Range) (r g : Range) (rs : List Range)
    → fragment a (suc n) w (suc n) r ≡ ok (some g)
    → allocate_loop a (suc n) w (r ∷ rs) (suc n) ≡ ok (g ∷ [], 0)
unfolding allocate_loop
loop_takes a n w r g rs h =
    let piece = fragment-Piece a (suc n) w (suc n) r g h in
    let z : suc n - range_length g ≡ 0 = omega (arith, piece.large) in
    rw (h, z, loop_done a (suc n) w rs)

-- The loop takes one piece of the whole size from the first free range that has room for it.
pub allocate_loop_finds :
    (a n : ℕ) (w : Option Range) (rs : List Range) (f : Range)
    → 0 < a
    → range_length f ≡ suc n
    → InWindow w f
    → IsValid f
    → f.start % a ≡ 0
    → InsideOne rs f
    → (g : Range) × (allocate_loop a (suc n) w rs (suc n) ≡ ok (g ∷ [], 0))
unfolding allocate_loop
allocate_loop_finds a n w [] f p q i v e s = absurd s
allocate_loop_finds a n w (r ∷ rs) f p q i v e s =
    elim (Result-cases (fragment a (suc n) w (suc n) r)) [
      | inl (some g, h) ↦ (g, loop_takes a n w r g rs h)
      | inl (none, h) ↦ elim s [
        | inl sub ↦
            let (g, k) = fragment_finds a w r f p sub i v e in absurd (ground (arith, h, rw q at k))
        | inr later ↦ let (g, k) = allocate_loop_finds a n w rs f p q i v e later in (g, rw (h, k))
      ]
      | inr (x, h) ↦ absurd (fragment_raises_nothing a (suc n) w (suc n) r x p h)
    ]
