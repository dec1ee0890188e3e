-- ===== src/FreeSpace/Allocation/Loop.antt =====
-- The loop of `_allocate` over the free ranges.
use ofrak.FreeSpace.Allocation.Piece.{SubOf, InWindow, InsideOne, Piece, fragment-Piece}
use ofrak.Prelude.{
  ℕ, zero, suc, ◌+◌, ◌-◌, ◌%◌, ◌≤◌, ◌≡◌, inl, inr, false, Option, none, some, List, [], ◌∷◌, ok,
  >>=-eq-ok, arith, All, All-map, Pairwise, Result-cases,
}
use ofrak.Range.{Range, IsValid, range_length, overlaps}
use ofrak.FreeSpace.{fragment, allocate_loop, allocate_from, fragment_size}

-- The sizes of the pieces together.
abbrev pub total : List Range → ℕ
total [] = 0
total (f ∷ fs) = range_length f + total fs

-- What the constraints ask of each piece.
pub record Fits (a m : ℕ) (w : Option Range) (f : Range) : Type 0 where
  pub in_window : InWindow w f
  pub valid : IsValid f
  pub aligned : f.start % a ≡ 0
  pub large : m ≤ range_length f

-- What the loop returns of a list of free ranges.
pub record Allocated (a m : ℕ) (w : Option Range) (rs fs : List Range) (u left : ℕ) : Type 0 where
  pub exact : total fs + left ≡ u
  pub fit : All (Fits a m w) fs
  pub inside : All (InsideOne rs) fs
  pub apart : Pairwise (λ r s. overlaps r s ≡ false) rs → Pairwise (λ f g. overlaps f g ≡ false) fs

overlaps-SubOf :
    (r s f g : Range)
    → overlaps r s ≡ false
    → SubOf f r
    → SubOf g s
    → IsValid f
    → IsValid g
    → overlaps f g ≡ false
unfolding overlaps
overlaps-SubOf r s f g h p q v w = ground arith

Allocated-skip :
    (a m : ℕ) (w : Option Range) (r : Range) (rs fs : List Range) (u left : ℕ)
    → Allocated a m w rs fs u left
    → Allocated a m w (r ∷ rs) fs u left
Allocated-skip a m w r rs fs u left h = record {
  exact = h.exact;
  fit = h.fit;
  inside = All-map (InsideOne rs) (InsideOne (r ∷ rs)) (λ f k. inr k) fs h.inside;
  apart = λ d. h.apart d.1;
}

-- A piece of the first range does not overlap what lies inside the others.
apart_from_rest :
    (r f g : Range) (rs : List Range)
    → All (λ s. overlaps r s ≡ false) rs
    → SubOf f r
    → IsValid f
    → IsValid g
    → InsideOne rs g
    → overlaps f g ≡ false
apart_from_rest r f g [] d s v w i = absurd i
apart_from_rest r f g (q ∷ rs) d s v w (inl k) = overlaps-SubOf r q f g d.0 s k v w
apart_from_rest r f g (q ∷ rs) d s v w (inr k) = apart_from_rest r f g rs d.1 s v w k

apart_from_All :
    (a m : ℕ) (w : Option Range) (r f : Range) (rs fs : List Range)
    → All (λ s. overlaps r s ≡ false) rs
    → SubOf f r
    → IsValid f
    → All (Fits a m w) fs
    → All (InsideOne rs) fs
    → All (λ g. overlaps f g ≡ false) fs
apart_from_All a m w r f rs [] d s v k i = tt
apart_from_All a m w r f rs (g ∷ fs) d s v k i =
    (apart_from_rest r f g rs d s v k.0.valid i.0, apart_from_All a m w r f rs fs d s v k.1 i.1)

Allocated-take :
    (a m : ℕ) (w : Option Range) (r f : Range) (rs fs : List Range) (u left : ℕ)
    → Piece a m w u r f
    → Allocated a m w rs fs (u - range_length f) left
    → Allocated a m w (r ∷ rs) (f ∷ fs) u left
Allocated-take a m w r f rs fs u left p h = record {
  exact = omega (arith, h.exact, p.needed);
  fit = (
    record { in_window = p.in_window; valid = p.valid; aligned = p.aligned; large = p.large },
    h.fit,
  );
  inside = (inl p.inside, All-map (InsideOne rs) (InsideOne (r ∷ rs)) (λ g k. inr k) fs h.inside);
  apart = λ d. (apart_from_All a m w r f rs fs d.0 p.inside p.valid h.fit h.inside, h.apart d.1);
}

allocate_loop_lem :
    (a m : ℕ) (w : Option Range) (rs : List Range) (u : ℕ) (fs : List Range) (left : ℕ)
    → allocate_loop a m w rs u ≡ ok (fs, left)
    → Allocated a m w rs fs u left
unfolding allocate_loop
allocate_loop_lem a m w [] u fs left h =
    let p : fs ≡ [] = ground arith in
    rw p (record { exact = ground arith; fit = tt; inside = tt; apart = λ d. tt })
allocate_loop_lem a m w (r ∷ rs) zero fs left h =
    let p : fs ≡ [] = ground arith in
    rw p (record { exact = ground arith; fit = tt; inside = tt; apart = λ d. tt })
allocate_loop_lem a m w (r ∷ rs) (suc n) fs left h =
    elim (Result-cases (fragment a m w (suc n) r)) [
      | inl (none, e) ↦
          Allocated-skip a m w r rs fs (suc n) left
            (allocate_loop_lem a m w rs (suc n) fs left (rw e at h))
      | inl (some f, e) ↦
          let ((gs, left'), ih, same) =
            >>=-eq-ok (allocate_loop a m w rs (suc n - range_length f)) _ (rw e at h) in
          let p : fs ≡ f ∷ gs = cc same in
          let q : left ≡ left' = cc same in
          rw (p, q)
            (Allocated-take a m w r f rs gs (suc n) left' (fragment-Piece a m w (suc n) r f e)
              (allocate_loop_lem a m w rs (suc n - range_length f) gs left' ih))
      | inr (x, e) ↦ absurd (ground (arith, rw e at h))
    ]

pub allocate_from_lem :
    (rs : List Range) (size a : ℕ) (min_size : Option ℕ) (w : Option Range) (fs : List Range)
    → allocate_from rs size a min_size w ≡ ok fs
    → (m : ℕ) × (fragment_size size min_size ≡ ok m) × Allocated a m w rs fs size 0
unfolding allocate_from
allocate_from_lem rs size a min_size w fs h =
    let (m, em, h') = >>=-eq-ok (fragment_size size min_size) _ h in
    let ((gs, left), el, h'') = >>=-eq-ok (allocate_loop a m w rs size) _ h' in
    let p : left ≡ 0 = ground (arith, h'') in
    let q : gs ≡ fs = ground (arith, h'') in
    (m, em, rw (p, q) at (allocate_loop_lem a m w rs size gs left el))
