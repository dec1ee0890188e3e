-- ===== src/FreeSpace/Allocation/Piece.antt =====
-- What one round of the loop of `_allocate` takes from a free range.
use native.Mathlib.Nat.{mod-lt, add-mod-mod, mod-add-mod, mod_self}
use ofrak.Prelude.{
  ℕ, ◌+◌, ◌-◌, ◌%◌, ◌≤◌, ◌<◌, ◌≡◌, ◌⊎◌, refl, ap, sym, ◌∙◌, Option, none, some, List, [], ◌∷◌,
  Result, ok, err, Error, arith,
}
use ofrak.Range.{Range, IsValid, mk_range, range_length, intersect}
use ofrak.FreeSpace.{or_continue, take_required, narrow, align_range, fragment}

abbrev pub SubOf : Range → Range → Type 0
SubOf f r = (r.start ≤ f.start) × (f.end ≤ r.end)

abbrev pub InWindow : Option Range → Range → Type 0
InWindow none f = Unit
InWindow (some w) f = SubOf f w

-- The range lies inside one of the list.
abbrev pub InsideOne : List Range → Range → Type 0
InsideOne [] f = ⊥
InsideOne (r ∷ rs) f = SubOf f r ⊎ InsideOne rs f

pub narrow_lem : (w : Option Range) (r n : Range) → narrow w r ≡ ok n → SubOf n r × InWindow w n
unfolding narrow intersect
narrow_lem none r n h = ground arith
narrow_lem (some w) r n h = ground arith

aligned_up : (s a : ℕ) → 0 < a → (s + (a - s % a) % a) % a ≡ 0
aligned_up s a h =
    let whole : s % a + (a - s % a) ≡ a = omega (arith, mod-lt s h) in
    add-mod-mod s (a - s % a) a
    ∙ sym (mod-add-mod s a (a - s % a))
    ∙ ap (λ n. n % a) whole
    ∙ mod_self a

pub align_lem :
    (r c : Range) (a : ℕ)
    → align_range r a ≡ ok c
    → (r.start ≤ c.start) × (c.end ≤ r.end) × IsValid c × (c.start % a ≡ 0)
unfolding align_range
align_lem r c a h = ground (arith, aligned_up r.start a)

-- A piece of a free range: inside it and inside the window, aligned, and of a size in bounds.
pub record Piece (a m : ℕ) (w : Option Range) (u : ℕ) (r f : Range) : Type 0 where
  pub inside : SubOf f r
  pub in_window : InWindow w f
  pub valid : IsValid f
  pub aligned : f.start % a ≡ 0
  pub large : m ≤ range_length f
  pub needed : range_length f ≤ u

InWindow-SubOf : (w : Option Range) (r f : Range) → InWindow w r → SubOf f r → InWindow w f
InWindow-SubOf none r f h k = tt
InWindow-SubOf (some w) r f h k = omega arith

or_continue-some :
    (x : Result Range) (k : Range → Result (Option Range)) {f : Range}
    → or_continue x k ≡ ok (some f)
    → (n : Range) × (x ≡ ok n) × (k n ≡ ok (some f))
or_continue-some (ok n) k h = (n, refl, h)
or_continue-some (err Error.value_error) k h = cc
or_continue-some (err _) k h = cc

take_required_lem :
    (m u : ℕ) (c f : Range)
    → IsValid c
    → take_required m u c ≡ ok (some f)
    → (f.start ≡ c.start)
      × (f.end ≤ c.end)
      × (m ≤ range_length f)
      × (range_length f ≤ u)
      × IsValid f
unfolding take_required range_length mk_range
take_required_lem m u c f v h = ground arith

pub fragment-Piece :
    (a m : ℕ) (w : Option Range) (u : ℕ) (r f : Range)
    → fragment a m w u r ≡ ok (some f)
    → Piece a m w u r f
unfolding fragment
fragment-Piece a m w u r f h =
    let (n, en, h') = or_continue-some (narrow w r) _ h in
    let (c, ec, h'') = or_continue-some (align_range n a) _ h' in
    let (sub, win) = narrow_lem w r n en in
    let (start, end, vc, al) = align_lem n c a ec in
    let (s, e, lo, hi, v) = take_required_lem m u c f vc h'' in
    record {
      inside = omega (arith, sub);
      in_window = InWindow-SubOf w n f win (omega arith);
      valid = v;
      aligned = ap (λ k. k % a) s ∙ al;
      large = lo;
      needed = hi;
    }
