-- ===== src/Range/Remove/Cases.antt =====
-- One round of the loop of `remove_subranges`, for each of its branches.
use ofrak.Range.Remove.Order.{
  Ascending, Sorted, covers-cons, covers-nil, covers_below, covers_below-Sorted,
}
use ofrak.Prelude.{
  ℕ, suc, ◌≡◌, true, false, not, inl, inr, ◌&&◌, List, [], ◌∷◌, ok, arith, Bool-cases, leb, ltb,
}
use ofrak.Range.{Range, mk_range, remove_loop, covers}

-- What the loop returns: the values of the first list that are not in the second.
pub record Removed (fuel : ℕ) (c : Range) (rs : List Range) (t : Range) (ts out : List Range)
    : Type 0 where
  pub returns : remove_loop fuel c rs t ts ≡ ok out
  pub exact : (v : ℕ) → covers out v ≡ (covers (c ∷ rs) v && not (covers (t ∷ ts) v))

module _ (fuel : ℕ) (c : Range) (rs : List Range) (t : Range) (ts : List Range) where
  pub skip_last :
      leb t.end c.start ≡ true → Ascending c.start (c ∷ rs) → Removed (suc fuel) c rs t [] (c ∷ rs)
  unfolding remove_loop
  skip_last e h = record {
    returns = ground arith;
    exact =
        λ v. ground (arith, covers-cons t [] v, covers-nil v, covers_below c.start (c ∷ rs) v h);
  }

  pub skip_next :
      (n : Range) (out : List Range)
      → leb t.end c.start ≡ true
      → Ascending c.start (c ∷ rs)
      → Removed fuel c rs n ts out
      → Removed (suc fuel) c rs t (n ∷ ts) out
  unfolding remove_loop
  skip_next n out e h r = record {
    returns = ground (arith, r.returns);
    exact =
        λ v. ground (arith, r.exact v, covers-cons t (n ∷ ts) v, covers_below c.start (c ∷ rs) v h);
  }

  pub keep_last :
      leb t.end c.start ≡ false
      → leb c.end t.start ≡ true
      → Sorted (t ∷ ts)
      → Removed (suc fuel) c [] t ts (c ∷ [])
  unfolding remove_loop
  keep_last e f h = record {
    returns = ground arith;
    exact = λ v. ground (arith, covers-cons c [] v, covers-nil v, covers_below-Sorted t ts v h);
  }

  pub keep_next :
      (n : Range) (out : List Range)
      → leb t.end c.start ≡ false
      → leb c.end t.start ≡ true
      → Sorted (t ∷ ts)
      → Removed fuel n rs t ts out
      → Removed (suc fuel) c (n ∷ rs) t ts (c ∷ out)
  unfolding remove_loop
  keep_next n out e f h r = record {
    returns = ground (arith, r.returns);
    exact = λ v. ground (
      arith,
      r.exact v,
      covers-cons c out v,
      covers-cons c (n ∷ rs) v,
      covers_below-Sorted t ts v h,
    );
  }

  pub cut_left :
      (out : List Range)
      → leb t.end c.start ≡ false
      → leb c.end t.start ≡ false
      → ltb c.start t.start ≡ true
      → Sorted (t ∷ ts)
      → Removed fuel (record { start = t.start; end = c.end }) rs t ts out
      → Removed (suc fuel) c rs t ts (record { start = c.start; end = t.start } ∷ out)
  unfolding remove_loop mk_range
  cut_left out e f g h r = record {
    returns = ground (arith, r.returns);
    exact = λ v. ground (
      arith,
      r.exact v,
      covers-cons (record { start = c.start; end = t.start }) out v,
      covers-cons (record { start = t.start; end = c.end }) rs v,
      covers-cons c rs v,
      covers_below-Sorted t ts v h,
    );
  }

  pub cut_right :
      (out : List Range)
      → leb t.end c.start ≡ false
      → leb c.end t.start ≡ false
      → ltb c.start t.start ≡ false
      → ltb t.end c.end ≡ true
      → Removed fuel (record { start = t.end; end = c.end }) rs t ts out
      → Removed (suc fuel) c rs t ts out
  unfolding remove_loop mk_range
  cut_right out e f g i r = record {
    returns = ground (arith, r.returns);
    exact = λ v. ground (
      arith,
      r.exact v,
      covers-cons (record { start = t.end; end = c.end }) rs v,
      covers-cons c rs v,
      covers-cons t ts v,
    );
  }

  pub drop_last :
      leb t.end c.start ≡ false
      → leb c.end t.start ≡ false
      → ltb c.start t.start ≡ false
      → ltb t.end c.end ≡ false
      → Removed (suc fuel) c [] t ts []
  unfolding remove_loop
  drop_last e f g i = record {
    returns = ground arith;
    exact = λ v. ground (arith, covers-cons c [] v, covers-nil v, covers-cons t ts v);
  }

  pub drop_next :
      (n : Range) (out : List Range)
      → leb t.end c.start ≡ false
      → leb c.end t.start ≡ false
      → ltb c.start t.start ≡ false
      → ltb t.end c.end ≡ false
      → Removed fuel n rs t ts out
      → Removed (suc fuel) c (n ∷ rs) t ts out
  unfolding remove_loop
  drop_next n out e f g i r = record {
    returns = ground (arith, r.returns);
    exact = λ v. ground (arith, r.exact v, covers-cons c (n ∷ rs) v, covers-cons t ts v);
  }

-- The branch that a pair of ranges takes.
pub data Case (c t : Range) : Type 0 where
  skip : leb t.end c.start ≡ true → Case c t
  keep : leb t.end c.start ≡ false → leb c.end t.start ≡ true → Case c t
  left :
      leb t.end c.start ≡ false → leb c.end t.start ≡ false → ltb c.start t.start ≡ true → Case c t
  right :
      leb t.end c.start ≡ false
      → leb c.end t.start ≡ false
      → ltb c.start t.start ≡ false
      → ltb t.end c.end ≡ true
      → Case c t
  drop :
      leb t.end c.start ≡ false
      → leb c.end t.start ≡ false
      → ltb c.start t.start ≡ false
      → ltb t.end c.end ≡ false
      → Case c t

pub case_of : (c t : Range) → Case c t
case_of c t = elim (Bool-cases (leb t.end c.start)) [
  | inl e ↦ skip e
  | inr e ↦ elim (Bool-cases (leb c.end t.start)) [
    | inl f ↦ keep e f
    | inr f ↦ elim (Bool-cases (ltb c.start t.start)) [
      | inl g ↦ left e f g
      | inr g ↦ elim (Bool-cases (ltb t.end c.end)) [ inl i ↦ right e f g i | inr i ↦ drop e f g i ]
    ]
  ]
]
