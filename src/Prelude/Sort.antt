-- ===== src/Prelude/Sort.antt =====
-- Python's `sorted` and `list.sort`: a stable sort, given as an insertion sort over a Boolean test
-- that says whether the first value may stand before the second.
use Prim.Native.Nat.{ℕ, suc, ◌+◌}
use mathlib.Core.Path.{◌≡◌, refl}
use mathlib.Core.Bool.{Bool, true, false}
use mathlib.Core.Logic.{inl, inr}
use mathlib.Core.List.{List, [], ◌∷◌}
use native.Mathlib.Omega.{arith}
use ofrak.Prelude.Lists.{All, All-map, any, length}
use ofrak.Prelude.Tests.{if◌then◌else◌, Bool-cases}

module _ {ℓ} {A : Type ℓ} where
  unfoldable pub insert_by : (A → A → Bool) → A → List A → List A
  insert_by before x [] = x ∷ []
  insert_by before x (y ∷ ys) = if before x y then x ∷ y ∷ ys else y ∷ insert_by before x ys

  unfoldable pub sort_by : (A → A → Bool) → List A → List A
  unfolding insert_by
  sort_by before [] = []
  sort_by before (x ∷ xs) = insert_by before x (sort_by before xs)

  -- How many elements pass a test.
  abbrev pub count : (A → Bool) → List A → ℕ
  count p [] = 0
  count p (x ∷ xs) = (if p x then 1 else 0) + count p xs

  -- Every element stands in the relation to all that follow it.
  abbrev pub Pairwise {κ} : (A → A → Type κ) → List A → Type (ℓ ⊔ κ)
  Pairwise R [] = Unit
  Pairwise R (x ∷ xs) = All (R x) xs × Pairwise R xs

module _ {ℓ} {A : Type ℓ} (before : A → A → Bool) where
  pub count-insert :
      (p : A → Bool) (x : A) (ys : List A) → count p (insert_by before x ys) ≡ count p (x ∷ ys)
  unfolding insert_by
  count-insert p x [] = refl
  count-insert p x (y ∷ ys) = ground (arith, count-insert p x ys)

  pub count-sort : (p : A → Bool) (xs : List A) → count p (sort_by before xs) ≡ count p xs
  unfolding sort_by
  count-sort p [] = refl
  count-sort p (x ∷ xs) = ground (arith, count-insert p x (sort_by before xs), count-sort p xs)

  length-insert : (x : A) (ys : List A) → length (insert_by before x ys) ≡ suc (length ys)
  unfolding insert_by
  length-insert x [] = refl
  length-insert x (y ∷ ys) = ground (arith, length-insert x ys)

  pub length-sort : (xs : List A) → length (sort_by before xs) ≡ length xs
  unfolding sort_by
  length-sort [] = refl
  length-sort (x ∷ xs) = ground (arith, length-insert x (sort_by before xs), length-sort xs)

  any-insert : (p : A → Bool) (x : A) (ys : List A) → any p (insert_by before x ys) ≡ any p (x ∷ ys)
  unfolding insert_by
  any-insert p x [] = refl
  any-insert p x (y ∷ ys) = ground (arith, any-insert p x ys)

  pub any-sort : (p : A → Bool) (xs : List A) → any p (sort_by before xs) ≡ any p xs
  unfolding sort_by
  any-sort p [] = refl
  any-sort p (x ∷ xs) = ground (arith, any-insert p x (sort_by before xs), any-sort p xs)

  module _ {κ} (P : A → Type κ) where
    All-insert : (x : A) (ys : List A) → P x → All P ys → All P (insert_by before x ys)
    unfolding insert_by
    All-insert x [] h k = (h, tt)
    All-insert x (y ∷ ys) h k = elim (Bool-cases (before x y)) [
      | inl e ↦ rw e (h, k)
      | inr e ↦ rw e (k.0, All-insert x ys h k.1)
    ]

    pub All-sort : (xs : List A) → All P xs → All P (sort_by before xs)
    unfolding sort_by
    All-sort [] h = tt
    All-sort (x ∷ xs) h = All-insert x (sort_by before xs) h.0 (All-sort xs h.1)

  module _ {κ} (R : A → A → Type κ) where
    module _ (here : (x y : A) → before x y ≡ true → R x y)
        (there : (x y : A) → before x y ≡ false → R y x)
        (trans : (x y z : A) → R x y → R y z → R x z) where
      insert-Pairwise : (x : A) (ys : List A) → Pairwise R ys → Pairwise R (insert_by before x ys)
      unfolding insert_by
      insert-Pairwise x [] h = (tt, tt)
      insert-Pairwise x (y ∷ ys) h = elim (Bool-cases (before x y)) [
        | inl e ↦
            let r = here x y e in rw e ((r, All-map (R y) (R x) (λ z. trans x y z r) ys h.0), h)
        | inr e ↦ rw e (All-insert (R y) x ys (there x y e) h.0, insert-Pairwise x ys h.1)
      ]

      -- A sort orders its list, if the test decides a total and transitive relation.
      pub sort-Pairwise : (xs : List A) → Pairwise R (sort_by before xs)
      unfolding sort_by
      sort-Pairwise [] = tt
      sort-Pairwise (x ∷ xs) = insert-Pairwise x (sort_by before xs) (sort-Pairwise xs)

    module _ (symmetric : (x y : A) → R x y → R y x) where
      insert-keeps :
          (x : A) (ys : List A) → All (R x) ys → Pairwise R ys → Pairwise R (insert_by before x ys)
      unfolding insert_by
      insert-keeps x [] h k = (tt, tt)
      insert-keeps x (y ∷ ys) h k = elim (Bool-cases (before x y)) [
        | inl e ↦ rw e (h, k)
        | inr e ↦ rw e (All-insert (R y) x ys (symmetric x y h.0) k.0, insert-keeps x ys h.1 k.1)
      ]

      -- A symmetric relation between all pairs survives a sort.
      pub Pairwise-sort : (xs : List A) → Pairwise R xs → Pairwise R (sort_by before xs)
      unfolding sort_by
      Pairwise-sort [] h = tt
      Pairwise-sort (x ∷ xs) h =
          insert-keeps x (sort_by before xs) (All-sort (R x) xs h.0) (Pairwise-sort xs h.1)
