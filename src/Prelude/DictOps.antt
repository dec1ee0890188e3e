-- ===== src/Prelude/DictOps.antt =====
-- Python's `dict` in insertion order, over keys that are numbers: a write to a key that is there
-- keeps its place, a new key goes to the end.
use Prim.Native.Nat.{ℕ}
use mathlib.Core.Path.{◌≡◌, refl}
use mathlib.Core.Logic.{◌≢◌, ◌⊎◌, inl, inr}
use mathlib.Core.Bool.{Bool, true, false}
use mathlib.Core.List.{List, [], ◌∷◌}
use mathlib.Core.Option.{Option, none, some}
use native.Mathlib.Omega.{arith}
use ofrak.Prelude.Tests.{◌==◌, if◌then◌else◌, Bool-cases}

abbrev pub Dict {ℓ} : Type ℓ → Type ℓ
Dict V = List (ℕ × V)

module _ {ℓ} {V : Type ℓ} where
  -- `d.get(k)`
  unfoldable pub dict_get : ℕ → Dict V → Option V
  dict_get k [] = none
  dict_get k ((j, v) ∷ d) = if j == k then some v else dict_get k d

  -- `d[k] = v`
  unfoldable pub dict_set : ℕ → V → Dict V → Dict V
  dict_set k v [] = (k, v) ∷ []
  dict_set k v ((j, w) ∷ d) = if j == k then (k, v) ∷ d else (j, w) ∷ dict_set k v d

  -- `d.pop(k, None)`, `del d[k]` where the key is there
  unfoldable pub dict_del : ℕ → Dict V → Dict V
  dict_del k [] = []
  dict_del k ((j, w) ∷ d) = let rest = dict_del k d in if j == k then rest else (j, w) ∷ rest

  -- `k in d`
  unfoldable pub dict_has : ℕ → Dict V → Bool
  unfolding dict_get
  dict_has k d = elim (dict_get k d) [ none ↦ false | some _ ↦ true ]

  pub get-set :
      (k j : ℕ) (v : V) (d : Dict V)
      → dict_get j (dict_set k v d) ≡ (if k == j then some v else dict_get j d)
  unfolding dict_get dict_set
  get-set k j v [] = refl
  get-set k j v ((i, w) ∷ d) = ground (arith, get-set k j v d)

  pub get-del :
      (k j : ℕ) (d : Dict V) → dict_get j (dict_del k d) ≡ (if k == j then none else dict_get j d)
  unfolding dict_get dict_del
  get-del k j [] = ground arith
  get-del k j ((i, w) ∷ d) = ground (arith, get-del k j d)

  pub get-set_self : (k : ℕ) (v : V) (d : Dict V) → dict_get k (dict_set k v d) ≡ some v
  get-set_self k v d = ground (arith, get-set k k v d)

  pub get-set_ne :
      (k j : ℕ) (v : V) (d : Dict V) → j ≢ k → dict_get j (dict_set k v d) ≡ dict_get j d
  get-set_ne k j v d h = ground (arith, get-set k j v d)

  -- what stands at a key after a write
  pub get-set_cases :
      (k j : ℕ) (v x : V) (d : Dict V)
      → dict_get j (dict_set k v d) ≡ some x
      → ((k ≡ j) × (v ≡ x)) ⊎ ((k ≢ j) × (dict_get j d ≡ some x))
  get-set_cases k j v x d h = elim (Bool-cases (k == j)) [
    | inl e ↦ inl (ground arith, ground (arith, get-set k j v d, h, e))
    | inr e ↦ inr (ground arith, ground (arith, get-set k j v d, h, e))
  ]
