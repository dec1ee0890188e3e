-- ===== src/Prelude/Outcome.antt =====
-- Results of Python calls: a value, or the exception that left the call.
use mathlib.Core.Logic.{◌⊎◌, inl, inr}
use mathlib.Core.Path.{◌≡◌, refl}
use mathlib.Core.Bool.{Bool, true, false}
use mathlib.Core.List.{List, [], ◌∷◌}

-- The exceptions that the modelled code raises, the implicit ones included.
pub data Error : Type 0 where
  value_error assertion_error key_error index_error : Error
  not_found already_exists out_of_bound patch_overlap shift_breaks_sort : Error
  free_space_allocation modifier_error not_all_handled zero_division : Error
  unpacker_error packer_error ecc_error type_error overflow_error : Error
  struct_error not_implemented : Error
  -- no exceptions of the code: the fuel of a loop of the model ran out, and a point that the code
  -- would go on with falls below zero, where the model has no offsets
  out_of_fuel below_zero : Error

-- `err` is a raise, `ok` a return.
pub data Result {ℓ} (V : Type ℓ) : Type ℓ where
  err : Error → Result V
  ok : V → Result V

-- `if not condition: raise error`
abbrev pub guard : Bool → Error → Result (Unit {0})
guard false error = err error
guard true error = ok tt

module _ {ℓ κ} {V : Type ℓ} {W : Type κ} where
  infixl 5 ◌>>=◌ ◌>>◌
  -- a raise skips what follows
  abbrev pub ◌>>=◌ : Result V → (V → Result W) → Result W
  err error >>= after = err error
  ok v >>= after = after v

  abbrev pub ◌>>◌ : Result V → Result W → Result W
  err error >> after = err error
  ok v >> after = after

-- A loop that calls `f` on each element and collects the results; the first raise ends it.
abbrev pub map_result {ℓ κ} : {A : Type ℓ} {B : Type κ} → (A → Result B) → List A → Result (List B)
map_result f [] = ok []
map_result f (x ∷ xs) = do y ← f x; ys ← map_result f xs; ok (y ∷ ys)

-- Where a chain returns, its first call did.
pub >>=-eq-ok {ℓ κ} :
    {V : Type ℓ} {W : Type κ} (call : Result V) (after : V → Result W) {w : W}
    → (call >>= after) ≡ ok w
    → (v : V) × (call ≡ ok v) × (after v ≡ ok w)
>>=-eq-ok (err error) after e = cc
>>=-eq-ok (ok v) after e = (v, refl, e)

-- A call that raises nothing returns.
pub ok_of_ne_err {ℓ} :
    {A : Type ℓ} (m : Result A) → ((e : Error) → m ≡ err e → ⊥) → (a : A) × (m ≡ ok a)
ok_of_ne_err (ok a) h = (a, refl)
ok_of_ne_err (err e) h = absurd (h e refl)

pub Result-cases {ℓ} :
    {A : Type ℓ} (m : Result A) → ((a : A) × (m ≡ ok a)) ⊎ ((e : Error) × (m ≡ err e))
Result-cases (ok a) = inl (a, refl)
Result-cases (err e) = inr (e, refl)
