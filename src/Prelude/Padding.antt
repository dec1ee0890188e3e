-- ===== src/Prelude/Padding.antt =====
-- Slices of bytes, and bytes that are padded with zeros.
use Prim.Native.Nat.{ℕ, zero, suc, ◌+◌, ◌-◌, ◌≤◌}
use mathlib.Core.Path.{◌≡◌, refl, sym, ap, ◌∙◌}
use mathlib.Core.List.{[], ◌∷◌, ◌++◌}
use native.Mathlib.Omega.{arith}
use ofrak.Prelude.Tests.{ltb, Bool-cases}
use mathlib.Core.Logic.{inl, inr}
use ofrak.Prelude.Lists.{length, take, drop, append_nil, take-append, drop-append}
use ofrak.Prelude.Bytes.{Bytes, zeros, byte_slice, pad_to}

-- as many bytes as asked for, zeros where there are no more
abbrev pub pad_take : ℕ → Bytes → Bytes
pad_take zero xs = []
pad_take (suc n) [] = 0 ∷ pad_take n []
pad_take (suc n) (x ∷ xs) = x ∷ pad_take n xs

pub take_nil : (n : ℕ) → take {A = ℕ} n [] ≡ []
take_nil zero = refl
take_nil (suc n) = refl

drop_nil : (n : ℕ) → drop {A = ℕ} n [] ≡ []
drop_nil zero = refl
drop_nil (suc n) = refl

pad_take_nil : (n : ℕ) → pad_take n [] ≡ zeros n
pad_take_nil zero = refl
pad_take_nil (suc n) = ap (λ ys. 0 ∷ ys) (pad_take_nil n)

sub_zero : (a : ℕ) → a ≡ a - 0
sub_zero a = omega arith

pub suc_add : (a b : ℕ) → suc a + b ≡ suc (a + b)
suc_add a b = omega arith

sub_suc : (a b : ℕ) → a - b ≡ suc a - suc b
sub_suc a b = omega arith

-- Where the bytes suffice or not, zeros make up the rest.
pub pad_take_ge : (n : ℕ) (xs : Bytes) → length xs ≤ n → pad_take n xs ≡ xs ++ zeros (n - length xs)
pad_take_ge zero [] h = refl
pad_take_ge zero (x ∷ xs) h = absurd (omega arith)
pad_take_ge (suc n) [] h = pad_take_nil (suc n) ∙ ap zeros (sub_zero (suc n))
pad_take_ge (suc n) (x ∷ xs) h =
    ap (λ ys. x ∷ ys)
      (pad_take_ge n xs (omega arith) ∙ ap (λ k. xs ++ zeros k) (sub_suc n (length xs)))

pub length-take_le : (n : ℕ) (xs : Bytes) → length (take n xs) ≤ n
length-take_le zero xs = omega arith
length-take_le (suc n) [] = omega arith
length-take_le (suc n) (x ∷ xs) = omega (arith, length-take_le n xs)

pad_to_le : (n : ℕ) (xs : Bytes) → length xs ≤ n → pad_to n xs ≡ xs ++ zeros (n - length xs)
unfolding pad_to
pad_to_le n xs h = elim (Bool-cases (ltb (length xs) n)) [
  | inl e ↦ rw e refl
  | inr e ↦
      let z : 0 ≡ n - length xs = ground (arith, e, h) in
      rw e (sym (append_nil xs) ∙ ap (λ k. xs ++ zeros k) z)
]

pad_take-take : (n : ℕ) (xs : Bytes) → pad_take n (take n xs) ≡ pad_take n xs
pad_take-take zero xs = refl
pad_take-take (suc n) [] = refl
pad_take-take (suc n) (x ∷ xs) = ap (λ ys. x ∷ ys) (pad_take-take n xs)

pub pad-take : (n : ℕ) (xs : Bytes) → pad_to n (take n xs) ≡ pad_take n xs
unfolding pad_to
pad-take n xs =
    let le = length-take_le n xs in
    pad_to_le n (take n xs) le ∙ sym (pad_take_ge n (take n xs) le) ∙ pad_take-take n xs

pub pad_take-add :
    (m n : ℕ) (xs : Bytes) → pad_take (m + n) xs ≡ pad_take m xs ++ pad_take n (drop m xs)
pad_take-add zero n xs = ap (λ k. pad_take k xs) (omega arith)
pad_take-add (suc m) n [] =
    ap (λ k. pad_take k []) (suc_add m n)
    ∙ ap (λ ys. 0 ∷ ys)
        (pad_take-add m n [] ∙ ap (λ ys. pad_take m [] ++ pad_take n ys) (drop_nil m))
pad_take-add (suc m) n (x ∷ xs) =
    ap (λ k. pad_take k (x ∷ xs)) (suc_add m n) ∙ ap (λ ys. x ∷ ys) (pad_take-add m n xs)

pub drop-add : (m n : ℕ) (xs : Bytes) → drop (m + n) xs ≡ drop n (drop m xs)
drop-add zero n xs = ap (λ k. drop k xs) (omega arith)
drop-add (suc m) n [] = drop_nil (suc m + n) ∙ sym (drop_nil n)
drop-add (suc m) n (x ∷ xs) = ap (λ k. drop k (x ∷ xs)) (suc_add m n) ∙ drop-add m n xs

-- A byte_slice between two parts is what stands between them.
pub slice-middle : (p x q : Bytes) → byte_slice (p ++ (x ++ q)) (length p) (length p + length x) ≡ x
slice-middle p x q =
    ap (λ k. take k (drop (length p) (p ++ (x ++ q)))) (omega arith)
    ∙ ap (take (length x)) (drop-append p (x ++ q))
    ∙ take-append x q
