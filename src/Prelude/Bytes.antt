-- ===== src/Prelude/Bytes.antt =====
-- Python's `bytes`: lists of numbers, with slices, `find` and the conversions of integers.
use Prim.Native.Nat.{ℕ, zero, suc, ◌+◌, ◌-◌, ◌*◌, ◌/◌, ◌%◌, ◌^◌, ◌<◌, ◌≤◌, min}
use mathlib.Core.Path.{◌≡◌, refl, sym, ◌∙◌}
use mathlib.Core.Bool.{Bool, true, false, ◌&&◌}
use mathlib.Core.Option.{Option, none, some}
use mathlib.Core.List.{List, [], ◌∷◌, ◌++◌}
use native.Mathlib.Omega.{arith}
use ofrak.Prelude.Tests.{ltb, ◌==◌, if◌then◌else◌}
use ofrak.Prelude.Lists.{length, take, drop, replicate, length-append, length-replicate}
use ofrak.Prelude.Outcome.{Result, err, ok, Error}
use ofrak.Prelude.Int.{ℤ, pos, negsuc}

abbrev pub Bytes : Type 0
Bytes = List ℕ

-- `b"\x00" * n`
abbrev pub zeros : ℕ → Bytes
zeros n = replicate n 0

-- `data[i:j]` for indices that are not negative
abbrev pub byte_slice : Bytes → ℕ → ℕ → Bytes
byte_slice xs i j = take (j - i) (drop i xs)

-- An index of a byte_slice: a negative one counts from the end, and both are cut to the length.
abbrev pub slice_index : ℕ → ℤ → ℕ
slice_index n (pos i) = min i n
slice_index n (negsuc i) = n - suc i

-- `data[i:j]`
abbrev pub slice_at : Bytes → ℤ → ℤ → Bytes
slice_at xs i j = byte_slice xs (slice_index (length xs) i) (slice_index (length xs) j)

-- `a == b`
unfoldable pub bytes_eq : Bytes → Bytes → Bool
bytes_eq [] [] = true
bytes_eq [] (y ∷ ys) = false
bytes_eq (x ∷ xs) [] = false
bytes_eq (x ∷ xs) (y ∷ ys) = (x == y) && bytes_eq xs ys

unfoldable pub starts_with : Bytes → Bytes → Bool
starts_with [] ys = true
starts_with (x ∷ xs) [] = false
starts_with (x ∷ xs) (y ∷ ys) = (x == y) && starts_with xs ys

-- `data.find(key)`, `none` for -1
unfoldable pub find : Bytes → Bytes → Option ℕ
unfolding starts_with
find key [] = if starts_with key [] then some 0 else none
find key (x ∷ xs) =
    if starts_with key (x ∷ xs)
    then some 0
    else elim (find key xs) [ none ↦ none | some i ↦ some (suc i) ]

-- `data.find(key, start, end)` for a start and an end inside the data
unfoldable pub find_between : Bytes → ℕ → ℕ → Bytes → Option ℕ
find_between key start end xs = elim (find key (byte_slice xs start end)) [
  | none ↦ none
  | some i ↦ some (start + i)
]

-- `int.from_bytes(data, "big")`
unfoldable pub from_bytes_acc : ℕ → Bytes → ℕ
from_bytes_acc acc [] = acc
from_bytes_acc acc (x ∷ xs) = from_bytes_acc (acc * 256 + x) xs

unfoldable pub from_bytes : Bytes → ℕ
unfolding from_bytes_acc
from_bytes xs = from_bytes_acc 0 xs

-- The last `size` digits of a number in base 256, the lowest first, and what is left of it.
unfoldable pub digits : ℕ → ℕ → Bytes × ℕ
digits zero n = ([], n)
digits (suc size) n = let rest = digits size (n / 256) in (n % 256 ∷ rest.0, rest.1)

unfoldable pub reversed : Bytes → Bytes
reversed [] = []
reversed (x ∷ xs) = reversed xs ++ (x ∷ [])

-- `n.to_bytes(size, "big")`: a number that does not fit is an `OverflowError`.
unfoldable pub to_bytes : ℕ → ℕ → Result Bytes
unfolding digits reversed
to_bytes n size =
    let (low, rest) = digits size n in
    if rest == 0 then ok (reversed low) else err Error.overflow_error

-- bytes padded with zeros to a size
unfoldable pub pad_to : ℕ → Bytes → Bytes
pad_to size xs = if ltb (length xs) size then xs ++ zeros (size - length xs) else xs

length-snoc : (xs : Bytes) (y : ℕ) → length (xs ++ (y ∷ [])) ≡ suc (length xs)
length-snoc [] y = refl
length-snoc (x ∷ xs) y = omega (arith, length-snoc xs y)

length-reversed : (xs : Bytes) → length (reversed xs) ≡ length xs
unfolding reversed
length-reversed [] = refl
length-reversed (x ∷ xs) = ground (arith, length-reversed xs, length-snoc (reversed xs) x)

pub length-digits : (size n : ℕ) → length ((digits size n).0) ≡ size
unfolding digits
length-digits zero n = refl
length-digits (suc size) n = omega (arith, length-digits size (n / 256))

-- A conversion that returns gives as many bytes as it was asked for.
pub length-to_bytes : (n size : ℕ) (xs : Bytes) → to_bytes n size ≡ ok xs → length xs ≡ size
unfolding to_bytes
length-to_bytes n size xs e =
    ground (arith, e, length-reversed (digits size n).0, length-digits size n)

from-snoc :
    (acc : ℕ) (xs : Bytes) (y : ℕ)
    → from_bytes_acc acc (xs ++ (y ∷ [])) ≡ from_bytes_acc acc xs * 256 + y
unfolding from_bytes_acc
from-snoc acc [] y = refl
from-snoc acc (x ∷ xs) y = from-snoc (acc * 256 + x) xs y

pub from-digits :
    (size n : ℕ) → (digits size n).1 ≡ 0 → from_bytes_acc 0 (reversed ((digits size n).0)) ≡ n
unfolding digits reversed from_bytes_acc
from-digits zero n h = sym h
from-digits (suc size) n h = omega (
  arith,
  from-snoc 0 (reversed ((digits size (n / 256)).0)) (n % 256),
  from-digits size (n / 256) h,
)

-- What was converted is read back.
pub from-to_bytes : (n size : ℕ) (xs : Bytes) → to_bytes n size ≡ ok xs → from_bytes xs ≡ n
unfolding to_bytes from_bytes
from-to_bytes n size xs e = ground (arith, e, from-digits size n)

pub digits-fit : (size n : ℕ) → n < 256 ^ size → (digits size n).1 ≡ 0
unfolding digits
digits-fit zero n h = omega arith
digits-fit (suc size) n h = digits-fit size (n / 256) (omega arith)

-- A number below 256 ^ size is converted.
pub to_bytes_fits :
    (n size : ℕ) → n < 256 ^ size → (xs : Bytes) × (to_bytes n size ≡ ok xs) × (length xs ≡ size)
unfolding to_bytes
to_bytes_fits n size h = (
  reversed ((digits size n).0),
  ground (arith, digits-fit size n h),
  length-reversed (digits size n).0 ∙ length-digits size n,
)

pub length-pad : (size : ℕ) (xs : Bytes) → length xs ≤ size → length (pad_to size xs) ≡ size
unfolding pad_to
length-pad size xs h = ground (
  arith,
  length-append xs (zeros (size - length xs)),
  length-replicate {A = ℕ} (size - length xs) 0,
)

pub pad-pad : (size : ℕ) (xs : Bytes) → pad_to size (pad_to size xs) ≡ pad_to size xs
unfolding pad_to
pad-pad size xs = ground (
  arith,
  length-append xs (zeros (size - length xs)),
  length-replicate {A = ℕ} (size - length xs) 0,
)
