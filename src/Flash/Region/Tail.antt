-- ===== src/Flash/Region/Tail.antt =====
-- `_get_end_from_magic`: the loop that looks for the magic of the tail.
use ofrak.Flash.{FlashFieldType, BlockFormat, FlashAttributes, FlashEccAttributes}
use ofrak.Range.{Range}
use ofrak.Flash.Format.{get_block_size, get_field_range_in_block, get_field_data_in_block}
use ofrak.Flash.Region.{tail_end_at, search_tail, get_end_from_magic}
use ofrak.Prelude.{
  ℕ, zero, suc, ◌+◌, ◌-◌, ◌≤◌, ◌<◌, ◌≡◌, refl, subst, ap, ◌∙◌, ◌⊎◌, inl, inr, true, false,
  Bool-cases, Option-cases, none, some, [], ◌∷◌, ok, ltb, ◌==◌, leb, length, drop, take, arith,
}
use ofrak.Prelude.Int.{ℤ, pos, ◌+ℤ◌, sub_ℕ}
use ofrak.Prelude.Bytes.{Bytes, byte_slice, slice_at, bytes_eq, starts_with, find, find_between}
use ofrak.Prelude.Padding.{drop-add}

-- the key stands at an index
abbrev pub Occurs : Bytes → Bytes → ℕ → Type 0
Occurs key bytes i = starts_with key (drop i bytes) ≡ true

only_zero : (key : Bytes) (i : ℕ) → starts_with key [] ≡ false → starts_with key (drop i []) ≡ false
only_zero key zero e = e
only_zero key (suc i) e = e

later :
    (key : Bytes) (x : ℕ) (xs : Bytes) (i n : ℕ)
    → starts_with key (x ∷ xs) ≡ false
    → ((j : ℕ) → j ≤ n → starts_with key (drop j xs) ≡ false)
    → i ≤ suc n
    → starts_with key (drop i (x ∷ xs)) ≡ false
later key x xs zero n e all le = e
later key x xs (suc i) n e all le = all i (omega arith)

later_lt :
    (key : Bytes) (x : ℕ) (xs : Bytes) (i n : ℕ)
    → starts_with key (x ∷ xs) ≡ false
    → ((j : ℕ) → j < n → starts_with key (drop j xs) ≡ false)
    → i < suc n
    → starts_with key (drop i (x ∷ xs)) ≡ false
later_lt key x xs zero n e all le = e
later_lt key x xs (suc i) n e all le = all i (omega arith)

-- The first index where the key stands, if there is one.
find_cases :
    (key bytes : Bytes)
    → ((find key bytes ≡ none)
        × ((i : ℕ) → i ≤ length bytes → starts_with key (drop i bytes) ≡ false))
      ⊎ ((i : ℕ) × (find key bytes ≡ some i)
          × (i ≤ length bytes)
          × Occurs key bytes i
          × ((j : ℕ) → j < i → starts_with key (drop j bytes) ≡ false))
unfolding find
find_cases key [] = elim (Bool-cases (starts_with key [])) [
  | inl e ↦ inr (0, ground (arith, e), omega arith, e, λ j lt. absurd (omega arith))
  | inr e ↦ inl (ground (arith, e), λ i le. only_zero key i e)
]
find_cases key (x ∷ xs) = elim (Bool-cases (starts_with key (x ∷ xs))) [
  | inl e ↦ inr (0, ground (arith, e), omega arith, e, λ j lt. absurd (omega arith))
  | inr e ↦ elim (find_cases key xs) [
    | inl (w, all) ↦ inl (ground (arith, e, w), λ i le. later key x xs i (length xs) e all le)
    | inr (i, w, le, at, first) ↦ inr (
      suc i,
      ground (arith, e, w),
      omega (arith, le),
      at,
      λ j lt. later_lt key x xs j i e first lt,
    )
  ]
]

take_all : (n : ℕ) (xs : Bytes) → length xs ≤ n → take n xs ≡ xs
take_all zero [] h = refl
take_all zero (x ∷ xs) h = absurd (omega arith)
take_all (suc n) [] h = refl
take_all (suc n) (x ∷ xs) h = ap (λ ys. x ∷ ys) (take_all n xs (omega arith))

length-drop : (n : ℕ) (xs : Bytes) → length (drop n xs) ≡ length xs - n
length-drop zero xs = omega arith
length-drop (suc n) [] = omega arith
length-drop (suc n) (x ∷ xs) = omega (arith, length-drop n xs)

order_cases : (j i : ℕ) → (j < i) ⊎ ((j ≡ i) ⊎ (i < j))
order_cases j i = elim (Bool-cases (ltb j i)) [
  | inl e ↦ inl (ground (arith, e))
  | inr e ↦ elim (Bool-cases (j == i)) [
    | inl f ↦ inr (inl (ground (arith, f)))
    | inr f ↦ inr (inr (ground (arith, e, f)))
  ]
]

drop-from :
    (j offset : ℕ) (xs : Bytes) → offset ≤ j → drop j xs ≡ drop (j - offset) (drop offset xs)
drop-from j offset xs h =
    let z : j ≡ offset + (j - offset) = omega arith in
    ap (λ k. drop k xs) z ∙ drop-add offset (j - offset) xs

between_cases :
    (key bytes : Bytes) (offset : ℕ)
    → offset ≤ length bytes
    → ((find_between key offset (length bytes) bytes ≡ none)
        × ((j : ℕ) → offset ≤ j → j ≤ length bytes → starts_with key (drop j bytes) ≡ false))
      ⊎ ((i : ℕ) × (find_between key offset (length bytes) bytes ≡ some i)
          × (offset ≤ i)
          × (i ≤ length bytes)
          × Occurs key bytes i
          × ((j : ℕ) → offset ≤ j → j < i → starts_with key (drop j bytes) ≡ false))
unfolding find_between
between_cases key bytes offset h =
    let l = length-drop offset bytes in
    let whole : byte_slice bytes offset (length bytes) ≡ drop offset bytes =
      take_all (length bytes - offset) (drop offset bytes) (omega (arith, l)) in
    let searched : find_between key offset (length bytes) bytes
        ≡ elim (find key (drop offset bytes)) [ none ↦ none | some i ↦ some (offset + i) ] =
      ap (λ ys. elim (find key ys) [ none ↦ none | some i ↦ some (offset + i) ]) whole in
    elim (find_cases key (drop offset bytes)) [
      | inl (w, all) ↦ inl (
        searched ∙ rw w refl,
        λ j le bound. rw (drop-from j offset bytes le) (all (j - offset) (omega (arith, l))),
      )
      | inr (i, w, le, at, first) ↦ inr (
        offset + i,
        searched ∙ rw w refl,
        omega arith,
        omega (arith, l, le),
        rw (drop-add offset i bytes) at,
        λ j from lt. rw (drop-from j offset bytes from) (first (j - offset) (omega arith)),
      )
    ]

module _ (tail : BlockFormat) (key bytes : Bytes) where
  -- No tail ends where the magic stands from an offset on, up to a bound.
  NoTail : ℕ → ℕ → Type 0
  NoTail offset bound =
      (j : ℕ) → offset ≤ j → j < bound → Occurs key bytes j → tail_end_at tail key bytes j ≡ none

  -- the first occurrence of the magic that a tail fits, or that there is none
  pub Searched : ℕ → ℤ → Type 0
  Searched offset end =
      ((i : ℕ) × (offset ≤ i)
        × Occurs key bytes i
        × (tail_end_at tail key bytes i ≡ some end)
        × NoTail offset i)
      ⊎ ((end ≡ pos (length bytes)) × NoTail offset (suc (length bytes)))

  NoTail-before :
      (offset i bound : ℕ)
      → ((j : ℕ) → offset ≤ j → j < i → starts_with key (drop j bytes) ≡ false)
      → tail_end_at tail key bytes i ≡ none
      → NoTail (i + 1) bound
      → NoTail offset bound
  unfolding NoTail
  NoTail-before offset i bound first z after j le lt o = elim (order_cases j i) [
    | inl below ↦ let f = first j le below in cc
    | inr (inl same) ↦ rw same z
    | inr (inr above) ↦ after j (omega (arith, above)) lt o
  ]

  Searched-before :
      (offset i : ℕ) (end : ℤ)
      → offset ≤ i
      → ((j : ℕ) → offset ≤ j → j < i → starts_with key (drop j bytes) ≡ false)
      → tail_end_at tail key bytes i ≡ none
      → Searched (i + 1) end
      → Searched offset end
  unfolding Searched
  Searched-before offset i end from first z (inl (k, le, at, w, none_at)) =
      inl (k, omega (arith, le), at, w, NoTail-before offset i k first z none_at)
  Searched-before offset i end from first z (inr (w, none_at)) =
      inr (w, NoTail-before offset i (suc (length bytes)) first z none_at)

  search_tail_lem :
      (fuel offset : ℕ)
      → suc (length bytes) ≤ offset + fuel
      → (end : ℤ) × (search_tail fuel tail key bytes offset ≡ ok end) × Searched offset end
  unfolding search_tail Searched NoTail
  search_tail_lem zero offset h =
      (pos (length bytes), ground arith, inr (refl, λ j le lt o. absurd (omega arith)))
  search_tail_lem (suc fuel) offset h = elim (Bool-cases (leb offset (length bytes))) [
    | inr e ↦
        (pos (length bytes), rw e refl, inr (refl, λ j le lt o. absurd (ground (arith, e, le, lt))))
    | inl e ↦ elim (between_cases key bytes offset (ground (arith, e))) [
      | inl (w, all) ↦ (
        pos (length bytes),
        rw (e, w) refl,
        inr (refl, λ j le lt o. let f = all j le (omega arith) in cc),
      )
      | inr (i, w, from, le, at, first) ↦ elim (Option-cases (tail_end_at tail key bytes i)) [
        | inr (end, z) ↦ (
          end,
          rw (e, w, z) refl,
          inl (i, from, at, z, λ j le' lt o. let f = first j le' lt in cc),
        )
        | inl z ↦
            let (end, w', s) = search_tail_lem fuel (i + 1) (omega arith) in
            (end, rw (e, w, z) w', Searched-before offset i end from first z s)
      ]
    ]
  ]

-- A tail whose magic field stands at a place, from its start on, holds the magic there, and ends so
-- many bytes behind its start as it has.
abbrev pub TailAt : BlockFormat → Bytes → Bytes → ℕ → ℤ → Type 0
TailAt tail key bytes i end =
    (r : Range) × (get_field_range_in_block (some tail) FlashFieldType.field_magic ≡ some r)
    × (slice_at bytes (sub_ℕ i r.start +ℤ pos r.start) (sub_ℕ i r.start +ℤ pos r.end) ≡ key)
    × (end ≡ sub_ℕ i r.start +ℤ pos (get_block_size (some tail)))

bytes_eq_refl : (xs : Bytes) → bytes_eq xs xs ≡ true
unfolding bytes_eq
bytes_eq_refl [] = refl
bytes_eq_refl (x ∷ xs) = ground (arith, bytes_eq_refl xs)

bytes_eq→same : (xs ys : Bytes) → bytes_eq xs ys ≡ true → xs ≡ ys
unfolding bytes_eq
bytes_eq→same [] [] e = refl
bytes_eq→same [] (y ∷ ys) e = absurd cc
bytes_eq→same (x ∷ xs) [] e = absurd cc
bytes_eq→same (x ∷ xs) (y ∷ ys) e =
    let head : x ≡ y = ground (arith, e) in
    let tail = bytes_eq→same xs ys (ground (arith, e)) in cc (head, tail)

other_bytes :
    (tail : BlockFormat) (key bytes : Bytes) (i : ℕ) (r : Range)
    → get_field_range_in_block (some tail) FlashFieldType.field_magic ≡ some r
    → bytes_eq (slice_at bytes (sub_ℕ i r.start +ℤ pos r.start) (sub_ℕ i r.start +ℤ pos r.end)) key
      ≡ false
    → (end : ℤ) → TailAt tail key bytes i end
    → ⊥
other_bytes tail key bytes i r e other end (q, f, same, _) =
    let read = λ (k : Range).
      slice_at bytes (sub_ℕ i k.start +ℤ pos k.start) (sub_ℕ i k.start +ℤ pos k.end) in
    let z : q ≡ r = cc (e, f) in
    let equal : bytes_eq (read q) key ≡ true =
      subst (λ k. bytes_eq (read q) k ≡ true) same (bytes_eq_refl (read q)) in
    let equal' = subst (λ k. bytes_eq (read k) key ≡ true) z equal in cc (equal', other)

data_read :
    (tail : BlockFormat) (bytes : Bytes) (start : ℤ) (r : Range)
    → get_field_range_in_block (some tail) FlashFieldType.field_magic ≡ some r
    → get_field_data_in_block (some tail) FlashFieldType.field_magic bytes start
      ≡ some (slice_at bytes (start +ℤ pos r.start) (start +ℤ pos r.end))
unfolding get_field_data_in_block
data_read tail bytes start r e = rw (e, get_field_data_in_block) refl

tail_end_at_cases :
    (tail : BlockFormat) (key bytes : Bytes) (i : ℕ)
    → ((tail_end_at tail key bytes i ≡ none) × ((end : ℤ) → TailAt tail key bytes i end → ⊥))
      ⊎ ((end : ℤ) × (tail_end_at tail key bytes i ≡ some end) × TailAt tail key bytes i end)
unfolding tail_end_at
tail_end_at_cases tail key bytes i =
    elim (Option-cases (get_field_range_in_block (some tail) FlashFieldType.field_magic)) [
      | inl e ↦ inl (rw (e, tail_end_at) refl, λ end h. let (r, f, _, _) = h in absurd (cc (e, f)))
      | inr (r, e) ↦
          let read =
            slice_at bytes (sub_ℕ i r.start +ℤ pos r.start) (sub_ℕ i r.start +ℤ pos r.end) in
          elim (Bool-cases (bytes_eq read key)) [
            | inl same ↦ inr (
              sub_ℕ i r.start +ℤ pos (get_block_size (some tail)),
              rw (e, data_read tail bytes (sub_ℕ i r.start) r e, tail_end_at, same) refl,
              (r, e, bytes_eq→same read key same, refl),
            )
            | inr other ↦ inl (
              rw (e, data_read tail bytes (sub_ℕ i r.start) r e, tail_end_at, other) refl,
              other_bytes tail key bytes i r e other,
            )
          ]
    ]

no_tail :
    (tail : BlockFormat) (key bytes : Bytes) (i : ℕ) (end : ℤ)
    → tail_end_at tail key bytes i ≡ none
    → TailAt tail key bytes i end
    → ⊥
no_tail tail key bytes i end z at = elim (tail_end_at_cases tail key bytes i) [
  | inl (_, never) ↦ never end at
  | inr (e, z', _) ↦ cc (z, z')
]

some_tail :
    (tail : BlockFormat) (key bytes : Bytes) (i : ℕ) (end : ℤ)
    → tail_end_at tail key bytes i ≡ some end
    → TailAt tail key bytes i end
some_tail tail key bytes i end z = elim (tail_end_at_cases tail key bytes i) [
  | inl (z', _) ↦ absurd (cc (z, z'))
  | inr (e, z', at) ↦ let same : e ≡ end = cc (z, z') in subst (TailAt tail key bytes i) same at
]

get_end_from_magic_lem :
    (attrs : FlashAttributes) (tail : BlockFormat) (ecc_attr : FlashEccAttributes)
    (key bytes : Bytes) (offset : ℕ)
    → attrs.tail_block_format ≡ some tail
    → attrs.ecc_attributes ≡ some ecc_attr
    → ecc_attr.ecc_magic ≡ some key
    → (end : ℤ) × (get_end_from_magic attrs (pos offset) bytes ≡ ok end)
      × (((i : ℕ) × (offset ≤ i)
            × Occurs key bytes i
            × (tail_end_at tail key bytes i ≡ some end)
            × ((j : ℕ)
                → offset ≤ j
                → j < i
                → Occurs key bytes j
                → tail_end_at tail key bytes j ≡ none))
          ⊎ ((end ≡ pos (length bytes))
              × ((j : ℕ)
                  → offset ≤ j
                  → j < suc (length bytes)
                  → Occurs key bytes j
                  → tail_end_at tail key bytes j ≡ none)))
unfolding get_end_from_magic Searched NoTail
get_end_from_magic_lem attrs tail ecc_attr key bytes offset ht he hk =
    let (end, w, s) = search_tail_lem tail key bytes (length bytes + 1) offset (omega arith) in
    (end, ground (arith, ht, he, hk, w), s)

-- For a tail with a known magic the search ends. It finds the first place, from the given offset on,
-- where the magic stands and a tail whose magic field is there holds it, and returns where that tail
-- ends: the size of the block behind its start. With no such place it returns the length of the data.
pub get_end_from_magic_exact :
    (attrs : FlashAttributes) (tail : BlockFormat) (ecc_attr : FlashEccAttributes)
    (key bytes : Bytes) (offset : ℕ)
    → attrs.tail_block_format ≡ some tail
    → attrs.ecc_attributes ≡ some ecc_attr
    → ecc_attr.ecc_magic ≡ some key
    → (end : ℤ) × (get_end_from_magic attrs (pos offset) bytes ≡ ok end)
      × (((i : ℕ) × (offset ≤ i)
            × Occurs key bytes i
            × TailAt tail key bytes i end
            × ((j : ℕ) (e : ℤ)
                → offset ≤ j
                → j < i
                → Occurs key bytes j
                → TailAt tail key bytes j e
                → ⊥))
          ⊎ ((end ≡ pos (length bytes))
              × ((j : ℕ) (e : ℤ)
                  → offset ≤ j
                  → j < suc (length bytes)
                  → Occurs key bytes j
                  → TailAt tail key bytes j e
                  → ⊥)))
get_end_from_magic_exact attrs tail ecc_attr key bytes offset ht he hk =
    let (end, w, found) = get_end_from_magic_lem attrs tail ecc_attr key bytes offset ht he hk in
    (
      end,
      w,
      elim found [
        | inl (i, from, at, z, before) ↦ inl (
          i,
          from,
          at,
          some_tail tail key bytes i end z,
          λ j e le lt o. no_tail tail key bytes j e (before j le lt o),
        )
        | inr (w', before) ↦ inr (w', λ j e le lt o. no_tail tail key bytes j e (before j le lt o))
      ],
    )
