-- ===== src/Flash/Blocks/Totals.antt =====
-- Sums over the blocks that are iterated, against the totals and the number of data blocks.
use ofrak.Range.{range_length}
use ofrak.Flash.{FlashFieldType, FlashAttributes, BlockFormat, same_object, fields_eq}
use ofrak.Flash.Format.{
  get_block_formats, sum_sizes, field_range_from, get_field_range_in_block, get_block_size,
  get_field_length_in_block,
}
use ofrak.Flash.Blocks.{
  Generator, finished, stuck, yields, yield_times, block_data_len, count_others,
  get_num_data_blocks, iterate_formats, total_over,
}
use ofrak.Prelude.{
  ℕ, zero, suc, ◌+◌, ◌*◌, ◌≡◌, refl, inl, inr, Bool, true, false, some, List, [], ◌∷◌, ok, arith,
  All, count, Bool-cases, ap, ◌∙◌, none,
}

-- A generator that ends, with a property of each of its blocks.
abbrev pub GenAll : (BlockFormat → Type 0) → Generator → Type 0
GenAll P finished = Unit
GenAll P (stuck e) = ⊥
GenAll P (yields c g) = P c × GenAll P g

-- a size, summed over the blocks
abbrev pub gen_sum : (BlockFormat → ℕ) → Generator → ℕ
gen_sum size_of finished = 0
gen_sum size_of (stuck e) = 0
gen_sum size_of (yields c g) = size_of c + gen_sum size_of g

-- The data format stands once among the formats, and the others have other fields.
pub record Distinct (attrs : FlashAttributes) : Type 0 where
  pub once : count (λ c. same_object c attrs.data_block_format) (get_block_formats attrs) ≡ 1
  pub by_fields :
      All
        (λ c.
          fields_eq c.fields attrs.data_block_format.fields ≡ same_object c attrs.data_block_format)
        (get_block_formats attrs)
  pub coherent :
      All
        (λ c.
          same_object c attrs.data_block_format ≡ true → c.fields ≡ attrs.data_block_format.fields)
        (get_block_formats attrs)

sum-times :
    (size_of : BlockFormat → ℕ) (n : ℕ) (c : BlockFormat) (g : Generator)
    → gen_sum size_of (yield_times n c g) ≡ size_of c * n + gen_sum size_of g
unfolding yield_times
sum-times size_of zero c g = omega arith
sum-times size_of (suc n) c g = grind (arith, sum-times size_of n c g)

module _ (P : BlockFormat → Type 0) where
  GenAll-times :
      (n : ℕ) (c : BlockFormat) (g : Generator) → P c → GenAll P g → GenAll P (yield_times n c g)
  unfolding yield_times
  GenAll-times zero c g h k = k
  GenAll-times (suc n) c g h k = (h, GenAll-times n c g h k)

block_data_len_eq :
    (oob : Bool) (c d : BlockFormat)
    → c.fields ≡ d.fields
    → block_data_len oob c ≡ block_data_len oob d
unfolding block_data_len get_block_size get_field_length_in_block get_field_range_in_block
block_data_len_eq true c d e = ap sum_sizes e
block_data_len_eq false c d e =
    ap
      (λ fs. elim (field_range_from FlashFieldType.field_data 0 fs) [
        | none ↦ 0
        | some r ↦ range_length r
      ])
      e

module _ (attrs : FlashAttributes) (data_len : ℕ) (oob : Bool) (n : ℕ)
    (num : get_num_data_blocks attrs data_len oob ≡ ok n) where
  pub iterate-GenAll :
      (P : BlockFormat → Type 0) (cs : List BlockFormat)
      → All P cs
      → GenAll P (iterate_formats attrs data_len oob cs)
  unfolding iterate_formats
  iterate-GenAll P [] h = tt
  iterate-GenAll P (c ∷ cs) h = elim (Bool-cases (same_object c attrs.data_block_format)) [
    | inl e ↦
        rw (e, num)
          (GenAll-times P n c (iterate_formats attrs data_len oob cs) h.0 (iterate-GenAll P cs h.1))
    | inr e ↦ rw e (h.0, iterate-GenAll P cs h.1)
  ]

  -- The totals are the sums over the blocks.
  pub total_over_lem :
      (size_of : BlockFormat → ℕ) (cs : List BlockFormat)
      → total_over attrs data_len oob size_of cs
        ≡ ok (gen_sum size_of (iterate_formats attrs data_len oob cs))
  unfolding total_over iterate_formats
  total_over_lem size_of [] = refl
  total_over_lem size_of (c ∷ cs) = ground (
    arith,
    num,
    total_over_lem size_of cs,
    sum-times size_of n c (iterate_formats attrs data_len oob cs),
  )

  pub sum_by_count :
      (includes_oob : Bool) (cs : List BlockFormat)
      → All
          (λ c.
            fields_eq c.fields attrs.data_block_format.fields
            ≡ same_object c attrs.data_block_format)
          cs
      → All
          (λ c.
            same_object c attrs.data_block_format ≡ true
            → c.fields ≡ attrs.data_block_format.fields)
          cs
      → gen_sum (block_data_len includes_oob) (iterate_formats attrs data_len oob cs)
        ≡ count_others attrs includes_oob cs
          + count (λ c. same_object c attrs.data_block_format) cs
            * (n * block_data_len includes_oob attrs.data_block_format)
  unfolding iterate_formats count_others
  sum_by_count includes_oob [] h k = omega arith
  sum_by_count includes_oob (c ∷ cs) h k =
      elim (Bool-cases (same_object c attrs.data_block_format)) [
        | inl e ↦
            let same = k.0 e in
            let t =
              sum-times (block_data_len includes_oob) n c (iterate_formats attrs data_len oob cs) in
            rw
              (
                e,
                num,
                t,
                h.0 ∙ e,
                sum_by_count includes_oob cs h.1 k.1,
                block_data_len_eq includes_oob c attrs.data_block_format same,
              )
              (grind arith)
        | inr e ↦ ground (arith, e, h.0, sum_by_count includes_oob cs h.1 k.1)
      ]

-- The blocks depend on the data only through the number of data blocks.
pub iterate_formats_eq :
    (attrs : FlashAttributes) (l m : ℕ) (a b : Bool) (cs : List BlockFormat)
    → get_num_data_blocks attrs l a ≡ get_num_data_blocks attrs m b
    → iterate_formats attrs l a cs ≡ iterate_formats attrs m b cs
unfolding iterate_formats
iterate_formats_eq attrs l m a b [] e = refl
iterate_formats_eq attrs l m a b (c ∷ cs) e =
    ground (arith, e, iterate_formats_eq attrs l m a b cs e)
