-- ===== src/Flash/Blocks/Count.antt =====
-- How many data blocks there are, and when the loop that counts them ends.
use ofrak.Flash.{FlashFieldType, BlockFormat, FlashAttributes, fields_eq}
use ofrak.Flash.Format.{get_block_formats, get_block_size, get_field_length_in_block}
use ofrak.Flash.Blocks.{block_data_len, count_others, count_blocks, get_num_data_blocks}
use ofrak.Prelude.{
  ℕ, zero, suc, ◌+◌, ◌*◌, ◌≤◌, ◌<◌, ◌≡◌, refl, some, List, [], ◌∷◌, if◌then◌else◌, inl, inr, Bool,
  ok, err, Error, arith, ltb, Bool-cases,
}

least_suc :
    (k len data_len data_count n : ℕ)
    → data_count < data_len
    → ((j : ℕ) → data_len ≤ data_count + len + j * len → n ≤ j)
    → data_len ≤ data_count + k * len
    → suc n ≤ k
least_suc zero len data_len data_count n lt least q = omega arith
least_suc (suc j) len data_len data_count n lt least q = omega (arith, least j (omega arith))

-- Enough rounds give the least number of blocks that hold the data.
pub count_blocks_lem :
    (fuel len data_len data_count : ℕ)
    → 0 < len
    → data_len ≤ data_count + fuel
    → (n : ℕ) × (count_blocks fuel len data_len data_count ≡ ok n)
      × (data_len ≤ data_count + n * len)
      × ((k : ℕ) → data_len ≤ data_count + k * len → n ≤ k)
unfolding count_blocks
count_blocks_lem zero len data_len data_count p h =
    (0, ground arith, omega arith, λ k q. omega arith)
count_blocks_lem (suc fuel) len data_len data_count p h =
    elim (Bool-cases (ltb data_count data_len)) [
      | inl e ↦
          let (n, x, y, least) =
            count_blocks_lem fuel len data_len (data_count + len) p (omega arith) in
          (
            suc n,
            ground (arith, e, x),
            grind arith,
            λ k. least_suc k len data_len data_count n (ground (arith, e)) least,
          )
      | inr e ↦ (0, ground (arith, e), ground arith, λ k q. omega arith)
    ]

count_blocks_diverges :
    (fuel data_len data_count : ℕ)
    → data_count < data_len
    → count_blocks fuel 0 data_len data_count ≡ err Error.out_of_fuel
unfolding count_blocks
count_blocks_diverges zero data_len data_count h = ground arith
count_blocks_diverges (suc fuel) data_len data_count h =
    ground (arith, count_blocks_diverges fuel data_len data_count h)

-- what a block holds of the data: its data field, or all of it where the data includes OOB bytes
abbrev pub held : Bool → BlockFormat → ℕ
held includes_oob c =
    if includes_oob
    then get_block_size (some c)
    else get_field_length_in_block (some c) FlashFieldType.field_data

-- what the blocks hold whose fields are not those of the data block
abbrev pub held_by_others : FlashAttributes → Bool → List BlockFormat → ℕ
held_by_others attrs includes_oob [] = 0
held_by_others attrs includes_oob (c ∷ cs) =
    let rest = held_by_others attrs includes_oob cs in
    if fields_eq c.fields attrs.data_block_format.fields then rest else held includes_oob c + rest

held_lem :
    (includes_oob : Bool) (c : BlockFormat) → block_data_len includes_oob c ≡ held includes_oob c
unfolding block_data_len
held_lem includes_oob c = refl

others_lem :
    (attrs : FlashAttributes) (includes_oob : Bool) (cs : List BlockFormat)
    → count_others attrs includes_oob cs ≡ held_by_others attrs includes_oob cs
unfolding count_others
others_lem attrs includes_oob [] = refl
others_lem attrs includes_oob (c ∷ cs) =
    let rest = others_lem attrs includes_oob cs in
    let here = held_lem includes_oob c in
    elim (Bool-cases (fields_eq c.fields attrs.data_block_format.fields)) [
      | inl e ↦ rw e (omega (arith, rest))
      | inr e ↦ rw e (omega (arith, rest, here))
    ]

-- How many rounds the loop makes, in the terms of the code.
pub num_data_blocks_lem :
    (attrs : FlashAttributes) (data_len : ℕ) (includes_oob : Bool)
    → (0 < block_data_len includes_oob attrs.data_block_format
        → (n : ℕ) × (get_num_data_blocks attrs data_len includes_oob ≡ ok n)
          × (data_len
              ≤ count_others attrs includes_oob (get_block_formats attrs)
                + n * block_data_len includes_oob attrs.data_block_format)
          × ((k : ℕ)
              → data_len
                ≤ count_others attrs includes_oob (get_block_formats attrs)
                  + k * block_data_len includes_oob attrs.data_block_format
              → n ≤ k))
      × (block_data_len includes_oob attrs.data_block_format ≡ 0
          → count_others attrs includes_oob (get_block_formats attrs) < data_len
          → (rounds : ℕ)
          → count_blocks rounds
              (block_data_len includes_oob attrs.data_block_format)
              data_len
              (count_others attrs includes_oob (get_block_formats attrs))
            ≡ err Error.out_of_fuel)
unfolding get_num_data_blocks
num_data_blocks_lem attrs data_len includes_oob =
    let others = count_others attrs includes_oob (get_block_formats attrs) in
    (
      λ p.
          count_blocks_lem data_len (block_data_len includes_oob attrs.data_block_format) data_len
            others p (omega arith),
      λ e h rounds. rw e (count_blocks_diverges rounds data_len others h),
    )

-- Where a data block holds something, the loop ends with the least number of data blocks that hold,
-- with the blocks of the format whose fields are not those of the data block, `data_len` bytes: of
-- each block its data field, or all its bytes where the data includes OOB bytes. Where a data block
-- holds nothing and the other blocks do not hold the data, the loop goes on through any number of
-- rounds.
pub get_num_data_blocks_exact :
    (attrs : FlashAttributes) (data_len : ℕ) (includes_oob : Bool)
    → (0 < held includes_oob attrs.data_block_format
        → (n : ℕ) × (get_num_data_blocks attrs data_len includes_oob ≡ ok n)
          × (data_len
              ≤ held_by_others attrs includes_oob (get_block_formats attrs)
                + n * held includes_oob attrs.data_block_format)
          × ((k : ℕ)
              → data_len
                ≤ held_by_others attrs includes_oob (get_block_formats attrs)
                  + k * held includes_oob attrs.data_block_format
              → n ≤ k))
      × (held includes_oob attrs.data_block_format ≡ 0
          → held_by_others attrs includes_oob (get_block_formats attrs) < data_len
          → (rounds : ℕ)
          → count_blocks rounds
              (held includes_oob attrs.data_block_format)
              data_len
              (held_by_others attrs includes_oob (get_block_formats attrs))
            ≡ err Error.out_of_fuel)
unfolding block_data_len
get_num_data_blocks_exact attrs data_len includes_oob =
    rw (← others_lem attrs includes_oob (get_block_formats attrs))
      (num_data_blocks_lem attrs data_len includes_oob)
