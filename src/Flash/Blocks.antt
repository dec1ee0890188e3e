-- ===== src/Flash/Blocks.antt =====
-- ofrak_core/ofrak/core/flash.py: how many blocks `FlashAttributes` makes of some data, their
-- order, and the totals over them.
pub mod Count
pub mod Totals
use ofrak.Flash.{FlashFieldType, BlockFormat, FlashAttributes, same_object, fields_eq}
use ofrak.Flash.Format.{
  get_block_formats, get_block_size, get_field_length_in_block, get_oob_size_in_block,
}
use ofrak.Prelude.{
  ℕ, zero, suc, ◌+◌, ◌*◌, Bool, some, List, [], ◌∷◌, Result, ok, err, Error, ◌>>=◌, ltb,
  if◌then◌else◌,
}

-- what a block counts for: all its bytes, or its data
unfoldable pub block_data_len : Bool → BlockFormat → ℕ
block_data_len includes_oob c =
    if includes_oob
    then get_block_size (some c)
    else get_field_length_in_block (some c) FlashFieldType.field_data

-- the blocks that are not data blocks, compared by their fields
unfoldable pub count_others : FlashAttributes → Bool → List BlockFormat → ℕ
count_others attrs includes_oob [] = 0
count_others attrs includes_oob (c ∷ cs) =
    (if fields_eq c.fields attrs.data_block_format.fields then 0 else block_data_len includes_oob c)
    + count_others attrs includes_oob cs

-- `while data_count < data_len`, which counts its rounds
unfoldable pub count_blocks : ℕ → ℕ → ℕ → ℕ → Result ℕ
count_blocks zero len data_len data_count =
    if ltb data_count data_len then err Error.out_of_fuel else ok 0
count_blocks (suc fuel) len data_len data_count =
    let rest = count_blocks fuel len data_len (data_count + len) in
    if ltb data_count data_len then (do n ← rest; ok (suc n)) else ok 0

unfoldable pub get_num_data_blocks : FlashAttributes → ℕ → Bool → Result ℕ
get_num_data_blocks attrs data_len includes_oob =
    count_blocks data_len (block_data_len includes_oob attrs.data_block_format) data_len
      (count_others attrs includes_oob (get_block_formats attrs))

-- A generator of blocks: it ends, is caught in an error, or gives a block.
pub data Generator : Type 0 where
  finished : Generator
  stuck : Error → Generator
  yields : BlockFormat → Generator → Generator

unfoldable pub yield_times : ℕ → BlockFormat → Generator → Generator
yield_times zero c after = after
yield_times (suc n) c after = yields c (yield_times n c after)

unfoldable pub iterate_formats : FlashAttributes → ℕ → Bool → List BlockFormat → Generator
iterate_formats attrs data_len includes_oob [] = finished
iterate_formats attrs data_len includes_oob (c ∷ cs) =
    let after = iterate_formats attrs data_len includes_oob cs in
    if same_object c attrs.data_block_format
    then elim (get_num_data_blocks attrs data_len includes_oob) [
      | err e ↦ stuck e
      | ok n ↦ yield_times n c after
    ]
    else yields c after

unfoldable pub iterate_through_all_blocks : FlashAttributes → ℕ → Bool → Generator
iterate_through_all_blocks attrs data_len includes_oob =
    iterate_formats attrs data_len includes_oob (get_block_formats attrs)

-- a loop over the formats that adds a size of each, times its number of blocks
unfoldable pub total_over :
    FlashAttributes → ℕ → Bool → (BlockFormat → ℕ) → List BlockFormat → Result ℕ
total_over attrs data_len includes_oob size_of [] = ok 0
total_over attrs data_len includes_oob size_of (c ∷ cs) = do
  num_blocks ←
      if same_object c attrs.data_block_format
      then get_num_data_blocks attrs data_len includes_oob
      else ok 1
  rest ← total_over attrs data_len includes_oob size_of cs
  ok (size_of c * num_blocks + rest)

unfoldable pub get_total_oob_size : FlashAttributes → ℕ → Bool → Result ℕ
get_total_oob_size attrs data_len includes_oob =
    total_over attrs data_len includes_oob (λ c. get_oob_size_in_block (some c))
      (get_block_formats attrs)

unfoldable pub get_total_field_size : FlashAttributes → ℕ → FlashFieldType → Bool → Result ℕ
get_total_field_size attrs data_len t includes_oob =
    total_over attrs data_len includes_oob (λ c. get_field_length_in_block (some c) t)
      (get_block_formats attrs)
