-- ===== src/Flash/Format.antt =====
-- ofrak_core/ofrak/core/flash.py: what `FlashAttributes` says about one block.
pub mod Sizes
use ofrak.Flash.{FlashFieldType, FlashField, BlockFormat, FlashAttributes, same_type}
use ofrak.Prelude.{ℕ, ◌+◌, ◌-◌, Option, none, some, List, [], ◌∷◌, ◌++◌, if◌then◌else◌}
use ofrak.Prelude.Int.{ℤ, pos, ◌+ℤ◌}
use ofrak.Prelude.Bytes.{Bytes, slice_at}
use ofrak.Range.{Range, range_length}

-- an item that is `None` or empty is left out
unfoldable pub given_format : Option BlockFormat → List BlockFormat
given_format none = []
given_format (some c) = elim c.fields [ [] ↦ [] | (_ ∷ _) ↦ c ∷ [] ]

unfoldable pub get_block_formats : FlashAttributes → List BlockFormat
unfolding given_format
get_block_formats attrs =
    given_format attrs.header_block_format
    ++ given_format attrs.first_data_block_format
    ++ given_format (some attrs.data_block_format)
    ++ given_format attrs.last_data_block_format
    ++ given_format attrs.tail_block_format

unfoldable pub sum_sizes : List FlashField → ℕ
sum_sizes [] = 0
sum_sizes (f ∷ fs) = f.size + sum_sizes fs

unfoldable pub get_block_size : Option BlockFormat → ℕ
unfolding sum_sizes
get_block_size none = 0
get_block_size (some c) = sum_sizes c.fields

unfoldable pub find_field : FlashFieldType → List FlashField → Option FlashField
find_field t [] = none
find_field t (f ∷ fs) = if same_type f.field_type t then some f else find_field t fs

unfoldable pub get_field_in_block : Option BlockFormat → FlashFieldType → Option FlashField
unfolding find_field
get_field_in_block none t = none
get_field_in_block (some c) t = find_field t c.fields

unfoldable pub field_range_from : FlashFieldType → ℕ → List FlashField → Option Range
field_range_from t offset [] = none
field_range_from t offset (f ∷ fs) =
    if same_type f.field_type t
    then some (record { start = offset; end = offset + f.size })
    else field_range_from t (offset + f.size) fs

unfoldable pub get_field_range_in_block : Option BlockFormat → FlashFieldType → Option Range
unfolding field_range_from
get_field_range_in_block none t = none
get_field_range_in_block (some c) t = field_range_from t 0 c.fields

unfoldable pub get_field_length_in_block : Option BlockFormat → FlashFieldType → ℕ
unfolding get_field_range_in_block range_length
get_field_length_in_block none t = 0
get_field_length_in_block (some c) t = elim (get_field_range_in_block (some c) t) [
  | none ↦ 0
  | some r ↦ range_length r
]

unfoldable pub get_oob_size_in_block : Option BlockFormat → ℕ
unfolding get_block_size get_field_length_in_block
get_oob_size_in_block none = 0
get_oob_size_in_block (some c) =
    get_block_size (some c) - get_field_length_in_block (some c) FlashFieldType.field_data

unfoldable pub get_field_data_in_block :
    Option BlockFormat → FlashFieldType → Bytes → ℤ → Option Bytes
unfolding get_field_range_in_block
get_field_data_in_block format t bytes block_start_offset =
    elim (get_field_range_in_block format t) [
      | none ↦ none
      | some r ↦
          some
            (slice_at bytes (block_start_offset +ℤ pos r.start) (block_start_offset +ℤ pos r.end))
    ]
