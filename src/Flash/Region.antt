-- ===== src/Flash/Region.antt =====
-- ofrak_core/ofrak/core/flash.py: `FlashResourceUnpacker.unpack`, which finds where the region with
-- OOB data starts and ends.
pub mod Tail
use ofrak.Flash.{FlashFieldType, BlockFormat, FlashEccAttributes, FlashAttributes, same_type}
use ofrak.Flash.Format.{
  get_block_size, get_field_in_block, get_field_range_in_block, get_field_length_in_block,
  get_field_data_in_block,
}
use ofrak.Flash.Blocks.{
  Generator, finished, stuck, yields, iterate_through_all_blocks, get_total_oob_size,
}
use ofrak.Prelude.{
  ℕ, zero, suc, ◌+◌, ◌-◌, Bool, true, false, not, ◌&&◌, ◌||◌, ◌==◌, leb, ltb, Option, none, some,
  [], ◌∷◌, Result, ok, err, Error, ◌>>=◌, if◌then◌else◌, length,
}
use ofrak.Prelude.Int.{ℤ, pos, negsuc, ◌+ℤ◌, sub_ℕ, leb_ℤ, minus_offset}
use ofrak.Prelude.Bytes.{Bytes, bytes_eq, find, find_between, from_bytes}

-- `x is not None`
abbrev pub present {ℓ} : {A : Type ℓ} → Option A → Bool
present none = false
present (some x) = true

-- `Range(start, end)` of a child, which may start below zero
pub record Region : Type 0 where
  pub start : ℤ
  pub end : ℤ

unfoldable pub mk_region : ℤ → ℤ → Result Region
mk_region start end =
    if leb_ℤ start end then ok (record { start = start; end = end }) else err Error.value_error

-- does the magic stand in the tail that a find at `found` points to?
unfoldable pub tail_end_at : BlockFormat → Bytes → Bytes → ℕ → Option ℤ
unfolding get_field_range_in_block get_field_data_in_block get_block_size
tail_end_at tail key bytes found =
    elim (get_field_range_in_block (some tail) FlashFieldType.field_magic) [
      | none ↦ none
      | some r ↦
          let start = sub_ℕ found r.start in
          elim (get_field_data_in_block (some tail) FlashFieldType.field_magic bytes start) [
            | none ↦ none
            | some read ↦
                if bytes_eq read key then some (start +ℤ pos (get_block_size (some tail))) else none
          ]
    ]

-- `while 0 <= search_offset <= data_len`: each round searches further on
unfoldable pub search_tail : ℕ → BlockFormat → Bytes → Bytes → ℕ → Result ℤ
search_tail zero tail key bytes offset =
    if leb offset (length bytes) then err Error.out_of_fuel else ok (pos (length bytes))
search_tail (suc fuel) tail key bytes offset =
    if leb offset (length bytes)
    then elim (find_between key offset (length bytes) bytes) [
      | none ↦ ok (pos (length bytes))
      | some found ↦
          let next = search_tail fuel tail key bytes (found + 1) in
          elim (tail_end_at tail key bytes found) [ some end ↦ ok end | none ↦ next ]
    ]
    else ok (pos (length bytes))

-- `_get_end_from_magic`
unfoldable pub get_end_from_magic : FlashAttributes → ℤ → Bytes → Result ℤ
get_end_from_magic attrs start_index bytes = elim attrs.tail_block_format [
  | none ↦ err Error.unpacker_error
  | some tail ↦ elim attrs.ecc_attributes [
    | none ↦ err Error.unpacker_error
    | some ecc_attr ↦ elim ecc_attr.ecc_magic [
      | none ↦ err Error.unpacker_error
      | some key ↦ elim start_index [
        | negsuc n ↦ ok (pos (length bytes))
        | pos n ↦ search_tail (length bytes + 1) tail key bytes n
      ]
    ]
  ]
]

-- does the block at an offset, read as the tail, hold the size that it should?
unfoldable pub size_matches : BlockFormat → ℕ → ℕ → ℕ → Bool
unfolding get_field_in_block
size_matches tail read end_rel_offset total_data_size =
    (present (get_field_in_block (some tail) FlashFieldType.field_total_size)
      && read == end_rel_offset)
    || (present (get_field_in_block (some tail) FlashFieldType.field_data_size)
        && read == total_data_size)

-- the loop of `_get_end_from_size`; `walked` is `cur_offset - start_index`
unfoldable pub search_size : BlockFormat → FlashFieldType → ℤ → Bytes → Generator → ℕ → ℕ → Result ℤ
unfolding get_block_size get_field_data_in_block get_field_length_in_block size_matches from_bytes
search_size tail t start_index bytes finished walked total_data_size = ok (pos (length bytes))
search_size tail t start_index bytes (stuck e) walked total_data_size = err e
search_size tail t start_index bytes (yields c blocks) walked total_data_size =
    let tail_size = get_block_size (some tail) in
    let cur_offset = start_index +ℤ pos walked in
    let next =
      search_size tail t start_index bytes blocks (walked + get_block_size (some c))
        (total_data_size + get_field_length_in_block (some c) FlashFieldType.field_data) in
    elim (get_field_data_in_block (some tail) t bytes cur_offset) [
      | none ↦ next
      | some read ↦
          if size_matches tail (from_bytes read) (walked + tail_size) total_data_size
          then ok (cur_offset +ℤ pos tail_size)
          else next
    ]

-- `_get_end_from_size`
unfoldable pub get_end_from_size : FlashAttributes → ℤ → Bytes → FlashFieldType → Result ℤ
unfolding search_size iterate_through_all_blocks
get_end_from_size attrs start_index bytes t =
    if not (same_type t FlashFieldType.field_total_size)
      && not (same_type t FlashFieldType.field_data_size)
    then ok (pos (length bytes))
    else elim attrs.tail_block_format [
      | none ↦ err Error.unpacker_error
      | some tail ↦
          search_size tail t start_index bytes
            (iterate_through_all_blocks attrs (minus_offset (length bytes) start_index) true) 0 0
    ]

-- where the region starts: before the header magic, if a magic is known
unfoldable pub find_start : FlashAttributes → Bytes → Result ℤ
unfolding find get_field_range_in_block
find_start attrs bytes = elim attrs.ecc_attributes [
  | none ↦ ok (pos 0)
  | some ecc_attr ↦ elim ecc_attr.ecc_magic [
    | none ↦ ok (pos 0)
    | some magic ↦ elim (find magic bytes) [
      | none ↦ err Error.unpacker_error
      | some found ↦
          elim (get_field_range_in_block attrs.header_block_format FlashFieldType.field_magic) [
            | none ↦ err Error.unpacker_error
            | some r ↦ ok (sub_ℕ found r.start)
          ]
    ]
  ]
]

-- the size of the region that the header gives, read at the start of the data
unfoldable pub header_size : FlashAttributes → Bytes → Result ℕ
unfolding get_field_in_block get_field_data_in_block get_total_oob_size from_bytes
header_size attrs bytes =
    let header = attrs.header_block_format in
    if present (get_field_in_block header FlashFieldType.field_data_size)
    then (do
      oob_size ← get_total_oob_size attrs (length bytes) true
      elim (get_field_data_in_block header FlashFieldType.field_data_size bytes (pos 0)) [
        | none ↦ ok 0
        | some read ↦ ok (oob_size + from_bytes read)
      ])
    else if present (get_field_in_block header FlashFieldType.field_total_size)
    then elim (get_field_data_in_block header FlashFieldType.field_total_size bytes (pos 0)) [
      | none ↦ ok 0
      | some read ↦ ok (from_bytes read)
    ]
    else ok 0

-- where the region ends by what its tail holds
unfoldable pub end_from_tail : FlashAttributes → ℤ → Bytes → Result ℤ
unfolding get_end_from_magic get_end_from_size get_field_in_block get_block_size
end_from_tail attrs start_index bytes =
    let tail = attrs.tail_block_format in
    if present (get_field_in_block tail FlashFieldType.field_magic)
    then get_end_from_magic attrs
        (elim attrs.header_block_format [
          | none ↦ start_index
          | some header ↦ elim header.fields [
            | [] ↦ start_index
            | (_ ∷ _) ↦ pos (get_block_size (some header))
          ]
        ])
        bytes
    else if present (get_field_in_block tail FlashFieldType.field_total_size)
    then get_end_from_size attrs start_index bytes FlashFieldType.field_total_size
    else if present (get_field_in_block tail FlashFieldType.field_data_size)
    then get_end_from_size attrs start_index bytes FlashFieldType.field_data_size
    else ok (pos (length bytes))

-- a size that the header gives, against the data and the start
unfoldable pub end_from_header : ℤ → Bytes → ℕ → Result ℤ
end_from_header start_index bytes size =
    if ltb (length bytes) size
    then err Error.unpacker_error
    else if leb_ℤ (pos size) start_index
    then ok (pos (length bytes))
    else ok (start_index +ℤ pos size)

unfoldable pub find_end : FlashAttributes → ℤ → Bytes → Result ℤ
unfolding header_size end_from_header end_from_tail get_field_in_block
find_end attrs start_index bytes =
    let header = attrs.header_block_format in
    if present (get_field_in_block header FlashFieldType.field_data_size)
      || present (get_field_in_block header FlashFieldType.field_total_size)
    then (do size ← header_size attrs bytes; end_from_header start_index bytes size)
    else end_from_tail attrs start_index bytes

-- the range of the `FlashOobResource` that is created
unfoldable pub unpack_region : Option FlashAttributes → Bytes → Result Region
unfolding find_start find_end mk_region
unpack_region none bytes = err Error.unpacker_error
unpack_region (some attrs) bytes = do
  start_index ← find_start attrs bytes
  end_offset ← find_end attrs start_index bytes
  mk_region start_index end_offset
