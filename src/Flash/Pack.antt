-- ===== src/Flash/Pack.antt =====
-- ofrak_core/ofrak/core/flash.py: `_build_block` and `FlashLogicalDataResourcePacker.pack`. The
-- cache `DATA_HASHES` maps a digest to the ECC of the block it was taken from.
pub mod Layout
pub mod Length
pub mod RoundTrip
use ofrak.Flash.{
  FlashFieldType, FlashField, BlockFormat, FlashEccAttributes, FlashAttributes, EccAlgorithm,
  fields_eq,
}
use ofrak.Flash.Format.{get_field_length_in_block, get_field_in_block}
use ofrak.Flash.Blocks.{
  Generator, finished, stuck, yields, iterate_through_all_blocks, get_total_oob_size,
  get_total_field_size,
}
use ofrak.Prelude.{
  ℕ, ◌+◌, Bool, false, ◌==◌, Option, none, some, List, [], ◌∷◌, ◌++◌, Result, ok, err, Error, ◌>>=◌,
  if◌then◌else◌, Dict, dict_get, length,
}
use ofrak.Prelude.Bytes.{Bytes, zeros, byte_slice, to_bytes, pad_to}

-- `bytes += x` where `x` may be missing
abbrev pub or_nothing : Option Bytes → Bytes
or_nothing none = []
or_nothing (some xs) = xs

-- `a == b` where `b` may be `None`
unfoldable pub is_format : BlockFormat → Option BlockFormat → Bool
is_format c none = false
is_format c (some d) = fields_eq c.fields d.fields

unfoldable pub delimiter_of :
    BlockFormat → FlashAttributes → FlashEccAttributes → Result (Option Bytes)
delimiter_of c attrs ecc_attr =
    if is_format c attrs.header_block_format
    then ok ecc_attr.head_delimiter
    else if is_format c attrs.first_data_block_format
    then ok ecc_attr.first_data_delimiter
    else if is_format c (some attrs.data_block_format)
    then ok ecc_attr.data_delimiter
    else if is_format c attrs.last_data_block_format
    then ok ecc_attr.last_data_delimiter
    else if is_format c attrs.tail_block_format
    then ok ecc_attr.tail_delimiter
    else err Error.packer_error

-- `ecc_class.encode(block)`, whose `TypeError` becomes a `PackerError`
unfoldable pub encode_ecc : EccAlgorithm → Bytes → Result Bytes
encode_ecc ecc_class block = elim (ecc_class.encode block) [
  | ok ecc ↦ ok ecc
  | err Error.type_error ↦ err Error.packer_error
  | err e ↦ err e
]

-- `md5(x).digest()` as a number
module _ (md5 : Bytes → ℕ) where
  -- one field: what it adds to the block, and the data of the block after it
  unfoldable pub build_field :
      BlockFormat
      → FlashAttributes
      → FlashEccAttributes
      → EccAlgorithm
      → Dict Bytes
      → Bytes
      → ℕ
      → FlashField
      → Bytes
      → Bytes
      → Result (Bytes × Bytes)
  build_field c attrs ecc_attr ecc_class hashes original_data data_hash f block block_data =
      elim f.field_type [
        | FlashFieldType.field_alignment ↦ ok (block ++ zeros f.size, block_data)
        | FlashFieldType.field_checksum ↦ elim attrs.checksum_func [
          | none ↦ ok (block, block_data)
          | some checksum ↦ ok (block ++ checksum original_data, block_data)
        ]
        | FlashFieldType.field_data ↦
            let padded =
              pad_to (get_field_length_in_block (some c) FlashFieldType.field_data) block_data in
            ok (block ++ padded, padded)
        | FlashFieldType.field_data_size ↦ do
          size ← to_bytes (length original_data) f.size
          ok (block ++ size, block_data)
        | FlashFieldType.field_delimiter ↦ do
          delimiter ← delimiter_of c attrs ecc_attr
          ok (block ++ or_nothing delimiter, block_data)
        | FlashFieldType.field_ecc ↦ do
          ecc ← elim (dict_get data_hash hashes) [
            | some known ↦ ok known
            | none ↦ encode_ecc ecc_class block
          ]
          ok (block ++ ecc, block_data)
        | FlashFieldType.field_ecc_size ↦
            elim (get_field_in_block (some c) FlashFieldType.field_ecc) [
              | none ↦ ok (block, block_data)
              | some g ↦ (do size ← to_bytes g.size f.size; ok (block ++ size, block_data))
            ]
        | FlashFieldType.field_total_size ↦ do
          oob_size ← get_total_oob_size attrs (length original_data) false
          data_size ←
              get_total_field_size attrs (length original_data) FlashFieldType.field_data false
          size ← to_bytes (data_size + oob_size) f.size
          ok (block ++ size, block_data)
        | FlashFieldType.field_magic ↦ elim ecc_attr.ecc_magic [
          | none ↦ err Error.packer_error
          | some magic ↦ ok (block ++ magic, block_data)
        ]
      ]

  unfoldable pub build_fields :
      BlockFormat
      → FlashAttributes
      → FlashEccAttributes
      → EccAlgorithm
      → Dict Bytes
      → Bytes
      → ℕ
      → List FlashField
      → Bytes
      → Bytes
      → Result Bytes
  build_fields c attrs ecc_attr ecc_class hashes original_data data_hash [] block block_data =
      ok block
  build_fields c attrs ecc_attr ecc_class hashes original_data data_hash (f ∷ fs) block block_data =
      do
        (block', block_data') ←
            build_field c attrs ecc_attr ecc_class hashes original_data data_hash f block block_data
        build_fields c attrs ecc_attr ecc_class hashes original_data data_hash fs block' block_data'

  unfoldable pub build_block :
      BlockFormat → FlashAttributes → Dict Bytes → Bytes → Bytes → Result Bytes
  build_block c attrs hashes block_data original_data = elim attrs.ecc_attributes [
    | none ↦ ok []
    | some ecc_attr ↦ elim ecc_attr.ecc_class [
      | none ↦ err Error.unpacker_error
      | some ecc_class ↦
          build_fields c attrs ecc_attr ecc_class hashes original_data (md5 block_data) c.fields []
            block_data
    ]
  ]

  -- the loop over the blocks, from an offset into the data on
  unfoldable pub pack_blocks : FlashAttributes → Dict Bytes → Bytes → Generator → ℕ → Result Bytes
  pack_blocks attrs hashes original finished data_offset = ok []
  pack_blocks attrs hashes original (stuck e) data_offset = err e
  pack_blocks attrs hashes original (yields c blocks) data_offset =
      let size = get_field_length_in_block (some c) FlashFieldType.field_data in
      do
        block ←
            build_block c attrs hashes
              (if size == 0 then [] else byte_slice original data_offset (data_offset + size))
              original
        packed ← pack_blocks attrs hashes original blocks (data_offset + size)
        ok (block ++ packed)

  -- the data of the new `FlashOobResource`
  unfoldable pub pack : Option FlashAttributes → Dict Bytes → Bytes → Result Bytes
  pack none hashes original = err Error.unpacker_error
  pack (some attrs) hashes original =
      pack_blocks attrs hashes original (iterate_through_all_blocks attrs (length original) false) 0
