-- ===== src/Flash/Unpack.antt =====
-- ofrak_core/ofrak/core/flash.py: `FlashOobResourceUnpacker.unpack`, which takes the data and the
-- ECC out of the blocks and remembers the ECC of each block in `DATA_HASHES`.
pub mod Fields
use ofrak.Flash.{
  FlashFieldType, FlashField, FlashEccAttributes, FlashAttributes, EccAlgorithm, same_type,
}
use ofrak.Flash.Format.{get_block_size}
use ofrak.Flash.Blocks.{Generator, finished, stuck, yields, iterate_through_all_blocks}
use ofrak.Prelude.{
  ℕ, ◌+◌, Option, none, some, List, [], ◌∷◌, ◌++◌, Result, ok, err, Error, ◌>>=◌, ltb, true,
  if◌then◌else◌, Dict, dict_set, length, take,
}
use ofrak.Prelude.Bytes.{Bytes, byte_slice}
use ofrak.Range.{Range}

-- what the loops collect
pub record OobState : Type 0 where
  pub only_data : List Bytes
  pub only_ecc : List Bytes
  pub hashes : Dict Bytes

-- the children that are created, and the cache after the call
pub record UnpackedOob : Type 0 where
  pub logical_data : Bytes
  pub logical_ecc : Option Bytes
  pub hashes : Dict Bytes

-- `b"".join(parts)`
unfoldable pub join : List Bytes → Bytes
join [] = []
join (x ∷ xs) = x ++ join xs

-- the loop over the fields that come from a data field on: the last ECC field counts
unfoldable pub future_ecc_range : List FlashField → ℕ → Option Range → Option Range
future_ecc_range [] offset known = known
future_ecc_range (f ∷ fs) offset known = future_ecc_range fs (offset + f.size) (
    if same_type f.field_type FlashFieldType.field_ecc
    then some (record { start = offset; end = offset + f.size })
    else known)

-- `ecc_class.decode(payload)`, whose `EccError` becomes an `UnpackerError`
unfoldable pub decode_ecc : Option FlashEccAttributes → Bytes → Result Bytes
decode_ecc none payload = err Error.unpacker_error
decode_ecc (some ecc_attr) payload = elim ecc_attr.ecc_class [
  | none ↦ err Error.unpacker_error
  | some ecc_class ↦ elim (ecc_class.decode payload) [
    | ok decoded ↦ ok decoded
    | err Error.ecc_error ↦ err Error.unpacker_error
    | err e ↦ err e
  ]
]

-- the data of a data field at a range of its block
unfoldable pub field_payload :
    Option FlashEccAttributes → Bytes → Range → Option Range → Result Bytes
field_payload ecc_attr block r none = ok (byte_slice block r.start r.end)
field_payload ecc_attr block r (some ecc_range) = do
  decoded ← decode_ecc ecc_attr (take ecc_range.end block)
  ok (byte_slice decoded r.start r.end)

module _ (md5 : Bytes → ℕ) where
  -- what an ECC field adds
  unfoldable pub note_ecc : Bytes → Range → OobState → OobState
  note_ecc block r st =
      let ecc = byte_slice block r.start r.end in
      record {
        only_data = st.only_data;
        only_ecc = st.only_ecc ++ (ecc ∷ []);
        hashes = dict_set (md5 (take r.start block)) ecc st.hashes;
      }

  -- the loop over the fields of a block, from an offset into the block on
  unfoldable pub unpack_fields :
      Option FlashEccAttributes
      → Bytes
      → List FlashField
      → ℕ
      → Option Range
      → OobState
      → Result OobState
  unpack_fields ecc_attr block [] offset ecc_range st = ok st
  unpack_fields ecc_attr block (f ∷ fs) offset ecc_range st =
      let r : Range = record { start = offset; end = offset + f.size } in
      elim f.field_type [
        | FlashFieldType.field_ecc ↦
            unpack_fields ecc_attr block fs (offset + f.size) (some r) (note_ecc block r st)
        | FlashFieldType.field_data ↦
            let ecc_range' = future_ecc_range (f ∷ fs) offset ecc_range in
            do
              payload ← field_payload ecc_attr block r ecc_range'
              unpack_fields ecc_attr block fs (offset + f.size) ecc_range' (record {
                only_data = st.only_data ++ (payload ∷ []);
                only_ecc = st.only_ecc;
                hashes = st.hashes;
              })
        | _ ↦ unpack_fields ecc_attr block fs (offset + f.size) ecc_range st
      ]

  -- the loop over the blocks: a block that does not fit ends it
  unfoldable pub unpack_blocks :
      Option FlashEccAttributes → Bytes → Generator → ℕ → OobState → Result OobState
  unpack_blocks ecc_attr bytes finished offset st = ok st
  unpack_blocks ecc_attr bytes (stuck e) offset st = err e
  unpack_blocks ecc_attr bytes (yields c blocks) offset st =
      let end = offset + get_block_size (some c) in
      if ltb (length bytes) end then ok st else do
        st' ← unpack_fields ecc_attr (byte_slice bytes offset end) c.fields 0 none st
        unpack_blocks ecc_attr bytes blocks end st'

  unfoldable pub unpack_oob : Option FlashAttributes → Bytes → Dict Bytes → Result UnpackedOob
  unpack_oob none bytes hashes = err Error.unpacker_error
  unpack_oob (some attrs) bytes hashes = do
    st ←
        unpack_blocks attrs.ecc_attributes bytes
          (iterate_through_all_blocks attrs (length bytes) true) 0
          (record { only_data = []; only_ecc = []; hashes = hashes })
    ok (record {
      logical_data = elim st.only_data [ [] ↦ bytes | (x ∷ xs) ↦ join (x ∷ xs) ];
      logical_ecc = elim attrs.ecc_attributes [ none ↦ none | some _ ↦ some (join st.only_ecc) ];
      hashes = st.hashes;
    })
