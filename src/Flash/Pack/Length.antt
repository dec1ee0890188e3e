-- ===== src/Flash/Pack/Length.antt =====
-- `FlashLogicalDataResourcePacker.pack`: the blocks that it writes, and their length.
use ofrak.Flash.{
  FlashFieldType, FlashField, BlockFormat, FlashEccAttributes, FlashAttributes, EccAlgorithm,
}
use ofrak.Flash.Format.{
  sum_sizes, get_block_formats, get_field_length_in_block, get_oob_size_in_block, get_block_size,
}
use ofrak.Flash.Format.Sizes.{get_field_exact}
use ofrak.Flash.Blocks.{
  Generator, finished, stuck, yields, block_data_len, get_num_data_blocks, iterate_formats,
  iterate_through_all_blocks, get_total_oob_size, get_total_field_size,
}
use ofrak.Flash.Blocks.Count.{num_data_blocks_lem}
use ofrak.Flash.Blocks.Totals.{GenAll, gen_sum, iterate-GenAll, total_over_lem}
use ofrak.Flash.Pack.{build_field, pack_blocks, pack}
use ofrak.Flash.Pack.Layout.{FieldsFit, Laid, build_block_lem}
use ofrak.Prelude.{
  ℕ, ◌+◌, ◌-◌, ◌≤◌, ◌<◌, ◌==◌, ◌≡◌, refl, sym, ap, ◌∙◌, false, some, [], ◌++◌, ok, Dict,
  if◌then◌else◌, length, length-append, drop, All, arith,
}
use ofrak.Prelude.Bytes.{Bytes, byte_slice, to_bytes}
use ofrak.Prelude.Padding.{length-take_le}

gen_sum-add :
    (p q r : BlockFormat → ℕ) (g : Generator)
    → ((c : BlockFormat) → p c ≡ q c + r c)
    → gen_sum p g ≡ gen_sum q g + gen_sum r g
gen_sum-add p q r finished h = refl
gen_sum-add p q r (stuck e) h = refl
gen_sum-add p q r (yields c g) h = omega (arith, h c, gen_sum-add p q r g h)

module _ (attrs : FlashAttributes) (ecc_attr : FlashEccAttributes) (ecc_class : EccAlgorithm)
    (hashes : Dict Bytes) (original : Bytes) where
  -- What is written into each field of a block has the size of that field.
  abbrev pub BlockFits : BlockFormat → Type 0
  BlockFits c = FieldsFit c attrs ecc_attr ecc_class hashes original 0 c.fields

  -- the data that goes into a block
  abbrev pub chunk : BlockFormat → ℕ → Bytes
  chunk c offset =
      let size = get_field_length_in_block (some c) FlashFieldType.field_data in
      if size == 0 then [] else byte_slice original offset (offset + size)

  chunk_le :
      (c : BlockFormat) (offset : ℕ)
      → length (chunk c offset) ≤ get_field_length_in_block (some c) FlashFieldType.field_data
  chunk_le c offset =
      let size = get_field_length_in_block (some c) FlashFieldType.field_data in
      ground (arith, length-take_le (offset + size - offset) (drop offset original))

  module _ (md5 : Bytes → ℕ) where
    -- bytes that are blocks, each laid out by its format around its share of the data
    abbrev pub Packed : Generator → ℕ → Bytes → Type 0
    Packed finished offset out = out ≡ []
    Packed (stuck e) offset out = ⊥
    Packed (yields c g) offset out =
        (block rest : Bytes) × (out ≡ block ++ rest)
        × (length block ≡ sum_sizes c.fields)
        × Laid c attrs ecc_attr ecc_class hashes original md5 (chunk c offset) c.fields [] block
        × Packed g (offset + get_field_length_in_block (some c) FlashFieldType.field_data) rest

    module _ (given : attrs.ecc_attributes ≡ some ecc_attr)
        (class : ecc_attr.ecc_class ≡ some ecc_class) where
      pack_blocks_lem :
          (g : Generator) (offset : ℕ)
          → GenAll BlockFits g
          → (out : Bytes) × (pack_blocks md5 attrs hashes original g offset ≡ ok out)
            × (length out ≡ gen_sum (λ c. sum_sizes c.fields) g)
            × Packed g offset out
      unfolding pack_blocks
      pack_blocks_lem finished offset h = ([], refl, refl, refl)
      pack_blocks_lem (stuck e) offset h = absurd h
      pack_blocks_lem (yields c g) offset h =
          let size = get_field_length_in_block (some c) FlashFieldType.field_data in
          let (block, w, l, laid) =
            build_block_lem c attrs ecc_attr ecc_class hashes original md5 (chunk c offset) given
              class h.0 (chunk_le c offset) in
          let (rest, w', l', packed) = pack_blocks_lem g (offset + size) h.1 in
          (
            block ++ rest,
            rw (w, w') refl,
            omega (arith, length-append block rest, l, l'),
            (block, rest, refl, l, laid, packed),
          )

      pub pack_lem :
          (n : ℕ)
          → get_num_data_blocks attrs (length original) false ≡ ok n
          → All BlockFits (get_block_formats attrs)
          → (out : Bytes) × (pack md5 (some attrs) hashes original ≡ ok out)
            × (length out
                ≡ gen_sum
                    (λ c. sum_sizes c.fields)
                    (iterate_formats attrs (length original) false (get_block_formats attrs)))
            × Packed (iterate_formats attrs (length original) false (get_block_formats attrs)) 0 out
      unfolding pack iterate_through_all_blocks
      pack_lem n num h =
          pack_blocks_lem (iterate_formats attrs (length original) false (get_block_formats attrs))
            0
            (iterate-GenAll attrs (length original) false n num BlockFits (get_block_formats attrs)
              h)

      total_size_built :
          (c : BlockFormat) (f : FlashField) (data_hash total data_size oob_size : ℕ)
          (block block_data xs : Bytes)
          → f.field_type ≡ FlashFieldType.field_total_size
          → get_total_field_size attrs (length original) FlashFieldType.field_data false
            ≡ ok data_size
          → get_total_oob_size attrs (length original) false ≡ ok oob_size
          → total ≡ data_size + oob_size
          → to_bytes total f.size ≡ ok xs
          → build_field md5 c attrs ecc_attr ecc_class hashes original data_hash f block block_data
            ≡ ok (block ++ xs, block_data)
      unfolding build_field
      total_size_built c f data_hash total d o block bd xs t hd ho sum w =
          let w' = ap (λ n. to_bytes n f.size) (sym sum) ∙ w in rw (t, ho, hd, w') refl

      -- Where an ECC class is given, a data block holds data and what is written into each field
      -- has the size of that field, the packer returns. The length of what it returns is the sum of
      -- the data fields and the OOB bytes of all blocks, and it is the number that is written into
      -- a `TOTAL_SIZE` field of any block.
      pub pack-length :
          0 < block_data_len false attrs.data_block_format
          → All BlockFits (get_block_formats attrs)
          → (out : Bytes) × (data_size oob_size : ℕ) × (pack md5 (some attrs) hashes original
              ≡ ok out)
            × (get_total_field_size attrs (length original) FlashFieldType.field_data false
                ≡ ok data_size)
            × (get_total_oob_size attrs (length original) false ≡ ok oob_size)
            × (length out ≡ data_size + oob_size)
            × ((c : BlockFormat) (f : FlashField) (data_hash : ℕ) (block block_data xs : Bytes)
                → f.field_type ≡ FlashFieldType.field_total_size
                → to_bytes (length out) f.size ≡ ok xs
                → build_field md5 c attrs ecc_attr ecc_class hashes original data_hash f block
                    block_data
                  ≡ ok (block ++ xs, block_data))
      unfolding get_total_field_size get_total_oob_size get_block_size
      pack-length p h =
          let (n, num, low, least) = (num_data_blocks_lem attrs (length original) false).0 p in
          let (out, w, l, packed) = pack_lem n num h in
          let formats = get_block_formats attrs in
          let data_of =
            λ (c : BlockFormat). get_field_length_in_block (some c) FlashFieldType.field_data in
          let oob_of = λ (c : BlockFormat). get_oob_size_in_block (some c) in
          let blocks = iterate_formats attrs (length original) false formats in
          let hd = total_over_lem attrs (length original) false n num data_of formats in
          let ho = total_over_lem attrs (length original) false n num oob_of formats in
          let sum =
            l
            ∙ gen_sum-add (λ c. sum_sizes c.fields) data_of oob_of blocks
                (λ c. omega (arith, (get_field_exact c FlashFieldType.field_data).1)) in
          (
            out,
            gen_sum data_of blocks,
            gen_sum oob_of blocks,
            w,
            hd,
            ho,
            sum,
            λ c f data_hash block bd xs t built.
                total_size_built c f data_hash (length out) (gen_sum data_of blocks)
                  (gen_sum oob_of blocks) block bd xs t hd ho sum built,
          )
