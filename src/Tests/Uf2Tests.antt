-- ===== src/Tests/Uf2Tests.antt =====
-- Runs of the UF2 packer and unpacker.
use ofrak.Range.{Range, mk_range}
use ofrak.Uf2.{
  pack_int, pack_ints, struct_pack, int_at, struct_unpack, has_flag, add_payload, unpack_payload,
  set_num_blocks, check_family, unpack_block, unpack_file_blocks, start_unpack, num_blocks_fit,
  creation_order, family_attributes, unpack_file, region_payloads, payloads, pack_payloads,
  pack_file,
}
use ofrak.Uf2.Regions.{piece}
use ofrak.Uf2.RoundTrip.{as_child, unpack_file-pack_file}
use ofrak.Prelude.{
  ℕ, ◌*◌, ◌≡◌, refl, Option, some, List, [], ◌∷◌, ◌++◌, map, Result, ok, err, Error, ◌>>=◌, length,
  replicate, arith,
}
use ofrak.Prelude.Bytes.{Bytes, zeros, digits, reversed, from_bytes, from_bytes_acc}

abbrev code : ℕ × Bytes
code = (4096, replicate 256 7)

abbrev table : ℕ × Bytes
table = (8192, replicate 512 9)

num_payloads : length (payloads (code ∷ table ∷ [])) ≡ 3
unfolding payloads region_payloads
num_payloads = refl

unpack_file-pack_file_example :
    (bytes : Bytes) × (pack_file 42 (code ∷ table ∷ []) ≡ ok bytes)
    × (length bytes ≡ 512 * length (payloads (code ∷ table ∷ [])))
    × (unpack_file bytes ≡ ok (some 42, map as_child (code ∷ table ∷ [])))
unpack_file-pack_file_example =
    unpack_file-pack_file 42 code (table ∷ []) (omega arith)
      (((0, refl), omega arith), (((1, refl), omega arith), tt)) (refl, (tt, tt))
      (omega (arith, num_payloads))

abbrev round_trip : List (ℕ × Bytes) → Result (Option ℕ × List (Range × Bytes))
round_trip regions = do bytes ← pack_file 42 regions; unpack_file bytes

-- Two regions that touch come back as one, and data that is no multiple of 256 bytes is filled up.
merged_and_filled :
    round_trip ((0, replicate 256 1) ∷ (256, 2 ∷ []) ∷ [])
    ≡ ok (some 42, piece 0 512 (replicate 256 1 ++ (2 ∷ zeros 255)) ∷ [])
unfolding mk_range pack_int pack_ints struct_pack int_at struct_unpack has_flag add_payload
    unpack_payload set_num_blocks check_family unpack_block unpack_file_blocks start_unpack
    num_blocks_fit creation_order family_attributes unpack_file region_payloads payloads
    pack_payloads pack_file digits reversed from_bytes from_bytes_acc
merged_and_filled = refl

-- A file without blocks is refused.
empty_file : unpack_file [] ≡ err Error.value_error
unfolding unpack_file unpack_file_blocks start_unpack num_blocks_fit
empty_file = refl
