-- ===== src/Tests/FlashTests.antt =====
-- ofrak_core/ofrak/core/flash.py: a small flash memory, packed and unpacked, and the theorems on it.
use ofrak.Flash.{
  FlashFieldType, FlashField, BlockFormat, FlashEccAttributes, FlashAttributes, EccAlgorithm,
  same_type, fields_eq,
}
use ofrak.Flash.Format.{
  get_block_formats, given_format, sum_sizes, get_block_size, get_field_in_block,
  get_field_range_in_block, get_field_length_in_block, get_oob_size_in_block,
}
use ofrak.Flash.Blocks.{
  block_data_len, count_others, count_blocks, get_num_data_blocks, get_total_field_size,
  get_total_oob_size, total_over, iterate_formats, iterate_through_all_blocks, yield_times,
}
use ofrak.Flash.Pack.{
  is_format, delimiter_of, encode_ecc, build_field, build_fields, build_block, pack_blocks, pack,
}
use ofrak.Flash.Unpack.{UnpackedOob, unpack_oob}
use ofrak.Flash.Region.{
  unpack_region, find_start, find_end, end_from_tail, get_end_from_magic, search_tail, tail_end_at,
}
use ofrak.Flash.Region.Tail.{TailAt, Occurs, get_end_from_magic_exact}
use ofrak.Flash.Format.Sizes.{get_field_exact}
use ofrak.Flash.Blocks.Count.{held, held_by_others, get_num_data_blocks_exact}
use ofrak.Flash.Blocks.Totals.{Distinct}
use ofrak.Flash.Pack.Length.{BlockFits, pack-length}
use ofrak.Flash.Pack.RoundTrip.{unpack-pack}
use ofrak.Flash.Unpack.Fields.{Shape}
use ofrak.Prelude.{
  ℕ, ◌+◌, ◌-◌, ◌*◌, ◌%◌, ◌≤◌, ◌<◌, ◌≡◌, refl, sym, ap, ◌∙◌, false, true, none, some, List, [], ◌∷◌,
  ◌++◌, ok, err, Error, All, ◌⊎◌, length, arith, dict_get,
}
use ofrak.Prelude.Int.{ℤ, pos}
use ofrak.Prelude.Bytes.{Bytes, zeros, pad_to, to_bytes, find_between, bytes_eq}

abbrev all_but_last : Bytes → Bytes
all_but_last [] = []
all_but_last (x ∷ []) = []
all_but_last (x ∷ y ∷ ys) = x ∷ all_but_last (y ∷ ys)

-- a code of one byte
abbrev parity : EccAlgorithm
parity = record { encode = λ p. ok ((length p % 256) ∷ []); decode = λ p. ok (all_but_last p) }

all_but_last-snoc : (p : Bytes) (x : ℕ) → all_but_last (p ++ (x ∷ [])) ≡ p
all_but_last-snoc [] x = refl
all_but_last-snoc (y ∷ []) x = refl
all_but_last-snoc (y ∷ z ∷ zs) x = ap (λ ws. y ∷ ws) (all_but_last-snoc (z ∷ zs) x)

parity_corrects : (p e : Bytes) → parity.encode p ≡ ok e → parity.decode (p ++ e) ≡ ok p
parity_corrects p e h =
    let given : (length p % 256) ∷ [] ≡ e = ap (λ r. elim r [ ok xs ↦ xs | err error ↦ [] ]) h in
    ap (λ xs. ok (all_but_last (p ++ xs))) (sym given)
    ∙ ap ok (all_but_last-snoc p (length p % 256))

abbrev digest : Bytes → ℕ
digest [] = 0
digest (x ∷ xs) = x + 1 + digest xs

abbrev header : BlockFormat
header = record {
  reference = 1;
  fields =
      record { field_type = FlashFieldType.field_magic; size = 2 }
      ∷ record { field_type = FlashFieldType.field_total_size; size = 2 }
      ∷ [];
}

abbrev data_block : BlockFormat
data_block = record {
  reference = 2;
  fields =
      record { field_type = FlashFieldType.field_data; size = 4 }
      ∷ record { field_type = FlashFieldType.field_ecc; size = 1 }
      ∷ [];
}

abbrev tail_block : BlockFormat
tail_block = record {
  reference = 3;
  fields =
      record { field_type = FlashFieldType.field_delimiter; size = 1 }
      ∷ record { field_type = FlashFieldType.field_magic; size = 2 }
      ∷ [];
}

abbrev ecc_attrs : FlashEccAttributes
ecc_attrs = record {
  ecc_class = some parity;
  ecc_magic = some (7 ∷ 9 ∷ []);
  head_delimiter = none;
  first_data_delimiter = none;
  data_delimiter = none;
  last_data_delimiter = none;
  tail_delimiter = some (5 ∷ []);
}

abbrev flash : FlashAttributes
flash = record {
  data_block_format = data_block;
  header_block_format = some header;
  first_data_block_format = none;
  last_data_block_format = none;
  tail_block_format = some tail_block;
  ecc_attributes = some ecc_attrs;
  checksum_func = none;
}

abbrev logical : Bytes
logical = 1 ∷ 2 ∷ 3 ∷ 4 ∷ 5 ∷ 6 ∷ []

abbrev physical : Bytes
physical = 7 ∷ 9 ∷ 0 ∷ 17 ∷ 1 ∷ 2 ∷ 3 ∷ 4 ∷ 4 ∷ 5 ∷ 6 ∷ 0 ∷ 0 ∷ 4 ∷ 5 ∷ 7 ∷ 9 ∷ []

packs : pack digest (some flash) [] logical ≡ ok physical
unfolding pack pack_blocks build_block build_fields build_field encode_ecc delimiter_of is_format
    iterate_through_all_blocks iterate_formats yield_times get_num_data_blocks count_blocks
    count_others block_data_len get_block_formats given_format get_block_size
    get_field_length_in_block get_total_oob_size get_total_field_size total_over to_bytes
    get_oob_size_in_block pad_to dict_get fields_eq
packs = refl

abbrev without_ecc : FlashAttributes
without_ecc = record {
  data_block_format = data_block;
  header_block_format = none;
  first_data_block_format = none;
  last_data_block_format = none;
  tail_block_format = none;
  ecc_attributes = none;
  checksum_func = none;
}

-- Without ECC attributes nothing of the data is packed.
packs_nothing : pack digest (some without_ecc) [] logical ≡ ok []
unfolding pack pack_blocks build_block build_fields build_field encode_ecc delimiter_of is_format
    iterate_through_all_blocks iterate_formats yield_times get_num_data_blocks count_blocks
    count_others block_data_len get_block_formats given_format get_block_size
    get_field_length_in_block get_total_oob_size get_total_field_size total_over to_bytes
    get_oob_size_in_block pad_to dict_get fields_eq
packs_nothing = refl

abbrev plain_header : BlockFormat
plain_header = record {
  reference = 4;
  fields =
      record { field_type = FlashFieldType.field_magic; size = 2 }
      ∷ record { field_type = FlashFieldType.field_alignment; size = 1 }
      ∷ [];
}

abbrev plain_flash : FlashAttributes
plain_flash = record {
  data_block_format = data_block;
  header_block_format = some plain_header;
  first_data_block_format = none;
  last_data_block_format = none;
  tail_block_format = some tail_block;
  ecc_attributes = some ecc_attrs;
  checksum_func = none;
}

-- Behind four other bytes, the magic of the header is taken for that of the tail: the region ends
-- inside the header.
region_ends_early :
    unpack_region
      (some plain_flash)
      (0 ∷ 0 ∷ 0 ∷ 0 ∷ 7 ∷ 9 ∷ 0 ∷ 1 ∷ 2 ∷ 3 ∷ 4 ∷ 4 ∷ 5 ∷ 7 ∷ 9 ∷ [])
    ≡ ok (record { start = pos 4; end = pos 6 })
unfolding unpack_region find_start find_end end_from_tail get_end_from_magic search_tail tail_end_at
    find_between get_field_in_block get_block_size bytes_eq
region_ends_early = refl

get_field_exact_example :
    (((All (λ g. same_type g.field_type FlashFieldType.field_ecc ≡ false) data_block.fields)
        × (get_field_in_block (some data_block) FlashFieldType.field_ecc ≡ none)
        × (get_field_range_in_block (some data_block) FlashFieldType.field_ecc ≡ none)
        × (get_field_length_in_block (some data_block) FlashFieldType.field_ecc ≡ 0))
      ⊎ ((before : List FlashField) × (f : FlashField) × (after : List FlashField)
          × (data_block.fields ≡ before ++ (f ∷ after))
          × (same_type f.field_type FlashFieldType.field_ecc ≡ true)
          × (All (λ g. same_type g.field_type FlashFieldType.field_ecc ≡ false) before)
          × (get_field_in_block (some data_block) FlashFieldType.field_ecc ≡ some f)
          × (get_field_range_in_block (some data_block) FlashFieldType.field_ecc
              ≡ some (record { start = sum_sizes before; end = sum_sizes before + f.size }))
          × (get_field_length_in_block (some data_block) FlashFieldType.field_ecc ≡ f.size)
          × (sum_sizes before + f.size ≤ get_block_size (some data_block))))
    × (get_oob_size_in_block (some data_block)
          + get_field_length_in_block (some data_block) FlashFieldType.field_data
        ≡ get_block_size (some data_block))
get_field_exact_example = get_field_exact data_block FlashFieldType.field_ecc

get_num_data_blocks_exact_example :
    (0 < held false data_block
      → (n : ℕ) × (get_num_data_blocks flash 6 false ≡ ok n)
        × (6 ≤ held_by_others flash false (get_block_formats flash) + n * held false data_block)
        × ((k : ℕ)
            → 6 ≤ held_by_others flash false (get_block_formats flash) + k * held false data_block
            → n ≤ k))
    × (held false data_block ≡ 0
        → held_by_others flash false (get_block_formats flash) < 6
        → (rounds : ℕ)
        → count_blocks rounds
            (held false data_block)
            6
            (held_by_others flash false (get_block_formats flash))
          ≡ err Error.out_of_fuel)
get_num_data_blocks_exact_example = get_num_data_blocks_exact flash 6 false

data_block_holds : 0 < block_data_len false data_block
unfolding block_data_len get_field_length_in_block
data_block_holds = omega arith

fits : All (BlockFits flash ecc_attrs parity [] logical) (get_block_formats flash)
unfolding get_block_formats given_format delimiter_of is_format fields_eq get_field_length_in_block
    get_total_oob_size get_total_field_size total_over get_num_data_blocks count_blocks count_others
    block_data_len get_oob_size_in_block get_block_size dict_get
fits = (
  ((7 ∷ 9 ∷ [], refl, refl), ((9, 8, refl, refl, omega arith), tt)),
  (
    (refl, (((λ block e. (length block % 256 ∷ [], refl, refl)), (λ k ecc e. cc)), tt)),
    (((some (5 ∷ []), refl, refl), ((7 ∷ 9 ∷ [], refl, refl), tt)), tt),
  ),
)

shapes : All (λ c. Shape c.fields) (get_block_formats flash)
unfolding get_block_formats given_format
shapes = (tt, (((refl, tt), omega arith), (tt, tt)))

distinct : Distinct flash
unfolding get_block_formats given_format fields_eq
distinct = record {
  once = refl;
  by_fields = (refl, (refl, (refl, tt)));
  coherent = ((λ e. cc), ((λ e. refl), ((λ e. cc), tt)));
}

pack-length_example :
    (out : Bytes) × (data_size oob_size : ℕ) × (pack digest (some flash) [] logical ≡ ok out)
    × (get_total_field_size flash 6 FlashFieldType.field_data false ≡ ok data_size)
    × (get_total_oob_size flash 6 false ≡ ok oob_size)
    × (length out ≡ data_size + oob_size)
    × ((c : BlockFormat) (f : FlashField) (data_hash : ℕ) (block block_data xs : Bytes)
        → f.field_type ≡ FlashFieldType.field_total_size
        → to_bytes (length out) f.size ≡ ok xs
        → build_field digest c flash ecc_attrs parity [] logical data_hash f block block_data
          ≡ ok (block ++ xs, block_data))
pack-length_example =
    pack-length flash ecc_attrs parity [] logical digest refl refl data_block_holds fits

unpack-pack_example :
    (packed : Bytes) × (size : ℕ) × (unpacked : UnpackedOob) × (pack digest (some flash) [] logical
      ≡ ok packed)
    × (get_total_field_size flash 6 FlashFieldType.field_data false ≡ ok size)
    × (6 ≤ size)
    × (unpack_oob digest (some flash) packed [] ≡ ok unpacked)
    × (unpacked.logical_data ≡ logical ++ zeros (size - 6))
unpack-pack_example =
    unpack-pack flash ecc_attrs parity digest logical refl parity_corrects refl data_block_holds
      (omega arith) distinct fits shapes

get_end_from_magic_exact_example :
    (end : ℤ) × (get_end_from_magic flash (pos 4) physical ≡ ok end)
    × (((i : ℕ) × (4 ≤ i)
          × Occurs (7 ∷ 9 ∷ []) physical i
          × TailAt tail_block (7 ∷ 9 ∷ []) physical i end
          × ((j : ℕ) (e : ℤ)
              → 4 ≤ j
              → j < i
              → Occurs (7 ∷ 9 ∷ []) physical j
              → TailAt tail_block (7 ∷ 9 ∷ []) physical j e
              → ⊥))
        ⊎ ((end ≡ pos 17)
            × ((j : ℕ) (e : ℤ)
                → 4 ≤ j
                → j < 18
                → Occurs (7 ∷ 9 ∷ []) physical j
                → TailAt tail_block (7 ∷ 9 ∷ []) physical j e
                → ⊥)))
get_end_from_magic_exact_example =
    get_end_from_magic_exact flash tail_block ecc_attrs (7 ∷ 9 ∷ []) physical 4 refl refl refl
