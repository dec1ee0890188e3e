-- ===== src/Flash/Pack/RoundTrip.antt =====
-- Packing and unpacking: `FlashOobResourceUnpacker` after `FlashLogicalDataResourcePacker`.
use ofrak.Flash.{
  FlashFieldType, FlashField, BlockFormat, FlashEccAttributes, FlashAttributes, EccAlgorithm,
}
use ofrak.Flash.Format.{
  sum_sizes, find_field, get_block_formats, get_block_size, get_field_length_in_block,
  get_field_in_block,
}
use ofrak.Flash.Format.Sizes.{get_field_exact}
use ofrak.Flash.Blocks.{
  Generator, finished, stuck, yields, block_data_len, count_others, get_num_data_blocks,
  iterate_formats, iterate_through_all_blocks, get_total_field_size,
}
use ofrak.Flash.Blocks.Count.{num_data_blocks_lem}
use ofrak.Flash.Blocks.Totals.{
  GenAll, gen_sum, Distinct, iterate-GenAll, iterate_formats_eq, total_over_lem, sum_by_count,
}
use ofrak.Flash.Pack.{pack}
use ofrak.Flash.Pack.Length.{BlockFits, Packed, chunk, pack_lem}
use ofrak.Flash.Unpack.{OobState, UnpackedOob, join, unpack_fields, unpack_blocks, unpack_oob}
use ofrak.Flash.Unpack.Fields.{Shape, parts, unpack_block_lem}
use ofrak.Prelude.{
  ℕ, zero, suc, ◌+◌, ◌-◌, ◌*◌, ◌≤◌, ◌<◌, ◌≡◌, refl, sym, ap, ◌∙◌, subst, inl, inr, ltb, ◌==◌,
  if◌then◌else◌, Bool-cases, Option-cases, true, false, Option, some, none, List, [], ◌∷◌, ◌++◌, ok,
  length, length-append, append_assoc, append_nil, All, drop, take, arith,
}
use ofrak.Prelude.Bytes.{Bytes, zeros, byte_slice, pad_to}
use ofrak.Prelude.Padding.{pad_take, pad-take, pad_take-add, pad_take_ge, drop-add, slice-middle}

join-append : (xs ys : List Bytes) → join (xs ++ ys) ≡ join xs ++ join ys
unfolding join
join-append [] ys = refl
join-append (x ∷ xs) ys =
    ap (λ zs. x ++ zs) (join-append xs ys) ∙ sym (append_assoc x (join xs) (join ys))

abbrev data_of : BlockFormat → ℕ
data_of c = get_field_length_in_block (some c) FlashFieldType.field_data

chunk_at :
    (size offset : ℕ) (xs : Bytes)
    → (if size == 0 then [] else byte_slice xs offset (offset + size)) ≡ take size (drop offset xs)
chunk_at size offset xs = elim (Bool-cases (size == 0)) [
  | inl e ↦ let z : 0 ≡ size = ground (arith, e) in rw e (ap (λ k. take k (drop offset xs)) z)
  | inr e ↦
      let z : offset + size - offset ≡ size = omega arith in
      rw e (ap (λ k. take k (drop offset xs)) z)
]

no_data_field :
    (c : BlockFormat) → find_field FlashFieldType.field_data c.fields ≡ none → data_of c ≡ 0
unfolding get_field_in_block
no_data_field c e = elim ((get_field_exact c FlashFieldType.field_data).0) [
  | inl (a, x, y, z) ↦ z
  | inr (before, f, after, x, y, z, found, w, v, u) ↦ cc
]

the_same : (m n : ℕ) → m ≤ n → n ≤ m → m ≡ n
the_same m n h k = omega arith

mul_le_cancel : (a b c : ℕ) → 0 < c → a * c ≤ b * c → a ≤ b
mul_le_cancel zero b c p h = omega arith
mul_le_cancel (suc a) zero c p h = absurd (grind arith)
mul_le_cancel (suc a) (suc b) c p h = omega (arith, mul_le_cancel a b c p (omega arith))

joined :
    (xs : List Bytes) (bytes out : Bytes)
    → join xs ≡ out
    → 0 < length out
    → (elim xs [ [] ↦ bytes | (y ∷ ys) ↦ join (y ∷ ys) ]) ≡ out
unfolding join
joined [] bytes out e h = absurd (omega (arith, ap length e))
joined (x ∷ xs) bytes out e h = e

block_data_le : (c : BlockFormat) → block_data_len false c ≤ block_data_len true c
unfolding block_data_len
block_data_le c = omega (arith, (get_field_exact c FlashFieldType.field_data).1)

module _ (attrs : FlashAttributes) (ecc_attr : FlashEccAttributes) (ecc_class : EccAlgorithm)
    (md5 : Bytes → ℕ) (original : Bytes) (class : ecc_attr.ecc_class ≡ some ecc_class)
    (corrects : (p e : Bytes) → ecc_class.encode p ≡ ok e → ecc_class.decode (p ++ e) ≡ ok p) where
  chunk_eq :
      (c : BlockFormat) (offset : ℕ)
      → chunk attrs ecc_attr ecc_class [] original c offset
        ≡ take (data_of c) (drop offset original)
  chunk_eq c offset = chunk_at (data_of c) offset original

  -- the data that a block gives back
  join-parts :
      (c : BlockFormat) (offset : ℕ)
      → join (
          parts c attrs ecc_attr ecc_class original md5
            (chunk attrs ecc_attr ecc_class [] original c offset)
            class
            corrects
            c.fields)
        ≡ pad_take (data_of c) (drop offset original)
  unfolding join
  join-parts c offset =
      let bd = chunk attrs ecc_attr ecc_class [] original c offset in
      let Gives = λ (o : Option FlashField).
        join (elim o [ none ↦ [] | some f ↦ pad_to (data_of c) bd ∷ [] ])
        ≡ pad_take (data_of c) (drop offset original) in
      elim (Option-cases (find_field FlashFieldType.field_data c.fields)) [
        | inl e ↦ subst (λ o. Gives o) (sym e) (rw (no_data_field c e) refl)
        | inr (f, e) ↦
            subst (λ o. Gives o) (sym e)
              (append_nil (pad_to (data_of c) bd)
                ∙ ap (pad_to (data_of c)) (chunk_eq c offset)
                ∙ pad-take (data_of c) (drop offset original))
      ]

  -- a block that is there is read whole
  unpack_next :
      (c : BlockFormat) (g : Generator) (before block rest : Bytes) (st st1 st2 : OobState)
      → length block ≡ sum_sizes c.fields
      → unpack_fields md5 (some ecc_attr) block c.fields 0 none st ≡ ok st1
      → unpack_blocks md5
          (some ecc_attr)
          ((before ++ block) ++ rest)
          g
          (length (before ++ block))
          st1
        ≡ ok st2
      → unpack_blocks md5
          (some ecc_attr)
          (before ++ (block ++ rest))
          (yields c g)
          (length before)
          st
        ≡ ok st2
  unfolding unpack_blocks get_block_size
  unpack_next c g before block rest st st1 st2 l w w' =
      let end : length (before ++ block) ≡ length before + sum_sizes c.fields =
        omega (arith, length-append before block, l) in
      let fits : ltb (length (before ++ (block ++ rest))) (length before + sum_sizes c.fields)
          ≡ false =
        ground (arith, l, length-append before (block ++ rest), length-append block rest) in
      let cut : byte_slice (before ++ (block ++ rest)) (length before)
            (length before + sum_sizes c.fields)
          ≡ block =
        ap (λ n. byte_slice (before ++ (block ++ rest)) (length before) (length before + n)) (sym l)
        ∙ slice-middle before block rest in
      rw (fits, cut, w)
        (subst
          (λ zs.
            unpack_blocks md5 (some ecc_attr) zs g (length before + sum_sizes c.fields) st1
            ≡ ok st2)
          (append_assoc before block rest)
          (subst
            (λ n. unpack_blocks md5 (some ecc_attr) ((before ++ block) ++ rest) g n st1 ≡ ok st2)
            end w'))

  unpack_blocks_lem :
      (g : Generator) (before rest : Bytes) (offset : ℕ) (st : OobState)
      → Packed attrs ecc_attr ecc_class [] original md5 g offset rest
      → GenAll (λ c. Shape c.fields) g
      → (st' : OobState) × (unpack_blocks md5 (some ecc_attr) (before ++ rest) g (length before) st
          ≡ ok st')
        × (join st'.only_data
            ≡ join st.only_data ++ pad_take (gen_sum data_of g) (drop offset original))
  unfolding unpack_blocks get_block_size
  unpack_blocks_lem finished before rest offset st h k =
      (st, refl, sym (append_nil (join st.only_data)))
  unpack_blocks_lem (stuck e) before rest offset st h k = absurd h
  unpack_blocks_lem (yields c g) before rest offset st h k =
      let (block, rest', e, l, laid, packed) = h in
      let bd = chunk attrs ecc_attr ecc_class [] original c offset in
      let (st1, w, kept) =
        unpack_block_lem c attrs ecc_attr ecc_class original md5 bd class corrects block st laid
          k.0 in
      let (st2, w', kept') =
        unpack_blocks_lem g (before ++ block) rest' (offset + data_of c) st1 packed k.1 in
      (
        st2,
        subst
            (λ zs.
              unpack_blocks md5 (some ecc_attr) (before ++ zs) (yields c g) (length before) st
              ≡ ok st2)
            (sym e) (unpack_next c g before block rest' st st1 st2 l w w'),
        kept'
            ∙ ap (λ zs. zs ++ pad_take (gen_sum data_of g) (drop (offset + data_of c) original))
                (ap join kept
                  ∙ join-append st.only_data
                      (parts c attrs ecc_attr ecc_class original md5 bd class corrects c.fields)
                  ∙ ap (λ zs. join st.only_data ++ zs) (join-parts c offset))
            ∙ append_assoc (join st.only_data) (pad_take (data_of c) (drop offset original))
                (pad_take (gen_sum data_of g) (drop (offset + data_of c) original))
            ∙ ap
                (λ zs.
                  join st.only_data
                  ++ (pad_take (data_of c) (drop offset original)
                      ++ pad_take (gen_sum data_of g) zs))
                (drop-add offset (data_of c) original)
            ∙ ap (λ zs. join st.only_data ++ zs)
                (sym (pad_take-add (data_of c) (gen_sum data_of g) (drop offset original))),
      )

  -- as many data blocks in the packed region as in the data
  same_count :
      (n : ℕ) (packed : Bytes)
      → Distinct attrs
      → 0 < block_data_len true attrs.data_block_format
      → length packed
        ≡ count_others attrs true (get_block_formats attrs)
          + 1 * (n * block_data_len true attrs.data_block_format)
      → get_num_data_blocks attrs (length packed) true ≡ ok n
  same_count n packed d p l =
      let (m, num, low, least) = (num_data_blocks_lem attrs (length packed) true).0 p in
      let le : m ≤ n = least n (omega (arith, l)) in
      let ge : n ≤ m =
        mul_le_cancel n m (block_data_len true attrs.data_block_format) p (omega (arith, low, l)) in
      num ∙ ap ok (the_same m n le ge)

  -- the unpacker, once its loop has run
  unpack_run :
      (packed : Bytes) (g : Generator) (st : OobState)
      → attrs.ecc_attributes ≡ some ecc_attr
      → iterate_formats attrs (length packed) true (get_block_formats attrs) ≡ g
      → unpack_blocks md5
          (some ecc_attr)
          packed
          g
          0
          (record { only_data = []; only_ecc = []; hashes = [] })
        ≡ ok st
      → unpack_oob md5 (some attrs) packed []
        ≡ ok (record {
          logical_data = elim st.only_data [ [] ↦ packed | (x ∷ xs) ↦ join (x ∷ xs) ];
          logical_ecc = some (join st.only_ecc);
          hashes = st.hashes;
        })
  unfolding unpack_oob iterate_through_all_blocks
  unpack_run packed g st given same w = ground (arith, given, same, w)

  -- Data that is not empty comes back as it was packed, followed by zeros that fill the data fields
  -- of the blocks. This holds in a fresh process for blocks of different formats, each with at most
  -- one data field and at most one ECC field after it, into whose fields everything fits; the data
  -- block holds data, and the code corrects what it encoded.
  pub unpack-pack :
      attrs.ecc_attributes ≡ some ecc_attr
      → 0 < block_data_len false attrs.data_block_format
      → 0 < length original
      → Distinct attrs
      → All (BlockFits attrs ecc_attr ecc_class [] original) (get_block_formats attrs)
      → All (λ c. Shape c.fields) (get_block_formats attrs)
      → (packed : Bytes) × (size : ℕ) × (unpacked : UnpackedOob) × (pack md5
            (some attrs)
            []
            original
          ≡ ok packed)
        × (get_total_field_size attrs (length original) FlashFieldType.field_data false ≡ ok size)
        × (length original ≤ size)
        × (unpack_oob md5 (some attrs) packed [] ≡ ok unpacked)
        × (unpacked.logical_data ≡ original ++ zeros (size - length original))
  unfolding get_total_field_size unpack_oob iterate_through_all_blocks block_data_len get_block_size
      join
  unpack-pack given p q d fits shapes =
      let formats = get_block_formats attrs in
      let blocks = iterate_formats attrs (length original) false formats in
      let (n, num, low, least) = (num_data_blocks_lem attrs (length original) false).0 p in
      let (packed, w, l, laid) =
        pack_lem attrs ecc_attr ecc_class [] original md5 given class n num fits in
      let size = gen_sum data_of blocks in
      let total =
        sum_by_count attrs (length original) false n num true formats d.by_fields d.coherent
        ∙ ap
            (λ k.
              count_others attrs true formats
              + k * (n * block_data_len true attrs.data_block_format))
            d.once in
      let all_data =
        sum_by_count attrs (length original) false n num false formats d.by_fields d.coherent
        ∙ ap
            (λ k.
              count_others attrs false formats
              + k * (n * block_data_len false attrs.data_block_format))
            d.once in
      let enough : length original ≤ size = omega (arith, low, all_data) in
      let num' =
        same_count n packed d (omega (arith, p, block_data_le attrs.data_block_format))
          (l ∙ total) in
      let same =
        iterate_formats_eq attrs (length packed) (length original) true false formats
          (num' ∙ sym num) in
      let start : OobState = record { only_data = []; only_ecc = []; hashes = [] } in
      let (st, w', j) =
        unpack_blocks_lem blocks [] packed 0 start laid (
          iterate-GenAll attrs (length original) false n num (λ c. Shape c.fields) formats
            shapes) in
      let padded = pad_take_ge size original enough in
      let held = j ∙ padded in
      (
        packed,
        size,
        record {
          logical_data = elim st.only_data [ [] ↦ packed | (x ∷ xs) ↦ join (x ∷ xs) ];
          logical_ecc = some (join st.only_ecc);
          hashes = st.hashes;
        },
        w,
        total_over_lem attrs (length original) false n num data_of formats,
        enough,
        unpack_run packed blocks st given same w',
        joined st.only_data packed (original ++ zeros (size - length original)) held
            (omega (arith, q, length-append original (zeros (size - length original)))),
      )
