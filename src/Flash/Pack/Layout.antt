-- ===== src/Flash/Pack/Layout.antt =====
-- What `_build_block` writes, field by field.
use Prim.Native.Nat.{◌^◌}
use ofrak.Flash.{
  FlashFieldType, FlashField, BlockFormat, FlashEccAttributes, FlashAttributes, EccAlgorithm,
}
use ofrak.Flash.Format.{sum_sizes, get_field_length_in_block, get_field_in_block}
use ofrak.Flash.Blocks.{get_total_oob_size, get_total_field_size}
use ofrak.Flash.Pack.{or_nothing, delimiter_of, encode_ecc, build_field, build_fields, build_block}
use ofrak.Prelude.{
  ℕ, ◌+◌, ◌≤◌, ◌<◌, ◌≡◌, refl, sym, ap, ◌∙◌, false, Option, inl, inr, append_nil, append_assoc,
  subst, none, some, List, [], ◌∷◌, ◌++◌, ok, Dict, dict_get, length, length-append, arith,
  Option-cases, length-replicate,
}
use ofrak.Prelude.Bytes.{Bytes, zeros, pad_to, to_bytes_fits, length-pad, pad-pad}

encode_lem :
    (ecc_class : EccAlgorithm) (block ecc : Bytes)
    → ecc_class.encode block ≡ ok ecc
    → encode_ecc ecc_class block ≡ ok ecc
unfolding encode_ecc
encode_lem ecc_class block ecc e = rw (e, encode_ecc) refl

-- one block of some data, built with a cache
module _ (c : BlockFormat) (attrs : FlashAttributes) (ecc_attr : FlashEccAttributes)
    (ecc_class : EccAlgorithm) (hashes : Dict Bytes) (original : Bytes) where
  abbrev pub data_length : ℕ
  data_length = get_field_length_in_block (some c) FlashFieldType.field_data

  -- What a field at an offset is filled with has the size of the field.
  abbrev pub FieldFits : ℕ → FlashField → Type 0
  FieldFits offset f = elim f.field_type [
    | FlashFieldType.field_alignment ↦ Unit
    | FlashFieldType.field_checksum ↦
        length (elim attrs.checksum_func [ none ↦ [] | some checksum ↦ checksum original ]) ≡ f.size
    | FlashFieldType.field_data ↦ data_length ≡ f.size
    | FlashFieldType.field_data_size ↦ length original < 256 ^ f.size
    | FlashFieldType.field_delimiter ↦
        (d : Option Bytes) × (delimiter_of c attrs ecc_attr ≡ ok d)
        × (length (or_nothing d) ≡ f.size)
    | FlashFieldType.field_ecc ↦
        ((block : Bytes)
          → length block ≡ offset
          → (ecc : Bytes) × (ecc_class.encode block ≡ ok ecc) × (length ecc ≡ f.size))
        × ((k : ℕ) (ecc : Bytes) → dict_get k hashes ≡ some ecc → length ecc ≡ f.size)
    | FlashFieldType.field_ecc_size ↦ elim (get_field_in_block (some c) FlashFieldType.field_ecc) [
      | none ↦ f.size ≡ 0
      | some g ↦ g.size < 256 ^ f.size
    ]
    | FlashFieldType.field_total_size ↦
        (oob_size data_size : ℕ) × (get_total_oob_size attrs (length original) false ≡ ok oob_size)
        × (get_total_field_size attrs (length original) FlashFieldType.field_data false
            ≡ ok data_size)
        × (data_size + oob_size < 256 ^ f.size)
    | FlashFieldType.field_magic ↦
        (magic : Bytes) × (ecc_attr.ecc_magic ≡ some magic) × (length magic ≡ f.size)
  ]

  abbrev pub FieldsFit : ℕ → List FlashField → Type 0
  FieldsFit offset [] = Unit
  FieldsFit offset (f ∷ fs) = FieldFits offset f × FieldsFit (offset + f.size) fs

  module _ (md5 : Bytes → ℕ) (block_data : Bytes) where
    -- what stands in the data field and in a fresh ECC field
    abbrev pub Content : FlashField → Bytes → Bytes → Type 0
    Content f block x = elim f.field_type [
      | FlashFieldType.field_data ↦ x ≡ pad_to data_length block_data
      | FlashFieldType.field_ecc ↦
          dict_get (md5 block_data) hashes ≡ none → ecc_class.encode block ≡ ok x
      | _ ↦ Unit
    ]

    -- bytes that are laid out by the fields, after those of the block so far
    abbrev pub Laid : List FlashField → Bytes → Bytes → Type 0
    Laid [] block out = out ≡ []
    Laid (f ∷ fs) block out =
        (x rest : Bytes) × (out ≡ x ++ rest)
        × (length x ≡ f.size)
        × Content f block x
        × Laid fs (block ++ x) rest

    -- a field that is built on the data as it came or as it was padded
    Built : FlashField → Bytes → Bytes → Type 0
    Built f block bd =
        (x bd' : Bytes) × (build_field md5 c attrs ecc_attr ecc_class hashes original
            (md5 block_data) f block bd
          ≡ ok (block ++ x, bd'))
        × (length x ≡ f.size)
        × Content f block x
        × (pad_to data_length bd' ≡ pad_to data_length block_data)

    build_field_lem :
        (t : FlashFieldType) (size : ℕ) (block bd : Bytes)
        → FieldFits (length block) (record { field_type = t; size = size })
        → length block_data ≤ data_length
        → pad_to data_length bd ≡ pad_to data_length block_data
        → Built (record { field_type = t; size = size }) block bd
    unfolding Built build_field
    build_field_lem FlashFieldType.field_alignment size block bd h le e =
        (zeros size, bd, refl, length-replicate size 0, tt, e)
    build_field_lem FlashFieldType.field_checksum size block bd h le e =
        elim (Option-cases attrs.checksum_func) [
          | inl z ↦ ([], bd, rw (z, append_nil block) refl, ground (arith, z, h), tt, e)
          | inr (g, z) ↦ (g original, bd, ground (arith, z), ground (arith, z, h), tt, e)
        ]
    build_field_lem FlashFieldType.field_data size block bd h le e = (
      pad_to data_length bd,
      pad_to data_length bd,
      refl,
      ap length e ∙ length-pad data_length block_data le ∙ h,
      e,
      pad-pad data_length bd ∙ e,
    )
    build_field_lem FlashFieldType.field_data_size size block bd h le e =
        let (xs, w, l) = to_bytes_fits (length original) size h in (xs, bd, rw w refl, l, tt, e)
    build_field_lem FlashFieldType.field_delimiter size block bd h le e =
        let (d, w, l) = h in (or_nothing d, bd, rw w refl, l, tt, e)
    build_field_lem FlashFieldType.field_ecc size block bd h le e =
        elim (Option-cases (dict_get (md5 block_data) hashes)) [
          | inl z ↦
              let (ecc, w, l) = h.0 block refl in
              (ecc, bd, rw (z, encode_lem ecc_class block ecc w) refl, l, λ k. w, e)
          | inr (known, z) ↦ (known, bd, rw z refl, h.1 (md5 block_data) known z, λ k. cc, e)
        ]
    build_field_lem FlashFieldType.field_ecc_size size block bd h le e =
        elim (Option-cases (get_field_in_block (some c) FlashFieldType.field_ecc)) [
          | inl z ↦ ([], bd, ground (arith, z, append_nil block), ground (arith, z, h), tt, e)
          | inr (g, z) ↦
              let (xs, w, l) = to_bytes_fits g.size size (ground (arith, z, h)) in
              (xs, bd, ground (arith, z, w), l, tt, e)
        ]
    build_field_lem FlashFieldType.field_total_size size block bd h le e =
        let (o, d, z, y, lt) = h in
        let (xs, w, l) = to_bytes_fits (d + o) size lt in (xs, bd, rw (z, y, w) refl, l, tt, e)
    build_field_lem FlashFieldType.field_magic size block bd h le e =
        let (magic, w, l) = h in (magic, bd, rw w refl, l, tt, e)

    -- Fields that fit are built, and laid out in their order.
    pub build_fields_lem :
        (fs : List FlashField) (block bd : Bytes)
        → FieldsFit (length block) fs
        → length block_data ≤ data_length
        → pad_to data_length bd ≡ pad_to data_length block_data
        → (out : Bytes) × (build_fields md5 c attrs ecc_attr ecc_class hashes original
              (md5 block_data)
              fs
              block
              bd
            ≡ ok (block ++ out))
          × Laid fs block out
    unfolding build_fields Built
    build_fields_lem [] block bd h le e = ([], rw (append_nil block) refl, refl)
    build_fields_lem (f ∷ fs) block bd h le e =
        let (x, bd', w, l, content, e') = build_field_lem f.field_type f.size block bd h.0 le e in
        let fits =
          subst (λ n. FieldsFit n fs) (sym (length-append block x ∙ ap (λ n. length block + n) l))
            h.1 in
        let (rest, w', laid) = build_fields_lem fs (block ++ x) bd' fits le e' in
        (
          x ++ rest,
          ground (arith, w, w', append_assoc block x rest),
          (x, rest, refl, l, content, laid),
        )

    -- Laid out fields take the bytes of their sizes.
    pub Laid-length :
        (fs : List FlashField) (block out : Bytes) → Laid fs block out → length out ≡ sum_sizes fs
    unfolding sum_sizes
    Laid-length [] block out h = ap length h
    Laid-length (f ∷ fs) block out h =
        let (x, rest, e, l, content, laid) = h in
        ap length e ∙ omega (arith, length-append x rest, l, Laid-length fs (block ++ x) rest laid)

    -- A block whose fields fit is built, as large as its format says, and laid out by it.
    pub build_block_lem :
        attrs.ecc_attributes ≡ some ecc_attr
        → ecc_attr.ecc_class ≡ some ecc_class
        → FieldsFit 0 c.fields
        → length block_data ≤ data_length
        → (out : Bytes) × (build_block md5 c attrs hashes block_data original ≡ ok out)
          × (length out ≡ sum_sizes c.fields)
          × Laid c.fields [] out
    unfolding build_block
    build_block_lem ha hc h le =
        let (out, w, laid) = build_fields_lem c.fields [] block_data h le refl in
        (out, ground (arith, ha, hc, w), Laid-length c.fields [] out laid, laid)
