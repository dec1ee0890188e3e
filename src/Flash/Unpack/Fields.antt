-- ===== src/Flash/Unpack/Fields.antt =====
-- One block: what `_build_block` laid out is what the unpacker takes out of it.
use ofrak.Flash.{
  FlashFieldType, FlashField, BlockFormat, FlashEccAttributes, FlashAttributes, EccAlgorithm,
  same_type,
}
use ofrak.Flash.Format.{find_field}
use ofrak.Flash.Unpack.{
  OobState, future_ecc_range, decode_ecc, field_payload, note_ecc, unpack_fields,
}
use ofrak.Flash.Pack.Layout.{data_length, Laid}
use ofrak.Prelude.{
  ℕ, ◌+◌, ◌≤◌, ◌≡◌, refl, sym, ap, ◌∙◌, subst, ◌⊎◌, inl, inr, Bool, Bool-cases, false, Option, none,
  some, List, [], ◌∷◌, ◌++◌, ok, dict_get, length, length-append, append_assoc, append_nil, take,
  take-append, All, count, arith,
}
use ofrak.Prelude.Bytes.{Bytes, byte_slice, pad_to}
use ofrak.Prelude.Padding.{slice-middle}
use ofrak.Range.{Range}

abbrev is_ecc : FlashField → Bool
is_ecc f = same_type f.field_type FlashFieldType.field_ecc

abbrev NoData : List FlashField → Type 0
NoData fs = All (λ f. same_type f.field_type FlashFieldType.field_data ≡ false) fs

-- At most one data field, and at most one ECC field, which stands after the data.
abbrev pub Shape : List FlashField → Type 0
Shape [] = Unit
Shape (f ∷ fs) = elim f.field_type [
  | FlashFieldType.field_data ↦ NoData fs × (count is_ecc fs ≤ 1)
  | FlashFieldType.field_ecc ↦ NoData fs
  | _ ↦ Shape fs
]

-- The collected data stays as it is.
KeepsData : (Bytes → ℕ) → Option FlashEccAttributes → Bytes → List FlashField → Type 0
KeepsData md5 ecc_attr block fs =
    (offset : ℕ) (r : Option Range) (st : OobState)
    → (st' : OobState) × (unpack_fields md5 ecc_attr block fs offset r st ≡ ok st')
      × (st'.only_data ≡ st.only_data)

no_data_step :
    (md5 : Bytes → ℕ) (ecc_attr : Option FlashEccAttributes) (block : Bytes) (t : FlashFieldType)
    (size : ℕ) (fs : List FlashField)
    → same_type t FlashFieldType.field_data ≡ false
    → KeepsData md5 ecc_attr block fs
    → KeepsData md5 ecc_attr block (record { field_type = t; size = size } ∷ fs)
unfolding KeepsData unpack_fields note_ecc
no_data_step md5 ecc_attr block FlashFieldType.field_data size fs h ih offset r st = absurd cc
no_data_step md5 ecc_attr block FlashFieldType.field_ecc size fs h ih offset r st =
    let here : Range = record { start = offset; end = offset + size } in
    ih (offset + size) (some here) (note_ecc md5 block here st)
no_data_step md5 ecc_attr block _ size fs h ih offset r st = ih (offset + size) r st

-- Fields without data leave the collected data as it is.
no_data_lem :
    (md5 : Bytes → ℕ) (ecc_attr : Option FlashEccAttributes) (block : Bytes) (fs : List FlashField)
    → NoData fs
    → KeepsData md5 ecc_attr block fs
unfolding KeepsData unpack_fields
no_data_lem md5 ecc_attr block [] h offset r st = (st, refl, refl)
no_data_lem md5 ecc_attr block (f ∷ fs) h offset r st =
    no_data_step md5 ecc_attr block f.field_type f.size fs h.0
      (no_data_lem md5 ecc_attr block fs h.1) offset r st

find-NoData : (fs : List FlashField) → NoData fs → find_field FlashFieldType.field_data fs ≡ none
unfolding find_field
find-NoData [] h = refl
find-NoData (f ∷ fs) h = rw h.0 (find-NoData fs h.1)

-- no ECC field: the range that was known stays
no_ecc_lem :
    (fs : List FlashField) (offset : ℕ) (known : Option Range)
    → count is_ecc fs ≤ 0
    → future_ecc_range fs offset known ≡ known
unfolding future_ecc_range
no_ecc_lem [] offset known h = refl
no_ecc_lem (f ∷ fs) offset known h = elim (Bool-cases (is_ecc f)) [
  | inl e ↦ absurd (ground (arith, e, h))
  | inr e ↦ rw e (no_ecc_lem fs (offset + f.size) known (ground (arith, e, h)))
]

module _ (c : BlockFormat) (attrs : FlashAttributes) (ecc_attr : FlashEccAttributes)
    (ecc_class : EccAlgorithm) (original : Bytes) (md5 : Bytes → ℕ) (block_data : Bytes)
    (class : ecc_attr.ecc_class ≡ some ecc_class)
    (corrects : (p e : Bytes) → ecc_class.encode p ≡ ok e → ecc_class.decode (p ++ e) ≡ ok p) where
  abbrev LaidOut : List FlashField → Bytes → Bytes → Type 0
  LaidOut fs pre out = Laid c attrs ecc_attr ecc_class [] original md5 block_data fs pre out

  -- The ECC that comes in the fields, with the bytes before it.
  EccAhead : Bytes → Bytes → Option Range → Type 0
  EccAhead pre out r =
      (y e q : Bytes) × (out ≡ y ++ (e ++ q))
      × (r ≡ some (record { start = length (pre ++ y); end = length (pre ++ y) + length e }))
      × (ecc_class.encode (pre ++ y) ≡ ok e)

  Ahead : List FlashField → Type 0
  Ahead fs =
      (pre out : Bytes) (known : Option Range)
      → LaidOut fs pre out
      → count is_ecc fs ≤ 1
      → (future_ecc_range fs (length pre) known ≡ known)
        ⊎ EccAhead pre out (future_ecc_range fs (length pre) known)

  past : (pre x : Bytes) (size : ℕ) → length x ≡ size → length (pre ++ x) ≡ length pre + size
  past pre x size l = length-append pre x ∙ ap (λ n. length pre + n) l

  -- A field before the one that holds the ECC.
  EccAhead-cons :
      (pre x rest : Bytes) (r : Option Range)
      → EccAhead (pre ++ x) rest r
      → EccAhead pre (x ++ rest) r
  unfolding EccAhead
  EccAhead-cons pre x rest r h =
      let (y, e, q, split, at, encoded) = h in
      let same = append_assoc pre x y in
      (
        x ++ y,
        e,
        q,
        ap (λ zs. x ++ zs) split ∙ sym (append_assoc x y (e ++ q)),
        subst (λ zs. r ≡ some (record { start = length zs; end = length zs + length e })) same at,
        subst (λ zs. ecc_class.encode zs ≡ ok e) same encoded,
      )

  ecc_after_step :
      (t : FlashFieldType) (size : ℕ) (fs : List FlashField)
      → Ahead fs
      → Ahead (record { field_type = t; size = size } ∷ fs)
  unfolding Ahead EccAhead future_ecc_range dict_get
  ecc_after_step FlashFieldType.field_ecc size fs ih pre out known h le =
      let (x, rest, e, l, content, laid) = h in
      let r : Range = record { start = length pre; end = length pre + size } in
      inr (
        [],
        x,
        rest,
        e,
        no_ecc_lem fs (length pre + size) (some r) (ground (arith, le))
            ∙ rw (append_nil pre, l) refl,
        rw (append_nil pre) (content refl),
      )
  ecc_after_step _ size fs ih pre out known h le =
      let (x, rest, e, l, content, laid) = h in
      subst
        (λ zs.
          (future_ecc_range fs (length pre + size) known ≡ known)
          ⊎ EccAhead pre zs (future_ecc_range fs (length pre + size) known))
        (sym e)
        (elim (subst
          (λ n.
            (future_ecc_range fs n known ≡ known)
            ⊎ EccAhead (pre ++ x) rest (future_ecc_range fs n known))
          (past pre x size l) (ih (pre ++ x) rest known laid (ground (arith, le)))) [
            | inl z ↦ inl z
            | inr z ↦
                inr (EccAhead-cons pre x rest (future_ecc_range fs (length pre + size) known) z)
          ])

  ecc_after : (fs : List FlashField) → Ahead fs
  unfolding Ahead future_ecc_range
  ecc_after [] pre out known h le = inl refl
  ecc_after (f ∷ fs) pre out known h le =
      ecc_after_step f.field_type f.size fs (ecc_after fs) pre out known h le

  decode_lem :
      (p e : Bytes) → ecc_class.encode p ≡ ok e → decode_ecc (some ecc_attr) (p ++ e) ≡ ok p
  unfolding decode_ecc
  decode_lem p e w = ground (arith, class, corrects p e w)

  -- A data field, with the ECC that is ahead or without one, is read as it was written.
  payload_lem :
      (pre x rest : Bytes) (r : Option Range)
      → (r ≡ none) ⊎ EccAhead (pre ++ x) rest r
      → field_payload
          (some ecc_attr)
          (pre ++ (x ++ rest))
          (record { start = length pre; end = length pre + length x })
          r
        ≡ ok x
  unfolding field_payload EccAhead
  payload_lem pre x rest r (inl z) = rw z (ap ok (slice-middle pre x rest))
  payload_lem pre x rest r (inr (y, e, q, split, at, encoded)) =
      let p = (pre ++ x) ++ y in
      let whole : (p ++ e) ++ q ≡ pre ++ (x ++ rest) =
        append_assoc p e q
        ∙ append_assoc (pre ++ x) y (e ++ q)
        ∙ ap (λ zs. (pre ++ x) ++ zs) (sym split)
        ∙ append_assoc pre x rest in
      let cut : take (length p + length e) (pre ++ (x ++ rest)) ≡ p ++ e =
        ap (λ n. take n (pre ++ (x ++ rest))) (sym (length-append p e))
        ∙ ap (take (length (p ++ e))) (sym whole)
        ∙ take-append (p ++ e) q in
      let read : byte_slice p (length pre) (length pre + length x) ≡ x =
        ap (λ zs. byte_slice zs (length pre) (length pre + length x)) (append_assoc pre x y)
        ∙ slice-middle pre x y in
      rw (at, cut, decode_lem p e encoded) (ap ok read)

  -- what a block adds to the collected data
  abbrev pub parts : List FlashField → List Bytes
  parts fs = elim (find_field FlashFieldType.field_data fs) [
    | none ↦ []
    | some f ↦ pad_to (data_length c attrs ecc_attr ecc_class [] original) block_data ∷ []
  ]

  Unpacks : List FlashField → Type 0
  Unpacks fs =
      (pre out : Bytes) (st : OobState)
      → LaidOut fs pre out
      → Shape fs
      → (st' : OobState) × (unpack_fields md5 (some ecc_attr) (pre ++ out) fs (length pre) none st
          ≡ ok st')
        × (st'.only_data ≡ st.only_data ++ parts fs)

  Unpacks-step :
      (t : FlashFieldType) (size : ℕ) (fs : List FlashField)
      → Unpacks fs
      → Unpacks (record { field_type = t; size = size } ∷ fs)
  unfolding Unpacks unpack_fields find_field future_ecc_range KeepsData note_ecc Ahead
  Unpacks-step FlashFieldType.field_data size fs ih pre out st h shape =
      let (x, rest, e, l, content, laid) = h in
      let r : Range = record { start = length pre; end = length pre + size } in
      let ahead = future_ecc_range fs (length pre + size) none in
      let paid : field_payload (some ecc_attr) (pre ++ out) r ahead ≡ ok x =
        subst (λ zs. field_payload (some ecc_attr) (pre ++ zs) r ahead ≡ ok x) (sym e)
          (subst
            (λ n.
              field_payload (some ecc_attr) (pre ++ (x ++ rest))
                (record { start = length pre; end = length pre + n }) ahead
              ≡ ok x)
            l
            (payload_lem pre x rest ahead (
              subst
                (λ n.
                  (future_ecc_range fs n none ≡ none)
                  ⊎ EccAhead (pre ++ x) rest (future_ecc_range fs n none))
                (past pre x size l) (ecc_after fs (pre ++ x) rest none laid shape.1)))) in
      let (st', w, kept) =
        no_data_lem md5 (some ecc_attr) (pre ++ out) fs shape.0 (length pre + size) ahead (record {
          only_data = st.only_data ++ (x ∷ []);
          only_ecc = st.only_ecc;
          hashes = st.hashes;
        }) in
      (st', rw (paid, w) refl, kept ∙ ap (λ z. st.only_data ++ (z ∷ [])) content)
  Unpacks-step FlashFieldType.field_ecc size fs ih pre out st h shape =
      let here : Range = record { start = length pre; end = length pre + size } in
      let (st', w, kept) =
        no_data_lem md5 (some ecc_attr) (pre ++ out) fs shape (length pre + size) (some here)
          (note_ecc md5 (pre ++ out) here st) in
      (st', w, rw (find-NoData fs shape) (kept ∙ sym (append_nil st.only_data)))
  Unpacks-step _ size fs ih pre out st h shape =
      let (x, rest, e, l, content, laid) = h in
      let (st', w, kept) = ih (pre ++ x) rest st laid shape in
      (
        st',
        subst (λ zs. unpack_fields md5 (some ecc_attr) zs fs (length pre + size) none st ≡ ok st')
            (append_assoc pre x rest ∙ ap (λ zs. pre ++ zs) (sym e))
            (subst
              (λ n. unpack_fields md5 (some ecc_attr) ((pre ++ x) ++ rest) fs n none st ≡ ok st')
              (past pre x size l) w),
        kept,
      )

  Unpacks-all : (fs : List FlashField) → Unpacks fs
  unfolding Unpacks unpack_fields find_field
  Unpacks-all [] pre out st h shape = (st, refl, sym (append_nil st.only_data))
  Unpacks-all (f ∷ fs) pre out st h shape =
      Unpacks-step f.field_type f.size fs (Unpacks-all fs) pre out st h shape

  -- A block that is laid out gives its padded data back.
  pub unpack_block_lem :
      (out : Bytes) (st : OobState)
      → LaidOut c.fields [] out
      → Shape c.fields
      → (st' : OobState) × (unpack_fields md5 (some ecc_attr) out c.fields 0 none st ≡ ok st')
        × (st'.only_data ≡ st.only_data ++ parts c.fields)
  unfolding Unpacks
  unpack_block_lem out st h shape = Unpacks-all c.fields [] out st h shape
