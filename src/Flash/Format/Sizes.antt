-- ===== src/Flash/Format/Sizes.antt =====
-- The fields of a block: where they stand, and how their sizes add up.
use ofrak.Flash.{FlashFieldType, FlashField, BlockFormat, same_type}
use ofrak.Flash.Format.{
  sum_sizes, get_block_size, find_field, get_field_in_block, field_range_from,
  get_field_range_in_block, get_field_length_in_block, get_oob_size_in_block,
}
use ofrak.Prelude.{
  ℕ, ◌+◌, ◌≤◌, ◌≡◌, refl, ◌⊎◌, inl, inr, true, false, none, some, List, [], ◌∷◌, ◌++◌, arith, All,
  Bool-cases, ap,
}
use ofrak.Range.{range_length}

-- The first field of a type, with the fields before and after it.
record Found (t : FlashFieldType) (offset : ℕ) (fs : List FlashField) : Type 0 where
  before : List FlashField
  field : FlashField
  after : List FlashField
  fields_eq : fs ≡ before ++ (field ∷ after)
  of_type : same_type field.field_type t ≡ true
  first : All (λ g. same_type g.field_type t ≡ false) before
  find_eq : find_field t fs ≡ some field
  range_eq :
      field_range_from t offset fs
      ≡ some (record {
        start = offset + sum_sizes before;
        end = offset + sum_sizes before + field.size;
      })
  bound : sum_sizes before + field.size ≤ sum_sizes fs

NotFound : FlashFieldType → ℕ → List FlashField → Type 0
NotFound t offset fs =
    All (λ g. same_type g.field_type t ≡ false) fs
    × (find_field t fs ≡ none)
    × (field_range_from t offset fs ≡ none)

find_cases :
    (t : FlashFieldType) (offset : ℕ) (fs : List FlashField)
    → NotFound t offset fs ⊎ Found t offset fs
unfolding NotFound find_field field_range_from sum_sizes
find_cases t offset [] = inl (tt, refl, refl)
find_cases t offset (f ∷ fs) = elim (Bool-cases (same_type f.field_type t)) [
  | inl e ↦ inr (record {
    before = [];
    field = f;
    after = fs;
    fields_eq = refl;
    of_type = e;
    first = tt;
    find_eq = ground (arith, e);
    range_eq = ground (arith, e);
    bound = omega arith;
  })
  | inr e ↦ elim (find_cases t (offset + f.size) fs) [
    | inl (a, x, y) ↦ inl ((e, a), ground (arith, e, x), ground (arith, e, y))
    | inr w ↦ inr (record {
      before = f ∷ w.before;
      field = w.field;
      after = w.after;
      fields_eq = ap (λ gs. f ∷ gs) w.fields_eq;
      of_type = w.of_type;
      first = (e, w.first);
      find_eq = ground (arith, e, w.find_eq);
      range_eq = ground (arith, e, w.range_eq);
      bound = omega (arith, w.bound);
    })
  ]
]

-- A format has no field of a type, or a first one. Then that is the field that is found, its range
-- starts after the sizes of the fields before it, has the field's size and stays inside the block.
-- The data of a block and its OOB bytes add up to the block.
pub get_field_exact :
    (c : BlockFormat) (t : FlashFieldType)
    → (((All (λ g. same_type g.field_type t ≡ false) c.fields)
          × (get_field_in_block (some c) t ≡ none)
          × (get_field_range_in_block (some c) t ≡ none)
          × (get_field_length_in_block (some c) t ≡ 0))
        ⊎ ((before : List FlashField) × (f : FlashField) × (after : List FlashField) × (c.fields
              ≡ before ++ (f ∷ after))
            × (same_type f.field_type t ≡ true)
            × (All (λ g. same_type g.field_type t ≡ false) before)
            × (get_field_in_block (some c) t ≡ some f)
            × (get_field_range_in_block (some c) t
                ≡ some (record { start = sum_sizes before; end = sum_sizes before + f.size }))
            × (get_field_length_in_block (some c) t ≡ f.size)
            × (sum_sizes before + f.size ≤ get_block_size (some c))))
      × (get_oob_size_in_block (some c)
            + get_field_length_in_block (some c) FlashFieldType.field_data
          ≡ get_block_size (some c))
unfolding get_field_in_block get_field_range_in_block get_field_length_in_block get_block_size
    get_oob_size_in_block range_length NotFound
get_field_exact c t = (
  elim (find_cases t 0 c.fields) [
    | inl (a, x, y) ↦ inl (a, x, y, ground (arith, y))
    | inr w ↦ inr (
      w.before,
      w.field,
      w.after,
      w.fields_eq,
      w.of_type,
      w.first,
      w.find_eq,
      ground (arith, w.range_eq),
      ground (arith, w.range_eq),
      w.bound,
    )
  ],
  elim (find_cases FlashFieldType.field_data 0 c.fields) [
    | inl (a, x, y) ↦ ground (arith, y)
    | inr w ↦ ground (arith, w.range_eq, w.bound)
  ],
)
