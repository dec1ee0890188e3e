-- ===== src/Flash.antt =====
-- ofrak_core/ofrak/core/flash.py: the description of a flash memory, whose blocks hold the data and
-- the out-of-band (OOB) fields.
pub mod Format
pub mod Blocks
pub mod Pack
pub mod Unpack
pub mod Region
use ofrak.Prelude.{ℕ, Bool, ◌&&◌, true, false, Option, List, [], ◌∷◌, ◌==◌, Result}
use ofrak.Prelude.Bytes.{Bytes}

pub data FlashFieldType : Type 0 where
  field_data field_ecc field_alignment field_magic : FlashFieldType
  field_data_size field_ecc_size field_checksum field_delimiter field_total_size : FlashFieldType

-- the value of the member of the enumeration
abbrev pub field_value : FlashFieldType → ℕ
field_value FlashFieldType.field_data = 0
field_value FlashFieldType.field_ecc = 1
field_value FlashFieldType.field_alignment = 2
field_value FlashFieldType.field_magic = 3
field_value FlashFieldType.field_data_size = 4
field_value FlashFieldType.field_ecc_size = 5
field_value FlashFieldType.field_checksum = 6
field_value FlashFieldType.field_delimiter = 7
field_value FlashFieldType.field_total_size = 8

-- `a is b` and `a == b` on members
abbrev pub same_type : FlashFieldType → FlashFieldType → Bool
same_type a b = field_value a == field_value b

pub record FlashField : Type 0 where
  pub field_type : FlashFieldType
  pub size : ℕ

-- A list of fields is an object: `is` compares the references, `==` the fields.
pub record BlockFormat : Type 0 where
  pub reference : ℕ
  pub fields : List FlashField

abbrev pub same_object : BlockFormat → BlockFormat → Bool
same_object a b = a.reference == b.reference

unfoldable pub fields_eq : List FlashField → List FlashField → Bool
fields_eq [] [] = true
fields_eq [] (g ∷ gs) = false
fields_eq (f ∷ fs) [] = false
fields_eq (f ∷ fs) (g ∷ gs) =
    (same_type f.field_type g.field_type && f.size == g.size) && fields_eq fs gs

-- `core/ecc/abstract.py`: the two methods of an error correcting code.
pub record EccAlgorithm : Type 0 where
  pub encode : Bytes → Result Bytes
  pub decode : Bytes → Result Bytes

pub record FlashEccAttributes : Type 0 where
  pub ecc_class : Option EccAlgorithm
  pub ecc_magic : Option Bytes
  pub head_delimiter : Option Bytes
  pub first_data_delimiter : Option Bytes
  pub data_delimiter : Option Bytes
  pub last_data_delimiter : Option Bytes
  pub tail_delimiter : Option Bytes

pub record FlashAttributes : Type 0 where
  pub data_block_format : BlockFormat
  pub header_block_format : Option BlockFormat
  pub first_data_block_format : Option BlockFormat
  pub last_data_block_format : Option BlockFormat
  pub tail_block_format : Option BlockFormat
  pub ecc_attributes : Option FlashEccAttributes
  pub checksum_func : Option (Bytes → Bytes)
