-- ===== src/Uf2.antt =====
-- ofrak_core/ofrak/core/uf2.py: the unpacker and the packer of UF2 files. A file is its bytes; a code
-- region is its address with its data. `struct` writes integers of four bytes, the lowest first.
pub mod Blocks
pub mod Loop
pub mod Regions
pub mod RoundTrip
use ofrak.Range.{Range, mk_range}
use ofrak.Prelude.{
  ℕ, zero, suc, ◌+◌, ◌-◌, ◌*◌, ◌/◌, ◌%◌, Bool, true, false, Option, none, some, List, [], ◌∷◌, ◌++◌,
  Result, ok, err, Error, guard, ◌>>=◌, ◌>>◌, ◌==◌, if◌then◌else◌, length, take, drop,
}
use ofrak.Prelude.Bytes.{Bytes, zeros, byte_slice, digits, reversed, from_bytes}
use ofrak.Prelude.Padding.{pad_take}

abbrev pub uf2_magic_start_one : ℕ
uf2_magic_start_one = 171066965

abbrev pub uf2_magic_start_two : ℕ
uf2_magic_start_two = 2656915799

abbrev pub uf2_magic_end : ℕ
uf2_magic_end = 179400496

-- `Uf2Flags`
abbrev pub not_main_flash : ℕ
not_main_flash = 1

abbrev pub file_container : ℕ
file_container = 4096

abbrev pub family_id_present : ℕ
family_id_present = 8192

-- the fields that `struct.unpack` gives
pub record Uf2Block : Type 0 where
  pub magic_start_one : ℕ
  pub magic_start_two : ℕ
  pub flags : ℕ
  pub target_addr : ℕ
  pub payload_size : ℕ
  pub block_no : ℕ
  pub num_blocks : ℕ
  pub family_id : ℕ
  pub payload_data : Bytes
  pub magic_end : ℕ

-- `I`
unfoldable pub pack_int : ℕ → Result Bytes
pack_int n = let d = digits 4 n in if d.1 == 0 then ok d.0 else err Error.struct_error

unfoldable pub pack_ints : List ℕ → Result Bytes
pack_ints [] = ok []
pack_ints (n ∷ ns) = do b ← pack_int n; rest ← pack_ints ns; ok (b ++ rest)

-- `struct.pack("8I476sI", ...)`
unfoldable pub struct_pack : List ℕ → Bytes → ℕ → Result Bytes
struct_pack ints payload end = do
  head ← pack_ints ints
  tail ← pack_int end
  ok (head ++ (pad_take 476 payload ++ tail))

unfoldable pub int_at : ℕ → Bytes → ℕ
int_at i bytes = from_bytes (reversed (byte_slice bytes i (i + 4)))

-- `struct.unpack("8I476sI", data)`
unfoldable pub struct_unpack : Bytes → Result Uf2Block
struct_unpack bytes =
    if length bytes == 512
    then ok (record {
      magic_start_one = int_at 0 bytes;
      magic_start_two = int_at 4 bytes;
      flags = int_at 8 bytes;
      target_addr = int_at 12 bytes;
      payload_size = int_at 16 bytes;
      block_no = int_at 20 bytes;
      num_blocks = int_at 24 bytes;
      family_id = int_at 28 bytes;
      payload_data = byte_slice bytes 32 508;
      magic_end = int_at 508 bytes;
    })
    else err Error.struct_error

-- The regions that were found, the last one first, and what the loop remembers of the blocks: the
-- number that the next block has is `previous_block_no + 1`.
pub record Unpacked : Type 0 where
  pub next_block_no : ℕ
  pub family : Option ℕ
  pub file_num_blocks : Option ℕ
  pub ranges : List (Range × Bytes)

-- `flags & flag`
unfoldable pub has_flag : ℕ → ℕ → Bool
has_flag flag flags = ((flags / flag) % 2) == 1

-- an adjacent range is extended, otherwise a new one is started
unfoldable pub add_payload : ℕ → ℕ → Bytes → List (Range × Bytes) → Result (List (Range × Bytes))
unfolding mk_range
add_payload target_addr payload_size bytes [] = do
  r ← mk_range target_addr (target_addr + payload_size)
  ok ((r, bytes) ∷ [])
add_payload target_addr payload_size bytes ((last, last_data) ∷ ranges) =
    if target_addr == last.end
    then ok (
        (record { start = last.start; end = target_addr + payload_size }, last_data ++ bytes)
        ∷ ranges)
    else do
      r ← mk_range target_addr (target_addr + payload_size)
      ok ((r, bytes) ∷ (last, last_data) ∷ ranges)

-- the flags of a block, and its payload
unfoldable pub unpack_payload : Uf2Block → List (Range × Bytes) → Result (List (Range × Bytes))
unpack_payload block ranges =
    if has_flag not_main_flash block.flags
    then err Error.not_implemented
    else if has_flag file_container block.flags
    then err Error.not_implemented
    else if has_flag family_id_present block.flags
    then add_payload block.target_addr block.payload_size
        (take block.payload_size block.payload_data) ranges
    else err Error.value_error

-- `if not file_num_blocks`
unfoldable pub set_num_blocks : ℕ → Option ℕ → Option ℕ
set_num_blocks num_blocks none = some num_blocks
set_num_blocks num_blocks (some n) = if n == 0 then some num_blocks else some n

-- `if family_id is None`
unfoldable pub check_family : ℕ → Option ℕ → Result ℕ
check_family family_id none = ok family_id
check_family family_id (some known) =
    if known == family_id then ok known else err Error.not_implemented

-- one round of the loop
unfoldable pub unpack_block : Uf2Block → Unpacked → Result Unpacked
unpack_block block u = do
  guard (block.magic_start_one == uf2_magic_start_one) Error.value_error
  guard (block.magic_start_two == uf2_magic_start_two) Error.value_error
  guard (block.magic_end == uf2_magic_end) Error.value_error
  guard (block.block_no == u.next_block_no) Error.value_error
  family_id ← check_family block.family_id u.family
  ranges ← unpack_payload block u.ranges
  ok (record {
    next_block_no = block.block_no + 1;
    family = some family_id;
    file_num_blocks = set_num_blocks block.num_blocks u.file_num_blocks;
    ranges = ranges;
  })

-- `for i in range(0, data_length, 512)`
unfoldable pub unpack_file_blocks : ℕ → ℕ → Bytes → Unpacked → Result Unpacked
unpack_file_blocks zero i bytes u = ok u
unpack_file_blocks (suc rounds) i bytes u = do
  block ← struct_unpack (byte_slice bytes i (i + 512))
  next ← unpack_block block u
  unpack_file_blocks rounds (i + 512) bytes next

unfoldable pub start_unpack : Unpacked
start_unpack = record { next_block_no = 0; family = none; file_num_blocks = none; ranges = [] }

-- `file_num_blocks != (block_no + 1)`, where `block_no` is 0 if there was no block
unfoldable pub num_blocks_fit : Unpacked → Bool
num_blocks_fit u = elim u.file_num_blocks [ none ↦ false | some n ↦ n == u.next_block_no ]

unfoldable pub creation_order : List (Range × Bytes) → List (Range × Bytes)
creation_order [] = []
creation_order (r ∷ ranges) = creation_order ranges ++ (r ∷ [])

-- `if family_id`
unfoldable pub family_attributes : Option ℕ → Option ℕ
family_attributes none = none
family_attributes (some family_id) = if family_id == 0 then none else some family_id

-- the family of the file's attributes, and the code regions that are created
unfoldable pub unpack_file : Bytes → Result (Option ℕ × List (Range × Bytes))
unpack_file bytes = do
  u ← unpack_file_blocks ((length bytes + 511) / 512) 0 bytes start_unpack
  guard (num_blocks_fit u) Error.value_error
  ok (family_attributes u.family, creation_order u.ranges)

-- `for i in range(0, data_length, 256)`
unfoldable pub region_payloads : ℕ → ℕ → ℕ → Bytes → List (ℕ × ℕ × Bytes)
region_payloads zero i addr bytes = []
region_payloads (suc rounds) i addr bytes =
    (addr + i, 256, byte_slice bytes i (i + 256)) ∷ region_payloads rounds (i + 256) addr bytes

unfoldable pub payloads : List (ℕ × Bytes) → List (ℕ × ℕ × Bytes)
payloads [] = []
payloads ((addr, bytes) ∷ regions) =
    region_payloads ((length bytes + 255) / 256) 0 addr bytes ++ payloads regions

-- the loop over the payloads
unfoldable pub pack_payloads : ℕ → ℕ → ℕ → List (ℕ × ℕ × Bytes) → Result Bytes
pack_payloads family_id num_blocks block_no [] = ok []
pack_payloads family_id num_blocks block_no ((target_addr, payload_size, bytes) ∷ rest) = do
  block ←
      struct_pack
        (uf2_magic_start_one ∷ uf2_magic_start_two ∷ family_id_present ∷ target_addr ∷ payload_size
          ∷ block_no ∷ num_blocks ∷ family_id ∷ [])
        (bytes ++ zeros (467 - payload_size)) uf2_magic_end
  blocks ← pack_payloads family_id num_blocks (suc block_no) rest
  ok (block ++ blocks)

unfoldable pub pack_file : ℕ → List (ℕ × Bytes) → Result Bytes
pack_file family_id regions =
    let all = payloads regions in pack_payloads family_id (length all) 0 all
