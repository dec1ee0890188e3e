-- ===== src/FreeSpace/Freeing.antt =====
-- ofrak_core/ofrak/core/free_space.py, `_get_fill`, `FreeSpaceModifier` and
-- `PartialFreeSpaceModifier`: what they do to make a memory region free space. The patch is what
-- they hand to `BinaryPatchModifier` (ofrak_core/ofrak/core/binary.py). The data of a memory region
-- is as long as its size says.
pub mod Exact
use ofrak.Prelude.{
  ℕ, ◌+◌, ◌-◌, ◌*◌, ◌≤◌, ◌<◌, ◌≡◌, refl, Bool, true, false, ◌&&◌, Option, none, some, List, [], ◌∷◌,
  ◌++◌, Result, ok, err, Error, ◌>>=◌, ◌>>◌, guard, ltb, leb, if◌then◌else◌, length, replicate, map,
  arith, length-append, length-replicate, All,
}
use ofrak.Prelude.Int.{sub_ℕ}
use ofrak.Range.{Range, IsValid, mk_range, range_length, within, from_size, translate}
use ofrak.FreeSpace.{MemoryPermissions}

-- A `MemoryRegion` view with the id of its resource.
pub record MemoryRegion : Type 0 where
  pub resource_id : ℕ
  pub virtual_address : ℕ
  pub size : ℕ

unfoldable pub region_end : MemoryRegion → ℕ
region_end region = region.virtual_address + region.size

unfoldable pub region_range : MemoryRegion → Result Range
region_range region = from_size region.virtual_address region.size

unfoldable pub region_offset : MemoryRegion → ℕ → Result ℕ
unfolding region_end
region_offset region vaddr =
    if leb region.virtual_address vaddr && ltb vaddr (region_end region)
    then ok (vaddr - region.virtual_address)
    else err Error.value_error

unfoldable pub get_fill : Range → Option (List ℕ) → Result (List ℕ)
unfolding range_length
get_fill freed_range none = ok (replicate (range_length freed_range) 0)
get_fill freed_range (some []) = ok (replicate (range_length freed_range) 0)
get_fill freed_range (some (b ∷ fill)) =
    if ltb (range_length freed_range) (length (b ∷ fill))
    then err Error.value_error
    else ok ((b ∷ fill) ++ replicate (range_length freed_range - length (b ∷ fill)) 0)

-- What is asked of the services: the resources to delete, the patch of the parent's data, and the
-- new `FreeSpace` child of the parent with its range in the parent's data.
pub record Freed : Type 0 where
  pub deleted : List ℕ
  pub parent_id : ℕ
  pub patch_offset : ℕ
  pub patch_bytes : List ℕ
  pub virtual_address : ℕ
  pub size : ℕ
  pub permissions : MemoryPermissions
  pub data_range : Range

-- `BinaryPatchModifier.modify`, on a resource of a size: what is queued
unfoldable pub binary_patch : ℕ → ℕ → List ℕ → Result Range
unfolding from_size
binary_patch resource_size offset patch_bytes =
    if ltb resource_size (offset + length patch_bytes)
    then err Error.modifier_error
    else from_size offset (length patch_bytes)

-- `FreeSpaceModifier.modify`, on a region and its parent
unfoldable pub free_region :
    MemoryRegion → MemoryRegion → MemoryPermissions → Option (List ℕ) → Result Freed
unfolding mk_range
free_region region parent permissions fill = do
  freed_range ← mk_range region.virtual_address (region.virtual_address + region.size)
  patch_bytes ← get_fill freed_range fill
  patch_offset ← region_offset parent freed_range.start
  patch_range ← translate freed_range (sub_ℕ patch_offset freed_range.start)
  queued ← binary_patch parent.size patch_offset patch_bytes
  ok (record {
    deleted = region.resource_id ∷ [];
    parent_id = parent.resource_id;
    patch_offset = patch_offset;
    patch_bytes = patch_bytes;
    virtual_address = region.virtual_address;
    size = region.size;
    permissions = permissions;
    data_range = patch_range;
  })

-- `_find_and_delete_overlapping_children`: the children that the two range filters let through
unfoldable pub overlapping_children : List MemoryRegion → Range → List ℕ
unfolding region_end
overlapping_children [] freed_range = []
overlapping_children (child ∷ children) freed_range =
    let rest = overlapping_children children freed_range in
    if ltb child.virtual_address freed_range.end && leb freed_range.start (region_end child)
    then child.resource_id ∷ rest
    else rest

-- `PartialFreeSpaceModifier.modify`, on a region with its children that are memory regions
unfoldable pub free_part :
    MemoryRegion → List MemoryRegion → Range → MemoryPermissions → Option (List ℕ) → Result Freed
free_part region children freed_range permissions fill = do
  whole ← region_range region
  guard (within freed_range whole) Error.modifier_error
  patch_offset ← region_offset region freed_range.start
  patch_range ← from_size patch_offset (range_length freed_range)
  patch_bytes ← get_fill freed_range fill
  queued ← binary_patch region.size patch_offset patch_bytes
  ok (record {
    deleted = overlapping_children children freed_range;
    parent_id = region.resource_id;
    patch_offset = patch_offset;
    patch_bytes = patch_bytes;
    virtual_address = freed_range.start;
    size = range_length freed_range;
    permissions = permissions;
    data_range = patch_range;
  })
