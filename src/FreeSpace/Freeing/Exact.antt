-- ===== src/FreeSpace/Freeing/Exact.antt =====
-- ofrak_core/ofrak/core/free_space.py, `FreeSpaceModifier` and `PartialFreeSpaceModifier`: the patch
-- and the new child cover the freed addresses.
use ofrak.Prelude.{
  ℕ, ◌+◌, ◌-◌, ◌≤◌, ◌<◌, ◌≡◌, refl, Option, none, some, List, [], ◌∷◌, ◌++◌, ok, err, Error, length,
  replicate, arith, length-append, length-replicate, inl, inr, ◌⊎◌, subst, sym, Bool-cases, leb,
  tests,
}
use ofrak.Prelude.Int.{sub_ℕ}
use ofrak.Range.{Range, IsValid, mk_range, range_length, within, from_size, translate}
use ofrak.FreeSpace.{MemoryPermissions}
use ofrak.FreeSpace.Freeing.{
  MemoryRegion, region_end, region_range, region_offset, get_fill, Freed, binary_patch, free_region,
  free_part, overlapping_children,
}

-- The fill fits into so many bytes.
abbrev pub FillFits : ℕ → Option (List ℕ) → Type 0
FillFits n none = Unit
FillFits n (some fill) = length fill ≤ n

get_fill-ok :
    (r : Range) (fill : Option (List ℕ))
    → FillFits (range_length r) fill
    → (bytes : List ℕ) × (get_fill r fill ≡ ok bytes) × (length bytes ≡ range_length r)
unfolding get_fill range_length
get_fill-ok r none h =
    (replicate (r.end - r.start) 0, refl, length-replicate {A = ℕ} (r.end - r.start) 0)
get_fill-ok r (some []) h =
    (replicate (r.end - r.start) 0, refl, length-replicate {A = ℕ} (r.end - r.start) 0)
get_fill-ok r (some (b ∷ fill)) h =
    let zeros : List ℕ = replicate (r.end - r.start - length (b ∷ fill)) 0 in
    (
      (b ∷ fill) ++ zeros,
      ground arith,
      omega (
        arith,
        length-append (b ∷ fill) zeros,
        length-replicate {A = ℕ} (r.end - r.start - length (b ∷ fill)) 0,
      ),
    )

-- A fill that is longer than the freed range is refused.
get_fill-err :
    (r : Range) (fill : List ℕ)
    → range_length r < length fill
    → get_fill r (some fill) ≡ err Error.value_error
unfolding get_fill
get_fill-err r [] h = absurd (omega arith)
get_fill-err r (b ∷ fill) h = ground arith

patch_queued :
    (size offset : ℕ) (bytes : List ℕ)
    → offset + length bytes ≤ size
    → (r : Range) × (binary_patch size offset bytes ≡ ok r)
unfolding binary_patch from_size mk_range
patch_queued size offset bytes h =
    (record { start = offset; end = offset + length bytes }, ground arith)

patch_overflows :
    (size offset : ℕ) (bytes : List ℕ)
    → size < offset + length bytes
    → binary_patch size offset bytes ≡ err Error.modifier_error
unfolding binary_patch
patch_overflows size offset bytes h = ground arith

-- Freeing part of a region returns for every range of positive size within the region and every fill
-- that fits. The patch starts where the range starts in the region and is as long as the range, and
-- the new child has the range's addresses and the patch's data.
pub free_part_exact :
    (region : MemoryRegion) (children : List MemoryRegion) (r : Range) (p : MemoryPermissions)
    (fill : Option (List ℕ))
    → r.start < r.end
    → region.virtual_address ≤ r.start
    → r.end ≤ region_end region
    → FillFits (range_length r) fill
    → (out : Freed) × (free_part region children r p fill ≡ ok out)
      × (out.patch_offset + region.virtual_address ≡ r.start)
      × (length out.patch_bytes ≡ range_length r)
      × (out.data_range.start ≡ out.patch_offset)
      × (out.data_range.end ≡ out.patch_offset + range_length r)
      × (out.virtual_address ≡ r.start)
      × (out.virtual_address + out.size ≡ r.end)
unfolding free_part region_range region_offset region_end within from_size mk_range range_length
free_part_exact region children r p fill n low high f =
    let (bytes, e, l) = get_fill-ok r fill f in
    let (_, q) =
      patch_queued region.size (r.start - region.virtual_address) bytes (omega (arith, l)) in
    (
      record {
        deleted = overlapping_children children r;
        parent_id = region.resource_id;
        patch_offset = r.start - region.virtual_address;
        patch_bytes = bytes;
        virtual_address = r.start;
        size = r.end - r.start;
        permissions = p;
        data_range = record {
          start = r.start - region.virtual_address;
          end = r.start - region.virtual_address + (r.end - r.start);
        };
      },
      ground (arith, e, q),
      omega arith,
      l,
      refl,
      refl,
      refl,
      omega arith,
    )

-- Freeing part of a region is refused for a range that is not within the region, and for a fill that
-- is longer than the range.
free_part_refused :
    (region : MemoryRegion) (children : List MemoryRegion) (r : Range) (p : MemoryPermissions)
    (fill : List ℕ)
    → ((r.start < region.virtual_address) ⊎ (region_end region < r.end)
        → free_part region children r p (some fill) ≡ err Error.modifier_error)
      × (r.start < r.end
          → region.virtual_address ≤ r.start
          → r.end ≤ region_end region
          → range_length r < length fill
          → free_part region children r p (some fill) ≡ err Error.value_error)
unfolding free_part region_range region_offset region_end within from_size mk_range range_length
free_part_refused region children r p fill = (
  λ h. elim h [ inl low ↦ ground arith | inr high ↦ ground arith ],
  λ n low high long. ground (arith, get_fill-err r fill long),
)

-- A range moved down to an offset.
translate_down :
    (r : Range) (n : ℕ)
    → IsValid r
    → n ≤ r.start
    → translate r (sub_ℕ n r.start) ≡ ok (record { start = n; end = n + (r.end - r.start) })
unfolding translate mk_range
translate_down r n v h = elim (Bool-cases (leb r.start n)) [
  | inl e ↦ let z : n - r.start ≡ 0 = omega (tests, e) in rw (e, z) (ground arith)
  | inr e ↦ rw e (ground arith)
]

-- what `FreeSpaceModifier` asks for, for a region at an offset of its parent
abbrev freed_at : ℕ → MemoryRegion → MemoryRegion → MemoryPermissions → List ℕ → Freed
freed_at offset region parent p bytes = record {
  deleted = region.resource_id ∷ [];
  parent_id = parent.resource_id;
  patch_offset = offset;
  patch_bytes = bytes;
  virtual_address = region.virtual_address;
  size = region.size;
  permissions = p;
  data_range = record { start = offset; end = offset + region.size };
}

-- Freeing a whole region, with a fill that fits, returns where the region lies inside its parent and
-- starts before the parent ends. The patch is as long as the region, and it and the new child's data
-- lie in the parent's data where the region lies in the parent's addresses; the new child has the
-- region's addresses. A region that starts inside its parent and ends behind it is refused, and so
-- is one that does not start inside it.
pub free_region_exact :
    (region parent : MemoryRegion) (p : MemoryPermissions) (fill : Option (List ℕ))
    → FillFits region.size fill
    → (parent.virtual_address ≤ region.virtual_address
        → region.virtual_address < region_end parent
        → region_end region ≤ region_end parent
        → (out : Freed) × (free_region region parent p fill ≡ ok out)
          × (out.patch_offset + parent.virtual_address ≡ region.virtual_address)
          × (length out.patch_bytes ≡ region.size)
          × (out.data_range.start ≡ out.patch_offset)
          × (out.data_range.end ≡ out.patch_offset + region.size)
          × (out.virtual_address ≡ region.virtual_address)
          × (out.size ≡ region.size))
      × (parent.virtual_address ≤ region.virtual_address
          → region.virtual_address < region_end parent
          → region_end parent < region_end region
          → free_region region parent p fill ≡ err Error.modifier_error)
      × ((region.virtual_address < parent.virtual_address)
            ⊎ (region_end parent ≤ region.virtual_address)
          → free_region region parent p fill ≡ err Error.value_error)
unfolding free_region region_offset region_end mk_range range_length
free_region_exact region parent p fill f =
    let whole : Range = record {
      start = region.virtual_address;
      end = region.virtual_address + region.size;
    } in
    let fits : range_length whole ≡ region.size = omega arith in
    let (bytes, e, l) = get_fill-ok whole fill (subst (λ n. FillFits n fill) (sym fits) f) in
    let offset = region.virtual_address - parent.virtual_address in
    let moved = translate_down whole offset in
    (
      λ low high inside.
          let (r, q) = patch_queued parent.size offset bytes (omega (arith, l)) in
          (
            freed_at offset region parent p bytes,
            ground (arith, e, moved, q),
            omega arith,
            omega (arith, l),
            refl,
            refl,
            refl,
            refl,
          ),
      λ low high behind.
          let q = patch_overflows parent.size offset bytes (omega (arith, l)) in
          ground (arith, e, moved, q),
      λ out. elim out [ inl low ↦ ground (arith, e) | inr high ↦ ground (arith, e) ],
    )
