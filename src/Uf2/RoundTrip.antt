-- ===== src/Uf2/RoundTrip.antt =====
-- Packing and unpacking: `Uf2Unpacker` after `Uf2FilePacker`.
use ofrak.Range.{Range}
use ofrak.Uf2.{
  Unpacked, unpack_file_blocks, start_unpack, num_blocks_fit, creation_order, family_attributes,
  unpack_file, region_payloads, payloads, pack_file, check_family, set_num_blocks,
}
use ofrak.Uf2.Loop.{IsPayload, stepped, after, Ready, unpack_file_blocks-pack_payloads}
use ofrak.Uf2.Regions.{
  placed_all, placed_all-append, region_payloads_fit, piece, EndsElsewhere, rounds_lem,
  region_placed,
}
use ofrak.Prelude.{
  ℕ, zero, suc, ◌+◌, ◌*◌, ◌/◌, ◌≤◌, ◌<◌, ◌≡◌, refl, sym, ap, ◌∙◌, true, false, none, some, List, [],
  ◌∷◌, ◌++◌, map, ok, length, length-append, All, All-append, ◌==◌, if◌then◌else◌, append_assoc,
  append_nil, arith,
}
use ofrak.Prelude.Bytes.{Bytes}

-- A region of whole payloads, at least one, inside the addresses of 32 bits.
abbrev IsRegion : ℕ × Bytes → Type 0
IsRegion (addr, bytes) =
    ((n : ℕ) × (length bytes ≡ 256 * suc n)) × (addr + length bytes ≤ 4294967296)

-- No region starts where the one before it ends.
abbrev NotAt : ℕ → List (ℕ × Bytes) → Type 0
NotAt end [] = Unit
NotAt end ((addr, bytes) ∷ regions) = (addr == end) ≡ false

abbrev pub Apart : List (ℕ × Bytes) → Type 0
Apart [] = Unit
Apart ((addr, bytes) ∷ regions) = NotAt (addr + length bytes) regions × Apart regions

abbrev pub as_child : ℕ × Bytes → Range × Bytes
as_child (addr, bytes) = piece addr (addr + length bytes) bytes

-- the ranges, the last one first
abbrev onto : List (ℕ × Bytes) → List (Range × Bytes) → List (Range × Bytes)
onto [] ranges = ranges
onto (r ∷ regions) ranges = onto regions (as_child r ∷ ranges)

creation_order-onto :
    (regions : List (ℕ × Bytes)) (ranges : List (Range × Bytes))
    → creation_order (onto regions ranges) ≡ creation_order ranges ++ map as_child regions
unfolding creation_order
creation_order-onto [] ranges = sym (append_nil (creation_order ranges))
creation_order-onto (r ∷ regions) ranges =
    creation_order-onto regions (as_child r ∷ ranges)
    ∙ append_assoc (creation_order ranges) (as_child r ∷ []) (map as_child regions)

-- the first region does not start where the ranges end
abbrev Starts : List (ℕ × Bytes) → List (Range × Bytes) → Type 0
Starts [] ranges = Unit
Starts ((addr, bytes) ∷ regions) ranges = EndsElsewhere addr ranges

next_elsewhere :
    (addr : ℕ) (bytes : Bytes) (regions : List (ℕ × Bytes)) (ranges : List (Range × Bytes))
    → NotAt (addr + length bytes) regions
    → Starts regions (as_child (addr, bytes) ∷ ranges)
next_elsewhere addr bytes [] ranges h = tt
next_elsewhere addr bytes ((next, b) ∷ regions) ranges h = h

payloads_placed :
    (regions : List (ℕ × Bytes)) (ranges : List (Range × Bytes))
    → All IsRegion regions
    → Apart regions
    → Starts regions ranges
    → placed_all (payloads regions) ranges ≡ onto regions ranges
unfolding payloads
payloads_placed [] ranges all apart new = refl
payloads_placed ((addr, bytes) ∷ regions) ranges all apart new =
    placed_all-append (region_payloads ((length bytes + 255) / 256) 0 addr bytes) (payloads regions)
      ranges
    ∙ ap (placed_all (payloads regions)) (region_placed all.0.0.0 addr bytes ranges all.0.0.1 new)
    ∙ payloads_placed regions (as_child (addr, bytes) ∷ ranges) all.1 apart.1
        (next_elsewhere addr bytes regions ranges apart.0)

payloads_fit :
    (regions : List (ℕ × Bytes)) → All IsRegion regions → All IsPayload (payloads regions)
unfolding payloads
payloads_fit [] all = tt
payloads_fit ((addr, bytes) ∷ regions) all =
    let ((n, size), fit) = all.0 in
    All-append IsPayload (region_payloads ((length bytes + 255) / 256) 0 addr bytes)
      (payloads regions)
      (region_payloads_fit ((length bytes + 255) / 256) 0 addr bytes (omega arith) fit)
      (payloads_fit regions all.1)

after-ranges :
    (family num : ℕ) (ps : List (ℕ × ℕ × Bytes)) (u : Unpacked)
    → (after family num ps u).ranges ≡ placed_all ps u.ranges
after-ranges family num [] u = refl
after-ranges family num ((t, s, d) ∷ ps) u =
    after-ranges family num ps (stepped family num (t, s, d) u)

after-next :
    (family num : ℕ) (ps : List (ℕ × ℕ × Bytes)) (u : Unpacked)
    → (after family num ps u).next_block_no ≡ u.next_block_no + length ps
after-next family num [] u = omega arith
after-next family num (p ∷ ps) u = omega (arith, after-next family num ps (stepped family num p u))

-- the family and the number of blocks are known, and stay
after-known :
    (family num : ℕ) (ps : List (ℕ × ℕ × Bytes)) (u : Unpacked)
    → u.family ≡ some family
    → u.file_num_blocks ≡ some num
    → ((after family num ps u).family ≡ some family)
      × ((after family num ps u).file_num_blocks ≡ some num)
after-known family num [] u f n = (f, n)
after-known family num (p ∷ ps) u f n = after-known family num ps (stepped family num p u) refl refl

after_some :
    (family num : ℕ) (ps : List (ℕ × ℕ × Bytes)) (u : Unpacked)
    → 0 < length ps
    → ((after family num ps u).family ≡ some family)
      × ((after family num ps u).file_num_blocks ≡ some num)
after_some family num [] u h = absurd (omega arith)
after_some family num (p ∷ ps) u h = after-known family num ps (stepped family num p u) refl refl

length-region_payloads :
    (k i addr : ℕ) (bytes : Bytes) → length (region_payloads k i addr bytes) ≡ k
unfolding region_payloads
length-region_payloads zero i addr bytes = refl
length-region_payloads (suc k) i addr bytes = ap suc (length-region_payloads k (i + 256) addr bytes)

payloads_some :
    (region : ℕ × Bytes) (regions : List (ℕ × Bytes))
    → IsRegion region
    → 0 < length (payloads (region ∷ regions))
unfolding payloads
payloads_some (addr, bytes) regions h =
    let first = region_payloads ((length bytes + 255) / 256) 0 addr bytes in
    omega (
      arith,
      length-append first (payloads regions),
      length-region_payloads ((length bytes + 255) / 256) 0 addr bytes,
      rounds_lem h.0.0 (length bytes) h.0.1,
    )

start-Ready : (family num : ℕ) → Ready family num start_unpack
unfolding start_unpack check_family set_num_blocks
start-Ready family num = (refl, refl)

start_fields : (start_unpack.next_block_no ≡ 0) × (start_unpack.ranges ≡ [])
unfolding start_unpack
start_fields = (refl, refl)

fits :
    (u : Unpacked) (num : ℕ)
    → u.file_num_blocks ≡ some num
    → num ≡ u.next_block_no
    → num_blocks_fit u ≡ true
unfolding num_blocks_fit
fits u num total numbered = rw total (ground (arith, numbered))

unpack_lem :
    (bytes : Bytes) (family num : ℕ) (u : Unpacked)
    → unpack_file_blocks ((length bytes + 511) / 512) 0 bytes start_unpack ≡ ok u
    → u.family ≡ some family
    → u.file_num_blocks ≡ some num
    → num ≡ u.next_block_no
    → unpack_file bytes ≡ ok (family_attributes (some family), creation_order u.ranges)
unfolding unpack_file
unpack_lem bytes family num u run known total numbered =
    let fit : num_blocks_fit u ≡ true = fits u num total numbered in rw (run, fit, known) refl

rounds_512 : (l n : ℕ) → l ≡ 512 * n → (l + 511) / 512 ≡ n
rounds_512 l n h = omega arith

children_lem :
    (family num : ℕ) (region : ℕ × Bytes) (regions : List (ℕ × Bytes))
    → All IsRegion (region ∷ regions)
    → Apart (region ∷ regions)
    → creation_order (after family num (payloads (region ∷ regions)) start_unpack).ranges
      ≡ map as_child (region ∷ regions)
unfolding creation_order
children_lem family num region regions all apart =
    let rs = region ∷ regions in
    let ps = payloads rs in
    ap creation_order (
      after-ranges family num ps start_unpack
      ∙ ap (placed_all ps) start_fields.1
      ∙ payloads_placed rs [] all apart tt)
    ∙ creation_order-onto rs []

unpacked :
    (family : ℕ) (region : ℕ × Bytes) (regions : List (ℕ × Bytes)) (bytes : Bytes)
    → All IsRegion (region ∷ regions)
    → Apart (region ∷ regions)
    → length bytes ≡ 512 * length (payloads (region ∷ regions))
    → unpack_file_blocks (length (payloads (region ∷ regions))) 0 bytes start_unpack
      ≡ ok (
          after family
            (length (payloads (region ∷ regions)))
            (payloads (region ∷ regions))
            start_unpack)
    → unpack_file bytes ≡ ok (family_attributes (some family), map as_child (region ∷ regions))
unpacked family region regions bytes all apart size run =
    let ps = payloads (region ∷ regions) in
    let num = length ps in
    let u = after family num ps start_unpack in
    let known = after_some family num ps start_unpack (payloads_some region regions all.0) in
    unpack_lem bytes family num u
      (ap (λ k. unpack_file_blocks k 0 bytes start_unpack) (rounds_512 (length bytes) num size)
        ∙ run)
      known.0 known.1 (omega (arith, after-next family num ps start_unpack, start_fields.0))
    ∙ ap (λ c. ok (family_attributes (some family), c))
        (children_lem family num region regions all apart)

-- Regions of whole payloads of 256 bytes inside the addresses of 32 bits, none of which starts where
-- the one before it ends, and at least one, are packed into one block of 512 bytes for each payload,
-- where the family and the number of blocks fit into 32 bits. Unpacking gives the same regions in
-- the same order, with their data, and the family, unless it is 0.
pub unpack_file-pack_file :
    (family : ℕ) (region : ℕ × Bytes) (regions : List (ℕ × Bytes))
    → family < 4294967296
    → All IsRegion (region ∷ regions)
    → Apart (region ∷ regions)
    → length (payloads (region ∷ regions)) < 4294967296
    → (bytes : Bytes) × (pack_file family (region ∷ regions) ≡ ok bytes)
      × (length bytes ≡ 512 * length (payloads (region ∷ regions)))
      × (unpack_file bytes
          ≡ ok (if family == 0 then none else some family, map as_child (region ∷ regions)))
unfolding pack_file family_attributes
unpack_file-pack_file family region regions hf all apart hn =
    let rs = region ∷ regions in
    let ps = payloads rs in
    let num = length ps in
    let (bytes, e, size, run) =
      unpack_file_blocks-pack_payloads family num 0 0 [] ps start_unpack hf hn (omega arith)
        (payloads_fit rs all) start_fields.0 (start-Ready family num) refl in
    (bytes, e, size, unpacked family region regions bytes all apart size run)
