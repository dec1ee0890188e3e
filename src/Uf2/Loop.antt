-- ===== src/Uf2/Loop.antt =====
-- The loop over the blocks of a UF2 file, after the loop of the packer over the payloads.
use ofrak.Range.{Range, mk_range}
use ofrak.Uf2.{
  uf2_magic_start_one, uf2_magic_start_two, uf2_magic_end, family_id_present, Uf2Block, struct_pack,
  struct_unpack, Unpacked, has_flag, add_payload, unpack_payload, set_num_blocks, check_family,
  unpack_block, unpack_file_blocks, pack_payloads,
}
use ofrak.Uf2.Blocks.{block_of, struct_unpack-struct_pack}
use ofrak.Prelude.{
  ℕ, zero, suc, ◌+◌, ◌*◌, ◌<◌, ◌≤◌, ◌≡◌, refl, sym, ap, ◌∙◌, true, false, some, List, [], ◌∷◌, ◌++◌,
  ok, length, take, All, append_assoc, ltb, ◌==◌, if◌then◌else◌, length-append, Bool-cases, inl,
  inr, arith,
}
use ofrak.Prelude.Bytes.{Bytes, zeros, byte_slice}
use ofrak.Prelude.Padding.{pad_take, slice-middle}

-- The regions with one payload more.
abbrev pub placed : ℕ → ℕ → Bytes → List (Range × Bytes) → List (Range × Bytes)
placed t s d [] = (record { start = t; end = t + s }, d) ∷ []
placed t s d ((last, ld) ∷ ranges) =
    if t == last.end
    then (record { start = last.start; end = t + s }, ld ++ d) ∷ ranges
    else (record { start = t; end = t + s }, d) ∷ (last, ld) ∷ ranges

mk_range_ok : (t s : ℕ) → mk_range t (t + s) ≡ ok (record { start = t; end = t + s })
unfolding mk_range
mk_range_ok t s = let e : ltb (t + s) t ≡ false = ground arith in rw e refl

placed_lem :
    (t s : ℕ) (d : Bytes) (ranges : List (Range × Bytes))
    → add_payload t s d ranges ≡ ok (placed t s d ranges)
unfolding add_payload
placed_lem t s d [] = rw (mk_range_ok t s) refl
placed_lem t s d ((last, ld) ∷ ranges) = elim (Bool-cases (t == last.end)) [
  | inl e ↦ rw e refl
  | inr e ↦ rw (e, mk_range_ok t s) refl
]

take_pad : (d rest : Bytes) (m : ℕ) → length d ≤ m → take (length d) (pad_take m (d ++ rest)) ≡ d
take_pad [] rest m h = refl
take_pad (x ∷ d) rest zero h = absurd (omega arith)
take_pad (x ∷ d) rest (suc m) h = ap (λ ys. x ∷ ys) (take_pad d rest m (omega arith))

-- A payload of the packer: 256 bytes at an address that fits.
abbrev pub IsPayload : ℕ × ℕ × Bytes → Type 0
IsPayload (t, s, d) = (s ≡ 256) × (length d ≡ 256) × (t < 4294967296)

abbrev pub stepped : ℕ → ℕ → ℕ × ℕ × Bytes → Unpacked → Unpacked
stepped family num (t, s, d) u = record {
  next_block_no = u.next_block_no + 1;
  family = some family;
  file_num_blocks = some num;
  ranges = placed t s d u.ranges;
}

-- what the loop remembers, after some payloads
abbrev pub after : ℕ → ℕ → List (ℕ × ℕ × Bytes) → Unpacked → Unpacked
after family num [] u = u
after family num (p ∷ ps) u = after family num ps (stepped family num p u)

-- A state that agrees with the family and the number of blocks, or does not know them yet.
abbrev pub Ready : ℕ → ℕ → Unpacked → Type 0
Ready family num u =
    (check_family family u.family ≡ ok family) × (set_num_blocks num u.file_num_blocks ≡ some num)

stepped-Ready :
    (family num : ℕ) (p : ℕ × ℕ × Bytes) (u : Unpacked) → Ready family num (stepped family num p u)
unfolding check_family set_num_blocks
stepped-Ready family num p u = (ground arith, ground arith)

payload_read :
    (t bn num family : ℕ) (d : Bytes) (u : Unpacked)
    → length d ≡ 256
    → unpack_payload
        (block_of uf2_magic_start_one uf2_magic_start_two family_id_present t 256 bn num family
          (pad_take 476 (d ++ zeros 211))
          uf2_magic_end)
        u.ranges
      ≡ ok (placed t 256 d u.ranges)
unfolding unpack_payload has_flag
payload_read t bn num family d u h =
    ap (λ x. add_payload t 256 x u.ranges)
      (ap (λ k. take k (pad_take 476 (d ++ zeros 211))) (sym h)
        ∙ take_pad d (zeros 211) 476 (omega arith))
    ∙ placed_lem t 256 d u.ranges

block_step :
    (t num family : ℕ) (d : Bytes) (u : Unpacked)
    → length d ≡ 256
    → Ready family num u
    → unpack_block
        (block_of uf2_magic_start_one uf2_magic_start_two family_id_present t 256 u.next_block_no
          num family
          (pad_take 476 (d ++ zeros 211))
          uf2_magic_end)
        u
      ≡ ok (stepped family num (t, 256, d) u)
unfolding unpack_block
block_step t num family d u h r =
    let same : (u.next_block_no == u.next_block_no) ≡ true = ground arith in
    rw (same, r.0, payload_read t u.next_block_no num family d u h, r.1) refl

pack_step :
    (family num bn t : ℕ) (d : Bytes) (ps : List (ℕ × ℕ × Bytes)) (block rest : Bytes)
    → struct_pack
        (uf2_magic_start_one ∷ uf2_magic_start_two ∷ family_id_present ∷ t ∷ 256 ∷ bn ∷ num ∷ family
          ∷ [])
        (d ++ zeros 211)
        uf2_magic_end
      ≡ ok block
    → pack_payloads family num (suc bn) ps ≡ ok rest
    → pack_payloads family num bn ((t, 256, d) ∷ ps) ≡ ok (block ++ rest)
unfolding pack_payloads
pack_step family num bn t d ps block rest e e' = rw (e, e') refl

unpack_step :
    (rounds i : ℕ) (pre block rest : Bytes) (read : Uf2Block) (u next u' : Unpacked)
    → length pre ≡ i
    → length block ≡ 512
    → struct_unpack block ≡ ok read
    → unpack_block read u ≡ ok next
    → unpack_file_blocks rounds (i + 512) ((pre ++ block) ++ rest) next ≡ ok u'
    → unpack_file_blocks (suc rounds) i (pre ++ (block ++ rest)) u ≡ ok u'
unfolding unpack_file_blocks
unpack_step rounds i pre block rest read u next u' p b e e' h =
    let here : byte_slice (pre ++ (block ++ rest)) i (i + 512) ≡ block =
      ap (λ k. byte_slice (pre ++ (block ++ rest)) k (k + 512)) (sym p)
      ∙ ap (λ k. byte_slice (pre ++ (block ++ rest)) (length pre) (length pre + k)) (sym b)
      ∙ slice-middle pre block rest in
    rw (here, e, e')
      (ap (λ bytes. unpack_file_blocks rounds (i + 512) bytes next)
          (sym (append_assoc pre block rest))
        ∙ h)

-- Payloads are packed, and the loop over the blocks gives each of them to its regions.
pub unpack_file_blocks-pack_payloads :
    (family num bn i : ℕ) (pre : Bytes) (ps : List (ℕ × ℕ × Bytes)) (u : Unpacked)
    → family < 4294967296
    → num < 4294967296
    → bn + length ps ≤ num
    → All IsPayload ps
    → u.next_block_no ≡ bn
    → Ready family num u
    → length pre ≡ i
    → (bytes : Bytes) × (pack_payloads family num bn ps ≡ ok bytes)
      × (length bytes ≡ 512 * length ps)
      × (unpack_file_blocks (length ps) i (pre ++ bytes) u ≡ ok (after family num ps u))
unfolding pack_payloads unpack_file_blocks
unpack_file_blocks-pack_payloads family num bn i pre [] u hf hn le all at ready p =
    ([], refl, refl, refl)
unpack_file_blocks-pack_payloads family num bn i pre ((t, s, d) ∷ ps) u hf hn le all at ready p =
    let (block, e, size, read) =
      struct_unpack-struct_pack uf2_magic_start_one uf2_magic_start_two family_id_present t 256 bn
        num family (d ++ zeros 211) uf2_magic_end
        (
          omega arith,
          (
            omega arith,
            (omega arith, (all.0.2, (omega arith, (omega arith, (hn, (hf, (omega arith, tt))))))),
          ),
        ) in
    let next = stepped family num (t, 256, d) u in
    let (rest, e', size', run) =
      unpack_file_blocks-pack_payloads family num (suc bn) (i + 512) (pre ++ block) ps next hf hn
        (omega arith) all.1 (omega arith) (stepped-Ready family num (t, 256, d) u)
        (omega (arith, length-append pre block)) in
    let read_no =
      read
      ∙ ap
          (λ k. ok (
            block_of uf2_magic_start_one uf2_magic_start_two family_id_present t 256 k num family
              (pad_take 476 (d ++ zeros 211)) uf2_magic_end))
          (sym at) in
    (
      block ++ rest,
      ap (λ z. pack_payloads family num bn ((t, z, d) ∷ ps)) all.0.0
          ∙ pack_step family num bn t d ps block rest e e',
      omega (arith, length-append block rest),
      unpack_step (length ps) i pre block rest _ u next (after family num ps next) p size read_no
            (block_step t num family d u all.0.1 ready) run
          ∙ ap (λ z. ok (after family num ps (stepped family num (t, z, d) u))) (sym all.0.0),
    )
