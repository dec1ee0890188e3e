-- ===== src/Uf2/Blocks.antt =====
-- One block of a UF2 file: `struct.unpack` gives what `struct.pack` was given.
use ofrak.Uf2.{Uf2Block, pack_int, pack_ints, struct_pack, int_at, struct_unpack}
use ofrak.Prelude.{
  ℕ, zero, suc, ◌+◌, ◌-◌, ◌*◌, ◌<◌, ◌≡◌, refl, sym, ap, ◌∙◌, some, List, [], ◌∷◌, ◌++◌, ok, length,
  take, drop, get_elem?, All, take-append, drop-append, append_assoc, append_nil, length-append,
  arith,
}
use ofrak.Prelude.Bytes.{
  Bytes, byte_slice, digits, reversed, from_bytes, length-digits, from-digits, digits-fit,
}
use ofrak.Prelude.Padding.{pad_take, drop-add}

from_digits_lem : (n : ℕ) → (digits 4 n).1 ≡ 0 → from_bytes (reversed (digits 4 n).0) ≡ n
unfolding from_bytes
from_digits_lem n h = from-digits 4 n h

pack_int_ok :
    (n : ℕ)
    → n < 4294967296
    → (b : Bytes) × (pack_int n ≡ ok b) × (length b ≡ 4) × (from_bytes (reversed b) ≡ n)
unfolding pack_int
pack_int_ok n h =
    let fits = digits-fit 4 n h in
    ((digits 4 n).0, rw fits refl, length-digits 4 n, from_digits_lem n fits)

int_at_head : (b rest : Bytes) → length b ≡ 4 → int_at 0 (b ++ rest) ≡ from_bytes (reversed b)
unfolding int_at
int_at_head b rest h =
    ap (λ k. from_bytes (reversed (take k (b ++ rest)))) (sym h)
    ∙ ap (λ x. from_bytes (reversed x)) (take-append b rest)

drop_past : (n i : ℕ) (p rest : Bytes) → length p ≡ n → drop (n + i) (p ++ rest) ≡ drop i rest
drop_past n i p rest h =
    drop-add n i (p ++ rest)
    ∙ ap (λ k. drop i (drop k (p ++ rest))) (sym h)
    ∙ ap (drop i) (drop-append p rest)

slice_past :
    (n i j : ℕ) (p rest : Bytes)
    → length p ≡ n
    → byte_slice (p ++ rest) (n + i) (n + j) ≡ byte_slice rest i j
slice_past n i j p rest h =
    ap (λ k. take k (drop (n + i) (p ++ rest))) (omega arith)
    ∙ ap (take (j - i)) (drop_past n i p rest h)

int_at_past : (n i : ℕ) (p rest : Bytes) → length p ≡ n → int_at (n + i) (p ++ rest) ≡ int_at i rest
unfolding int_at
int_at_past n i p rest h =
    ap (λ k. from_bytes (reversed (byte_slice (p ++ rest) (n + i) k))) (omega arith)
    ∙ ap (λ x. from_bytes (reversed x)) (slice_past n i (i + 4) p rest h)

-- The integer at each place is read back, whatever follows.
abbrev ReadsBack : List ℕ → Bytes → Type 0
ReadsBack ns bytes =
    (k v : ℕ) (rest : Bytes) → get_elem? ns k ≡ some v → int_at (4 * k) (bytes ++ rest) ≡ v

reads_more :
    (n : ℕ) (ns : List ℕ) (b bytes : Bytes)
    → length b ≡ 4
    → from_bytes (reversed b) ≡ n
    → ReadsBack ns bytes
    → ReadsBack (n ∷ ns) (b ++ bytes)
reads_more n ns b bytes four back reads zero v rest e =
    ap (int_at 0) (append_assoc b bytes rest) ∙ int_at_head b (bytes ++ rest) four ∙ back ∙ cc e
reads_more n ns b bytes four back reads (suc k) v rest e =
    ap (int_at (4 * suc k)) (append_assoc b bytes rest)
    ∙ ap (λ i. int_at i (b ++ (bytes ++ rest))) (omega arith)
    ∙ int_at_past 4 (4 * k) b (bytes ++ rest) four
    ∙ reads k v rest e

pack_ints_ok :
    (ns : List ℕ)
    → All (λ n. n < 4294967296) ns
    → (bytes : Bytes) × (pack_ints ns ≡ ok bytes)
      × (length bytes ≡ 4 * length ns)
      × ReadsBack ns bytes
unfolding pack_ints
pack_ints_ok [] h = ([], refl, refl, λ k v rest e. cc e)
pack_ints_ok (n ∷ ns) h =
    let (b, e, four, back) = pack_int_ok n h.0 in
    let (bytes, e', all, reads) = pack_ints_ok ns h.1 in
    (
      b ++ bytes,
      rw (e, e') refl,
      omega (arith, length-append b bytes, four, all),
      reads_more n ns b bytes four back reads,
    )

length-pad_take : (n : ℕ) (xs : Bytes) → length (pad_take n xs) ≡ n
length-pad_take zero xs = refl
length-pad_take (suc n) [] = ap suc (length-pad_take n [])
length-pad_take (suc n) (x ∷ xs) = ap suc (length-pad_take n xs)

-- the block with the integers of a list of eight
abbrev pub block_of : ℕ → ℕ → ℕ → ℕ → ℕ → ℕ → ℕ → ℕ → Bytes → ℕ → Uf2Block
block_of m1 m2 flags target_addr payload_size block_no num_blocks family_id payload end = record {
  magic_start_one = m1;
  magic_start_two = m2;
  flags = flags;
  target_addr = target_addr;
  payload_size = payload_size;
  block_no = block_no;
  num_blocks = num_blocks;
  family_id = family_id;
  payload_data = payload;
  magic_end = end;
}

block_read :
    (bytes : Bytes)
    → length bytes ≡ 512
    → struct_unpack bytes
      ≡ ok (
          block_of
            (int_at 0 bytes)
            (int_at 4 bytes)
            (int_at 8 bytes)
            (int_at 12 bytes)
            (int_at 16 bytes)
            (int_at 20 bytes)
            (int_at 24 bytes)
            (int_at 28 bytes)
            (byte_slice bytes 32 508)
            (int_at 508 bytes))
unfolding struct_unpack
block_read bytes h = rw h refl

struct_pack_lem :
    (ints : List ℕ) (payload : Bytes) (end : ℕ) (head tail : Bytes)
    → pack_ints ints ≡ ok head
    → pack_int end ≡ ok tail
    → struct_pack ints payload end ≡ ok (head ++ (pad_take 476 payload ++ tail))
unfolding struct_pack
struct_pack_lem ints payload end head tail e e' = rw (e, e') refl

payload_between :
    (head middle tail : Bytes)
    → length head ≡ 32
    → length middle ≡ 476
    → byte_slice (head ++ (middle ++ tail)) 32 508 ≡ middle
payload_between head middle tail h m =
    slice_past 32 0 476 head (middle ++ tail) h
    ∙ ap (λ k. take k (middle ++ tail)) (sym m)
    ∙ take-append middle tail

end_read :
    (head middle tail : Bytes)
    → length head ≡ 32
    → length middle ≡ 476
    → length tail ≡ 4
    → int_at 508 (head ++ (middle ++ tail)) ≡ from_bytes (reversed tail)
end_read head middle tail h m t =
    int_at_past 32 476 head (middle ++ tail) h
    ∙ int_at_past 476 0 middle tail m
    ∙ ap (int_at 0) (sym (append_nil tail))
    ∙ int_at_head tail [] t

block_eq :
    {a a' b b' c c' d d' e e' f f' g g' h h' i i' : ℕ} {p p' : Bytes}
    → a ≡ a'
    → b ≡ b'
    → c ≡ c'
    → d ≡ d'
    → e ≡ e'
    → f ≡ f'
    → g ≡ g'
    → h ≡ h'
    → p ≡ p'
    → i ≡ i'
    → block_of a b c d e f g h p i ≡ block_of a' b' c' d' e' f' g' h' p' i'
block_eq ea eb ec ed ee ef eg eh ep ei = cc (ea, eb, ec, ed, ee, ef, eg, eh, ep, ei)

-- A block of integers that fit and any payload is written in 512 bytes, and read back with the
-- payload cut or filled to 476 bytes.
pub struct_unpack-struct_pack :
    (m1 m2 flags target_addr payload_size block_no num_blocks family_id : ℕ) (payload : Bytes)
    (end : ℕ)
    → All
        (λ n. n < 4294967296)
        (m1 ∷ m2 ∷ flags ∷ target_addr ∷ payload_size ∷ block_no ∷ num_blocks ∷ family_id ∷ end
          ∷ [])
    → (bytes : Bytes) × (struct_pack
          (m1 ∷ m2 ∷ flags ∷ target_addr ∷ payload_size ∷ block_no ∷ num_blocks ∷ family_id ∷ [])
          payload
          end
        ≡ ok bytes)
      × (length bytes ≡ 512)
      × (struct_unpack bytes
          ≡ ok (
              block_of m1 m2 flags target_addr payload_size block_no num_blocks family_id
                (pad_take 476 payload)
                end))
struct_unpack-struct_pack m1 m2 fl ta ps bn nb fam payload end h =
    let (h1, (h2, (h3, (h4, (h5, (h6, (h7, (h8, (h9, _))))))))) = h in
    let ints = m1 ∷ m2 ∷ fl ∷ ta ∷ ps ∷ bn ∷ nb ∷ fam ∷ [] in
    let (head, e, all, reads) =
      pack_ints_ok ints (h1, (h2, (h3, (h4, (h5, (h6, (h7, (h8, tt)))))))) in
    let (tail, e', four, back) = pack_int_ok end h9 in
    let middle = pad_take 476 payload in
    let m = length-pad_take 476 payload in
    let bytes = head ++ (middle ++ tail) in
    let size : length bytes ≡ 512 =
      omega (arith, length-append head (middle ++ tail), length-append middle tail, all, m, four) in
    let at = λ (k v : ℕ) (e : get_elem? ints k ≡ some v). reads k v (middle ++ tail) e in
    (
      bytes,
      struct_pack_lem ints payload end head tail e e',
      size,
      block_read bytes size
          ∙ ap ok (
              block_eq (at 0 m1 refl) (at 1 m2 refl) (at 2 fl refl) (at 3 ta refl) (at 4 ps refl)
                (at 5 bn refl) (at 6 nb refl) (at 7 fam refl)
                (payload_between head middle tail all m)
                (end_read head middle tail all m four ∙ back)),
    )
