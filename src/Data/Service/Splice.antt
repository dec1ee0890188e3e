-- ===== src/Data/Service/Splice.antt =====
-- ofrak_core/ofrak/service/data_service.py: `new_root_data[start:end] = data`, by the bytes.
use ofrak.Prelude.{
  ℕ, zero, suc, ◌+◌, ◌-◌, ◌≤◌, ◌≡◌, refl, ◌&&◌, List, [], ◌∷◌, ◌++◌, arith, length, ap, take, drop,
  get_elem?, leb, ltb, if◌then◌else◌,
}
use ofrak.Range.{Range, IsValid, range_length, contains_value}
use ofrak.Data.Service.{splice}

get-over :
    (new bytes : List ℕ) (i : ℕ)
    → length new ≤ length bytes
    → get_elem? (new ++ drop (length new) bytes) i
      ≡ (if ltb i (length new) then get_elem? new i else get_elem? bytes i)
get-over [] bytes i h = ground arith
get-over (x ∷ new) [] i h = absurd (omega arith)
get-over (x ∷ new) (y ∷ bytes) zero h = ground arith
get-over (x ∷ new) (y ∷ bytes) (suc i) h = ground (arith, get-over new bytes i (omega arith))

get-splice_at :
    (a n : ℕ) (new bytes : List ℕ) (i : ℕ)
    → length new ≡ n
    → a + n ≤ length bytes
    → get_elem? (take a bytes ++ (new ++ drop (a + n) bytes)) i
      ≡ (if leb a i && ltb i (a + n) then get_elem? new (i - a) else get_elem? bytes i)
get-splice_at zero n new bytes i e h =
    let e0 : 0 + n ≡ length new = omega arith in
    let e1 : i - 0 ≡ i = omega arith in
    rw (e0, e1) (ground (arith, get-over new bytes i (omega arith)))
get-splice_at (suc a) n new [] i e h = absurd (omega arith)
get-splice_at (suc a) n new (y ∷ bytes) zero e h = ground arith
get-splice_at (suc a) n new (y ∷ bytes) (suc i) e h =
    let e0 : suc a + n ≡ suc (a + n) = omega arith in
    let e1 : suc i - suc a ≡ i - a = omega arith in
    rw (e0, e1) (ground (arith, get-splice_at a n new bytes i e (omega arith)))

pub get-splice :
    (bytes new : List ℕ) (r : Range) (i : ℕ)
    → IsValid r
    → r.end ≤ length bytes
    → length new ≡ range_length r
    → get_elem? (splice bytes r new) i
      ≡ (if contains_value r i then get_elem? new (i - r.start) else get_elem? bytes i)
unfolding splice contains_value range_length
get-splice bytes new r i v b l =
    let e : r.start + (r.end - r.start) ≡ r.end = omega arith in
    rw e at (get-splice_at r.start (r.end - r.start) new bytes i l (omega arith))

length-over :
    (new bytes : List ℕ)
    → length new ≤ length bytes
    → length (new ++ drop (length new) bytes) ≡ length bytes
length-over [] bytes h = refl
length-over (x ∷ new) [] h = absurd (omega arith)
length-over (x ∷ new) (y ∷ bytes) h = ap suc (length-over new bytes (omega arith))

length-splice_at :
    (a n : ℕ) (new bytes : List ℕ)
    → length new ≡ n
    → a + n ≤ length bytes
    → length (take a bytes ++ (new ++ drop (a + n) bytes)) ≡ length bytes
length-splice_at zero n new bytes e h =
    let e0 : 0 + n ≡ length new = omega arith in rw e0 (length-over new bytes (omega arith))
length-splice_at (suc a) n new [] e h = absurd (omega arith)
length-splice_at (suc a) n new (y ∷ bytes) e h =
    let e0 : suc a + n ≡ suc (a + n) = omega arith in
    rw e0 (ap suc (length-splice_at a n new bytes e (omega arith)))

pub length-splice :
    (bytes new : List ℕ) (r : Range)
    → IsValid r
    → r.end ≤ length bytes
    → length new ≡ range_length r
    → length (splice bytes r new) ≡ length bytes
unfolding splice range_length
length-splice bytes new r v b l =
    let e : r.start + (r.end - r.start) ≡ r.end = omega arith in
    rw e at (length-splice_at r.start (r.end - r.start) new bytes l (omega arith))
