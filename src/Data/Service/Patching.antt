-- ===== src/Data/Service/Patching.antt =====
-- ofrak_core/ofrak/service/data_service.py, `_apply_patches_to_root`, on patches that keep the size:
-- it returns, and each byte is the one of the last patch over it.
use ofrak.Prelude.{
  ℕ, suc, ◌-◌, ◌≤◌, ◌≡◌, refl, Option, none, some, List, [], ◌∷◌, map, arith, All, ok, length,
  dict_get, dict_set, ap, ◌∙◌, sym, subst, get_elem?, if◌then◌else◌,
}
use ofrak.Range.{merge_ranges, Range, IsValid, range_length, contains_value}
use ofrak.Range.Merge.{Apart, merge_ranges_exact}
use ofrak.Data.Grid.{DataId}
use ofrak.Data.Root.{DataRoot, DataPatch, DataPatchesResult, get_children_affected_by_ranges}
use ofrak.Data.Service.{DataService, apply_patches_to_root, splice, collect_results}
use ofrak.Data.Service.Consistent.{Consistent}
use ofrak.Data.Service.Affected.{affected-ok}
use ofrak.Data.Service.Splice.{get-splice, length-splice}
use ofrak.Data.Service.Patched.{patched-Consistent}
use ofrak.Data.Service.SameSize.{
  InPlace, in_root, written, screen_patches-ok, apply_finalized-ok, in_root-All, in_root-IsValid,
  in_root-lem,
}

-- The byte at an index after patches: that of the last one over it, or the one before.
unfoldable pub latest : DataService → List DataPatch → ℕ → Option ℕ → Option ℕ
latest s [] i byte = byte
latest s (patch ∷ patches) i byte = latest s patches i (
    if contains_value (in_root s patch) i
    then get_elem? patch.bytes (i - (in_root s patch).start)
    else byte)

-- The patch lies in the data, and what it writes is as long as what it replaces.
record Fits (s : DataService) (patch : DataPatch) (n : ℕ) : Type 0 where
  valid : IsValid (in_root s patch)
  bounded : (in_root s patch).end ≤ n
  keeps : length patch.bytes ≡ range_length (in_root s patch)

length-written :
    (s : DataService) (patches : List DataPatch) (bytes : List ℕ)
    → All (λ p. Fits s p (length bytes)) patches
    → length (written s patches bytes) ≡ length bytes
unfolding written
length-written s [] bytes f = refl
length-written s (patch ∷ patches) bytes f =
    let r = in_root s patch in
    let e = length-splice bytes patch.bytes r f.0.valid f.0.bounded f.0.keeps in
    length-written s patches (splice bytes r patch.bytes)
      (subst (λ n. All (λ p. Fits s p n) patches) (sym e) f.1)
    ∙ e

get-written :
    (s : DataService) (patches : List DataPatch) (bytes : List ℕ) (i : ℕ)
    → All (λ p. Fits s p (length bytes)) patches
    → get_elem? (written s patches bytes) i ≡ latest s patches i (get_elem? bytes i)
unfolding written latest
get-written s [] bytes i f = refl
get-written s (patch ∷ patches) bytes i f =
    let r = in_root s patch in
    let e = length-splice bytes patch.bytes r f.0.valid f.0.bounded f.0.keeps in
    get-written s patches (splice bytes r patch.bytes) i
      (subst (λ n. All (λ p. Fits s p n) patches) (sym e) f.1)
    ∙ ap (latest s patches i) (get-splice bytes patch.bytes r i f.0.valid f.0.bounded f.0.keeps)

InPlace-Fits :
    (s : DataService) (id : DataId) (root : DataRoot) (patches : List DataPatch)
    → Consistent s
    → dict_get id s.roots ≡ some root
    → All (InPlace s id) patches
    → All (λ p. Fits s p (length root.bytes)) patches
unfolding range_length
InPlace-Fits s id root [] c at h = tt
InPlace-Fits s id root (patch ∷ patches) c at h =
    let p = h.0 in
    let q = c.placed patch.data_id p.model p.at in
    let same : q.root ≡ root =
      ap (λ o. elim o [ none ↦ q.root | some t ↦ t ])
        (sym q.at ∙ ap (λ k. dict_get k s.roots) p.of_root ∙ at) in
    let b : p.model.range.end ≤ length root.bytes =
      subst (λ t. p.model.range.end ≤ length t.bytes) same q.bounded in
    (
      record {
        valid = in_root-IsValid s id patch p;
        bounded = rw (in_root-lem s id patch p) (omega (arith, b, p.within, p.valid));
        keeps = rw (in_root-lem s id patch p) (omega (arith, p.keeps));
      },
      InPlace-Fits s id root patches c at h.1,
    )

Apart-IsValid : (bound : ℕ) (rs : List Range) → Apart bound rs → All IsValid rs
Apart-IsValid bound [] a = tt
Apart-IsValid bound (r ∷ rs) a = (a.1, Apart-IsValid (suc r.end) rs a.2)

apply-ok :
    (s : DataService) (id : DataId) (root : DataRoot) (patches : List DataPatch)
    → dict_get id s.roots ≡ some root
    → All (InPlace s id) patches
    → (ranges : List Range) (affected : List (DataId × Range))
    → merge_ranges (map (in_root s) patches) ≡ ok ranges
    → get_children_affected_by_ranges s.model_store root ranges ≡ ok affected
    → apply_patches_to_root id patches s
      ≡ ok (
        map
            (λ x. record { data_id = x.0; patches = x.1 })
            (collect_results (map (λ r. (id, r)) ranges) (collect_results affected [])),
        record {
          model_store = s.model_store;
          roots = dict_set id (record root { bytes = written s patches root.bytes }) s.roots;
        },
      )
unfolding apply_patches_to_root
apply-ok s id root patches at h ranges affected e e' = ground (
  arith,
  at,
  screen_patches-ok s id root patches [] [] h,
  e,
  e',
  apply_finalized-ok s patches root.bytes s.model_store root,
)

-- On a service whose models, roots and indexes agree, patches within models of one root that keep
-- their size never raise, in any number and wherever they overlap each other and the children. No
-- model moves, the agreement stays, the root's data keeps its length, and each of its bytes is the
-- one that the last patch over it wrote, or the one before.
pub apply_patches_to_root_exact :
    (s : DataService) (id : DataId) (root : DataRoot) (patches : List DataPatch)
    → Consistent s
    → dict_get id s.roots ≡ some root
    → All (InPlace s id) patches
    → (results : List DataPatchesResult) × (bytes : List ℕ) × (apply_patches_to_root id patches s
        ≡ ok (
          results,
          record {
            model_store = s.model_store;
            roots = dict_set id (record root { bytes = bytes }) s.roots;
          },
        ))
      × Consistent (record {
        model_store = s.model_store;
        roots = dict_set id (record root { bytes = bytes }) s.roots;
      })
      × (length bytes ≡ length root.bytes)
      × ((i : ℕ) → get_elem? bytes i ≡ latest s patches i (get_elem? root.bytes i))
apply_patches_to_root_exact s id root patches c at h =
    let f = InPlace-Fits s id root patches c at h in
    let (ranges, e, a, _) =
      merge_ranges_exact (map (in_root s) patches) (in_root-All s id patches h) in
    let (affected, e') = affected-ok s c id root at ranges (Apart-IsValid 0 ranges a) in
    let l = length-written s patches root.bytes f in
    (
      map (λ x. record { data_id = x.0; patches = x.1 })
          (collect_results (map (λ r. (id, r)) ranges) (collect_results affected [])),
      written s patches root.bytes,
      apply-ok s id root patches at h ranges affected e e',
      patched-Consistent s c id root at (written s patches root.bytes) l,
      l,
      λ i. get-written s patches root.bytes i f,
    )
