-- ===== src/Data/Service/SameSize.antt =====
-- ofrak_core/ofrak/service/data_service.py, `_apply_patches_to_root`: its two loops on patches that
-- keep the size of the data.
use ofrak.Prelude.{
  ℕ, ◌+◌, ◌≤◌, ◌≡◌, refl, false, none, some, List, [], ◌∷◌, ◌++◌, map, arith, All, ok, length,
  dict_get, ap,
}
use ofrak.Prelude.Int.{pos, sub_ℕ}
use ofrak.Range.{Range, IsValid, mk_range, range_length}
use ofrak.Data.Grid.{DataId}
use ofrak.Data.Root.{DataModel, DataRoot, DataPatch, Models}
use ofrak.Data.Tracker.{
  new_tracker, overlaps_resized_range, last_shift, shift_point, get_shifted_point, translate_range,
}
use ofrak.Data.Service.{
  DataService, Finalized, Screening, get_by_id, get_range_in_root, screen_patch, screen_patches,
  apply_finalized, splice,
}
use ofrak.Data.Service.Consistent.{translate-pos}

-- A patch of a model of the root, within the model, that keeps the size.
pub record InPlace (s : DataService) (root_id : DataId) (patch : DataPatch) : Type 0 where
  pub model : DataModel
  pub at : dict_get patch.data_id s.model_store ≡ some model
  pub of_root : model.root_id ≡ root_id
  pub valid : IsValid patch.range
  pub within : patch.range.end ≤ range_length model.range
  pub keeps : length patch.bytes ≡ range_length patch.range

-- Where a patch lies in the root.
unfoldable pub in_root : DataService → DataPatch → Range
in_root s patch = elim (dict_get patch.data_id s.model_store) [
  | none ↦ patch.range
  | some model ↦ record {
    start = patch.range.start + model.range.start;
    end = patch.range.end + model.range.start;
  }
]

-- The data with patches written over it, one after the other.
unfoldable pub written : DataService → List DataPatch → List ℕ → List ℕ
written s [] bytes = bytes
written s (patch ∷ patches) bytes = written s patches (splice bytes (in_root s patch) patch.bytes)

abbrev pub finalized : DataService → DataPatch → Finalized
finalized s patch = (in_root s patch, (patch.bytes, pos 0))

abbrev pub screened : List Finalized → List Range → Screening
screened done raw = record {
  tracker = new_tracker;
  finalized_ordered_patches = done;
  raw_patch_ranges_in_root = raw;
}

sub_self : (a b : ℕ) → a ≡ b → sub_ℕ a b ≡ pos 0
sub_self a b e = ground arith

translate_range-new : (r : Range) → IsValid r → translate_range new_tracker r ≡ ok r
unfolding translate_range get_shifted_point last_shift shift_point mk_range
translate_range-new r v = ground arith

overlaps-new : (r : Range) → overlaps_resized_range new_tracker r ≡ false
unfolding overlaps_resized_range
overlaps-new r = refl

pub in_root-lem :
    (s : DataService) (id : DataId) (patch : DataPatch) (p : InPlace s id patch)
    → in_root s patch ≡ record {
      start = patch.range.start + p.model.range.start;
      end = patch.range.end + p.model.range.start;
    }
unfolding in_root
in_root-lem s id patch p = rw (p.at, in_root) refl

in_root-range :
    (s : DataService) (id : DataId) (patch : DataPatch) (p : InPlace s id patch)
    → get_range_in_root p.model patch.range ≡ ok (in_root s patch)
unfolding get_range_in_root range_length
in_root-range s id patch p = ground (
  arith,
  in_root-lem s id patch p,
  p.within,
  translate-pos patch.range p.model.range.start p.valid,
)

pub in_root-IsValid :
    (s : DataService) (id : DataId) (patch : DataPatch)
    → InPlace s id patch
    → IsValid (in_root s patch)
in_root-IsValid s id patch p = rw (in_root-lem s id patch p) (omega (arith, p.valid))

get_by_id-some :
    (s : DataService) (id : DataId) (model : DataModel)
    → dict_get id s.model_store ≡ some model
    → get_by_id s id ≡ ok model
unfolding get_by_id
get_by_id-some s id model e = ground (arith, e)

screen_patch-ok :
    (s : DataService) (id : DataId) (root : DataRoot) (patch : DataPatch) (done : List Finalized)
    (raw : List Range)
    → InPlace s id patch
    → screen_patch s root patch (screened done raw)
      ≡ ok (screened (done ++ finalized s patch ∷ []) (raw ++ in_root s patch ∷ []))
unfolding screen_patch
screen_patch-ok s id root patch done raw p =
    rw
      (
        get_by_id-some s patch.data_id p.model p.at,
        in_root-range s id patch p,
        overlaps-new (in_root s patch),
        translate_range-new (in_root s patch) (in_root-IsValid s id patch p),
        sub_self (length patch.bytes) (range_length patch.range) p.keeps,
        screen_patch,
      )
      refl

append-snoc :
    {A : Type 0} (xs : List A) (y : A) (ys : List A) → (xs ++ y ∷ []) ++ ys ≡ xs ++ (y ∷ ys)
append-snoc [] y ys = refl
append-snoc (x ∷ xs) y ys = ap (λ t. x ∷ t) (append-snoc xs y ys)

append-nil : {A : Type 0} (xs : List A) → xs ++ [] ≡ xs
append-nil [] = refl
append-nil (x ∷ xs) = ap (λ t. x ∷ t) (append-nil xs)

pub screen_patches-ok :
    (s : DataService) (id : DataId) (root : DataRoot) (patches : List DataPatch)
    (done : List Finalized) (raw : List Range)
    → All (InPlace s id) patches
    → screen_patches s root patches (screened done raw)
      ≡ ok (screened (done ++ map (finalized s) patches) (raw ++ map (in_root s) patches))
unfolding screen_patches
screen_patches-ok s id root [] done raw h = rw (append-nil done, append-nil raw) refl
screen_patches-ok s id root (patch ∷ patches) done raw h =
    rw
      (
        screen_patch-ok s id root patch done raw h.0,
        screen_patches-ok s id root patches (done ++ finalized s patch ∷ [])
            (raw ++ in_root s patch ∷ []) h.1,
        append-snoc done (finalized s patch) (map (finalized s) patches),
        append-snoc raw (in_root s patch) (map (in_root s) patches),
        screen_patches,
      )
      refl

pub apply_finalized-ok :
    (s : DataService) (patches : List DataPatch) (bytes : List ℕ) (models : Models)
    (root : DataRoot)
    → apply_finalized (map (finalized s) patches) bytes models root
      ≡ ok (written s patches bytes, (models, root))
unfolding apply_finalized written
apply_finalized-ok s [] bytes models root = refl
apply_finalized-ok s (patch ∷ patches) bytes models root =
    apply_finalized-ok s patches (splice bytes (in_root s patch) patch.bytes) models root

pub in_root-All :
    (s : DataService) (id : DataId) (patches : List DataPatch)
    → All (InPlace s id) patches
    → All IsValid (map (in_root s) patches)
in_root-All s id [] h = tt
in_root-All s id (patch ∷ patches) h =
    (in_root-IsValid s id patch h.0, in_root-All s id patches h.1)
