-- ===== src/Data/Service/Refused.antt =====
-- ofrak_core/ofrak/service/data_service.py, `_apply_patches_to_root`: which patches that resize data
-- are refused for the children that they cut.
use ofrak.Prelude.{◌++◌, [], ◌∷◌, length}
use ofrak.Prelude.Int.{sub_ℕ}
use ofrak.Range.{Range, range_length}
use ofrak.Data.Root.{DataPatch}
use ofrak.Data.Tracker.{add_new_resized_range}
use ofrak.Data.Service.{Screening}

-- what the screening carries on after an accepted patch that resizes
abbrev accepted : DataPatch → Range → Range → Screening → Screening
accepted patch r shifted screening =
    let size_diff = sub_ℕ (length patch.bytes) (range_length patch.range) in
    record {
      tracker = add_new_resized_range screening.tracker shifted size_diff;
      finalized_ordered_patches =
          screening.finalized_ordered_patches ++ (shifted, (patch.bytes, size_diff)) ∷ [];
      raw_patch_ranges_in_root = screening.raw_patch_ranges_in_root ++ r ∷ [];
    }
