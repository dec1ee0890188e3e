-- ===== src/Data/Root/Boundaries.antt =====
-- ofrak_core/ofrak/service/data_service.py, `_DataRoot`: the children that a patch cuts, and the
-- children that it overlaps.
use ofrak.Prelude.{
  ℕ, ◌<◌, ◌≡◌, ◌↔◌, ◌⊎◌, refl, true, false, ◌||◌, none, some, List, [], ◌∷◌, arith, Bool-cases, inl,
  inr,
}
use ofrak.Range.{Range}
use ofrak.Data.Grid.{DataId, contains_id, set_add}
use ofrak.Data.Root.{
  DataRoot, get_ids_in_range, add_all, get_children_with_boundaries_intersecting_range,
}
use ofrak.Data.Root.Sets.{contains-add}
use ofrak.Data.Root.Index.{Mirrored, holds}
use ofrak.Data.Root.Ranges.{get_ids_in_range_iff}

contains-add_all :
    (c : DataId) (xs s : List DataId)
    → contains_id c (add_all xs s) ≡ (contains_id c xs || contains_id c s)
unfolding add_all
contains-add_all c [] s = refl
contains-add_all c (x ∷ xs) s =
    ground (arith, contains-add_all c xs (set_add x s), contains-add x c s)

-- One end of a range lies inside the other range, off its ends.
abbrev pub Cut : Range → ℕ → ℕ → Type 0
Cut r s e = ((r.start < s) × (s < r.end)) ⊎ ((r.start < e) × (e < r.end))

-- The query for the children whose ends a range cuts finds exactly those whose start or end lies
-- strictly inside the range, wherever the two grids mirror each other.
pub intersecting_iff :
    (root : DataRoot) (r : Range) (c : DataId)
    → Mirrored root
    → (contains_id c (get_children_with_boundaries_intersecting_range root r) ≡ true)
      ↔ ((s : ℕ) × (e : ℕ) × (holds root c s e ≡ true) × Cut r s e)
unfolding get_children_with_boundaries_intersecting_range
intersecting_iff root r c m =
    let q =
      get_ids_in_range_iff root m c (some r.start, some r.end) (none, none) (false, false)
        (true, false) in
    let q' =
      get_ids_in_range_iff root m c (none, none) (some r.start, some r.end) (true, false)
        (false, false) in
    let starts : List DataId =
      get_ids_in_range root (some r.start, some r.end) (none, none) (false, false) (true, false) in
    let ends : List DataId =
      get_ids_in_range root (none, none) (some r.start, some r.end) (true, false) (false, false) in
    let joined : contains_id c (add_all ends (add_all starts []))
        ≡ (contains_id c ends || contains_id c starts) =
      ground (arith, contains-add_all c ends (add_all starts []), contains-add_all c starts []) in
    (
      λ k. elim (Bool-cases (contains_id c starts)) [
        | inl found ↦ let (s, e, h, i, _) = q.0 found in (s, e, h, inl (ground arith, ground arith))
        | inr none_found ↦
            let (s, e, h, _, i) = q'.0 (ground (arith, joined, k, none_found)) in
            (s, e, h, inr (ground arith, ground arith))
      ],
      λ h.
          let (s, e, held, cut) = h in
          elim cut [
            | inl (a, b) ↦ ground (arith, joined, q.1 (s, e, held, ground arith, refl))
            | inr (a, b) ↦ ground (arith, joined, q'.1 (s, e, held, refl, ground arith))
          ],
    )

-- The query for the children that a patch changes finds exactly those that start before the patched
-- range ends and end behind its start, wherever the two grids mirror each other.
pub overlapping_iff :
    (root : DataRoot) (r : Range) (c : DataId)
    → Mirrored root
    → (contains_id c (
          get_ids_in_range root
            (none, some r.end)
            (some r.start, none)
            (false, false)
            (false, false))
        ≡ true)
      ↔ ((s : ℕ) × (e : ℕ) × (holds root c s e ≡ true) × (s < r.end) × (r.start < e))
overlapping_iff root r c m =
    let q =
      get_ids_in_range_iff root m c (none, some r.end) (some r.start, none) (false, false)
        (false, false) in
    (
      λ k. let (s, e, h, s_in, e_in) = q.0 k in (s, e, h, ground arith, ground arith),
      λ h. let (s, e, held, before, behind) = h in q.1 (s, e, held, ground arith, ground arith),
    )
