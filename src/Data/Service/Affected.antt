-- ===== src/Data/Service/Affected.antt =====
-- ofrak_core/ofrak/service/data_service.py, `get_children_affected_by_ranges`: on a service whose
-- models, roots and indexes agree, no child raises.
use ofrak.Prelude.{
  ℕ, zero, suc, ◌-◌, ◌≤◌, ◌<◌, ◌≡◌, refl, true, false, none, some, List, [], ◌∷◌, ◌++◌, arith, All,
  ok, max, min, dict_get,
}
use ofrak.Prelude.Int.{neg}
use ofrak.Range.{Range, IsValid, mk_range, intersect, translate}
use ofrak.Data.Grid.{DataId, contains_id}
use ofrak.Data.Root.{
  DataModel, DataRoot, Models, affected_by, get_children_affected_by_ranges, get_ids_in_range,
}
use ofrak.Data.Root.Boundaries.{overlapping_iff}
use ofrak.Data.Service.{DataService}
use ofrak.Data.Service.Consistent.{Consistent}

translate-neg :
    (r : Range) (n : ℕ)
    → IsValid r
    → n ≤ r.start
    → translate r (neg n) ≡ ok (record { start = r.start - n; end = r.end - n })
unfolding translate mk_range
translate-neg r zero v h = ground arith
translate-neg r (suc n) v h = ground arith

abbrev overlap : Range → Range → Range
overlap p m = record { start = max m.start p.start; end = min m.end p.end }

overlap-ok :
    (p m : Range)
    → IsValid p
    → IsValid m
    → p.start < m.end
    → m.start < p.end
    → intersect p m ≡ ok (overlap p m)
unfolding intersect mk_range
overlap-ok p m v w a b = ground arith

-- A model that a patched range overlaps.
record Overlapped (models : Models) (p : Range) (x : DataId) : Type 0 where
  model : DataModel
  at : dict_get x models ≡ some model
  valid : IsValid model.range
  before : model.range.start < p.end
  behind : p.start < model.range.end

affected_by-ok :
    (models : Models) (p : Range) (ids : List DataId)
    → IsValid p
    → All (Overlapped models p) ids
    → (out : List (DataId × Range)) × (affected_by models p ids ≡ ok out)
unfolding affected_by
affected_by-ok models p [] v h = ([], refl)
affected_by-ok models p (x ∷ ids) v h =
    let o = h.0 in
    let (others, e) = affected_by-ok models p ids v h.1 in
    (
      (
        x,
        record {
          start = max o.model.range.start p.start - o.model.range.start;
          end = min o.model.range.end p.end - o.model.range.start;
        },
      )
          ∷ others,
      rw
          (
            o.at,
            overlap-ok p o.model.range v o.valid o.behind o.before,
            translate-neg (overlap p o.model.range) o.model.range.start
                (omega (arith, o.valid, v, o.before, o.behind)) (omega arith),
            e,
            affected_by,
          )
          refl,
    )

module _ {P : DataId → Type 0} where
  All-contained : (ids : List DataId) → ((x : DataId) → contains_id x ids ≡ true → P x) → All P ids
  All-contained [] h = tt
  All-contained (x ∷ ids) h =
      (h x (ground arith), All-contained ids (λ y k. h y (ground (arith, k))))

module _ (s : DataService) (c : Consistent s) (id : DataId) (root : DataRoot)
    (at : dict_get id s.roots ≡ some root) where
  overlapped :
      (p : Range) (x : DataId)
      → contains_id x (
          get_ids_in_range root
            (none, some p.end)
            (some p.start, none)
            (false, false)
            (false, false))
        ≡ true
      → Overlapped s.model_store p x
  overlapped p x k =
      let (start, end, held, before, behind) =
        (overlapping_iff root p x (c.mirrored id root at)).0 k in
      let h = c.holding id root x start end at held in
      record {
        model = h.model;
        at = h.at;
        valid = (c.placed x h.model h.at).valid;
        before = omega (arith, h.starts, before);
        behind = omega (arith, h.ends, behind);
      }

  pub affected-ok :
      (ranges : List Range)
      → All IsValid ranges
      → (out : List (DataId × Range)) × (get_children_affected_by_ranges s.model_store root ranges
          ≡ ok out)
  unfolding get_children_affected_by_ranges
  affected-ok [] v = ([], refl)
  affected-ok (p ∷ ranges) v =
      let ids : List DataId =
        get_ids_in_range root (none, some p.end) (some p.start, none) (false, false)
          (false, false) in
      let (first, e) = affected_by-ok s.model_store p ids v.0 (All-contained ids (overlapped p)) in
      let (others, e') = affected-ok ranges v.1 in
      (first ++ others, rw (e, e', get_children_affected_by_ranges) refl)
