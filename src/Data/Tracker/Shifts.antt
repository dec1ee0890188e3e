-- ===== src/Data/Tracker/Shifts.antt =====
-- ofrak_core/ofrak/service/data_service.py, `_PatchResizeTracker`: where it moves a point.
use ofrak.Prelude.{ℕ, ◌+◌, ◌≤◌, ◌<◌, ◌≡◌, arith, ok, leb, if◌then◌else◌}
use ofrak.Prelude.Int.{pos}
use ofrak.Range.{Range}
use ofrak.Data.Tracker.{
  new_tracker, add_new_resized_range, add_node, grow_shifts, get_shifted_point, last_shift,
  shift_point,
}

-- After one patch that grows its range by `d`, the points from the end of the range on move by `d`
-- and the points before its end stay.
shift_once :
    (r : Range) (d point : ℕ)
    → get_shifted_point (add_new_resized_range new_tracker r (pos d)) point
      ≡ ok (if leb r.end point then point + d else point)
unfolding get_shifted_point add_new_resized_range add_node grow_shifts last_shift shift_point
shift_once r d point = ground arith

-- After two growing patches, of which the second lies behind the first, a point behind both that is
-- less than the first growth away from the end of the second moves by the first growth only: the
-- second range is stored where the first patch moved it, and the point is compared unmoved.
pub shift_twice_short :
    (r r' : Range) (d d' point : ℕ)
    → r.end ≤ r'.end
    → r'.end ≤ point
    → point < r'.end + d
    → get_shifted_point
        (add_new_resized_range
          (add_new_resized_range new_tracker r (pos d))
          (record { start = r'.start + d; end = r'.end + d })
          (pos d'))
        point
      ≡ ok (point + d)
unfolding get_shifted_point add_new_resized_range add_node grow_shifts last_shift shift_point
shift_twice_short r r' d d' point a b c = ground arith
