-- ===== src/Charts/Axis/Even.antt =====
-- The even divisions of a relative axis.
use mathlib.Core.Path.{subst}
use shatter_nc.Prelude.{
  ℕ, ◌+◌, ◌-◌, ◌<◌, ◌≡◌, ◌∙◌, ap, Option, none, some, List, [], ◌∷◌, arith, length, get_elem?, leb,
  false,
}
use shatter_nc.Charts.Fetch.{ChartTimeRange}
use shatter_nc.Charts.Axis.{Tick, segment_count, divisions, get_oscilloscope_time_ticks}
use shatter_nc.Charts.Axis.Cover.{IsAxis}

divisions-IsAxis :
    (range : ChartTimeRange) (start_time total : ℕ)
    → IsAxis start_time
        (start_time + total)
        (divisions (segment_count range + 1) 0 (segment_count range) start_time total)
unfolding divisions
divisions-IsAxis ChartTimeRange.one_hour start_time total = ground arith
divisions-IsAxis ChartTimeRange.eight_hours start_time total = ground arith
divisions-IsAxis ChartTimeRange.one_day start_time total = ground arith
divisions-IsAxis ChartTimeRange.seven_days start_time total = ground arith

-- the last tick of a list
abbrev pub final : List Tick → Option Tick
final [] = none
final (k ∷ []) = some k
final (k ∷ l ∷ ks) = final (l ∷ ks)

abbrev pub times : Option Tick → Option ℕ
times none = none
times (some k) = some k.time

divisions-ends :
    (range : ChartTimeRange) (start_time total : ℕ)
    → (times (
          get_elem?
            (divisions (segment_count range + 1) 0 (segment_count range) start_time total)
            0)
        ≡ some start_time)
      × (times
            (final (divisions (segment_count range + 1) 0 (segment_count range) start_time total))
          ≡ some (start_time + total))
      × (length (divisions (segment_count range + 1) 0 (segment_count range) start_time total)
          ≡ segment_count range + 1)
unfolding divisions
divisions-ends ChartTimeRange.one_hour start_time total = ground arith
divisions-ends ChartTimeRange.eight_hours start_time total = ground arith
divisions-ends ChartTimeRange.one_day start_time total = ground arith
divisions-ends ChartTimeRange.seven_days start_time total = ground arith

-- On an axis whose end is after its start, the relative ticks begin at the start and end at the end,
-- stand between the two in order, and are one more than the segments of the time range.
pub get_oscilloscope_time_ticks-IsAxis :
    (range : ChartTimeRange) (start_time end_time : ℕ)
    → start_time < end_time
    → IsAxis start_time end_time (get_oscilloscope_time_ticks range start_time end_time)
      × (times (get_elem? (get_oscilloscope_time_ticks range start_time end_time) 0)
          ≡ some start_time)
      × (times (final (get_oscilloscope_time_ticks range start_time end_time)) ≡ some end_time)
      × (length (get_oscilloscope_time_ticks range start_time end_time) ≡ segment_count range + 1)
unfolding get_oscilloscope_time_ticks
get_oscilloscope_time_ticks-IsAxis range start_time end_time h =
    let total = end_time - start_time in
    let end_eq : start_time + total ≡ end_time = omega arith in
    rw (leb_lt start_time end_time h) (
      subst
          (λ e.
            IsAxis start_time e
              (divisions (segment_count range + 1) 0 (segment_count range) start_time total))
          end_eq (divisions-IsAxis range start_time total),
      (divisions-ends range start_time total).0,
      (divisions-ends range start_time total).1 ∙ ap some end_eq,
      (divisions-ends range start_time total).2,
    )
  where
    leb_lt : (a b : ℕ) → a < b → leb b a ≡ false
    leb_lt a b h = ground arith
