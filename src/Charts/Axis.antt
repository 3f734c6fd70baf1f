-- ===== src/Charts/Axis.antt =====
-- The time axes of the charts: frontend/src/utils/chartTimeAxis.ts. An instant is its milliseconds;
-- the local time of `Date` is a parameter.
pub mod Ticks
pub mod Cover
pub mod Even
use shatter_nc.Prelude.{
  ℕ, zero, suc, ◌+◌, ◌-◌, ◌*◌, ◌/◌, ◌%◌, Bool, ◌&&◌, Option, none, some, List, [], ◌∷◌, ◌++◌, map,
  if◌then◌else◌, ltb, leb, nat_beq, length, find,
}
use shatter_nc.Prelude.Text.{Text, codes, show_nat, pad_start}
use shatter_nc.Charts.Fetch.{ChartTimeRange}

pub data ChartTimeAxisMode : Type 0 where
  relative absolute : ChartTimeAxisMode

-- what `getFullYear`, `getMonth`, `getDate`, `getHours` and `getMinutes` give
pub record LocalDate : Type 0 where
  pub year : ℕ
  pub month : ℕ
  pub date : ℕ
  pub hours : ℕ
  pub minutes : ℕ

-- The local time of the browser: the parts of an instant, and the instant that `setHours` gives for
-- an instant and a number of minutes: on the day of the instant, the one whose hours and minutes are
-- so many minutes, without seconds.
pub record LocalTime : Type 0 where
  pub parts : ℕ → LocalDate
  pub set_hours : ℕ → ℕ → ℕ

-- A tick, `x` being a numerator and a denominator.
pub record Tick : Type 0 where
  pub x : ℕ × ℕ
  pub time : ℕ

abbrev pub clock_snap_steps_min : List ℕ
clock_snap_steps_min =
    5 ∷ 10 ∷ 15 ∷ 20 ∷ 30 ∷ 60 ∷ 120 ∷ 180 ∷ 360 ∷ 720 ∷ 1_440 ∷ 2_880 ∷ 4_320 ∷ 10_080 ∷ []

-- the loop that counts, and the loop that lists, the grid instants from `t` on
unfoldable pub count_from : ℕ → ℕ → ℕ → ℕ → ℕ
count_from zero step_ms end_time t = 0
count_from (suc fuel) step_ms end_time t =
    let rest = count_from fuel step_ms end_time (t + step_ms) in
    if leb t end_time then rest + 1 else 0

unfoldable pub instants_from : ℕ → ℕ → ℕ → ℕ → List ℕ
instants_from zero step_ms end_time t = []
instants_from (suc fuel) step_ms end_time t =
    let rest = instants_from fuel step_ms end_time (t + step_ms) in
    if leb t end_time then t ∷ rest else []

-- More rounds than the span has steps are not needed.
abbrev pub rounds : ℕ → ℕ → ℕ → ℕ
rounds step_ms start_time end_time = (end_time - start_time) / step_ms + 1

-- for an instant from the start on
abbrev pub tick_at : ℕ → ℕ → ℕ → Tick
tick_at start_time end_time t = record {
  x = (100 * (t - start_time), end_time - start_time);
  time = t;
}

-- `out`, with the ends added where it is short
unfoldable pub with_ends : ℕ → ℕ → List Tick → List Tick
with_ends start_time end_time [] =
    record { x = (0, 1); time = start_time } ∷ record { x = (100, 1); time = end_time } ∷ []
with_ends start_time end_time (tick ∷ []) =
    record { x = (0, 1); time = start_time } ∷ tick ∷ record { x = (100, 1); time = end_time } ∷ []
with_ends start_time end_time (tick ∷ more ∷ out) = tick ∷ more ∷ out

-- the first step of the list that passes, and the one after the loops
abbrev pub or_step : Option ℕ → ℕ → ℕ
or_step none other = other
or_step (some step) other = step

module _ (local : LocalTime) where
  unfoldable pub minutes_since_local_midnight : ℕ → ℕ
  minutes_since_local_midnight t = (local.parts t).hours * 60 + (local.parts t).minutes

  unfoldable pub floor_local_to_minute_grid : ℕ → ℕ → ℕ
  floor_local_to_minute_grid t step_minutes =
      let msm = minutes_since_local_midnight t in local.set_hours t (msm - msm % step_minutes)

  unfoldable pub ceil_local_to_minute_grid : ℕ → ℕ → ℕ
  ceil_local_to_minute_grid t step_minutes =
      let f = floor_local_to_minute_grid t step_minutes in
      if ltb f t then f + step_minutes * 60_000 else f

  unfoldable pub count_grid_ticks_inclusive : ℕ → ℕ → ℕ → ℕ
  count_grid_ticks_inclusive start_time end_time step_minutes =
      count_from (rounds (step_minutes * 60_000) start_time end_time) (step_minutes * 60_000)
        end_time (ceil_local_to_minute_grid start_time step_minutes)

  abbrev pub good_step : ℕ → ℕ → ℕ → Bool
  good_step start_time end_time step =
      let n = count_grid_ticks_inclusive start_time end_time step in leb 4 n && leb n 14

  abbrev pub fair_step : ℕ → ℕ → ℕ → Bool
  fair_step start_time end_time step = leb 2 (count_grid_ticks_inclusive start_time end_time step)

  unfoldable pub pick_clock_snap_step_minutes : ℕ → ℕ → ℕ
  pick_clock_snap_step_minutes start_time end_time =
      or_step (find (good_step start_time end_time) clock_snap_steps_min)
        (or_step (find (fair_step start_time end_time) clock_snap_steps_min) 60)

  unfoldable pub get_clock_snap_oscilloscope_ticks : ℕ → ℕ → List Tick
  get_clock_snap_oscilloscope_ticks start_time end_time =
      let step_m = pick_clock_snap_step_minutes start_time end_time in
      if leb end_time start_time
      then []
      else with_ends start_time end_time (
          map (tick_at start_time end_time) (
            instants_from (rounds (step_m * 60_000) start_time end_time) (step_m * 60_000) end_time
              (ceil_local_to_minute_grid start_time step_m)))

abbrev pub segment_count : ChartTimeRange → ℕ
segment_count ChartTimeRange.one_hour = 4
segment_count ChartTimeRange.eight_hours = 8
segment_count ChartTimeRange.one_day = 4
segment_count ChartTimeRange.seven_days = 7

-- the loop from `i` on, `left` rounds
unfoldable pub divisions : ℕ → ℕ → ℕ → ℕ → ℕ → List Tick
divisions zero i segments start_time total = []
divisions (suc left) i segments start_time total =
    record { x = (100 * i, segments); time = start_time + i * total / segments }
    ∷ divisions left (i + 1) segments start_time total

unfoldable pub get_oscilloscope_time_ticks : ChartTimeRange → ℕ → ℕ → List Tick
unfolding divisions
get_oscilloscope_time_ticks range start_time end_time =
    if leb end_time start_time
    then []
    else divisions (segment_count range + 1) 0 (segment_count range) start_time
        (end_time - start_time)

-- the labels
abbrev pub format_month_dot_day : LocalDate → Text
format_month_dot_day d = show_nat (d.month + 1) ++ codes "." ++ show_nat d.date

abbrev pub format_hour_minute24 : LocalDate → Text
format_hour_minute24 d = show_nat d.hours ++ codes ":" ++ pad_start 2 (show_nat d.minutes)

-- `Math.round` of a quotient
abbrev pub round_div : ℕ → ℕ → ℕ
round_div n unit = (n + unit / 2) / unit

unfoldable pub format_relative_tick : ChartTimeRange → ℕ → ℕ → Text
format_relative_tick ChartTimeRange.one_hour div_time end_time =
    show_nat (round_div (end_time - div_time) 60_000) ++ codes "m"
format_relative_tick ChartTimeRange.eight_hours div_time end_time =
    show_nat (round_div (end_time - div_time) 3_600_000) ++ codes "h"
format_relative_tick ChartTimeRange.one_day div_time end_time =
    show_nat (round_div (end_time - div_time) 3_600_000) ++ codes "h"
format_relative_tick ChartTimeRange.seven_days div_time end_time =
    show_nat (round_div (end_time - div_time) 86_400_000) ++ codes "d"

module _ (local : LocalTime) where
  unfoldable pub get_oscilloscope_ticks_for_mode :
      ChartTimeRange → ℕ → ℕ → ChartTimeAxisMode → List Tick
  get_oscilloscope_ticks_for_mode range start_time end_time ChartTimeAxisMode.relative =
      get_oscilloscope_time_ticks range start_time end_time
  get_oscilloscope_ticks_for_mode range start_time end_time ChartTimeAxisMode.absolute =
      get_clock_snap_oscilloscope_ticks local start_time end_time

  unfoldable pub same_local_calendar_day : ℕ → ℕ → Bool
  same_local_calendar_day a b =
      nat_beq (local.parts a).year (local.parts b).year
      && nat_beq (local.parts a).month (local.parts b).month
      && nat_beq (local.parts a).date (local.parts b).date

  unfoldable pub format_absolute_division_label : ℕ → Option ℕ → Text
  format_absolute_division_label div_time none = format_hour_minute24 (local.parts div_time)
  format_absolute_division_label div_time (some previous) =
      if same_local_calendar_day previous div_time
      then format_hour_minute24 (local.parts div_time)
      else format_month_dot_day (local.parts div_time)

  -- the ticks with their labels, the one before them being `previous`
  unfoldable pub absolute_labels : Option ℕ → List Tick → List (Tick × Text)
  absolute_labels previous [] = []
  absolute_labels previous (d ∷ ticks) =
      (d, format_absolute_division_label d.time previous) ∷ absolute_labels (some d.time) ticks

  unfoldable pub build_oscilloscope_axis_division_labels :
      ChartTimeRange → List Tick → ℕ → ChartTimeAxisMode → List (Tick × Text)
  unfolding absolute_labels
  build_oscilloscope_axis_division_labels range ticks end_time ChartTimeAxisMode.relative =
      map (λ (d : Tick). (d, format_relative_tick range d.time end_time)) ticks
  build_oscilloscope_axis_division_labels range ticks end_time ChartTimeAxisMode.absolute =
      absolute_labels none ticks

  unfoldable pub format_absolute_axis_endpoint : ℕ → ℕ → ℕ → Text
  format_absolute_axis_endpoint t start_time end_time =
      if same_local_calendar_day start_time end_time
      then format_hour_minute24 (local.parts t)
      else format_month_dot_day (local.parts t) ++ codes " " ++ format_hour_minute24 (local.parts t)

  unfoldable pub oscilloscope_axis_end_labels : ℕ → ℕ → ChartTimeAxisMode → Text × Text
  oscilloscope_axis_end_labels start_time end_time ChartTimeAxisMode.relative =
      (codes "PAST", codes "NOW")
  oscilloscope_axis_end_labels start_time end_time ChartTimeAxisMode.absolute = (
    format_absolute_axis_endpoint start_time start_time end_time,
    format_absolute_axis_endpoint end_time start_time end_time,
  )
