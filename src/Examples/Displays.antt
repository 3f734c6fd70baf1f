-- ===== src/Examples/Displays.antt =====
-- A timeline with events out of order, a table of two columns, two sliders and a light.
use shatter_nc.Prelude.{
  ℕ, ◌≤◌, ◌≡◌, ◌≢◌, refl, false, none, some, List, [], ◌∷◌, map, length, arith,
}
use shatter_nc.Prelude.Text.{Text, codes}
use shatter_nc.Timeline.{
  MachineStatus, StatusHistoryEvent, TimeRangeBounds, StatusDurationSlice, normalize_status,
  compute_status_durations,
}
use shatter_nc.Timeline.Totals.{sum_ms, compute_status_durations-partition}
use shatter_nc.Widths.{Measured}
use shatter_nc.Freshness.{Stamp, parse_time, earlier_iso_timestamp, recompute}
use shatter_nc.Freshness.Worse.{rank, earlier_iso_timestamp-worse}

abbrev event : ℕ → Text → StatusHistoryEvent
event t status = record { time = some t; status = status }

abbrev window : TimeRangeBounds
window = record { start_time = 1_000; end_time = 4_600; total_ms = 3_600 }

abbrev events : List StatusHistoryEvent
events =
    event 3_000 (codes "alarm")
    ∷ event 500 (codes "off")
    ∷ event 2_000 (codes "Running")
    ∷ record { time = none; status = [] }
    ∷ []

compute_status_durations-partition_example :
    sum_ms (compute_status_durations events window (some (codes "standby")) none) ≡ 3_600
compute_status_durations-partition_example =
    compute_status_durations-partition events window (codes "standby") none (omega arith) refl

-- the durations themselves
abbrev ms_of : List StatusDurationSlice → List ℕ
ms_of = map (λ (s : StatusDurationSlice). s.ms)

durations_test :
    (ms_of (compute_status_durations events window (some (codes "standby")) none)
      ≡ 1_000 ∷ 2_600 ∷ 0 ∷ 0 ∷ 0 ∷ [])
unfolding compute_status_durations shatter_nc.Timeline.duration_of shatter_nc.Prelude.Sort.sort_by
    shatter_nc.Prelude.Sort.insert_sorted shatter_nc.Timeline.last_segment
    shatter_nc.Timeline.segments shatter_nc.Timeline.add_ms normalize_status
    shatter_nc.Prelude.Text.trim shatter_nc.Prelude.Text.to_lower shatter_nc.Prelude.Text.includes
    shatter_nc.Timeline.initial_status
durations_test = refl

unknown≢down : none ≢ some false
unknown≢down e = cc

-- a browser that measures nine pixels for every label
abbrev narrow : Measured
narrow = record { header_min = λ _. 9; name_min = 120 }

abbrev read_at : ℕ → Stamp
read_at t = Stamp.at (codes "2026-01-01T00:00:00Z") (some t)

given : (t : ℕ) → read_at t ≢ Stamp.undefined
given t e = cc

-- The API was read just now, but the machine was not polled for a minute and more.
earlier_iso_timestamp-worse_example :
    rank (recompute 100_000 5_000 (earlier_iso_timestamp (read_at 99_000) (read_at 30_000))) ≡ 2
unfolding parse_time recompute
earlier_iso_timestamp-worse_example =
    earlier_iso_timestamp-worse 100_000 5_000 (read_at 99_000) (read_at 30_000) 99_000 refl
      (given 30_000)
