-- ===== src/Examples/Charts.antt =====
-- A compressor's readings, a request that fails once, and axes in universal time.
use shatter_nc.Prelude.{
  ℕ, zero, suc, ◌+◌, ◌-◌, ◌*◌, ◌/◌, ◌%◌, ◌≤◌, ◌<◌, ◌≡◌, refl, true, false, none, some, List, [],
  ◌∷◌, arith, length,
}
use shatter_nc.Prelude.Numbers.{whole}
use shatter_nc.Prelude.Text.{codes}
use shatter_nc.Prelude.Json.{Json, Members, get}
use shatter_nc.Telemetry.{CompressorStatus, TelemetryLines, compressor_card_telemetry_lines}
use shatter_nc.Telemetry.Lines.{compressor_card_telemetry_lines-numeric}
use shatter_nc.Charts.{TelemetryPoint}
use shatter_nc.Charts.Bins.{Sample, bins, downsample_by_time_min_max_mean}
use shatter_nc.Charts.Bins.Complete.{total, downsample_by_time_min_max_mean_complete}
use shatter_nc.Charts.Fetch.{Failure, Reply, Attempt, Outcome, fetch_compressor_status_samples}
use shatter_nc.Charts.Fetch.Retries.{Within, fetch_compressor_status_samples-Within}
use shatter_nc.Charts.Fetch.Polling.{Event, run_initial, on_events, on_events-last_good}
use shatter_nc.Charts.Axis.{LocalTime, get_clock_snap_oscilloscope_ticks}
use shatter_nc.Charts.Axis.Ticks.{NotSetBack}
use shatter_nc.Charts.Axis.Cover.{IsAxis, get_clock_snap_oscilloscope_ticks-IsAxis}

abbrev reading : Json → Json → Members
reading value unit =
    Members.member (codes "value") value (Members.member (codes "unit") unit Members.end)

-- The pressure is a string, and there is no temperature.
abbrev compressor : CompressorStatus
compressor = record {
  is_online = true;
  status = some (codes "running");
  metrics = some (
      Members.member (codes "operational")
        (Json.object (
          Members.member (codes "pressure")
            (Json.object (reading (Json.str (codes "7.25")) (Json.str (codes "bar")))) Members.end))
        Members.end);
}

compressor_card_telemetry_lines-numeric_example :
    ((compressor_card_telemetry_lines compressor).psi_line ≡ codes "7.3bar")
    × ((compressor_card_telemetry_lines compressor).temp_line ≡ codes "—")
unfolding shatter_nc.Telemetry.as_record shatter_nc.Telemetry.numeric
    shatter_nc.Telemetry.read_numeric_pressure_temp get shatter_nc.Prelude.Text.to_number
    shatter_nc.Prelude.Text.show_num
compressor_card_telemetry_lines-numeric_example =
    compressor_card_telemetry_lines-numeric compressor refl refl

abbrev point : ℕ → ℕ → TelemetryPoint
point t v = record { t = t; psi = some (whole v); temp = none }

abbrev spike : TelemetryPoint
spike = point 2 120

abbrev sample : ℕ → ℕ → Sample
sample t v = record { t = t; v = whole v }

downsample_by_time_min_max_mean_complete_example :
    (total (downsample_by_time_min_max_mean (sample 0 7 ∷ sample 400 9 ∷ sample 1_000 8 ∷ []) 1_000)
      ≡ 3)
    × (bins 5 1_000 (sample 0 7 ∷ sample 400 9 ∷ sample 1_000 8 ∷ [])
        ≡ downsample_by_time_min_max_mean (sample 0 7 ∷ sample 400 9 ∷ sample 1_000 8 ∷ []) 1_000)
downsample_by_time_min_max_mean_complete_example =
    downsample_by_time_min_max_mean_complete (sample 0 7 ∷ sample 400 9 ∷ sample 1_000 8 ∷ []) 1_000
      2 (omega arith)

-- The server is busy at first, then it answers.
abbrev reply_of : ℕ → Reply ℕ
reply_of zero = Reply.not_ok [] 503
reply_of (suc n) = Reply.body (some (10 ∷ 20 ∷ []))

abbrev world : ℕ → Attempt ℕ
world n = record {
  aborted_before = false;
  reply = reply_of n;
  aborted_after = false;
  aborted_waiting = false;
}

fetch_compressor_status_samples-Within_example :
    Within 3 1_050 (fetch_compressor_status_samples world true)
fetch_compressor_status_samples-Within_example = fetch_compressor_status_samples-Within world true

-- The first request fails, the second brings a row, and the third fails.
abbrev events : List (Event ℕ)
events =
    Event.initial_ended (Outcome.failed (Failure.error []))
    ∷ Event.timer_fired
    ∷ Event.poll_ended (Outcome.samples (10 ∷ []))
    ∷ Event.poll_ended (Outcome.failed Failure.aborted)
    ∷ Event.unmounted
    ∷ Event.poll_ended (Outcome.samples (20 ∷ []))
    ∷ []

on_events-last_good_example : (on_events (run_initial []) events).samples ≡ 10 ∷ []
on_events-last_good_example = on_events-last_good events []

abbrev universal : LocalTime
universal = record {
  parts = λ t. record {
    year = 1970;
    month = 0;
    date = t / 86_400_000 + 1;
    hours = t / 3_600_000 % 24;
    minutes = t / 60_000 % 60;
  };
  set_hours = λ t minutes. t / 86_400_000 * 86_400_000 + minutes * 60_000;
}

universal-NotSetBack : (t : ℕ) → NotSetBack universal t
unfolding NotSetBack
universal-NotSetBack t minutes h = omega (arith, h)

-- an hour from seven minutes past two
get_clock_snap_oscilloscope_ticks-IsAxis_example :
    IsAxis 7_620_000 11_220_000 (get_clock_snap_oscilloscope_ticks universal 7_620_000 11_220_000)
get_clock_snap_oscilloscope_ticks-IsAxis_example =
    get_clock_snap_oscilloscope_ticks-IsAxis universal 7_620_000 11_220_000
      (universal-NotSetBack 7_620_000) (omega arith)
