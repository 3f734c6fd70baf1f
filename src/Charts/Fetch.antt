-- ===== src/Charts/Fetch.antt =====
-- The request for a chart's samples and the polling of the chart:
-- frontend/src/utils/compressorChartSamples.ts, and the effect of
-- frontend/src/components/machine-detail/CompressorTelemetrySeriesPane.tsx that calls it.
pub mod Retries
pub mod Polling
use Prim.Native.Nat.{◌^◌}
use shatter_nc.Prelude.{
  ℕ, zero, suc, ◌+◌, ◌*◌, Bool, true, false, ◌||◌, Option, none, some, List, [], if◌then◌else◌,
  nat_beq, ◌++◌, ◌∷◌,
}
use shatter_nc.Prelude.Text.{Text, codes, show_nat}

pub data ChartTimeRange : Type 0 where
  one_hour eight_hours one_day seven_days : ChartTimeRange

pub data SamplesProfile : Type 0 where
  default tablet : SamplesProfile

unfoldable pub compressor_chart_refetch_ms : SamplesProfile → ℕ
compressor_chart_refetch_ms SamplesProfile.tablet = 10_000
compressor_chart_refetch_ms SamplesProfile.default = 2_500

unfoldable pub compressor_status_samples_limit : ChartTimeRange → SamplesProfile → ℕ
compressor_status_samples_limit ChartTimeRange.one_hour SamplesProfile.tablet = 2_800
compressor_status_samples_limit ChartTimeRange.eight_hours SamplesProfile.tablet = 2_000
compressor_status_samples_limit ChartTimeRange.one_day SamplesProfile.tablet = 2_800
compressor_status_samples_limit ChartTimeRange.seven_days SamplesProfile.tablet = 4_000
compressor_status_samples_limit ChartTimeRange.one_hour SamplesProfile.default = 4_500
compressor_status_samples_limit ChartTimeRange.eight_hours SamplesProfile.default = 9_000
compressor_status_samples_limit ChartTimeRange.one_day SamplesProfile.default = 14_000
compressor_status_samples_limit ChartTimeRange.seven_days SamplesProfile.default = 20_000

-- what is thrown: an `AbortError`, or an error with its message
pub data Failure : Type 0 where
  aborted : Failure
  error : Text → Failure

abbrev pub is_compressor_chart_abort_error : Failure → Bool
is_compressor_chart_abort_error Failure.aborted = true
is_compressor_chart_abort_error (Failure.error m) = false

-- What `fetch` and `json` do: an answer that is not ok, with its text and status; a JSON value, as
-- its items if it is an array; or an exception. `R` stands for the rows.
pub data Reply (R : Type 0) : Type 0 where
  not_ok : Text → ℕ → Reply R
  body : Option (List R) → Reply R
  thrown : Failure → Reply R

-- One attempt as the outside world runs it: whether the signal is aborted at its start, the reply,
-- and whether it is aborted when an exception is caught, or during the wait after it.
pub record Attempt (R : Type 0) : Type 0 where
  pub aborted_before : Bool
  pub reply : Reply R
  pub aborted_after : Bool
  pub aborted_waiting : Bool

pub data Outcome (R : Type 0) : Type 0 where
  samples : List R → Outcome R
  failed : Failure → Outcome R

-- How the call ends, how many requests it sent, and how long it waited between them.
pub record Trace (R : Type 0) : Type 0 where
  pub outcome : Outcome R
  pub requests : ℕ
  pub waited : ℕ

abbrev pub status_text_or : Text → ℕ → Text
status_text_or [] status = codes "HTTP " ++ show_nat status
status_text_or (c ∷ s) status = c ∷ s

-- the delay after attempt `attempt`
abbrev pub backoff : ℕ → ℕ
backoff attempt = 350 * 2 ^ attempt

abbrev pub attempts_of : Bool → ℕ
attempts_of is_initial = if is_initial then 3 else 1

module _ {R : Type 0} where
  -- the body of the `try`
  abbrev pub receive : Reply R → Outcome R
  receive (Reply.not_ok text status) = Outcome.failed (Failure.error (status_text_or text status))
  receive (Reply.body none) = Outcome.samples []
  receive (Reply.body (some rows)) = Outcome.samples rows
  receive (Reply.thrown e) = Outcome.failed e

  abbrev pub stop : Outcome R → Trace R
  stop o = record { outcome = o; requests = 0; waited = 0 }

  -- a request and a wait before what follows
  abbrev pub after : ℕ → Trace R → Trace R
  after ms t = record t { requests = t.requests + 1; waited = t.waited + ms }

  -- the `catch` of an attempt, `rest` being what the loop does next
  unfoldable pub caught : Attempt R → ℕ → Failure → ℕ → Trace R → Trace R
  caught a attempt e left rest =
      if a.aborted_after || is_compressor_chart_abort_error e
      then after 0 (stop (Outcome.failed e))
      else if nat_beq left 0
      then after 0 rest
      else if a.aborted_waiting
      then after (backoff attempt) (stop (Outcome.failed Failure.aborted))
      else after (backoff attempt) rest

  abbrev pub handle : Outcome R → Attempt R → ℕ → ℕ → (Failure → Trace R) → Trace R
  handle (Outcome.samples rows) a attempt left rest = after 0 (stop (Outcome.samples rows))
  handle (Outcome.failed e) a attempt left rest = caught a attempt e left (rest e)

  -- the loop, with the attempts that are left and `lastErr`
  unfoldable pub retry : (ℕ → Attempt R) → ℕ → ℕ → Failure → Trace R
  unfolding caught
  retry world zero attempt last = stop (Outcome.failed last)
  retry world (suc left) attempt last =
      let a = world attempt in
      if a.aborted_before
      then stop (Outcome.failed Failure.aborted)
      else handle (receive a.reply) a attempt left (λ e. retry world left (attempt + 1) e)

  unfoldable pub fetch_compressor_status_samples : (ℕ → Attempt R) → Bool → Trace R
  unfolding retry
  fetch_compressor_status_samples world is_initial =
      retry world (attempts_of is_initial) 0 (Failure.error [])
