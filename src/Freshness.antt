-- ===== src/Freshness.antt =====
-- How fresh what a pane shows is: frontend/src/components/ui/pollingFreshness.ts,
-- frontend/src/utils/machinePollFreshness.ts, and the light of
-- frontend/src/components/ui/PollingStatusLight.tsx.
pub mod Worse
use shatter_nc.Prelude.{
  ℕ, ◌+◌, ◌-◌, ◌*◌, Bool, true, false, Option, none, some, [], ◌∷◌, max, if◌then◌else◌, leb, ltb,
}
use shatter_nc.Prelude.Text.{Text}

pub data PollingFreshness : Type 0 where
  fresh waning stale unknown : PollingFreshness

-- A time as the panes hold it: not given, null, or a string with the milliseconds that
-- `new Date(…).getTime()` reads from it, `none` where they are NaN.
pub data Stamp : Type 0 where
  undefined null : Stamp
  at : Text → Option ℕ → Stamp

-- `ta`, and `parseTime`
unfoldable pub parse_time : Stamp → Option ℕ
parse_time Stamp.undefined = none
parse_time Stamp.null = none
parse_time (Stamp.at [] ms) = none
parse_time (Stamp.at (c ∷ s) ms) = ms

unfoldable pub earlier_iso_timestamp : Stamp → Stamp → Stamp
earlier_iso_timestamp api Stamp.undefined = elim (parse_time api) [
  | none ↦ Stamp.null
  | some _ ↦ api
]
earlier_iso_timestamp api Stamp.null = Stamp.null
earlier_iso_timestamp api (Stamp.at [] ms) = Stamp.null
earlier_iso_timestamp api (Stamp.at (c ∷ s) none) = Stamp.null
earlier_iso_timestamp api (Stamp.at (c ∷ s) (some tb)) = elim (parse_time api) [
  | none ↦ Stamp.at (c ∷ s) (some tb)
  | some ta ↦ if leb ta tb then api else Stamp.at (c ∷ s) (some tb)
]

-- a machine's two times of a poll
pub record Polled : Type 0 where
  pub last_successful_poll_at : Stamp
  pub poll_timestamp : Text × Option ℕ

unfoldable pub fast_poll_last_success_at : Polled → Stamp
fast_poll_last_success_at m = elim m.last_successful_poll_at [
  | Stamp.undefined ↦ Stamp.at (m.poll_timestamp.0) (m.poll_timestamp.1)
  | Stamp.null ↦ Stamp.null
  | Stamp.at s ms ↦ Stamp.at s ms
]

-- `Date.now() - t`, which is negative for a time to come
pub data Age : Type 0 where
  ahead ago : ℕ → Age

abbrev pub age_ms : ℕ → ℕ → Age
age_ms now t = if ltb now t then Age.ahead (t - now) else Age.ago (now - t)

unfoldable pub freshness_from_age_ms : Age → ℕ → PollingFreshness
freshness_from_age_ms (Age.ahead ms) expected_interval_ms = PollingFreshness.fresh
freshness_from_age_ms (Age.ago ms) expected_interval_ms =
    if leb ms (max (expected_interval_ms * 2) 5_000)
    then PollingFreshness.fresh
    else if leb ms (max (expected_interval_ms * 6) 60_000)
    then PollingFreshness.waning
    else PollingFreshness.stale

-- the light that `recompute` sets
unfoldable pub recompute : ℕ → ℕ → Stamp → PollingFreshness
unfolding parse_time freshness_from_age_ms
recompute now expected_interval_ms last_updated_at = elim (parse_time last_updated_at) [
  | none ↦ PollingFreshness.unknown
  | some t ↦ freshness_from_age_ms (age_ms now t) expected_interval_ms
]
