-- ===== src/Charts/Drawn.antt =====
-- Thinning a series out for the chart keeps its highest and its lowest value.
use mathlib.Core.List.{Memᴰ, foldl}
use shatter_nc.Prelude.{ℕ, ◌≡◌, ◌≢◌, Bool, true, false, not, Option, none, some, List, [], ◌∷◌, All}
use shatter_nc.Prelude.Tests.{nat_eq}
use shatter_nc.Prelude.Maps.{Map}
use shatter_nc.Prelude.Numbers.{Num}
use shatter_nc.Charts.{SeriesKey, TelemetryPoint, finite_at, best, above, below, set_point}

-- No two points of the series have the same time.
abbrev pub IsTimed : List TelemetryPoint → Type 0
IsTimed [] = Unit
IsTimed (p ∷ ps) = All (λ (q : TelemetryPoint). p.t ≢ q.t) ps × IsTimed ps

-- the value of `d` is not beaten by the value of `q`
abbrev pub reach_by : (Num → Num → Bool) → Option Num → Option Num → Bool
reach_by beats none v = false
reach_by beats (some n) none = true
reach_by beats (some n) (some v) = not (beats v n)

abbrev pub reaches : (Num → Num → Bool) → SeriesKey → TelemetryPoint → TelemetryPoint → Bool
reaches beats key q d = reach_by beats (finite_at key d) (finite_at key q)

-- the best point of a series that holds `q`
record Top (beats : Num → Num → Bool) (key : SeriesKey) (full : List TelemetryPoint)
    (q : TelemetryPoint) : Type 0 where
  point : TelemetryPoint
  value : Num
  is_best : best beats key none full ≡ some (point, value)
  mem : Memᴰ point full
  reached : reaches beats key q point ≡ true

module _ (key : SeriesKey) (full : List TelemetryPoint) (q : TelemetryPoint) (timed : IsTimed full)
    (hi : Top above key full q) (lo : Top below key full q) (decimated : List TelemetryPoint) where
  start : Map ℕ TelemetryPoint
  start = foldl set_point [] decimated
