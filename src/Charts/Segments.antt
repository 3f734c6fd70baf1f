-- ===== src/Charts/Segments.antt =====
-- The series of the chart in pieces, its peak and its range: `contiguousSegments`, `peakInRange` and
-- `minMaxInRange` of frontend/src/components/machine-detail/CompressorTelemetrySeriesPane.tsx.
pub mod Range
use shatter_nc.Prelude.{ℕ, Bool, ◌||◌, Option, none, some, List, [], ◌∷◌, ◌++◌, if◌then◌else◌, ltb}
use shatter_nc.Prelude.Numbers.{Num, lt_num}
use shatter_nc.Charts.{SeriesKey, TelemetryPoint, finite_at}

-- `if (cur.length) segs.push(cur)`, before what follows
abbrev pub push : List TelemetryPoint → List (List TelemetryPoint) → List (List TelemetryPoint)
push [] segs = segs
push (p ∷ cur) segs = (p ∷ cur) ∷ segs

-- what the loop does at a point with no value, and at one that has a value
abbrev pub cut {ℓ} : {A : Type ℓ} → Option Num → A → A → A
cut none gap more = gap
cut (some v) gap more = more

-- the loop, with `cur` so far
unfoldable pub segments_from :
    SeriesKey → List TelemetryPoint → List TelemetryPoint → List (List TelemetryPoint)
segments_from key cur [] = push cur []
segments_from key cur (p ∷ ps) =
    let gap = segments_from key [] ps in
    let more = segments_from key (cur ++ p ∷ []) ps in cut (finite_at key p) (push cur gap) more

unfoldable pub contiguous_segments : List TelemetryPoint → SeriesKey → List (List TelemetryPoint)
unfolding segments_from
contiguous_segments points key = segments_from key [] points

-- `Math.max` of the values
abbrev pub raise : Option Num → Num → Option Num
raise none v = some v
raise (some m) v = if lt_num m v then some v else some m

abbrev pub peak_step : Option Num → Option Num → Option Num
peak_step peak none = peak
peak_step peak (some v) = raise peak v

unfoldable pub peak_from : SeriesKey → Option Num → List TelemetryPoint → Option Num
peak_from key peak [] = peak
peak_from key peak (p ∷ ps) = peak_from key (peak_step peak (finite_at key p)) ps

unfoldable pub peak_in_range : List TelemetryPoint → SeriesKey → Option Num
unfolding peak_from
peak_in_range points key = peak_from key none points

-- `min` and `max`, once `saw` is true
pub record Extent : Type 0 where
  pub min : Num
  pub max : Num

abbrev pub widen : Option Extent → Num → Extent
widen none v = record { min = v; max = v }
widen (some r) v = record {
  min = if lt_num v r.min then v else r.min;
  max = if lt_num r.max v then v else r.max;
}

abbrev pub range_step : Option Extent → Option Num → Option Extent
range_step found none = found
range_step found (some v) = some (widen found v)

abbrev pub outside : ℕ → ℕ → TelemetryPoint → Bool
outside start_ms end_ms p = ltb p.t start_ms || ltb end_ms p.t

unfoldable pub range_from : SeriesKey → ℕ → ℕ → Option Extent → List TelemetryPoint → Option Extent
range_from key start_ms end_ms found [] = found
range_from key start_ms end_ms found (p ∷ ps) =
    range_from key start_ms end_ms
      (if outside start_ms end_ms p then found else range_step found (finite_at key p)) ps

unfoldable pub min_max_in_range : List TelemetryPoint → SeriesKey → ℕ → ℕ → Option Extent
unfolding range_from
min_max_in_range points key start_ms end_ms = range_from key start_ms end_ms none points
