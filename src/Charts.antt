-- ===== src/Charts.antt =====
-- The charts: frontend/src/components/machine-detail/CompressorTelemetrySeriesPane.tsx,
-- frontend/src/utils/compressorChartSamples.ts and frontend/src/utils/chartTimeAxis.ts. This file
-- holds the points of a series and how they are thinned out.
pub mod Extrema
pub mod Drawn
pub mod Size
pub mod Order
pub mod Bins
pub mod Segments
pub mod Fetch
pub mod Axis
use mathlib.Core.List.{foldl}
use shatter_nc.Prelude.{
  ℕ, zero, suc, ◌+◌, ◌-◌, ◌*◌, ◌/◌, Bool, true, false, not, ◌&&◌, ◌||◌, Option, none, some, List,
  [], ◌∷◌, ◌++◌, map, if◌then◌else◌, ltb, leb, nat_beq, length, filter,
}
use shatter_nc.Prelude.Tests.{nat_eq}
use shatter_nc.Prelude.Maps.{Map, insert}
use shatter_nc.Prelude.Sort.{sort_by}
use shatter_nc.Prelude.Numbers.{Num, lt_num, is_finite}
use shatter_nc.Prelude.Text.{Text, codes, trim}
use shatter_nc.Prelude.Json.{Json, Members, get}
use shatter_nc.Telemetry.{numeric, unit_of, read_numeric_pressure_temp}

-- `time` is what `new Date(time).getTime()` gives, and `none` where that is NaN.
pub record SampleRow : Type 0 where
  pub time : Option ℕ
  pub metrics : Option Members

pub data SeriesKey : Type 0 where
  psi temp : SeriesKey

pub record TelemetryPoint : Type 0 where
  pub t : ℕ
  pub psi : Option Num
  pub temp : Option Num

-- `p[key]`, where it is a finite number
unfoldable pub finite_at : SeriesKey → TelemetryPoint → Option Num
finite_at SeriesKey.psi p = elim p.psi [
  | none ↦ none
  | some v ↦ if is_finite v then some v else none
]
finite_at SeriesKey.temp p = elim p.temp [
  | none ↦ none
  | some v ↦ if is_finite v then some v else none
]

unfoldable pub num_from_metrics : Option Members → Text → Option Num
num_from_metrics none key = none
num_from_metrics (some m) key = numeric (get key m)

unfoldable pub str_from_metrics : Option Members → Text → Option Text
str_from_metrics none key = none
str_from_metrics (some m) key = unit_of (get key m)

abbrev pub has_value : Option Num → Bool
has_value none = false
has_value (some v) = true

-- one round of the loop over the rows: a row with no reading or no time is left out
unfoldable pub point_of : SampleRow → Option TelemetryPoint
point_of row =
    let pressure = num_from_metrics row.metrics (codes "psi") in
    let heat = num_from_metrics row.metrics (codes "outlet_temp") in
    if not (has_value pressure) && not (has_value heat) then none else elim row.time [
      | none ↦ none
      | some t ↦ some (record { t = t; psi = pressure; temp = heat })
    ]

unfoldable pub valid_points : List SampleRow → List TelemetryPoint
unfolding point_of
valid_points [] = []
valid_points (row ∷ rows) =
    let rest = valid_points rows in elim (point_of row) [ none ↦ rest | some p ↦ p ∷ rest ]

abbrev pub earlier : TelemetryPoint → TelemetryPoint → Bool
earlier a b = leb a.t b.t

unfoldable pub rows_to_points : List SampleRow → List TelemetryPoint
unfolding valid_points
rows_to_points rows = sort_by earlier (valid_points rows)

-- the points at 0, `step`, twice `step` and so on; `k` points are left out before the next
unfoldable pub every : ℕ → ℕ → List TelemetryPoint → List TelemetryPoint
every step k [] = []
every step zero (p ∷ ps) = p ∷ every step (step - 1) ps
every step (suc k) (p ∷ ps) = every step k ps

-- `points[points.length - 1]`
unfoldable pub last_point : List TelemetryPoint → Option TelemetryPoint
last_point [] = none
last_point (p ∷ []) = some p
last_point (p ∷ q ∷ ps) = last_point (q ∷ ps)

-- the time of the last point
abbrev pub time_of : Option TelemetryPoint → Option ℕ
time_of none = none
time_of (some p) = some p.t

abbrev pub same_time : Option ℕ → Option ℕ → Bool
same_time none none = true
same_time (some a) (some b) = nat_beq a b
same_time _ _ = false

abbrev pub with_last : List TelemetryPoint → Option TelemetryPoint → List TelemetryPoint
with_last out none = out
with_last out (some last) =
    if same_time (time_of (last_point out)) (some last.t) then out else out ++ last ∷ []

unfoldable pub decimate_points : List TelemetryPoint → ℕ → List TelemetryPoint
decimate_points points max_count =
    if leb (length points) max_count
    then points
    else with_last (every ((length points + (max_count - 1)) / max_count) 0 points)
        (last_point points)

-- `maxP` and `maxV`, or `minP` and `minV`: the best point so far, with its value
abbrev pub Best : Type 0
Best = Option (TelemetryPoint × Num)

module _ (beats : Num → Num → Bool) where
  -- whether a value replaces the best so far, which is infinite at first
  abbrev pub improves : Num → Best → Bool
  improves v none = true
  improves v (some (p, m)) = beats v m

  -- the body of the loop, once the value is read
  abbrev pub replace : Option Num → Best → TelemetryPoint → Best
  replace none found p = found
  replace (some v) found p = if improves v found then some (p, v) else found

module _ (beats : Num → Num → Bool) (key : SeriesKey) where
  unfoldable pub better : Best → TelemetryPoint → Best
  better found p = replace beats (finite_at key p) found p

  unfoldable pub best : Best → List TelemetryPoint → Best
  unfolding better
  best found [] = found
  best found (p ∷ ps) = best (better found p) ps

abbrev pub above : Num → Num → Bool
above v m = lt_num m v

abbrev pub below : Num → Num → Bool
below v m = lt_num v m

abbrev pub set_point : Map ℕ TelemetryPoint → TelemetryPoint → Map ℕ TelemetryPoint
set_point m p = insert p.t p m

abbrev pub set_best : Best → Map ℕ TelemetryPoint → Map ℕ TelemetryPoint
set_best none m = m
set_best (some (p, v)) m = set_point m p

abbrev pub values : Map ℕ TelemetryPoint → List TelemetryPoint
values = map (λ (entry : ℕ × TelemetryPoint). entry.1)

-- `byTime` at the end
unfoldable pub by_time :
    List TelemetryPoint → List TelemetryPoint → SeriesKey → Map ℕ TelemetryPoint
unfolding best
by_time decimated full key =
    set_best (best below key none full)
      (set_best (best above key none full) (foldl set_point [] decimated))

unfoldable pub merge_extrema_samples :
    List TelemetryPoint → List TelemetryPoint → SeriesKey → List TelemetryPoint
unfolding by_time
merge_extrema_samples decimated [] key = decimated
merge_extrema_samples decimated (p ∷ full) key =
    sort_by earlier (values (by_time decimated (p ∷ full) key))

unfoldable pub filter_series : List TelemetryPoint → SeriesKey → List TelemetryPoint
filter_series points key = filter (λ (p : TelemetryPoint). has_value (finite_at key p)) points

-- `MAX_DRAW_POINTS` and `MAX_DRAW_POINTS_TABLET`
abbrev pub max_draw_points : Bool → ℕ
max_draw_points tablet = if tablet then 800 else 1_400

unfoldable pub draw_points : List TelemetryPoint → SeriesKey → Bool → List TelemetryPoint
unfolding filter_series decimate_points merge_extrema_samples
draw_points points key tablet =
    let filtered = filter_series points key in
    merge_extrema_samples (decimate_points filtered (max_draw_points tablet)) filtered key

-- `lastMs`
abbrev pub last_ms : List TelemetryPoint → ℕ
last_ms points = elim (last_point points) [ none ↦ 0 | some p ↦ p.t ]

-- the point of the readings now, if there are any and it is later than the others
unfoldable pub add_live : List TelemetryPoint → Option Num → Option Num → ℕ → List TelemetryPoint
add_live points none none ms = points
add_live points pressure heat ms =
    if leb ms (last_ms points)
    then points
    else points ++ record { t = ms; psi = pressure; temp = heat } ∷ []

-- `isOnline` is `none` where it is not known, and `poll` what `new Date(pollTimestamp).getTime()`
-- gives: `none` for no time stamp, an empty one, or one that is no date.
unfoldable pub points_with_live_tail :
    List TelemetryPoint → Option Members → Option Bool → Option ℕ → List TelemetryPoint
unfolding add_live
points_with_live_tail points live (some false) poll = points
points_with_live_tail points live online none = points
points_with_live_tail points live online (some ms) =
    let now = read_numeric_pressure_temp live in add_live points now.psi now.outlet_temp ms
