-- ===== src/Charts/Size.antt =====
-- How many points the chart draws.
use mathlib.Core.List.{foldl}
use native.Mathlib.Nat.{mul-suc, lt-mul-div-succ, lt_of_mul-lt-mul_left, mul_comm}
use shatter_nc.Prelude.{
  ℕ, zero, suc, ◌+◌, ◌-◌, ◌*◌, ◌/◌, ◌≤◌, ◌<◌, inl, inr, Bool, true, false, none, some, List, [],
  ◌∷◌, arith, length, length-map, length-append, Bool-cases, leb, leb→le, Option,
}
use shatter_nc.Prelude.Tests.{nat_eq}
use shatter_nc.Prelude.Maps.{Map, insert}
use shatter_nc.Prelude.Sort.{length-sort_by}
use shatter_nc.Charts.{
  SeriesKey, TelemetryPoint, Best, best, above, below, set_point, set_best, by_time,
  merge_extrema_samples, filter_series, draw_points, decimate_points, max_draw_points, every,
  last_point, with_last, time_of, same_time,
}

every-length :
    (step k : ℕ) (ps : List TelemetryPoint)
    → k < step
    → step * length (every step k ps) + k ≤ length ps + (step - 1)
unfolding every
every-length step k [] h = omega arith
every-length step zero (p ∷ ps) h =
    let ih = every-length step (step - 1) ps (omega arith) in
    rw (mul-suc step (length (every step (step - 1) ps))) (omega (arith, ih))
every-length step (suc k) (p ∷ ps) h = omega (arith, every-length step k ps (omega arith))

fits :
    (n m s l : ℕ)
    → 0 < n
    → 0 < m
    → n + (m - 1) < m * (s + 1)
    → (0 < s → s * l + 0 ≤ n + (s - 1))
    → l ≤ m
fits n m zero l hn hm a b = omega arith
fits n m (suc s) l hn hm a b = omega (
  arith,
  lt_of_mul-lt-mul_left (suc s) {m = l} {n = suc m}
      (rw mul-suc (omega (arith, b (omega arith), mul_comm m (suc s)))),
)

-- `n` points, of which one in every `n / max_count` is kept
every-fits :
    (max_count : ℕ) (ps : List TelemetryPoint)
    → 0 < max_count
    → 0 < length ps
    → length (every ((length ps + (max_count - 1)) / max_count) 0 ps) ≤ max_count
every-fits max_count ps h k =
    fits (length ps) max_count ((length ps + (max_count - 1)) / max_count)
      (length (every ((length ps + (max_count - 1)) / max_count) 0 ps)) k h
      (lt-mul-div-succ (length ps + (max_count - 1)) h)
      (every-length ((length ps + (max_count - 1)) / max_count) 0 ps)

with_last-length :
    (out : List TelemetryPoint) (o : Option TelemetryPoint)
    → length (with_last out o) ≤ length out + 1
with_last-length out none = omega arith
with_last-length out (some p) =
    elim (Bool-cases (same_time (time_of (last_point out)) (some p.t))) [
      | inl e ↦ rw e (omega arith)
      | inr e ↦ rw (e, length-append) (omega arith)
    ]

decimate_points-length :
    (points : List TelemetryPoint) (max_count : ℕ)
    → 0 < max_count
    → length (decimate_points points max_count) ≤ max_count + 1
unfolding decimate_points
decimate_points-length points max_count h = elim (Bool-cases (leb (length points) max_count)) [
  | inl few ↦ rw few (omega (arith, leb→le (length points) max_count few))
  | inr many ↦ rw many (
      omega (
        arith,
        with_last-length (every ((length points + (max_count - 1)) / max_count) 0 points)
            (last_point points),
        every-fits max_count points h (ground arith),
      ))
]

length-insert :
    (p : TelemetryPoint) (m : Map ℕ TelemetryPoint) → length (set_point m p) ≤ length m + 1
unfolding insert
length-insert p [] = omega arith
length-insert p ((k, q) ∷ m) = ground (arith, length-insert p m)

length-set_points :
    (ps : List TelemetryPoint) (m : Map ℕ TelemetryPoint)
    → length (foldl set_point m ps) ≤ length m + length ps
length-set_points [] m = omega arith
length-set_points (p ∷ ps) m =
    omega (arith, length-set_points ps (set_point m p), length-insert p m)

length-set_best : (b : Best) (m : Map ℕ TelemetryPoint) → length (set_best b m) ≤ length m + 1
length-set_best none m = omega arith
length-set_best (some (p, v)) m = length-insert p m

merge_extrema_samples-length :
    (decimated full : List TelemetryPoint) (key : SeriesKey)
    → length (merge_extrema_samples decimated full key) ≤ length decimated + 2
unfolding merge_extrema_samples by_time
merge_extrema_samples-length decimated [] key = omega arith
merge_extrema_samples-length decimated (p ∷ full) key =
    let start = foldl set_point [] decimated in
    let hi = best above key none (p ∷ full) in
    let lo = best below key none (p ∷ full) in
    rw (length-sort_by, length-map)
      (omega (
        arith,
        length-set_points decimated [],
        length-set_best hi start,
        length-set_best lo (set_best hi start),
      ))

-- The chart never draws more than three points over its limit, 1,400 or on a tablet 800.
pub draw_points-length :
    (points : List TelemetryPoint) (key : SeriesKey) (tablet : Bool)
    → length (draw_points points key tablet) ≤ max_draw_points tablet + 3
unfolding draw_points
draw_points-length points key tablet =
    let filtered = filter_series points key in
    omega (
      arith,
      merge_extrema_samples-length (decimate_points filtered (max_draw_points tablet)) filtered key,
      decimate_points-length filtered (max_draw_points tablet) (limit tablet),
    )
  where
    limit : (tablet : Bool) → 0 < max_draw_points tablet
    limit true = omega arith
    limit false = omega arith
