-- ===== src/Charts/Axis/Ticks.antt =====
-- The ticks at clock times: the loops end, and the ticks cover the axis.
use native.Mathlib.Nat.{lt-mul-div-succ, mul_comm, mul-suc, add-mul, mod-lt, mod-le}
use shatter_nc.Prelude.{ℕ, zero, suc, ◌+◌, ◌-◌, ◌*◌, ◌/◌, ◌%◌, ◌≤◌, ◌<◌, ◌≡◌, refl, arith, length}
use shatter_nc.Charts.Axis.{
  LocalTime, count_from, instants_from, rounds, minutes_since_local_midnight,
  floor_local_to_minute_grid, ceil_local_to_minute_grid, count_grid_ticks_inclusive,
}

-- The clock has not been set back on the day of `t` by then: the instant whose time of day is some
-- minutes earlier is earlier by these minutes and the seconds of `t`, or by less.
unfoldable pub NotSetBack : LocalTime → ℕ → Type 0
unfolding minutes_since_local_midnight
NotSetBack local t =
    (minutes : ℕ)
    → minutes ≤ minutes_since_local_midnight local t
    → t
      < local.set_hours t minutes
        + (minutes_since_local_midnight local t - minutes) * 60_000
        + 60_000

sub_mod : (n r : ℕ) → r ≤ n → n - (n - r) ≡ r
sub_mod n r h = omega (arith, h)

ceil-late :
    (t floor r step : ℕ) → t < floor + r * 60_000 + 60_000 → r < step → t ≤ floor + step * 60_000
ceil-late t floor r step h k = omega (arith, h, k)

module _ (local : LocalTime) where
  pub start-ceil :
      (t step : ℕ) → NotSetBack local t → 0 < step → t ≤ ceil_local_to_minute_grid local t step
  unfolding ceil_local_to_minute_grid floor_local_to_minute_grid NotSetBack
  start-ceil t step same h =
      let n = minutes_since_local_midnight local t in
      let back = same (n - n % step) (omega arith) in
      let late =
        ceil-late t (local.set_hours t (n - n % step)) (n % step) step
          (rw (sub_mod n (n % step) (mod-le n step)) at back) (mod-lt n h) in
      ground (arith, late)

-- the rounds bring the instant past the end
pub Past : ℕ → ℕ → ℕ → ℕ → Type 0
Past fuel step_ms end_time t = end_time < t + fuel * step_ms

rounds-Past :
    (step_ms start_time end_time t : ℕ)
    → 0 < step_ms
    → start_time ≤ t
    → Past (rounds step_ms start_time end_time) step_ms end_time t
unfolding Past
rounds-Past step_ms start_time end_time t h k = omega (
  arith,
  k,
  lt-mul-div-succ (end_time - start_time) h,
  mul_comm step_ms ((end_time - start_time) / step_ms + 1),
)

Past-step :
    (fuel step_ms end_time t : ℕ)
    → Past (suc fuel) step_ms end_time t
    → Past fuel step_ms end_time (t + step_ms)
unfolding Past
Past-step fuel step_ms end_time t h =
    omega (arith, h, mul_comm (suc fuel) step_ms, mul_comm fuel step_ms, mul-suc step_ms fuel)

Past-more :
    (n more step_ms end_time t : ℕ) → Past n step_ms end_time t → Past (n + more) step_ms end_time t
unfolding Past
Past-more n more step_ms end_time t h = rw (add-mul n more step_ms) (omega (arith, h))

count_from-fuel :
    (fuel more step_ms end_time t : ℕ)
    → Past fuel step_ms end_time t
    → Past more step_ms end_time t
    → count_from fuel step_ms end_time t ≡ count_from more step_ms end_time t
unfolding count_from Past
count_from-fuel zero zero s e t h k = refl
count_from-fuel zero (suc more) s e t h k = ground arith
count_from-fuel (suc fuel) zero s e t h k = ground arith
count_from-fuel (suc fuel) (suc more) s e t h k =
    ground (
      arith,
      count_from-fuel fuel more s e (t + s) (Past-step fuel s e t h) (Past-step more s e t k),
    )

pub length-instants_from :
    (fuel step_ms end_time t : ℕ)
    → length (instants_from fuel step_ms end_time t) ≡ count_from fuel step_ms end_time t
unfolding instants_from count_from
length-instants_from zero s e t = refl
length-instants_from (suc fuel) s e t = ground (arith, length-instants_from fuel s e (t + s))

module _ (local : LocalTime) where
  -- The loop over the grid ends by itself: more rounds than the span has steps count no further
  -- tick, and the loop that lists the ticks lists as many as are counted. The step is to be positive,
  -- and the clock not set back on the day of the start by then.
  pub count_grid_ticks_inclusive-ends :
      (start_time end_time step more : ℕ)
      → NotSetBack local start_time
      → 0 < step
      → (count_from
            (rounds (step * 60_000) start_time end_time + more)
            (step * 60_000)
            end_time
            (ceil_local_to_minute_grid local start_time step)
          ≡ count_grid_ticks_inclusive local start_time end_time step)
        × (length (
              instants_from
                (rounds (step * 60_000) start_time end_time)
                (step * 60_000)
                end_time
                (ceil_local_to_minute_grid local start_time step))
            ≡ count_grid_ticks_inclusive local start_time end_time step)
  unfolding count_grid_ticks_inclusive
  count_grid_ticks_inclusive-ends start_time end_time step more same h =
      let n = rounds (step * 60_000) start_time end_time in
      let t = ceil_local_to_minute_grid local start_time step in
      let past =
        rounds-Past (step * 60_000) start_time end_time t (omega arith)
          (start-ceil local start_time step same h) in
      (
        count_from-fuel (n + more) n (step * 60_000) end_time t
            (Past-more n more (step * 60_000) end_time t past) past,
        length-instants_from n (step * 60_000) end_time t,
      )
