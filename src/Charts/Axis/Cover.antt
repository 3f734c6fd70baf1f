-- ===== src/Charts/Axis/Cover.antt =====
-- Where the ticks at clock times stand on the axis, and how many they are.
use shatter_nc.Prelude.{
  ℕ, zero, suc, ◌+◌, ◌*◌, ◌≤◌, ◌<◌, ◌≡◌, ◌≢◌, refl, ◌∙◌, inl, inr, Bool, true, false, ◌&&◌, Option,
  none, some, List, [], ◌∷◌, map, arith, length, length-map, any, All, All-imp, find, find-passes,
  find-any, find-All, Bool-cases, leb, leb→le,
}
use shatter_nc.Prelude.Sort.{IsSorted}
use shatter_nc.Charts.Axis.{
  LocalTime, Tick, clock_snap_steps_min, instants_from, rounds, tick_at, with_ends,
  ceil_local_to_minute_grid, count_grid_ticks_inclusive, good_step, fair_step, or_step,
  pick_clock_snap_step_minutes, get_clock_snap_oscilloscope_ticks,
}
use shatter_nc.Charts.Axis.Ticks.{NotSetBack, start-ceil, length-instants_from}

-- between the ends of the axis
abbrev pub On : ℕ → ℕ → ℕ → Type 0
On start_time end_time t = (start_time ≤ t) × (t ≤ end_time)

abbrev pub not_after : Tick → Tick → Bool
not_after a b = leb a.time b.time

-- All ticks are on the axis, none is before the one to its left, and there are two at least.
abbrev pub IsAxis : ℕ → ℕ → List Tick → Type 0
IsAxis start_time end_time ticks =
    All (λ (k : Tick). On start_time end_time k.time) ticks
    × IsSorted not_after ticks
    × (2 ≤ length ticks)

instants_from-On :
    (fuel step_ms end_time t : ℕ) → All (On t end_time) (instants_from fuel step_ms end_time t)
unfolding instants_from
instants_from-On zero s e t = tt
instants_from-On (suc fuel) s e t = elim (Bool-cases (leb t e)) [
  | inl k ↦ rw k (
    (omega arith, leb→le t e k),
    All-imp (On (t + s) e) (On t e) (instants_from fuel s e (t + s))
        (instants_from-On fuel s e (t + s)) (λ u h. (omega (arith, h.0), h.1)),
  )
  | inr k ↦ rw k tt
]

abbrev pub ticks_of : ℕ → ℕ → List ℕ → List Tick
ticks_of start_time end_time = map (tick_at start_time end_time)

ticks_of-On :
    (start_time end_time t : ℕ) (us : List ℕ)
    → start_time ≤ t
    → All (On t end_time) us
    → All (λ (k : Tick). On start_time end_time k.time) (ticks_of start_time end_time us)
ticks_of-On s e t [] h a = tt
ticks_of-On s e t (u ∷ us) h ((b, c), a) = ((omega arith, c), ticks_of-On s e t us h a)

after-All :
    (start_time end_time t u : ℕ) (us : List ℕ)
    → t ≤ u
    → All (On u end_time) us
    → All
        (λ (k : Tick). not_after (tick_at start_time end_time t) k ≡ true)
        (ticks_of start_time end_time us)
after-All s e t u [] h a = tt
after-All s e t u (v ∷ us) h ((b, c), a) = (ground arith, after-All s e t u us h a)

instants_from-IsSorted :
    (start_time fuel step_ms end_time t : ℕ)
    → IsSorted not_after (ticks_of start_time end_time (instants_from fuel step_ms end_time t))
unfolding instants_from
instants_from-IsSorted start_time zero s e t = tt
instants_from-IsSorted start_time (suc fuel) s e t = elim (Bool-cases (leb t e)) [
  | inl k ↦ rw k (
    after-All start_time e t (t + s) (instants_from fuel s e (t + s)) (omega arith)
        (instants_from-On fuel s e (t + s)),
    instants_from-IsSorted start_time fuel s e (t + s),
  )
  | inr k ↦ rw k tt
]

with_ends-IsAxis :
    (start_time end_time : ℕ) (ticks : List Tick)
    → start_time ≤ end_time
    → All (λ (k : Tick). On start_time end_time k.time) ticks
    → IsSorted not_after ticks
    → IsAxis start_time end_time (with_ends start_time end_time ticks)
unfolding with_ends
with_ends-IsAxis s e [] h a o =
    (((omega arith, h), ((h, omega arith), tt)), ((ground arith, tt), (tt, tt)), omega arith)
with_ends-IsAxis s e (k ∷ []) h ((b, c), a) o = (
  ((omega arith, h), ((b, c), ((h, omega arith), tt))),
  ((ground arith, (ground arith, tt)), ((ground arith, tt), (tt, tt))),
  omega arith,
)
with_ends-IsAxis s e (k ∷ l ∷ ks) h a o = (a, o, omega arith)

-- no step of the list is zero
steps-positive : All (λ n. 0 < n) clock_snap_steps_min
steps-positive = (
  omega arith,
  (
    omega arith,
    (
      omega arith,
      (
        omega arith,
        (
          omega arith,
          (
            omega arith,
            (
              omega arith,
              (
                omega arith,
                (
                  omega arith,
                  (omega arith, (omega arith, (omega arith, (omega arith, (omega arith, tt))))),
                ),
              ),
            ),
          ),
        ),
      ),
    ),
  ),
)

or_step-positive :
    (p : ℕ → Bool) (other : ℕ) → 0 < other → 0 < or_step (find p clock_snap_steps_min) other
or_step-positive p other h = by_find (find p clock_snap_steps_min) refl
  where
    by_find : (o : Option ℕ) → find p clock_snap_steps_min ≡ o → 0 < or_step o other
    by_find none e = h
    by_find (some n) e = find-All (λ n. 0 < n) p clock_snap_steps_min n steps-positive e

module _ (local : LocalTime) where
  pick_clock_snap_step_minutes-positive :
      (start_time end_time : ℕ) → 0 < pick_clock_snap_step_minutes local start_time end_time
  unfolding pick_clock_snap_step_minutes
  pick_clock_snap_step_minutes-positive start_time end_time =
      or_step-positive (good_step local start_time end_time) _
        (or_step-positive (fair_step local start_time end_time) 60 (omega arith))

  -- On an axis whose end is after its start, the ticks at clock times all stand between its ends,
  -- none before the one to its left, and there are two of them at least, if the clock has not been
  -- set back on the day of the start before the start: going back to an earlier time of that day
  -- goes back by no more than the clock shows.
  pub get_clock_snap_oscilloscope_ticks-IsAxis :
      (start_time end_time : ℕ)
      → NotSetBack local start_time
      → start_time < end_time
      → IsAxis start_time end_time (get_clock_snap_oscilloscope_ticks local start_time end_time)
  unfolding get_clock_snap_oscilloscope_ticks
  get_clock_snap_oscilloscope_ticks-IsAxis start_time end_time same h =
      let step = pick_clock_snap_step_minutes local start_time end_time in
      let t = ceil_local_to_minute_grid local start_time step in
      let n = rounds (step * 60_000) start_time end_time in
      rw (leb_lt start_time end_time h) (
        with_ends-IsAxis start_time end_time _ (omega arith)
          (ticks_of-On start_time end_time t (instants_from n (step * 60_000) end_time t)
            (start-ceil local start_time step same
              (pick_clock_snap_step_minutes-positive start_time end_time))
            (instants_from-On n (step * 60_000) end_time t))
          (instants_from-IsSorted start_time n (step * 60_000) end_time t))
    where
      leb_lt : (a b : ℕ) → a < b → leb b a ≡ false
      leb_lt a b h = ground arith

with_ends-length :
    (start_time end_time : ℕ) (ticks : List Tick)
    → 2 ≤ length ticks
    → length (with_ends start_time end_time ticks) ≡ length ticks
unfolding with_ends
with_ends-length s e [] h = absurd (omega arith)
with_ends-length s e (k ∷ []) h = absurd (omega arith)
with_ends-length s e (k ∷ l ∷ ks) h = refl

good_step-bounds : (n : ℕ) → (leb 4 n && leb n 14) ≡ true → (4 ≤ n) × (n ≤ 14)
good_step-bounds n h = (ground arith, ground arith)

module _ (local : LocalTime) (start_time end_time : ℕ) where
  ticks_at : ℕ → List ℕ
  ticks_at step =
      instants_from (rounds (step * 60_000) start_time end_time) (step * 60_000) end_time
        (ceil_local_to_minute_grid local start_time step)

  length-ticks_at :
      (step : ℕ)
      → length (ticks_at step) ≡ count_grid_ticks_inclusive local start_time end_time step
  unfolding ticks_at count_grid_ticks_inclusive
  length-ticks_at step =
      length-instants_from (rounds (step * 60_000) start_time end_time) (step * 60_000) end_time
        (ceil_local_to_minute_grid local start_time step)

  snap-ticks_at :
      start_time < end_time
      → get_clock_snap_oscilloscope_ticks local start_time end_time
        ≡ with_ends start_time end_time (
            ticks_of start_time end_time
              (ticks_at (pick_clock_snap_step_minutes local start_time end_time)))
  unfolding get_clock_snap_oscilloscope_ticks ticks_at
  snap-ticks_at h = rw (leb_lt start_time end_time h) refl
    where
      leb_lt : (a b : ℕ) → a < b → leb b a ≡ false
      leb_lt a b h = ground arith

  pick-good :
      (o : Option ℕ)
      → find (good_step local start_time end_time) clock_snap_steps_min ≡ o
      → o ≢ none
      → good_step local start_time end_time (pick_clock_snap_step_minutes local start_time end_time)
        ≡ true
  unfolding pick_clock_snap_step_minutes
  pick-good none e h = absurd (h refl)
  pick-good (some n) e h =
      rw e (find-passes (good_step local start_time end_time) clock_snap_steps_min n e)

  -- Where some step of the list puts between four and fourteen ticks on the axis, so many are drawn.
  pub get_clock_snap_oscilloscope_ticks-length :
      start_time < end_time
      → any (good_step local start_time end_time) clock_snap_steps_min ≡ true
      → (4 ≤ length (get_clock_snap_oscilloscope_ticks local start_time end_time))
        × (length (get_clock_snap_oscilloscope_ticks local start_time end_time) ≤ 14)
  get_clock_snap_oscilloscope_ticks-length h g =
      let step = pick_clock_snap_step_minutes local start_time end_time in
      let (low, high) =
        good_step-bounds (count_grid_ticks_inclusive local start_time end_time step) (
          pick-good (find (good_step local start_time end_time) clock_snap_steps_min) refl
            (find-any (good_step local start_time end_time) clock_snap_steps_min g)) in
      let drawn : length (ticks_of start_time end_time (ticks_at step))
          ≡ count_grid_ticks_inclusive local start_time end_time step =
        length-map (ticks_at step) (tick_at start_time end_time) ∙ length-ticks_at step in
      let kept =
        with_ends-length start_time end_time (ticks_of start_time end_time (ticks_at step))
          (omega (arith, low, drawn)) in
      rw (snap-ticks_at h) (omega (arith, low, drawn, kept), omega (arith, high, drawn, kept))
