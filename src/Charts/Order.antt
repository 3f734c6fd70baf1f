-- ===== src/Charts/Order.antt =====
-- The points of a chart stand in the order of time, the live one included.
use shatter_nc.Prelude.{
  ℕ, ◌≤◌, ◌≡◌, inl, inr, Bool, true, false, Option, none, some, List, [], ◌∷◌, ◌++◌, arith, All,
  Bool-cases, leb, leb→le,
}
use shatter_nc.Prelude.Sort.{sort_by-IsSorted, IsSorted}
use shatter_nc.Prelude.Numbers.{Num}
use shatter_nc.Prelude.Json.{Members}
use shatter_nc.Telemetry.{read_numeric_pressure_temp}
use shatter_nc.Charts.{
  SampleRow, SeriesKey, TelemetryPoint, earlier, rows_to_points, valid_points, last_ms, last_point,
  values, by_time, merge_extrema_samples, filter_series, draw_points, points_with_live_tail,
  add_live, decimate_points, max_draw_points,
}

earlier_total : (a b : TelemetryPoint) → earlier a b ≡ false → earlier b a ≡ true
earlier_total a b h = ground arith

earlier_trans :
    (a b c : TelemetryPoint) → earlier a b ≡ true → earlier b c ≡ true → earlier a c ≡ true
earlier_trans a b c h k = ground arith

head-last_ms :
    (p : TelemetryPoint) (ps : List TelemetryPoint)
    → IsSorted earlier (p ∷ ps)
    → p.t ≤ last_ms (p ∷ ps)
unfolding last_point
head-last_ms p [] h = omega arith
head-last_ms p (q ∷ ps) ((e, a), h) = omega (arith, leb→le p.t q.t e, head-last_ms q ps h)

All-snoc :
    (p q : TelemetryPoint) (ps : List TelemetryPoint)
    → All (λ r. earlier p r ≡ true) ps
    → earlier p q ≡ true
    → All (λ r. earlier p r ≡ true) (ps ++ q ∷ [])
All-snoc p q [] h e = (e, tt)
All-snoc p q (r ∷ ps) (k, h) e = (k, All-snoc p q ps h e)

IsSorted-snoc :
    (ps : List TelemetryPoint) (q : TelemetryPoint)
    → IsSorted earlier ps
    → leb q.t (last_ms ps) ≡ false
    → IsSorted earlier (ps ++ q ∷ [])
unfolding last_point
IsSorted-snoc [] q h e = (tt, tt)
IsSorted-snoc (p ∷ []) q h e = ((ground arith, tt), (tt, tt))
IsSorted-snoc (p ∷ r ∷ ps) q (a, h) e = (
  All-snoc p q (r ∷ ps) a (ground (arith, head-last_ms p (r ∷ ps) (a, h))),
  IsSorted-snoc (r ∷ ps) q h e,
)

add_live-IsSorted :
    (points : List TelemetryPoint) (pressure heat : Option Num) (ms : ℕ)
    → IsSorted earlier points
    → IsSorted earlier (add_live points pressure heat ms)
unfolding add_live
add_live-IsSorted points none none ms h = h
add_live-IsSorted points pressure heat ms h = elim (Bool-cases (leb ms (last_ms points))) [
  | inl e ↦ rw e h
  | inr e ↦ rw e (IsSorted-snoc points (record { t = ms; psi = pressure; temp = heat }) h e)
]

points_with_live_tail-IsSorted :
    (points : List TelemetryPoint) (live : Option Members) (online : Option Bool) (poll : Option ℕ)
    → IsSorted earlier points
    → IsSorted earlier (points_with_live_tail points live online poll)
unfolding points_with_live_tail
points_with_live_tail-IsSorted points live (some false) poll h = h
points_with_live_tail-IsSorted points live none none h = h
points_with_live_tail-IsSorted points live (some true) none h = h
points_with_live_tail-IsSorted points live online (some ms) h =
    add_live-IsSorted points (read_numeric_pressure_temp live).psi
      (read_numeric_pressure_temp live).outlet_temp ms h

draw_points-IsSorted :
    (points : List TelemetryPoint) (key : SeriesKey) (tablet : Bool)
    → IsSorted earlier (draw_points points key tablet)
unfolding draw_points merge_extrema_samples decimate_points
draw_points-IsSorted points key tablet = drawn (filter_series points key) (max_draw_points tablet)
  where
    leb_zero : (n : ℕ) → leb 0 n ≡ true
    leb_zero n = ground arith

    drawn :
        (full : List TelemetryPoint) (n : ℕ)
        → IsSorted earlier (merge_extrema_samples (decimate_points full n) full key)
    drawn [] n = rw (leb_zero n) tt
    drawn (p ∷ full) n =
        sort_by-IsSorted earlier earlier_total earlier_trans
          (values (by_time (decimate_points (p ∷ full) n) (p ∷ full) key))

-- Whatever order the rows come in and whatever the live reading is, the points of the chart stand in
-- the order of time, and so do the points that it draws of them.
pub rows_to_points-IsSorted :
    (rows : List SampleRow) (live : Option Members) (online : Option Bool) (poll : Option ℕ)
    (key : SeriesKey) (tablet : Bool)
    → IsSorted earlier (points_with_live_tail (rows_to_points rows) live online poll)
      × IsSorted earlier
          (draw_points (points_with_live_tail (rows_to_points rows) live online poll) key tablet)
unfolding rows_to_points
rows_to_points-IsSorted rows live online poll key tablet = (
  points_with_live_tail-IsSorted _ live online poll
      (sort_by-IsSorted earlier earlier_total earlier_trans (valid_points rows)),
  draw_points-IsSorted _ key tablet,
)
