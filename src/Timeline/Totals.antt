-- ===== src/Timeline/Totals.antt =====
-- The durations add up to the window: `compute_status_durations`.
use shatter_nc.Prelude.{
  ℕ, ◌+◌, ◌-◌, ◌≤◌, ◌≡◌, refl, Bool, true, false, ◌&&◌, Option, none, some, List, [], ◌∷◌, map,
  arith, ltb, leb, leb→le, All, All-imp, All-zip, Bool-cases, Option-cases, inl, inr,
}
use shatter_nc.Prelude.Sort.{IsSorted, sort_by-IsSorted, All-sort_by, sort_by}
use shatter_nc.Prelude.Text.{Text}
use shatter_nc.Timeline.{
  MachineStatus, StatusHistoryEvent, TimeRangeBounds, StatusDurationSlice, Durations, Event,
  normalize_status, no_durations, duration_of, add_ms, in_window, event_before, sorted_events,
  initial_status, segments, last_segment, measure, slice_of, status_order, compute_status_durations,
}

-- the sum over the five statuses
abbrev pub total : Durations → ℕ
total d = d.operating + d.standby + d.stopped + d.error + d.off

abbrev pub sum_ms : List StatusDurationSlice → ℕ
sum_ms [] = 0
sum_ms (s ∷ ss) = s.ms + sum_ms ss

total-add_ms : (s : MachineStatus) (ms : ℕ) (d : Durations) → total (add_ms s ms d) ≡ total d + ms
unfolding add_ms
total-add_ms MachineStatus.operating ms d = ground arith
total-add_ms MachineStatus.standby ms d = ground arith
total-add_ms MachineStatus.stopped ms d = ground arith
total-add_ms MachineStatus.error ms d = ground arith
total-add_ms MachineStatus.off ms d = ground arith

-- The events lie between `from` and `to`, in order.
abbrev Within : ℕ → ℕ → List Event → Type 0
Within from to [] = from ≤ to
Within from to (e ∷ es) = (from ≤ e.time) × Within e.time to es

segments-total :
    (d : Durations) (from to : ℕ) (active : MachineStatus) (es : List Event)
    → Within from to es
    → (total (segments d from active es).0 + from ≡ total d + (segments d from active es).1)
      × ((segments d from active es).1 ≤ to)
unfolding segments
segments-total d from to active [] h = (refl, h)
segments-total d from to active (e ∷ es) (first, h) = elim (Bool-cases (ltb from e.time)) [
  | inl later ↦
      rw (later, segments)
        (omega (
          arith,
          segments-total (add_ms active (e.time - from) d) e.time to
              (normalize_status (some e.status) none) es h,
          total-add_ms active (e.time - from) d,
        ))
  | inr same ↦
      rw (same, segments)
        (ground (arith, segments-total d e.time to (normalize_status (some e.status) none) es h))
]

last_segment-total :
    (s : Text) (online : Option Bool) (end_ms : ℕ) (p : Durations × ℕ)
    → p.1 ≤ end_ms
    → total (last_segment (some s) online end_ms p) + p.1 ≡ total p.0 + end_ms
unfolding last_segment
last_segment-total s online end_ms (d, from) h =
    ground (arith, total-add_ms (normalize_status (some s) online) (end_ms - from) d)

in_window-All :
    (from to : ℕ) (es : List StatusHistoryEvent)
    → All (λ (e : Event). (from ≤ e.time) × (e.time ≤ to)) (in_window from to es)
unfolding in_window
in_window-All from to [] = tt
in_window-All from to (e ∷ es) = elim (Option-cases e.time) [
  | inl invalid ↦ rw (invalid, in_window) (in_window-All from to es)
  | inr (t, valid) ↦ elim (Bool-cases (leb from t && leb t to)) [
    | inl inside ↦ rw (valid, in_window, inside) (ground arith, in_window-All from to es)
    | inr outside ↦ rw (valid, in_window, outside) (in_window-All from to es)
  ]
]

Within-sorted :
    (from to : ℕ) (es : List Event)
    → from ≤ to
    → All (λ (e : Event). (from ≤ e.time) × (e.time ≤ to)) es
    → IsSorted event_before es
    → Within from to es
Within-sorted from to [] h inside sorted = h
Within-sorted from to (e ∷ es) h ((f, t), inside) (later, sorted) = (
  f,
  Within-sorted e.time to es t
      (All-imp (λ (x : Event). (event_before e x ≡ true) × ((from ≤ x.time) × (x.time ≤ to)))
        (λ (x : Event). (e.time ≤ x.time) × (x.time ≤ to)) es
        (All-zip (λ (x : Event). event_before e x ≡ true)
          (λ (x : Event). (from ≤ x.time) × (x.time ≤ to)) es later inside)
        (λ x (before, (a, b)). (leb→le e.time x.time before, b)))
      sorted,
)

event_total : (a b : Event) → event_before a b ≡ false → event_before b a ≡ true
event_total a b h = ground arith

event_trans :
    (a b c : Event) → event_before a b ≡ true → event_before b c ≡ true → event_before a c ≡ true
event_trans a b c h k = ground arith

sorted_events-Within :
    (from to : ℕ) (es : List StatusHistoryEvent)
    → from ≤ to
    → Within from to (sorted_events from to es)
unfolding sorted_events
sorted_events-Within from to es h =
    Within-sorted from to (sort_by event_before (in_window from to es)) h
      (All-sort_by event_before (λ (e : Event). (from ≤ e.time) × (e.time ≤ to))
        (in_window from to es) (in_window-All from to es))
      (sort_by-IsSorted event_before event_total event_trans (in_window from to es))

measure-total :
    (es : List Event) (bounds : TimeRangeBounds) (s : Text) (online : Option Bool)
    → bounds.start_time ≤ bounds.end_time
    → Within bounds.start_time bounds.end_time es
    → bounds.total_ms ≡ bounds.end_time - bounds.start_time
    → total (measure es bounds (some s) online) ≡ bounds.total_ms
unfolding measure
measure-total [] bounds s online le h width =
    omega (arith, total-add_ms (initial_status [] (some s) online) bounds.total_ms no_durations)
measure-total (e ∷ es) bounds s online le h width =
    let active = initial_status (e ∷ es) (some s) online in
    let walked = segments-total no_durations bounds.start_time bounds.end_time active (e ∷ es) h in
    omega (
      arith,
      le,
      width,
      walked,
      last_segment-total s online bounds.end_time
          (segments no_durations bounds.start_time active (e ∷ es)) (walked.1),
    )

measure-bound :
    (es : List Event) (bounds : TimeRangeBounds) (online : Option Bool)
    → bounds.start_time ≤ bounds.end_time
    → Within bounds.start_time bounds.end_time es
    → bounds.total_ms ≡ bounds.end_time - bounds.start_time
    → total (measure es bounds none online) ≤ bounds.total_ms
unfolding measure last_segment
measure-bound [] bounds none le h width = ground arith
measure-bound [] bounds (some b) le h width =
    omega (arith, total-add_ms (initial_status [] none (some b)) bounds.total_ms no_durations)
measure-bound (e ∷ es) bounds online le h width =
    let active = initial_status (e ∷ es) none online in
    let walked = segments-total no_durations bounds.start_time bounds.end_time active (e ∷ es) h in
    omega (arith, le, width, walked)

slices-total : (d : Durations) (ms : ℕ) → sum_ms (map (slice_of d ms) status_order) ≡ total d
unfolding duration_of
slices-total d ms = ground arith

-- When the current status is known, the durations of the five statuses add up to the window,
-- whatever events there are, in whatever order, with invalid times or times outside the window:
-- every millisecond is counted once. The window's length is that of its bounds, as
-- `getTimeRangeBounds` makes it.
pub compute_status_durations-partition :
    (events : List StatusHistoryEvent) (bounds : TimeRangeBounds) (s : Text) (online : Option Bool)
    → bounds.start_time ≤ bounds.end_time
    → bounds.total_ms ≡ bounds.end_time - bounds.start_time
    → sum_ms (compute_status_durations events bounds (some s) online) ≡ bounds.total_ms
unfolding compute_status_durations
compute_status_durations-partition events bounds s online le width =
    let es = sorted_events bounds.start_time bounds.end_time events in
    let within = sorted_events-Within bounds.start_time bounds.end_time events le in
    ground (
      arith,
      slices-total (measure es bounds (some s) online) bounds.total_ms,
      measure-total es bounds s online le within width,
    )

-- When the current status is not known, the durations add up to at most the window: the time after
-- the last event is counted for no status.
pub compute_status_durations-bound :
    (events : List StatusHistoryEvent) (bounds : TimeRangeBounds) (online : Option Bool)
    → bounds.start_time ≤ bounds.end_time
    → bounds.total_ms ≡ bounds.end_time - bounds.start_time
    → sum_ms (compute_status_durations events bounds none online) ≤ bounds.total_ms
unfolding compute_status_durations
compute_status_durations-bound events bounds online le width =
    let es = sorted_events bounds.start_time bounds.end_time events in
    let within = sorted_events-Within bounds.start_time bounds.end_time events le in
    ground (
      arith,
      slices-total (measure es bounds none online) bounds.total_ms,
      measure-bound es bounds online le within width,
    )
