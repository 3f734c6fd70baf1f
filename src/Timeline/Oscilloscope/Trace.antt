-- ===== src/Timeline/Oscilloscope/Trace.antt =====
-- The trace runs from left to right, and has a point for each event of its window.
use mathlib.Core.Path.{subst}
use native.Mathlib.Nat.{mul-le-mul_right}
use shatter_nc.Prelude.{
  ℕ, ◌-◌, ◌*◌, ◌≤◌, ◌<◌, ◌≡◌, refl, inl, inr, Bool, true, false, ◌&&◌, Option, none, some, List, [],
  ◌∷◌, ◌++◌, arith, leb, All, Bool-cases,
}
use shatter_nc.Prelude.Sort.{sort_by, IsSorted, sort_by-IsSorted_on}
use shatter_nc.Prelude.Text.{Text}
use shatter_nc.Timeline.Oscilloscope.{
  StatusEvent, DataPoint, before_time, status_event_before, point_at, points_at, event_points,
  now_points, flat_points, build_oscilloscope_data, normalize_status,
}

-- one place is not right of another: the quotients are compared multiplied out
abbrev pub not_right : ℕ × ℕ → ℕ × ℕ → Bool
not_right a b = leb (a.0 * b.1) (b.0 * a.1)

abbrev pub point_before : DataPoint → DataPoint → Bool
point_before p q = not_right p.time q.time

-- a place from 0 to 100
abbrev pub OnChart : DataPoint → Type 0
OnChart p = (0 < p.time.1) × (p.time.0 ≤ 100 * p.time.1)

abbrev pub IsTrace : List DataPoint → Type 0
IsTrace points = All OnChart points × IsSorted point_before points

-- the time of the event is a date
abbrev pub has_date : Option ℕ → Bool
has_date none = false
has_date (some t) = true

abbrev pub IsDated : StatusEvent → Type 0
IsDated e = has_date e.time ≡ true

dated_total :
    (a b : Option ℕ)
    → has_date a ≡ true
    → has_date b ≡ true
    → before_time a b ≡ false
    → before_time b a ≡ true
dated_total none b h k f = cc
dated_total (some a) none h k f = cc
dated_total (some a) (some b) h k f = ground arith

dated_trans :
    (a b c : Option ℕ)
    → has_date b ≡ true
    → before_time a b ≡ true
    → before_time b c ≡ true
    → before_time a c ≡ true
dated_trans none b c h f g = refl
dated_trans (some a) none c h f g = cc
dated_trans (some a) (some b) none h f g = refl
dated_trans (some a) (some b) (some c) h f g = ground arith

events-IsSorted :
    (es : List StatusEvent)
    → All IsDated es
    → IsSorted status_event_before (sort_by status_event_before es)
events-IsSorted es h =
    sort_by-IsSorted_on status_event_before IsDated (λ a b. dated_total a.time b.time)
      (λ a b c pa pb pc. dated_trans a.time b.time c.time pb) es h

All-append {ℓ κ} :
    {A : Type ℓ} (P : A → Type κ) (xs ys : List A) → All P xs → All P ys → All P (xs ++ ys)
All-append P [] ys h k = k
All-append P (x ∷ xs) ys (p, h) k = (p, All-append P xs ys h k)

module _ (start_time end_time : ℕ) (wide : start_time < end_time) where
  abbrev place : ℕ → ℕ × ℕ
  place t = (100 * (t - start_time), end_time - start_time)

  place-not_right : (t u : ℕ) → t ≤ u → not_right (place t) (place u) ≡ true
  place-not_right t u h =
      let wider : 100 * (t - start_time) ≤ 100 * (u - start_time) = omega (arith, h) in
      let m = mul-le-mul_right (end_time - start_time) wider in ground (arith, m)

  place_end : (t : ℕ) → t ≤ end_time → not_right (place t) (100, 1) ≡ true
  place_end t h = ground arith

  -- the point of an event in the window
  abbrev event_point : StatusEvent → ℕ → DataPoint
  event_point e t =
      point_at (place t) (normalize_status (some e.status) none) e.error e.is_heartbeat

  in_window-bounds :
      (t : ℕ) → (leb start_time t && leb t end_time) ≡ true → (start_time ≤ t) × (t ≤ end_time)
  in_window-bounds t h = ground arith

  points_at-All {κ} :
      (Q : DataPoint → Type κ) (e : StatusEvent) (o : Option ℕ)
      → ((t : ℕ) → o ≡ some t → start_time ≤ t → t ≤ end_time → Q (event_point e t))
      → All Q (points_at start_time end_time e o)
  points_at-All Q e none h = tt
  points_at-All Q e (some t) h = elim (Bool-cases (leb start_time t && leb t end_time)) [
    | inl k ↦ rw k (let (low, high) = in_window-bounds t k in (h t refl low high, tt))
    | inr k ↦ rw k tt
  ]

  -- A quality of the points of the events that come after a time.
  event_points-All {κ} :
      (Q : DataPoint → Type κ) (o : Option ℕ)
      → ((e : StatusEvent) (t : ℕ)
          → before_time o (some t) ≡ true
          → start_time ≤ t
          → t ≤ end_time
          → Q (event_point e t))
      → (es : List StatusEvent) → All (λ e. before_time o e.time ≡ true) es
      → All Q (event_points start_time end_time es)
  unfolding event_points
  event_points-All Q o f [] h = tt
  event_points-All Q o f (e ∷ es) (b, h) =
      All-append Q (points_at start_time end_time e e.time) (event_points start_time end_time es)
        (points_at-All Q e e.time
          (λ t i low high. f e t (subst (λ x. before_time o x ≡ true) i b) low high))
        (event_points-All Q o f es h)

  event_point-OnChart : (e : StatusEvent) (t : ℕ) → t ≤ end_time → OnChart (event_point e t)
  event_point-OnChart e t h = (omega (arith, wide), omega (arith, h))

  after-place :
      (t u : ℕ) → before_time (some t) (some u) ≡ true → not_right (place t) (place u) ≡ true
  after-place t u h = place-not_right t u (ground arith)

  points_at-IsSorted :
      (e : StatusEvent) (es : List StatusEvent) (o : Option ℕ)
      → All (λ x. before_time o x.time ≡ true) es
      → IsSorted point_before (event_points start_time end_time es)
      → IsSorted point_before
          (points_at start_time end_time e o ++ event_points start_time end_time es)
  points_at-IsSorted e es none h s = s
  points_at-IsSorted e es (some t) h s = elim (Bool-cases (leb start_time t && leb t end_time)) [
    | inl k ↦ rw k (
      event_points-All (λ q. not_right (place t) q.time ≡ true) (some t)
          (λ x u b low high. after-place t u b) es h,
      s,
    )
    | inr k ↦ rw k s
  ]

  event_points-IsSorted :
      (es : List StatusEvent)
      → IsSorted status_event_before es
      → IsSorted point_before (event_points start_time end_time es)
  unfolding event_points
  event_points-IsSorted [] s = tt
  event_points-IsSorted (e ∷ es) (a, s) =
      points_at-IsSorted e es e.time a (event_points-IsSorted es s)

  now-IsSorted :
      (ps : List DataPoint) (current : Option Text) (online : Option Bool) (error : Option Text)
      → All (λ (p : DataPoint). not_right p.time (100, 1) ≡ true) ps
      → IsSorted point_before ps
      → IsSorted point_before (ps ++ now_points current online error)
  now-IsSorted [] none online error h s = tt
  now-IsSorted [] (some c) online error h s = (tt, tt)
  now-IsSorted (p ∷ ps) current online error (b, h) (a, s) = (
    All-append (λ q. point_before p q ≡ true) ps (now_points current online error) a (last current),
    now-IsSorted ps current online error h s,
  )
    where
      last :
          (current : Option Text)
          → All (λ q. point_before p q ≡ true) (now_points current online error)
      last none = tt
      last (some c) = (b, tt)

  now-OnChart :
      (current : Option Text) (online : Option Bool) (error : Option Text)
      → All OnChart (now_points current online error)
  now-OnChart none online error = tt
  now-OnChart (some c) online error = ((omega arith, omega arith), tt)

  any_before : (es : List StatusEvent) → All (λ e. before_time none e.time ≡ true) es
  any_before [] = tt
  any_before (e ∷ es) = (refl, any_before es)

  flat-IsTrace :
      (current : Option Text) (online : Option Bool) → IsTrace (flat_points current online)
  flat-IsTrace current online = ground arith

  -- The trace of a machine's status, whatever order its events come in, stands on the chart and runs
  -- from left to right, to the point for now if there is one. The events are to be dated.
  pub build_oscilloscope_data-IsTrace :
      (events : List StatusEvent) (current : Option Text) (online : Option Bool)
      (error : Option Text)
      → All IsDated events
      → IsTrace (build_oscilloscope_data events start_time end_time current online error)
  unfolding build_oscilloscope_data
  build_oscilloscope_data-IsTrace [] current online error h = flat-IsTrace current online
  build_oscilloscope_data-IsTrace (e ∷ es) current online error h =
      let sorted = sort_by status_event_before (e ∷ es) in
      (
        All-append OnChart (event_points start_time end_time sorted)
            (now_points current online error)
            (event_points-All OnChart none (λ x t b low high. event_point-OnChart x t high) sorted
              (any_before sorted))
            (now-OnChart current online error),
        now-IsSorted (event_points start_time end_time sorted) current online error
            (event_points-All (λ p. not_right p.time (100, 1) ≡ true) none
              (λ x t b low high. place_end t high) sorted (any_before sorted))
            (event_points-IsSorted sorted (events-IsSorted (e ∷ es) h)),
      )
