-- ===== src/Charts/Segments/Range.antt =====
-- The pieces of a series are its points, and its range holds all its values.
use mathlib.Core.List.{Memᴰ}
use mathlib.Core.List.Memᴰ.{head, tail}
use mathlib.Core.List.{append_assoc}
use shatter_nc.Prelude.{
  ℕ, ◌≡◌, refl, ◌∙◌, ap, sym, inl, inr, Bool, true, false, not, ◌&&◌, Option, none, some, List, [],
  ◌∷◌, ◌++◌, arith, All, filter, if◌then◌else◌, Bool-cases,
}
use shatter_nc.Prelude.Numbers.{Num, lt_num, lt_irrefl}
use shatter_nc.Charts.{SeriesKey, TelemetryPoint, finite_at, has_value, filter_series}
use shatter_nc.Charts.Extrema.{above-weaken, below-weaken}
use shatter_nc.Charts.Segments.{
  push, cut, segments_from, contiguous_segments, Extent, range_step, outside, range_from,
  min_max_in_range,
}

abbrev pub concat : List (List TelemetryPoint) → List TelemetryPoint
concat [] = []
concat (s ∷ ss) = s ++ concat ss

abbrev pub is_nonempty : List TelemetryPoint → Bool
is_nonempty [] = false
is_nonempty (p ∷ ps) = true

concat-push :
    (cur : List TelemetryPoint) (segs : List (List TelemetryPoint))
    → concat (push cur segs) ≡ cur ++ concat segs
concat-push [] segs = refl
concat-push (p ∷ cur) segs = refl

segments_from-concat :
    (key : SeriesKey) (cur ps : List TelemetryPoint)
    → concat (segments_from key cur ps) ≡ cur ++ filter_series ps key
unfolding segments_from filter_series
segments_from-concat key cur [] = concat-push cur []
segments_from-concat key cur (p ∷ ps) =
    by_value _ _ (finite_at key p) (segments_from-concat key [] ps)
      (segments_from-concat key (cur ++ p ∷ []) ps)
  where
    rest : List TelemetryPoint
    rest = filter (λ (q : TelemetryPoint). has_value (finite_at key q)) ps

    by_value :
        (gap more : List (List TelemetryPoint)) (o : Option Num)
        → concat gap ≡ rest
        → concat more ≡ (cur ++ p ∷ []) ++ rest
        → concat (cut o (push cur gap) more) ≡ cur ++ (if has_value o then p ∷ rest else rest)
    by_value gap more none g m = concat-push cur gap ∙ ap (λ (r : List TelemetryPoint). cur ++ r) g
    by_value gap more (some v) g m = m ∙ append_assoc cur (p ∷ []) rest

push-nonempty :
    (cur : List TelemetryPoint) (segs : List (List TelemetryPoint))
    → All (λ s. is_nonempty s ≡ true) segs
    → All (λ s. is_nonempty s ≡ true) (push cur segs)
push-nonempty [] segs h = h
push-nonempty (p ∷ cur) segs h = (refl, h)

segments_from-nonempty :
    (key : SeriesKey) (cur ps : List TelemetryPoint)
    → All (λ s. is_nonempty s ≡ true) (segments_from key cur ps)
unfolding segments_from
segments_from-nonempty key cur [] = push-nonempty cur [] tt
segments_from-nonempty key cur (p ∷ ps) =
    by_value _ _ (finite_at key p) (segments_from-nonempty key [] ps)
      (segments_from-nonempty key (cur ++ p ∷ []) ps)
  where
    by_value :
        (gap more : List (List TelemetryPoint)) (o : Option Num)
        → All (λ s. is_nonempty s ≡ true) gap
        → All (λ s. is_nonempty s ≡ true) more
        → All (λ s. is_nonempty s ≡ true) (cut o (push cur gap) more)
    by_value gap more none g m = push-nonempty cur gap g
    by_value gap more (some v) g m = m

-- The pieces of the line, put end to end, are the points of the series that have a value, each once
-- and in order, and no piece is empty.
pub contiguous_segments-concat :
    (points : List TelemetryPoint) (key : SeriesKey)
    → (concat (contiguous_segments points key) ≡ filter_series points key)
      × All (λ s. is_nonempty s ≡ true) (contiguous_segments points key)
unfolding contiguous_segments
contiguous_segments-concat points key =
    (segments_from-concat key [] points, segments_from-nonempty key [] points)

-- a value in what was found so far
unfoldable pub inside : Num → Option Extent → Bool
inside v none = false
inside v (some r) = not (lt_num v r.min) && not (lt_num r.max v)

step-inside :
    (v : Num) (found : Option Extent) (o : Option Num)
    → inside v found ≡ true
    → inside v (range_step found o) ≡ true
unfolding inside
step-inside v found none h = h
step-inside v none (some w) h = cc
step-inside v (some r) (some w) h = ground (arith, below-weaken v r.min w, above-weaken v r.max w)

step-inside_self : (v : Num) (found : Option Extent) → inside v (range_step found (some v)) ≡ true
unfolding inside
step-inside_self v none = rw (lt_irrefl v) refl
step-inside_self v (some r) = ground (arith, lt_irrefl v)

module _ (key : SeriesKey) (start_ms end_ms : ℕ) where
  range_from-keeps :
      (v : Num) (found : Option Extent) (ps : List TelemetryPoint)
      → inside v found ≡ true
      → inside v (range_from key start_ms end_ms found ps) ≡ true
  unfolding range_from
  range_from-keeps v found [] h = h
  range_from-keeps v found (p ∷ ps) h = elim (Bool-cases (outside start_ms end_ms p)) [
    | inl e ↦ rw e (range_from-keeps v found ps h)
    | inr e ↦ rw e (
        range_from-keeps v (range_step found (finite_at key p)) ps
          (step-inside v found (finite_at key p) h))
  ]

  range_from-inside :
      (q : TelemetryPoint) (v : Num) (ps : List TelemetryPoint) (found : Option Extent)
      → finite_at key q ≡ some v
      → outside start_ms end_ms q ≡ false
      → Memᴰ q ps
      → inside v (range_from key start_ms end_ms found ps) ≡ true
  unfolding range_from
  range_from-inside q v [] found e o m = elim m [ ]
  range_from-inside q v (p ∷ ps) found e o (tail m) = range_from-inside q v ps _ e o m
  range_from-inside q v (p ∷ ps) found e o (head i) =
      rw (sym i, o, e)
        (range_from-keeps v (range_step found (some v)) ps (step-inside_self v found))

-- The range that the chart states holds the value of each point of its time window.
pub min_max_in_range-inside :
    (points : List TelemetryPoint) (key : SeriesKey) (start_ms end_ms : ℕ) (q : TelemetryPoint)
    (v : Num)
    → finite_at key q ≡ some v
    → outside start_ms end_ms q ≡ false
    → Memᴰ q points
    → inside v (min_max_in_range points key start_ms end_ms) ≡ true
unfolding min_max_in_range
min_max_in_range-inside points key start_ms end_ms q v e o m =
    range_from-inside key start_ms end_ms q v points none e o m
