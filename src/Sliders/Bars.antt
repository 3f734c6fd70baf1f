-- ===== src/Sliders/Bars.antt =====
-- What the sliders draw: the lit segments and their tones.
use shatter_nc.Prelude.{
  ℕ, zero, suc, ◌+◌, ◌-◌, ◌≤◌, ◌≡◌, refl, Bool, List, [], ◌∷◌, map, arith, min, if◌then◌else◌,
  length, leb, nat_beq, Bool-cases, inl, inr,
}
use shatter_nc.Sliders.{
  OverrideSliderTone, HorizontalSliderModel, default_segments, each_segment, feed_filled,
  feed_box_tone, feed_segment_tone, compute_horizontal_feed_spindle_slider, rapid_step, rapid_tone,
  compute_horizontal_rapid_slider,
}

-- how many segments are lit
abbrev pub lit : List Bool → ℕ
lit [] = 0
lit (b ∷ bs) = (if b then 1 else 0) + lit bs

length-each_segment {ℓ} :
    {A : Type ℓ} (first left : ℕ) (value : ℕ → A) → length (each_segment first left value) ≡ left
unfolding each_segment
length-each_segment first zero value = refl
length-each_segment first (suc left) value =
    omega (arith, length-each_segment (suc first) left value)

lit-each_segment :
    (first left filled : ℕ)
    → lit (each_segment first left (λ number. leb number filled)) ≡ min left (suc filled - first)
unfolding each_segment
lit-each_segment first zero filled = omega arith
lit-each_segment first (suc left) filled = ground (arith, lit-each_segment (suc first) left filled)

-- a loop whose value is read off the value of another
each_segment-map {ℓ κ} :
    {A : Type ℓ} {B : Type κ} (first left : ℕ) (value : ℕ → A) (f : A → B) (g : ℕ → B)
    → ((number : ℕ) → first ≤ number → g number ≡ f (value number))
    → each_segment first left g ≡ map f (each_segment first left value)
unfolding each_segment
each_segment-map first zero value f g h = refl
each_segment-map first (suc left) value f g h =
    let rest =
      each_segment-map (suc first) left value f g (λ number le. h number (omega (arith, le))) in
    cc (h first (omega arith), rest)

-- The lit segments of the feed and spindle slider are as many as its count says, never more than
-- there are, and each segment has a tone.
pub compute_horizontal_feed_spindle_slider-lit :
    (value segments : ℕ)
    → (lit (compute_horizontal_feed_spindle_slider value segments).segment_filled
        ≡ (compute_horizontal_feed_spindle_slider value segments).filled_segments)
      × ((compute_horizontal_feed_spindle_slider value segments).filled_segments ≤ segments)
      × (length (compute_horizontal_feed_spindle_slider value segments).segment_tones ≡ segments)
unfolding compute_horizontal_feed_spindle_slider feed_filled
compute_horizontal_feed_spindle_slider-lit value segments = (
  ground (arith, lit-each_segment 1 segments (feed_filled value segments)),
  ground arith,
  length-each_segment 1 segments (feed_segment_tone value segments (feed_filled value segments)),
)

-- The tone of a segment: that of the value box where it is lit.
abbrev pub boxed : HorizontalSliderModel → Bool → OverrideSliderTone
boxed m b = if b then m.value_box_tone else OverrideSliderTone.grey

feed_segment_tone-boxed :
    (value number : ℕ)
    → value ≤ 100
    → feed_segment_tone value default_segments (feed_filled value default_segments) number ≡ (
        if leb number (feed_filled value default_segments)
        then feed_box_tone value default_segments (feed_filled value default_segments)
        else OverrideSliderTone.grey)
unfolding feed_segment_tone feed_filled feed_box_tone
feed_segment_tone-boxed value number h = ground arith

-- Up to 100 % the lit segments of the feed and spindle slider, drawn with its twenty segments, have
-- the tone of its value box, and the others are grey.
pub compute_horizontal_feed_spindle_slider-boxed :
    (value : ℕ)
    → value ≤ 100
    → (compute_horizontal_feed_spindle_slider value default_segments).segment_tones
      ≡ map
          (boxed (compute_horizontal_feed_spindle_slider value default_segments))
          (compute_horizontal_feed_spindle_slider value default_segments).segment_filled
unfolding compute_horizontal_feed_spindle_slider
compute_horizontal_feed_spindle_slider-boxed value h =
    each_segment-map 1 default_segments (λ number. leb number (feed_filled value default_segments))
      (boxed (compute_horizontal_feed_spindle_slider value default_segments))
      (feed_segment_tone value default_segments (feed_filled value default_segments))
      (λ number le. feed_segment_tone-boxed value number h)

rapid_tone-boxed :
    (value segments number : ℕ)
    → 1 ≤ number
    → (if leb number (rapid_step value).1
        then rapid_tone segments (rapid_step value).1
        else OverrideSliderTone.grey)
      ≡ boxed (compute_horizontal_rapid_slider value segments) (leb number (rapid_step value).1)
unfolding compute_horizontal_rapid_slider
rapid_tone-boxed value segments number h = elim (Bool-cases (nat_beq value 9)) [
  | inl prohibited ↦ rw (prohibited, rapid_step, compute_horizontal_rapid_slider) (ground arith)
  | inr other ↦ rw (other, compute_horizontal_rapid_slider) refl
]

-- The lit segments of the rapid traverse slider are as many as its count says, or all of them where
-- the slider is drawn with fewer; each lit one has the tone of the value box, and the others are
-- grey, for every value the machine may report, the prohibited one included.
pub compute_horizontal_rapid_slider-lit :
    (value segments : ℕ)
    → (lit (compute_horizontal_rapid_slider value segments).segment_filled
        ≡ min segments (compute_horizontal_rapid_slider value segments).filled_segments)
      × ((compute_horizontal_rapid_slider value segments).segment_tones
          ≡ map
              (boxed (compute_horizontal_rapid_slider value segments))
              (compute_horizontal_rapid_slider value segments).segment_filled)
unfolding compute_horizontal_rapid_slider
compute_horizontal_rapid_slider-lit value segments =
    let filled = (rapid_step value).1 in
    (
      omega (arith, lit-each_segment 1 segments filled),
      each_segment-map 1 segments (λ number. leb number filled)
          (boxed (compute_horizontal_rapid_slider value segments))
          (λ number.
            if leb number filled then rapid_tone segments filled else OverrideSliderTone.grey)
          (rapid_tone-boxed value segments),
    )
