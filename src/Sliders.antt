-- ===== src/Sliders.antt =====
-- The override sliders drawn in segments: frontend/src/utils/panelOverrideAsciiSlider.ts.
-- A bound that the code writes as a fraction of `segments` is compared multiplied out.
pub mod Bars
use shatter_nc.Prelude.{
  ℕ, zero, suc, ◌+◌, ◌*◌, ◌/◌, Bool, true, false, ◌||◌, List, [], ◌∷◌, min, if◌then◌else◌, leb, ltb,
  nat_beq,
}
use shatter_nc.Prelude.Text.{Text, codes, show_nat, pad_start}

pub data OverrideSliderTone : Type 0 where
  grey green yellow orange red : OverrideSliderTone

-- `HorizontalFeedSpindleSliderModel` and `HorizontalRapidSliderModel`, which have the same fields
pub record HorizontalSliderModel : Type 0 where
  pub filled_segments : ℕ
  pub display_value : Text
  pub value_box_tone : OverrideSliderTone
  pub segment_tones : List OverrideSliderTone
  pub segment_filled : List Bool

abbrev pub default_segments : ℕ
default_segments = 20

abbrev pub segment_size : ℕ
segment_size = 10

-- the loop `for (segmentNum = first; …; segmentNum++)` that pushes a value for each segment
unfoldable pub each_segment {ℓ} : {A : Type ℓ} → ℕ → ℕ → (ℕ → A) → List A
each_segment first zero value = []
each_segment first (suc left) value = value first ∷ each_segment (suc first) left value

-- `Math.min(Math.ceil(percentage / SEGMENT_SIZE), segments)`, none when prohibited
unfoldable pub feed_filled : ℕ → ℕ → ℕ
feed_filled value segments =
    if nat_beq value 999 then 0 else min ((value + 9) / segment_size) segments

unfoldable pub feed_box_tone : ℕ → ℕ → ℕ → OverrideSliderTone
feed_box_tone value segments filled =
    if nat_beq value 999
    then OverrideSliderTone.red
    else if ltb segments (2 * filled)
    then OverrideSliderTone.red
    else if nat_beq (2 * filled) segments
    then OverrideSliderTone.green
    else if leb (3 * segments) (8 * filled)
    then OverrideSliderTone.yellow
    else if leb segments (4 * filled)
    then OverrideSliderTone.orange
    else OverrideSliderTone.grey

-- the tone of a segment up to 100 %, where `in_range` is twice `filledInRange`
abbrev pub feed_range_tone : ℕ → ℕ → OverrideSliderTone
feed_range_tone segments in_range =
    if nat_beq in_range segments
    then OverrideSliderTone.green
    else if leb (3 * segments) (4 * in_range)
    then OverrideSliderTone.yellow
    else if leb segments (2 * in_range)
    then OverrideSliderTone.orange
    else OverrideSliderTone.grey

unfoldable pub feed_segment_tone : ℕ → ℕ → ℕ → ℕ → OverrideSliderTone
feed_segment_tone value segments filled number =
    if leb number filled
    then if leb (2 * number) segments
      then if nat_beq value 100
        then OverrideSliderTone.green
        else if ltb 100 value
        then OverrideSliderTone.green
        else feed_range_tone segments (min (2 * filled) segments)
      else OverrideSliderTone.red
    else OverrideSliderTone.grey

unfoldable pub compute_horizontal_feed_spindle_slider : ℕ → ℕ → HorizontalSliderModel
unfolding each_segment feed_filled feed_box_tone feed_segment_tone
compute_horizontal_feed_spindle_slider value segments =
    let filled = feed_filled value segments in
    record {
      filled_segments = filled;
      display_value = if nat_beq value 999 then codes "XXX" else pad_start 3 (show_nat value);
      value_box_tone = feed_box_tone value segments filled;
      segment_tones = each_segment 1 segments (feed_segment_tone value segments filled);
      segment_filled = each_segment 1 segments (λ number. leb number filled);
    }

-- the text and the number of filled segments of a rapid traverse step
unfoldable pub rapid_step : ℕ → Text × ℕ
rapid_step value =
    if nat_beq value 9
    then (codes "XXX", 0)
    else if nat_beq value 0 || nat_beq value 5
    then (codes "000", 0)
    else if nat_beq value 1
    then (codes "001", 5)
    else if nat_beq value 2
    then (codes "002", 10)
    else if nat_beq value 3
    then (codes "003", 15)
    else if nat_beq value 4
    then (codes "100", 20)
    else (codes "000", 0)

unfoldable pub rapid_tone : ℕ → ℕ → OverrideSliderTone
rapid_tone segments filled =
    if nat_beq filled segments
    then OverrideSliderTone.green
    else if leb (3 * segments) (4 * filled)
    then OverrideSliderTone.yellow
    else if leb segments (2 * filled)
    then OverrideSliderTone.orange
    else OverrideSliderTone.grey

unfoldable pub compute_horizontal_rapid_slider : ℕ → ℕ → HorizontalSliderModel
unfolding each_segment rapid_step rapid_tone
compute_horizontal_rapid_slider value segments =
    let filled = (rapid_step value).1 in
    record {
      filled_segments = filled;
      display_value = (rapid_step value).0;
      value_box_tone =
          if nat_beq value 9 then OverrideSliderTone.red else rapid_tone segments filled;
      segment_tones = each_segment 1 segments (λ number.
          if leb number filled then rapid_tone segments filled else OverrideSliderTone.grey);
      segment_filled = each_segment 1 segments (λ number. leb number filled);
    }
