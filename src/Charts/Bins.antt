-- ===== src/Charts/Bins.antt =====
-- Samples by time window: `downsampleByTimeMinMaxMean` of
-- frontend/src/components/machine-detail/CompressorTelemetrySeriesPane.tsx.
pub mod Complete
pub mod Cover
use shatter_nc.Prelude.{
  ℕ, zero, suc, ◌+◌, Bool, not, ◌&&◌, List, [], ◌∷◌, if◌then◌else◌, ltb, nat_beq, length,
}
use shatter_nc.Prelude.Numbers.{Num, pos, lt_num, add_num}

pub record Sample : Type 0 where
  pub t : ℕ
  pub v : Num

-- The mean of a bin is `sum / count`.
pub record Bin : Type 0 where
  pub t : ℕ
  pub min : Num
  pub max : Num
  pub sum : Num
  pub count : ℕ

-- the variables at the start of a window
abbrev pub open_bin : Sample → Bin
open_bin s = record { t = s.t; min = s.v; max = s.v; sum = pos 0; count = 0 }

unfoldable pub add_sample : Bin → Sample → Bin
add_sample b s = record {
  t = s.t;
  min = if lt_num s.v b.min then s.v else b.min;
  max = if lt_num b.max s.v then s.v else b.max;
  sum = add_num b.sum s.v;
  count = b.count + 1;
}

-- the inner loop: the bin at its end, and the samples that are left
unfoldable pub collect : ℕ → Bin → List Sample → Bin × List Sample
collect limit b [] = (b, [])
collect limit b (s ∷ ss) =
    let rest = collect limit (add_sample b s) ss in if ltb s.t limit then rest else (b, s ∷ ss)

-- the outer loop, a window in each round
unfoldable pub bins : ℕ → ℕ → List Sample → List Bin
bins zero window ss = []
bins (suc fuel) window [] = []
bins (suc fuel) window (s ∷ ss) =
    let (b, rest) = collect (s.t + window) (open_bin s) (s ∷ ss) in b ∷ bins fuel window rest

-- A round takes a sample at least, so there are no more rounds than samples.
unfoldable pub downsample_by_time_min_max_mean : List Sample → ℕ → List Bin
downsample_by_time_min_max_mean [] window = []
downsample_by_time_min_max_mean (s ∷ ss) window =
    if nat_beq window 0 then [] else bins (length (s ∷ ss)) window (s ∷ ss)
