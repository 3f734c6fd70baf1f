-- ===== src/Charts/Bins/Complete.antt =====
-- Every sample is counted in one bin, and lies in the range of a bin.
use shatter_nc.Prelude.{
  ℕ, zero, suc, ◌+◌, ◌≤◌, ◌<◌, ◌≡◌, refl, ◌∙◌, ap, sym, inl, inr, true, false, List, [], ◌∷◌, arith,
  length, ltb, nat_beq, Bool-cases,
}
use shatter_nc.Charts.Bins.{
  Sample, Bin, open_bin, add_sample, collect, bins, downsample_by_time_min_max_mean,
}

abbrev pub total : List Bin → ℕ
total [] = 0
total (b ∷ bs) = b.count + total bs

collect-count :
    (limit : ℕ) (b : Bin) (ss : List Sample)
    → (collect limit b ss).0.count + length (collect limit b ss).1 ≡ b.count + length ss
unfolding collect add_sample
collect-count limit b [] = refl
collect-count limit b (s ∷ ss) = elim (Bool-cases (ltb s.t limit)) [
  | inl e ↦ rw e (omega (arith, collect-count limit (add_sample b s) ss))
  | inr e ↦ rw e refl
]

collect-length :
    (limit : ℕ) (b : Bin) (ss : List Sample) → length (collect limit b ss).1 ≤ length ss
unfolding collect
collect-length limit b [] = omega arith
collect-length limit b (s ∷ ss) = elim (Bool-cases (ltb s.t limit)) [
  | inl e ↦ rw e (omega (arith, collect-length limit (add_sample b s) ss))
  | inr e ↦ rw e (omega arith)
]

-- The first sample of a window is inside it.
ltb-window : (t window : ℕ) → 0 < window → ltb t (t + window) ≡ true
ltb-window t window h = ground arith

unfoldable pub round : Sample → ℕ → List Sample → Bin × List Sample
round s window ss = collect (s.t + window) (open_bin s) (s ∷ ss)

pub round-eq :
    (s : Sample) (window : ℕ) (ss : List Sample)
    → 0 < window
    → round s window ss ≡ collect (s.t + window) (add_sample (open_bin s) s) ss
unfolding round collect
round-eq s window ss h = rw (ltb-window s.t window h) refl

pub round-length :
    (s : Sample) (window : ℕ) (ss : List Sample)
    → 0 < window
    → length (round s window ss).1 ≤ length ss
round-length s window ss h =
    rw (round-eq s window ss h) (collect-length (s.t + window) (add_sample (open_bin s) s) ss)

bins-total :
    (fuel window : ℕ) (ss : List Sample)
    → 0 < window
    → length ss ≤ fuel
    → total (bins fuel window ss) ≡ length ss
unfolding bins round
bins-total zero window [] h k = refl
bins-total zero window (s ∷ ss) h k = absurd (omega arith)
bins-total (suc fuel) window [] h k = refl
bins-total (suc fuel) window (s ∷ ss) h k =
    let fewer = round-length s window ss h in
    omega (
      arith,
      collect-count (s.t + window) (open_bin s) (s ∷ ss),
      bins-total fuel window (collect (s.t + window) (open_bin s) (s ∷ ss)).1 h
          (omega (arith, k, fewer)),
    )

bins-empty : (fuel window : ℕ) → bins fuel window [] ≡ []
unfolding bins
bins-empty zero window = refl
bins-empty (suc fuel) window = refl

bins-fuel :
    (fuel more window : ℕ) (ss : List Sample)
    → 0 < window
    → length ss ≤ fuel
    → length ss ≤ more
    → bins fuel window ss ≡ bins more window ss
unfolding bins round
bins-fuel fuel more window [] h k l = bins-empty fuel window ∙ sym (bins-empty more window)
bins-fuel zero more window (s ∷ ss) h k l = absurd (omega arith)
bins-fuel (suc fuel) zero window (s ∷ ss) h k l = absurd (omega arith)
bins-fuel (suc fuel) (suc more) window (s ∷ ss) h k l =
    let fewer = round-length s window ss h in
    ap (λ (rest : List Bin). (collect (s.t + window) (open_bin s) (s ∷ ss)).0 ∷ rest)
      (bins-fuel fuel more window (collect (s.t + window) (open_bin s) (s ∷ ss)).1 h
        (omega (arith, k, fewer)) (omega (arith, l, fewer)))

-- The loop ends after at most as many rounds as there are samples: it has then counted every
-- sample once, and further rounds would add nothing. The window is to be positive.
pub downsample_by_time_min_max_mean_complete :
    (points : List Sample) (window more : ℕ)
    → 0 < window
    → (total (downsample_by_time_min_max_mean points window) ≡ length points)
      × (bins (length points + more) window points ≡ downsample_by_time_min_max_mean points window)
unfolding downsample_by_time_min_max_mean
downsample_by_time_min_max_mean_complete [] window more h =
    (refl, bins-empty (length {A = Sample} [] + more) window)
downsample_by_time_min_max_mean_complete (s ∷ ss) window more h = rw (nat_beq-zero window h) (
  bins-total (length (s ∷ ss)) window (s ∷ ss) h (omega arith),
  bins-fuel (length (s ∷ ss) + more) (length (s ∷ ss)) window (s ∷ ss) h (omega arith)
      (omega arith),
)
  where
    nat_beq-zero : (window : ℕ) → 0 < window → nat_beq window 0 ≡ false
    nat_beq-zero window h = ground arith
