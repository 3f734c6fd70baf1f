-- ===== src/Charts/Bins/Cover.antt =====
-- Every sample lies in the range of the bin that counts it.
use mathlib.Core.List.{Memᴰ}
use mathlib.Core.List.Memᴰ.{head, tail}
use shatter_nc.Prelude.{
  ℕ, zero, suc, ◌+◌, ◌≤◌, ◌<◌, ◌≡◌, refl, ◌⊎◌, inl, inr, Bool, true, false, not, ◌&&◌, List, [],
  ◌∷◌, arith, length, any, ltb, nat_beq, Bool-cases,
}
use shatter_nc.Prelude.Numbers.{Num, lt_num, lt_irrefl}
use shatter_nc.Charts.Extrema.{above-weaken, below-weaken}
use shatter_nc.Charts.Bins.{
  Sample, Bin, open_bin, add_sample, collect, bins, downsample_by_time_min_max_mean,
}
use shatter_nc.Charts.Bins.Complete.{round, round-length}

-- the value is neither below nor above the range of the bin
unfoldable pub within : Num → Bin → Bool
within v b = not (lt_num v b.min) && not (lt_num b.max v)

add_sample-within :
    (v : Num) (b : Bin) (s : Sample) → within v b ≡ true → within v (add_sample b s) ≡ true
unfolding within add_sample
add_sample-within v b s h = ground (arith, below-weaken v b.min s.v, above-weaken v b.max s.v)

add_sample-within_self : (b : Bin) (s : Sample) → within s.v (add_sample b s) ≡ true
unfolding within add_sample
add_sample-within_self b s = ground (arith, lt_irrefl s.v)

collect-within :
    (limit : ℕ) (v : Num) (b : Bin) (ss : List Sample)
    → within v b ≡ true
    → within v (collect limit b ss).0 ≡ true
unfolding collect
collect-within limit v b [] h = h
collect-within limit v b (s ∷ ss) h = elim (Bool-cases (ltb s.t limit)) [
  | inl e ↦ rw e (collect-within limit v (add_sample b s) ss (add_sample-within v b s h))
  | inr e ↦ rw e h
]

-- A sample is taken into the bin, or it is left for the next window.
collect-cover :
    (limit : ℕ) (q : Sample) (b : Bin) (ss : List Sample)
    → Memᴰ q ss
    → (within q.v (collect limit b ss).0 ≡ true) ⊎ Memᴰ q (collect limit b ss).1
unfolding collect
collect-cover limit q b [] m = elim m [ ]
collect-cover limit q b (s ∷ ss) m = elim (Bool-cases (ltb s.t limit)) [
  | inl e ↦ rw e (elim m [
    | head i ↦
        inl (collect-within limit q.v (add_sample b s) ss (rw i (add_sample-within_self b s)))
    | tail k ↦ collect-cover limit q (add_sample b s) ss k
  ])
  | inr e ↦ rw e (inr m)
]

bins-cover :
    (fuel window : ℕ) (q : Sample) (ss : List Sample)
    → 0 < window
    → length ss ≤ fuel
    → Memᴰ q ss
    → any (within q.v) (bins fuel window ss) ≡ true
unfolding bins round
bins-cover zero window q [] h k m = elim m [ ]
bins-cover zero window q (s ∷ ss) h k m = absurd (omega arith)
bins-cover (suc fuel) window q [] h k m = elim m [ ]
bins-cover (suc fuel) window q (s ∷ ss) h k m =
    elim (collect-cover (s.t + window) q (open_bin s) (s ∷ ss) m) [
      | inl e ↦ rw e refl
      | inr left ↦
          let fewer = round-length s window ss h in
          ground (
            arith,
            bins-cover fuel window q (collect (s.t + window) (open_bin s) (s ∷ ss)).1 h
                (omega (arith, k, fewer)) left,
          )
    ]

-- No sample lies outside the band that the chart fills: the value of each is in the range of a bin.
-- The window is to be positive.
pub downsample_by_time_min_max_mean-cover :
    (points : List Sample) (window : ℕ) (q : Sample)
    → 0 < window
    → Memᴰ q points
    → any (within q.v) (downsample_by_time_min_max_mean points window) ≡ true
unfolding downsample_by_time_min_max_mean
downsample_by_time_min_max_mean-cover [] window q h m = elim m [ ]
downsample_by_time_min_max_mean-cover (s ∷ ss) window q h m =
    rw (nat_beq-zero window h) (bins-cover (length (s ∷ ss)) window q (s ∷ ss) h (omega arith) m)
  where
    nat_beq-zero : (window : ℕ) → 0 < window → nat_beq window 0 ≡ false
    nat_beq-zero window h = ground arith
