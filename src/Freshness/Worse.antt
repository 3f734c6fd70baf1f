-- ===== src/Freshness/Worse.antt =====
-- A pane's light against the lights of the API and of the poll: `earlierIsoTimestamp`.
use shatter_nc.Prelude.{
  ℕ, ◌≤◌, ◌≡◌, ◌≢◌, refl, false, none, some, [], ◌∷◌, max, arith, leb, leb→le, Bool-cases, inl, inr,
}
use shatter_nc.Freshness.{
  PollingFreshness, Stamp, parse_time, earlier_iso_timestamp, age_ms, freshness_from_age_ms,
  recompute,
}

-- how bad a light is
abbrev pub rank : PollingFreshness → ℕ
rank PollingFreshness.fresh = 0
rank PollingFreshness.waning = 1
rank PollingFreshness.stale = 2
rank PollingFreshness.unknown = 3

freshness-monotone :
    (now ta tb interval : ℕ)
    → ta ≤ tb
    → rank (freshness_from_age_ms (age_ms now tb) interval)
      ≤ rank (freshness_from_age_ms (age_ms now ta) interval)
unfolding freshness_from_age_ms
freshness-monotone now ta tb interval h = ground arith

rank-bound : (f : PollingFreshness) → rank f ≤ 3
rank-bound f = ground arith

recompute-read :
    (now interval : ℕ) (s : Stamp) (t : ℕ)
    → parse_time s ≡ some t
    → rank (recompute now interval s) ≡ rank (freshness_from_age_ms (age_ms now t) interval)
unfolding recompute parse_time
recompute-read now interval s t h = rw (h, recompute) refl

later_le : (a b : ℕ) → leb a b ≡ false → b ≤ a
later_le a b h = ground arith

-- Where the API was read at some time and the machine's poll is given, the light of the time chosen
-- is as bad as the worse of the two lights: it is fresh only where both are.
pub earlier_iso_timestamp-worse :
    (now interval : ℕ) (api poll : Stamp) (ta : ℕ)
    → parse_time api ≡ some ta
    → poll ≢ Stamp.undefined
    → rank (recompute now interval (earlier_iso_timestamp api poll))
      ≡ max (rank (recompute now interval api)) (rank (recompute now interval poll))
unfolding earlier_iso_timestamp recompute parse_time
earlier_iso_timestamp-worse now interval api Stamp.undefined ta h given = elim (given refl) [ ]
earlier_iso_timestamp-worse now interval api Stamp.null ta h given =
    omega (arith, rank-bound (recompute now interval api))
earlier_iso_timestamp-worse now interval api (Stamp.at [] ms) ta h given =
    omega (arith, rank-bound (recompute now interval api))
earlier_iso_timestamp-worse now interval api (Stamp.at (c ∷ s) none) ta h given =
    omega (arith, rank-bound (recompute now interval api))
earlier_iso_timestamp-worse now interval api (Stamp.at (c ∷ s) (some tb)) ta h given =
    elim (Bool-cases (leb ta tb)) [
      | inl older ↦
          rw (h, earlier_iso_timestamp, older)
            (omega (
              arith,
              recompute-read now interval api ta h,
              freshness-monotone now ta tb interval (leb→le ta tb older),
            ))
      | inr later ↦
          rw (h, earlier_iso_timestamp, later)
            (omega (
              arith,
              recompute-read now interval api ta h,
              freshness-monotone now tb ta interval (later_le ta tb later),
            ))
    ]

-- Where the API was not read yet, the light is that of the machine's poll alone.
pub earlier_iso_timestamp-unread :
    (now interval : ℕ) (api poll : Stamp)
    → parse_time api ≡ none
    → recompute now interval (earlier_iso_timestamp api poll) ≡ recompute now interval poll
unfolding earlier_iso_timestamp recompute parse_time
earlier_iso_timestamp-unread now interval api Stamp.undefined h = rw (h, earlier_iso_timestamp) refl
earlier_iso_timestamp-unread now interval api Stamp.null h = refl
earlier_iso_timestamp-unread now interval api (Stamp.at [] ms) h = refl
earlier_iso_timestamp-unread now interval api (Stamp.at (c ∷ s) none) h = refl
earlier_iso_timestamp-unread now interval api (Stamp.at (c ∷ s) (some tb)) h =
    rw (h, earlier_iso_timestamp) refl
