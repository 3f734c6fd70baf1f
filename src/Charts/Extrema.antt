-- ===== src/Charts/Extrema.antt =====
-- The scan for the highest and the lowest point of a series.
use mathlib.Core.List.{Memᴰ}
use mathlib.Core.List.Memᴰ.{head, tail}
use shatter_nc.Prelude.{
  ◌≡◌, refl, inl, inr, Bool, true, false, not, Option, none, some, List, [], ◌∷◌, arith, All,
  All-imp, Bool-cases, Option-cases,
}
use shatter_nc.Prelude.Numbers.{Num, lt_num, lt_irrefl}
use shatter_nc.Charts.{
  SeriesKey, TelemetryPoint, finite_at, Best, improves, better, best, above, below, has_value,
}

-- What the scan needs of its comparison.
pub record IsRanking (beats : Num → Num → Bool) : Type 0 where
  pub irrefl : (v : Num) → beats v v ≡ false
  pub weaken : (v m n : Num) → beats v m ≡ false → beats n m ≡ true → beats v n ≡ false

pub above-weaken : (v m n : Num) → lt_num m v ≡ false → lt_num m n ≡ true → lt_num n v ≡ false
above-weaken v m n h k = ground arith

pub below-weaken : (v m n : Num) → lt_num v m ≡ false → lt_num n m ≡ true → lt_num v n ≡ false
below-weaken v m n h k = ground arith

pub above-IsRanking : IsRanking above
above-IsRanking = record { irrefl = lt_irrefl; weaken = above-weaken }

pub below-IsRanking : IsRanking below
below-IsRanking = record { irrefl = lt_irrefl; weaken = below-weaken }

module _ (beats : Num → Num → Bool) (key : SeriesKey) where
  -- the value of the point, if it has one, does not beat `m`
  abbrev pub unbeaten_by : Num → Option Num → Bool
  unbeaten_by m none = true
  unbeaten_by m (some v) = not (beats v m)

  abbrev pub unbeaten : Num → TelemetryPoint → Bool
  unbeaten m p = unbeaten_by m (finite_at key p)

  -- `m` is the best that was found where `p` has been scanned.
  abbrev pub settled : Best → TelemetryPoint → Bool
  settled none p = not (has_value (finite_at key p))
  settled (some (q, m)) p = unbeaten m p

  better-none :
      (found : Best) (p : TelemetryPoint)
      → finite_at key p ≡ none
      → better beats key found p ≡ found
  unfolding better
  better-none found p e = rw e refl

  better_old :
      (found : Best) (p : TelemetryPoint) (v : Num)
      → finite_at key p ≡ some v
      → improves beats v found ≡ false
      → better beats key found p ≡ found
  unfolding better
  better_old found p v e b = rw (e, b) refl

  better_new :
      (found : Best) (p : TelemetryPoint) (v : Num)
      → finite_at key p ≡ some v
      → improves beats v found ≡ true
      → better beats key found p ≡ some (p, v)
  unfolding better
  better_new found p v e b = rw (e, b) refl

  module _ (r : IsRanking beats) where
    replace-settled :
        (found : Best) (x p : TelemetryPoint) (v : Num)
        → improves beats v found ≡ true
        → settled found p ≡ true
        → unbeaten v p ≡ true
    replace-settled none x p v b h = elim (Option-cases (finite_at key p)) [
      | inl e ↦ rw e refl
      | inr (w, e) ↦ cc (rw e at h)
    ]
    replace-settled (some (q, m)) x p v b h = elim (Option-cases (finite_at key p)) [
      | inl e ↦ rw e refl
      | inr (w, e) ↦ elim (Bool-cases (beats w m)) [
        | inl k ↦ cc (rw (e, k) at h)
        | inr k ↦ rw (e, r.weaken w m v k b) refl
      ]
    ]

    better-settled :
        (found : Best) (x p : TelemetryPoint)
        → settled found p ≡ true
        → settled (better beats key found x) p ≡ true
    better-settled found x p h = elim (Option-cases (finite_at key x)) [
      | inl e ↦ rw (better-none found x e) h
      | inr (v, e) ↦ elim (Bool-cases (improves beats v found)) [
        | inl b ↦ rw (better_new found x v e b) (replace-settled found x p v b h)
        | inr b ↦ rw (better_old found x v e b) h
      ]
    ]

    keep-settled :
        (found : Best) (p : TelemetryPoint) (v : Num)
        → finite_at key p ≡ some v
        → improves beats v found ≡ false
        → settled found p ≡ true
    keep-settled none p v e b = cc
    keep-settled (some (q, m)) p v e b = rw (e, b) refl

    none-settled :
        (found : Best) (p : TelemetryPoint) → finite_at key p ≡ none → settled found p ≡ true
    none-settled none p e = rw e refl
    none-settled (some (q, m)) p e = rw e refl

    better-settled_self :
        (found : Best) (p : TelemetryPoint) → settled (better beats key found p) p ≡ true
    better-settled_self found p = elim (Option-cases (finite_at key p)) [
      | inl e ↦ rw (better-none found p e) (none-settled found p e)
      | inr (v, e) ↦ elim (Bool-cases (improves beats v found)) [
        | inl b ↦ rw (better_new found p v e b, e, r.irrefl v) refl
        | inr b ↦ rw (better_old found p v e b) (keep-settled found p v e b)
      ]
    ]

    best-settled :
        (found : Best) (p : TelemetryPoint) (ps : List TelemetryPoint)
        → settled found p ≡ true
        → settled (best beats key found ps) p ≡ true
    unfolding best
    best-settled found p [] h = h
    best-settled found p (x ∷ ps) h =
        best-settled (better beats key found x) p ps (better-settled found x p h)

    pub best-unbeaten :
        (found : Best) (ps : List TelemetryPoint)
        → All (λ p. settled (best beats key found ps) p ≡ true) ps
    unfolding best
    best-unbeaten found [] = tt
    best-unbeaten found (p ∷ ps) = (
      best-settled (better beats key found p) p ps (better-settled_self found p),
      best-unbeaten (better beats key found p) ps,
    )

  -- What was found stands in the series, with its value.
  abbrev pub Found : List TelemetryPoint → Best → Type 0
  Found ps none = Unit
  Found ps (some (q, n)) = Memᴰ q ps × (finite_at key q ≡ some n)

  better-Found :
      (all : List TelemetryPoint) (found : Best) (p : TelemetryPoint)
      → Memᴰ p all
      → Found all found
      → Found all (better beats key found p)
  better-Found all found p m f = elim (Option-cases (finite_at key p)) [
    | inl e ↦ rw (better-none found p e) f
    | inr (v, e) ↦ elim (Bool-cases (improves beats v found)) [
      | inl b ↦ rw (better_new found p v e b) (m, e)
      | inr b ↦ rw (better_old found p v e b) f
    ]
  ]

  best-Found_from :
      (all ps : List TelemetryPoint) (found : Best)
      → All (λ p. Memᴰ p all) ps
      → Found all found
      → Found all (best beats key found ps)
  unfolding best
  best-Found_from all [] found h f = f
  best-Found_from all (p ∷ ps) found (m, h) f =
      best-Found_from all ps (better beats key found p) h (better-Found all found p m f)

All-Mem : (ps : List TelemetryPoint) → All (λ p. Memᴰ p ps) ps
All-Mem [] = tt
All-Mem (p ∷ ps) =
    (head refl, All-imp (λ q. Memᴰ q ps) (λ q. Memᴰ q (p ∷ ps)) ps (All-Mem ps) (λ q m. tail m))

module _ (beats : Num → Num → Bool) (key : SeriesKey) where
  pub best-Found : (ps : List TelemetryPoint) → Found beats key ps (best beats key none ps)
  best-Found ps = best-Found_from beats key ps ps none (All-Mem ps) tt
