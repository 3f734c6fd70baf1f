-- ===== src/Machines/Alarms.antt =====
-- The alarms by level, in the two columns of the alarm pane.
use shatter_nc.Prelude.{
  ℕ, ◌≤◌, ◌≡◌, refl, ap, Bool, true, false, not, ◌&&◌, ◌||◌, ltb, length, take, zero, suc, List, [],
  ◌∷◌, ◌++◌, filter, arith, All, inl, inr, Bool-cases,
}
use shatter_nc.Prelude.Sort.{sort_by, IsSorted, sort_by-IsSorted, length-filter-sort_by}
use shatter_nc.Machines.{
  Alarm, alarm_before, is_critical, sorted_alarms, highest_severity_alarms, other_alarms, cut,
  visible_highest, visible_others, has_more_alarms,
}

take-all {ℓ} : {A : Type ℓ} (n : ℕ) (xs : List A) → length xs ≤ n → take n xs ≡ xs
take-all zero [] h = refl
take-all zero (x ∷ xs) h = absurd (omega (arith, h))
take-all (suc n) [] h = refl
take-all (suc n) (x ∷ xs) h = ap (λ ys. x ∷ ys) (take-all n xs (omega (arith, h)))

module _ {A : Type 0} where
  -- none of the alarms is critical where the first of the sorted ones is not
  rest-mild :
      (a : Alarm A) (xs : List (Alarm A))
      → is_critical a ≡ false
      → All (λ x. alarm_before a x ≡ true) xs
      → (filter is_critical xs ≡ []) × (filter (λ (x : Alarm A). not (is_critical x)) xs ≡ xs)
  rest-mild a [] e h = (refl, refl)
  rest-mild a (x ∷ xs) e (b, h) =
      let mild : is_critical x ≡ false = ground arith in
      let (none_left, all_kept) = rest-mild a xs e h in
      (rw mild none_left, rw mild (ap (λ (ys : List (Alarm A)). x ∷ ys) all_kept))

  columns-sorted :
      (xs : List (Alarm A))
      → IsSorted alarm_before xs
      → filter is_critical xs ++ filter (λ (x : Alarm A). not (is_critical x)) xs ≡ xs
  columns-sorted [] s = refl
  columns-sorted (x ∷ xs) (a, s) = elim (Bool-cases (is_critical x)) [
    | inl e ↦ rw e (ap (λ (ys : List (Alarm A)). x ∷ ys) (columns-sorted xs s))
    | inr e ↦
        let (none_left, all_kept) = rest-mild x xs e a in
        rw (e, none_left) (ap (λ (ys : List (Alarm A)). x ∷ ys) all_kept)
  ]

  cut-all :
      (is_expanded : Bool) (column : List (Alarm A))
      → (not is_expanded && ltb 10 (length column)) ≡ false
      → cut is_expanded column ≡ column
  cut-all true column h = refl
  cut-all false column h = take-all 10 column (ground arith)

  -- Where the alarm pane does not offer to show more, as when it is expanded, its two columns, one
  -- after the other, are the alarms in the order of the overview. That order goes from the highest
  -- level to the lowest, and has as many alarms that pass a test as came, for every test.
  pub columns-sorted_alarms :
      (is_expanded : Bool) (alarms : List (Alarm A)) (p : Alarm A → Bool)
      → has_more_alarms is_expanded alarms ≡ false
      → (visible_highest is_expanded alarms ++ visible_others is_expanded alarms
          ≡ sorted_alarms alarms)
        × (length (filter p (sorted_alarms alarms)) ≡ length (filter p alarms))
        × IsSorted alarm_before (sorted_alarms alarms)
  unfolding sorted_alarms highest_severity_alarms other_alarms visible_highest visible_others
      has_more_alarms
  columns-sorted_alarms is_expanded alarms p all_fit =
      let s =
        sort_by-IsSorted alarm_before (λ a b h. ground arith) (λ a b c h k. ground arith) alarms in
      let (left, right) = both_false _ _ all_fit in
      (
        rw (cut-all is_expanded _ left, cut-all is_expanded _ right)
            (columns-sorted (sort_by alarm_before alarms) s),
        length-filter-sort_by alarm_before p alarms,
        s,
      )
    where
      both_false : (a b : Bool) → (a || b) ≡ false → (a ≡ false) × (b ≡ false)
      both_false a b h = (ground arith, ground arith)
