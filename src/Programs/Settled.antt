-- ===== src/Programs/Settled.antt =====
-- The indicators after a fetch.
use shatter_nc.Prelude.{
  ℕ, ◌≡◌, refl, inl, inr, Bool, true, false, not, ◌||◌, Option, none, some, [], ◌∷◌, arith, ltb,
  Bool-cases,
}
use shatter_nc.Prelude.Text.{Text}
use shatter_nc.Programs.{CachedData, Cache, Pane, is_active_name, ByOnumber, Recent, Answers}
use shatter_nc.Programs.Fetch.{
  restore, reset_machine, indicate, begin_by, begin, loaded, keep, only_deployment, only_file,
  fallback_file, fallback_name, fail, fallback, by_onumber, fetch_by, fetch_current_deployment,
}

module _ {D P : Type 0} where
  -- The spinner is shown during the first load only.
  unfoldable pub IsPane : Pane D P → Type 0
  IsPane p = (not p.loading || p.is_initial_load) ≡ true

  -- no spinner, and no sign of a fetch in the background
  unfoldable pub Rests : Pane D P → Type 0
  Rests p = (p.loading ≡ false) × (p.is_refreshing ≡ false)

  loaded-loading : (p : Pane D P) → IsPane p → (loaded p).loading ≡ false
  unfolding IsPane
  loaded-loading p h = ground arith

  reset_machine-IsPane :
      (machine_id : ℕ) (p : Pane D P) → IsPane p → IsPane (reset_machine machine_id p)
  unfolding IsPane reset_machine
  reset_machine-IsPane machine_id p h = ground arith

  indicate-IsPane :
      (machine_id : ℕ) (program_name : Option Text) (p : Pane D P)
      → IsPane p
      → IsPane (indicate machine_id program_name p)
  unfolding IsPane indicate
  indicate-IsPane machine_id program_name p h = ground arith

  begin_by-IsPane :
      (machine_id : ℕ) (program_name : Option Text) (p : Pane D P)
      (found : Option (CachedData D P) × Cache D P)
      → IsPane p
      → IsPane (begin_by machine_id program_name p found).1
  unfolding IsPane restore
  begin_by-IsPane machine_id program_name p (some found, cache) h = refl
  begin_by-IsPane machine_id program_name p (none, cache) h =
      indicate-IsPane machine_id program_name
        (reset_machine machine_id (record p { cache = cache }))
        (reset_machine-IsPane machine_id (record p { cache = cache }) h)

  -- The effect keeps the spinner to the first load, whatever it finds in the cache.
  pub begin-IsPane :
      (now machine_id : ℕ) (program_name : Option Text) (p : Pane D P)
      → IsPane p
      → IsPane (begin now machine_id program_name p).1
  unfolding begin
  begin-IsPane now machine_id program_name p h = begin_by-IsPane machine_id program_name p _ h

  keep-IsPane :
      (now machine_id : ℕ) (program_name : Option Text) (found : CachedData D P) (p : Pane D P)
      → IsPane p
      → IsPane (keep now machine_id program_name found p)
  unfolding IsPane keep
  keep-IsPane now machine_id program_name found p h = h

  fallback_file-IsPane :
      (now machine_id : ℕ) (program_name : Option Text) (answers : Answers D P) (p : Pane D P)
      → IsPane p
      → IsPane (fallback_file now machine_id program_name answers p)
  unfolding IsPane keep
  fallback_file-IsPane now machine_id none answers p h = h
  fallback_file-IsPane now machine_id (some name) answers p h =
      elim (Bool-cases (is_active_name (some name))) [ inl e ↦ rw e h | inr e ↦ rw e h ]

  fallback_name-IsPane :
      (now machine_id : ℕ) (program_name : Option Text) (p : Pane D P)
      → IsPane p
      → IsPane (fallback_name now machine_id program_name p)
  unfolding IsPane keep
  fallback_name-IsPane now machine_id none p h = h
  fallback_name-IsPane now machine_id (some name) p h =
      elim (Bool-cases (is_active_name (some name))) [ inl e ↦ rw e h | inr e ↦ rw e h ]

  fail-Rests : (p : Pane D P) → IsPane p → Rests (fail p)
  unfolding IsPane Rests
  fail-Rests p h = ground arith

  fallback-Rests :
      (now machine_id : ℕ) (program_name : Option Text) (answers : Answers D P) (r : Recent D P)
      (p : Pane D P)
      → IsPane p
      → Rests (fallback now machine_id program_name answers r p)
  unfolding Rests fallback
  fallback-Rests now machine_id name answers (Recent.deployments ((d, program) ∷ ds)) p h = (
    loaded-loading (keep now machine_id name (only_deployment d program) p)
        (keep-IsPane now machine_id name (only_deployment d program) p h),
    refl,
  )
  fallback-Rests now machine_id name answers (Recent.deployments []) p h = (
    loaded-loading (fallback_file now machine_id name answers p)
        (fallback_file-IsPane now machine_id name answers p h),
    refl,
  )
  fallback-Rests now machine_id name answers Recent.not_ok p h = (
    loaded-loading (fallback_name now machine_id name p)
        (fallback_name-IsPane now machine_id name p h),
    refl,
  )
  fallback-Rests now machine_id name answers Recent.threw p h = fail-Rests p h

  by_onumber-Rests :
      (now machine_id : ℕ) (name : Text) (answers : Answers D P) (r : ByOnumber D P) (p : Pane D P)
      → IsPane p
      → Rests (by_onumber now machine_id name answers r p)
  unfolding IsPane Rests by_onumber
  by_onumber-Rests now machine_id name answers (ByOnumber.deployed d program) p h =
      let kept = keep now machine_id (some name) (only_deployment d program) p in
      (
        loaded-loading (record kept { last_fetched_program_name = some name })
            (keep-IsPane now machine_id (some name) (only_deployment d program) p h),
        refl,
      )
  by_onumber-Rests now machine_id name answers ByOnumber.unknown p h =
      let kept = keep now machine_id (some name) (only_file name answers) p in
      (
        loaded-loading (record kept { last_fetched_program_name = some name })
            (keep-IsPane now machine_id (some name) (only_file name answers) p h),
        refl,
      )
  by_onumber-Rests now machine_id name answers ByOnumber.failed p h =
      fallback-Rests now machine_id (some name) answers answers.recent p h

  fetch_by-Rests :
      (active : Bool) (now machine_id : ℕ) (program_name : Option Text) (answers : Answers D P)
      (p : Pane D P)
      → IsPane p
      → Rests (fetch_by active now machine_id program_name answers p)
  fetch_by-Rests true now machine_id (some name) answers p h =
      by_onumber-Rests now machine_id name answers answers.by_onumber p h
  fetch_by-Rests true now machine_id none answers p h =
      fallback-Rests now machine_id none answers answers.recent p h
  fetch_by-Rests false now machine_id name answers p h =
      fallback-Rests now machine_id name answers answers.recent p h

  -- Whatever the server answers, and also where it answers nothing, the fetch leaves the pane with
  -- no spinner and no sign of a fetch in the background, if its spinner was shown for the first load
  -- only.
  pub fetch_current_deployment-Rests :
      (now machine_id : ℕ) (program_name : Option Text) (trigger : ℕ) (answers : Answers D P)
      (p : Pane D P)
      → IsPane p
      → Rests (fetch_current_deployment now machine_id program_name trigger answers p)
  unfolding Rests fetch_current_deployment
  fetch_current_deployment-Rests now machine_id program_name trigger answers p h =
      let r =
        fetch_by-Rests (is_active_name program_name) now machine_id program_name answers p h in
      elim (Bool-cases (ltb 0 trigger)) [ inl e ↦ rw e r | inr e ↦ rw e r ]
