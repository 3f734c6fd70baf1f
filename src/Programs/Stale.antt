-- ===== src/Programs/Stale.antt =====
-- Where the pane shows what it should not: a cached program that is not restored, and a refresh that
-- stays pending.
use shatter_nc.Prelude.{
  ℕ, ◌-◌, ◌≤◌, ◌≡◌, refl, ap, ◌∙◌, inl, inr, Bool, true, false, ◌&&◌, Option, none, some, arith,
  if◌then◌else◌, ltb, Bool-cases, ◌==◌,
}
use shatter_nc.Prelude.Maps.{lookup, lookup-insert}
use shatter_nc.Prelude.Text.{Text, text_eq}
use shatter_nc.Programs.{
  CachedData, Pane, is_active_name, ByOnumber, Recent, Answers, get_cache_key, set_cached_data,
  cache_ttl, is_empty,
}
use shatter_nc.Programs.Cached.{begin-hit}
use shatter_nc.Programs.Fetch.{
  restore, begin, loaded, keep, only_deployment, fallback_name, fallback, by_onumber, fetch_by,
  fetch_current_deployment, handle_refresh,
}

module _ {D P : Type 0} where
  filled :
      (o : Option D) (d : D) (b : Bool) (x y : CachedData D P)
      → o ≡ some d
      → (if is_empty o && b then x else y) ≡ y
  filled o d b x y h = rw h refl

  deployed-pane :
      (now machine_id : ℕ) (name : Text) (d : D) (program : Option P) (answers : Answers D P)
      (p : Pane D P)
      → is_active_name (some name) ≡ true
      → answers.by_onumber ≡ ByOnumber.deployed d program
      → fetch_current_deployment now machine_id (some name) 0 answers p
        ≡ by_onumber now machine_id name answers (ByOnumber.deployed d program) p
  unfolding fetch_current_deployment
  deployed-pane now machine_id name d program answers p active found = rw (active, found) refl

  -- the entries of the other keys are as before, the deployment is shown, and no refresh is pending
  unfoldable IsShown :
      (now machine_id : ℕ) (name : Text) (other : Option Text) (d : D) (p q : Pane D P) → Type 0
  IsShown now machine_id name other d p q =
      (q.shown.deployment ≡ some d)
      × (q.refresh_trigger ≡ p.refresh_trigger)
      × (lookup (get_cache_key machine_id other) q.cache
          ≡ lookup (get_cache_key machine_id other) p.cache)

  deployed-IsShown :
      (now machine_id : ℕ) (name : Text) (other : Option Text) (d : D) (program : Option P)
      (answers : Answers D P) (p : Pane D P)
      → (get_cache_key machine_id (some name) == get_cache_key machine_id other) ≡ false
      → IsShown now machine_id name other d p
          (by_onumber now machine_id name answers (ByOnumber.deployed d program) p)
  unfolding by_onumber keep set_cached_data IsShown
  deployed-IsShown now machine_id name other d program answers p differ =
      let kept =
        lookup-insert (get_cache_key machine_id (some name)) (get_cache_key machine_id other)
          (record { data_ = only_deployment d program; timestamp = now }) p.cache in
      elim (Bool-cases p.is_initial_load) [
        | inl first ↦ rw first (refl, refl, rw differ at kept)
        | inr again ↦ rw again (refl, refl, rw differ at kept)
      ]

  -- The pane fetches the deployment of one program. When the machine then runs another program whose
  -- entry in the cache is at most five minutes old, the pane does not fetch, takes the other program
  -- for the one that it shows, and goes on showing the deployment of the first, if no refresh is
  -- pending.
  pub begin-stale :
      (now later before machine_id : ℕ) (name : Text) (other : Option Text) (d : D)
      (program : Option P) (answers : Answers D P) (found : CachedData D P) (p : Pane D P)
      → is_active_name (some name) ≡ true
      → answers.by_onumber ≡ ByOnumber.deployed d program
      → (get_cache_key machine_id (some name) == get_cache_key machine_id other) ≡ false
      → lookup (get_cache_key machine_id other) p.cache
        ≡ some (record { data_ = found; timestamp = before })
      → later - before ≤ cache_ttl
      → p.refresh_trigger ≡ 0
      → ((begin later machine_id other
            (fetch_current_deployment now machine_id (some name) 0 answers p)).0
          ≡ false)
        × ((begin later machine_id other (
              fetch_current_deployment now machine_id
                (some name)
                0
                answers
                p)).1.last_fetched_program_name
            ≡ other)
        × ((begin later machine_id other
              (fetch_current_deployment now machine_id (some name) 0 answers p)).1.shown.deployment
            ≡ some d)
  unfolding restore IsShown
  begin-stale now later before machine_id name other d program answers found p active deployed
        differ h young t =
      let q = by_onumber now machine_id name answers (ByOnumber.deployed d program) p in
      let (shown, trigger, entry) =
        deployed-IsShown now machine_id name other d program answers p differ in
      let hit = begin-hit before later machine_id other found q (entry ∙ h) young (trigger ∙ t) in
      rw (deployed-pane now machine_id name d program answers p active deployed, hit)
        (
          refl,
          refl,
          ap (λ (c : CachedData D P). c.deployment)
                (filled q.shown.deployment d (is_empty q.shown.file_info) found q.shown shown)
              ∙ shown,
        )

  loaded-refreshing : (p : Pane D P) → (loaded p).refreshing ≡ p.refreshing
  loaded-refreshing p = ground arith

  fallback_name-refreshing :
      (now machine_id : ℕ) (program_name : Option Text) (p : Pane D P)
      → (fallback_name now machine_id program_name p).refreshing ≡ p.refreshing
  unfolding keep
  fallback_name-refreshing now machine_id none p = refl
  fallback_name-refreshing now machine_id (some name) p =
      elim (Bool-cases (is_active_name (some name))) [ inl e ↦ rw e refl | inr e ↦ rw e refl ]

  fallback-not_ok :
      (now machine_id : ℕ) (program_name : Option Text) (answers : Answers D P) (r : Recent D P)
      (p : Pane D P)
      → r ≡ Recent.not_ok
      → (fallback now machine_id program_name answers r p).refreshing ≡ p.refreshing
  unfolding fallback
  fallback-not_ok now machine_id program_name answers r p h = rw h (
      loaded-refreshing (fallback_name now machine_id program_name p)
      ∙ fallback_name-refreshing now machine_id program_name p)

  fetch_by-not_ok :
      (active : Bool) (now machine_id : ℕ) (name : Text) (answers : Answers D P) (p : Pane D P)
      → answers.by_onumber ≡ ByOnumber.failed
      → answers.recent ≡ Recent.not_ok
      → (fetch_by active now machine_id (some name) answers p).refreshing ≡ p.refreshing
  unfolding by_onumber
  fetch_by-not_ok true now machine_id name answers p b r =
      ap (λ (o : ByOnumber D P). (by_onumber now machine_id name answers o p).refreshing) b
      ∙ fallback-not_ok now machine_id (some name) answers answers.recent p r
  fetch_by-not_ok false now machine_id name answers p b r =
      fallback-not_ok now machine_id (some name) answers answers.recent p r

  if-refreshing :
      (b : Bool) (p q : Pane D P)
      → p.refreshing ≡ true
      → q.refreshing ≡ true
      → (if b then p else q).refreshing ≡ true
  if-refreshing true p q h k = h
  if-refreshing false p q h k = k

  -- A refresh that is answered by nothing but errors leaves the button disabled.
  pub handle_refresh-stuck :
      (now machine_id : ℕ) (name : Text) (trigger : ℕ) (answers : Answers D P) (p : Pane D P)
      → answers.by_onumber ≡ ByOnumber.failed
      → answers.recent ≡ Recent.not_ok
      → (fetch_current_deployment now machine_id
          (some name)
          trigger
          answers
          (handle_refresh machine_id (some name) p)).refreshing
        ≡ true
  unfolding fetch_current_deployment handle_refresh
  handle_refresh-stuck now machine_id name trigger answers p b r =
      let k =
        fetch_by-not_ok (is_active_name (some name)) now machine_id name answers
          (handle_refresh machine_id (some name) p) b r in
      if-refreshing (ltb 0 trigger) _ _ k k
