-- ===== src/Programs/Cached.antt =====
-- What the cache holds after a fetch, and what the pane shows from it.
use shatter_nc.Prelude.{
  ℕ, ◌-◌, ◌≤◌, ◌≡◌, refl, ap, ◌∙◌, Bool, true, false, Option, none, some, [], ◌∷◌, arith,
  if◌then◌else◌, ltb,
}
use shatter_nc.Prelude.Tests.{==_refl}
use shatter_nc.Prelude.Maps.{lookup, lookup-insert}
use shatter_nc.Prelude.Text.{Text, text_eq}
use shatter_nc.Programs.{
  CachedData, CacheEntry, Cache, Pane, is_active_name, ByOnumber, Recent, Answers, get_cache_key,
  get_cached_data, set_cached_data, cache_ttl, fresh_entry,
}
use shatter_nc.Programs.Fetch.{
  restore, begin_by, begin, loaded, settle, keep, only_deployment, only_file, fallback_file,
  fallback_name, fallback, by_onumber, fetch_current_deployment,
}

module _ {D P : Type 0} where
  -- the cache holds what is shown, from `now` on
  unfoldable pub InStep : ℕ → ℕ → Option Text → Pane D P → Type 0
  InStep now machine_id program_name p =
      lookup (get_cache_key machine_id program_name) p.cache
      ≡ some (record { data_ = p.shown; timestamp = now })

  keep-InStep :
      (now machine_id : ℕ) (program_name : Option Text) (found : CachedData D P) (p : Pane D P)
      → InStep now machine_id program_name (keep now machine_id program_name found p)
  unfolding InStep keep set_cached_data
  keep-InStep now machine_id program_name found p =
      let key = get_cache_key machine_id program_name in
      rw (lookup-insert key key (record { data_ = found; timestamp = now }) p.cache, ==_refl key)
        refl

  if-InStep :
      (now machine_id : ℕ) (program_name : Option Text) (b : Bool) (p q : Pane D P)
      → InStep now machine_id program_name p
      → InStep now machine_id program_name q
      → InStep now machine_id program_name (if b then p else q)
  if-InStep now machine_id program_name true p q h k = h
  if-InStep now machine_id program_name false p q h k = k

  settle-InStep :
      (now machine_id : ℕ) (program_name : Option Text) (p : Pane D P)
      → InStep now machine_id program_name p
      → InStep now machine_id program_name (settle now p)
  unfolding InStep
  settle-InStep now machine_id program_name p h =
      if-InStep now machine_id program_name p.is_initial_load
        (record p { is_initial_load = false; loading = false }) p h h

  named-InStep :
      (now machine_id : ℕ) (program_name : Option Text) (p : Pane D P)
      → InStep now machine_id program_name p
      → InStep now machine_id program_name (record (loaded p) { is_refreshing = false })
  unfolding InStep
  named-InStep now machine_id program_name p h =
      if-InStep now machine_id program_name p.is_initial_load
        (record p { is_initial_load = false; loading = false }) p h h

  fallback_file-InStep :
      (now machine_id : ℕ) (name : Text) (answers : Answers D P) (p : Pane D P)
      → is_active_name (some name) ≡ true
      → InStep now machine_id (some name) (fallback_file now machine_id (some name) answers p)
  unfolding InStep
  fallback_file-InStep now machine_id name answers p e =
      rw e (keep-InStep now machine_id (some name) (only_file name answers) p)

  fallback_name-InStep :
      (now machine_id : ℕ) (name : Text) (p : Pane D P)
      → is_active_name (some name) ≡ true
      → InStep now machine_id (some name) (fallback_name now machine_id (some name) p)
  unfolding InStep
  fallback_name-InStep now machine_id name p e = rw e (keep-InStep now machine_id (some name) _ p)

  -- whether something came back that the pane can show
  abbrev pub is_answered : Recent D P → Bool
  is_answered Recent.threw = false
  is_answered _ = true

  fallback-InStep :
      (now machine_id : ℕ) (name : Text) (answers : Answers D P) (r : Recent D P) (p : Pane D P)
      → is_active_name (some name) ≡ true
      → is_answered r ≡ true
      → InStep now machine_id (some name) (fallback now machine_id (some name) answers r p)
  unfolding fallback
  fallback-InStep now machine_id name answers (Recent.deployments ((d, program) ∷ ds)) p e h =
      settle-InStep now machine_id (some name) _
        (keep-InStep now machine_id (some name) (only_deployment d program) p)
  fallback-InStep now machine_id name answers (Recent.deployments []) p e h =
      settle-InStep now machine_id (some name) _
        (fallback_file-InStep now machine_id name answers p e)
  fallback-InStep now machine_id name answers Recent.not_ok p e h =
      named-InStep now machine_id (some name) (fallback_name now machine_id (some name) p)
        (fallback_name-InStep now machine_id name p e)
  fallback-InStep now machine_id name answers Recent.threw p e h = cc

  by_onumber-InStep :
      (now machine_id : ℕ) (name : Text) (answers : Answers D P) (r : ByOnumber D P) (p : Pane D P)
      → is_active_name (some name) ≡ true
      → is_answered answers.recent ≡ true
      → InStep now machine_id (some name) (by_onumber now machine_id name answers r p)
  unfolding by_onumber InStep
  by_onumber-InStep now machine_id name answers (ByOnumber.deployed d program) p e h =
      let kept = keep now machine_id (some name) (only_deployment d program) p in
      settle-InStep now machine_id (some name)
        (record kept { last_fetched_program_name = some name })
        (keep-InStep now machine_id (some name) (only_deployment d program) p)
  by_onumber-InStep now machine_id name answers ByOnumber.unknown p e h =
      let kept = keep now machine_id (some name) (only_file name answers) p in
      settle-InStep now machine_id (some name)
        (record kept { last_fetched_program_name = some name })
        (keep-InStep now machine_id (some name) (only_file name answers) p)
  by_onumber-InStep now machine_id name answers ByOnumber.failed p e h =
      fallback-InStep now machine_id name answers answers.recent p e h

  fetch-InStep :
      (now machine_id : ℕ) (name : Text) (trigger : ℕ) (answers : Answers D P) (p : Pane D P)
      → is_active_name (some name) ≡ true
      → is_answered answers.recent ≡ true
      → InStep now machine_id
          (some name)
          (fetch_current_deployment now machine_id (some name) trigger answers p)
  unfolding fetch_current_deployment InStep
  fetch-InStep now machine_id name trigger answers p e h =
      let done = by_onumber now machine_id name answers answers.by_onumber p in
      let k = by_onumber-InStep now machine_id name answers answers.by_onumber p e h in
      rw e (
        if-InStep now machine_id (some name) (ltb 0 trigger) (record done { refresh_trigger = 0 })
          done k k)

  get_cached_data-hit :
      (now later machine_id : ℕ) (program_name : Option Text) (found : CachedData D P)
      (cache : Cache D P)
      → lookup (get_cache_key machine_id program_name) cache
        ≡ some (record { data_ = found; timestamp = now })
      → later - now ≤ cache_ttl
      → get_cached_data later machine_id program_name cache ≡ (some found, cache)
  unfolding get_cached_data
  get_cached_data-hit now later machine_id program_name found cache h young =
      ap
        (λ (o : Option (CacheEntry D P)).
          fresh_entry later (get_cache_key machine_id program_name) o cache)
        h
      ∙ rw (young-ltb (later - now) young) refl
    where
      young-ltb : (n : ℕ) → n ≤ cache_ttl → ltb cache_ttl n ≡ false
      young-ltb n h = ground arith

  unforced :
      (n : ℕ) (x y : Option (CachedData D P) × Cache D P) → n ≡ 0 → (if ltb 0 n then x else y) ≡ y
  unforced n x y h = rw h refl

  pub begin-hit :
      (now later machine_id : ℕ) (program_name : Option Text) (found : CachedData D P)
      (p : Pane D P)
      → lookup (get_cache_key machine_id program_name) p.cache
        ≡ some (record { data_ = found; timestamp = now })
      → later - now ≤ cache_ttl
      → p.refresh_trigger ≡ 0
      → begin later machine_id program_name p
        ≡ (false, restore machine_id program_name found (record p { cache = p.cache }))
  unfolding begin
  begin-hit now later machine_id program_name found p h young t =
      ap (begin_by machine_id program_name p) (
        unforced p.refresh_trigger (none, p.cache)
          (get_cached_data later machine_id program_name p.cache) t
        ∙ get_cached_data-hit now later machine_id program_name found p.cache h young)

  in_cache :
      (now machine_id : ℕ) (program_name : Option Text) (p : Pane D P)
      → InStep now machine_id program_name p
      → lookup (get_cache_key machine_id program_name) p.cache
        ≡ some (record { data_ = p.shown; timestamp = now })
  unfolding InStep
  in_cache now machine_id program_name p h = h

  restore-blank :
      (machine_id : ℕ) (program_name : Option Text) (found : CachedData D P) (q : Pane D P)
      → q.shown.deployment ≡ none
      → q.shown.file_info ≡ none
      → (restore machine_id program_name found q).shown ≡ found
  unfolding restore
  restore-blank machine_id program_name found q d f = rw (d, f) refl

  -- What a fetch for an active program shows is what a pane that shows nothing yet, such as one that
  -- is mounted later and finds the cache as the fetch has left it, shows without a fetch when its
  -- effect runs for that program in the next five minutes: the answers are to be no exception, and
  -- no refresh is to be forced.
  pub fetch_current_deployment-cached :
      (now later machine_id : ℕ) (name : Text) (trigger : ℕ) (answers : Answers D P)
      (p q : Pane D P)
      → is_active_name (some name) ≡ true
      → is_answered answers.recent ≡ true
      → later - now ≤ cache_ttl
      → q.cache ≡ (fetch_current_deployment now machine_id (some name) trigger answers p).cache
      → q.shown.deployment ≡ none
      → q.shown.file_info ≡ none
      → q.refresh_trigger ≡ 0
      → ((begin later machine_id (some name) q).0 ≡ false)
        × ((begin later machine_id (some name) q).1.shown
            ≡ (fetch_current_deployment now machine_id (some name) trigger answers p).shown)
  fetch_current_deployment-cached now later machine_id name trigger answers p q e a young c d f t =
      let done = fetch_current_deployment now machine_id (some name) trigger answers p in
      let held =
        ap (λ (cache : Cache D P). lookup (get_cache_key machine_id (some name)) cache) c
        ∙ in_cache now machine_id (some name) done
            (fetch-InStep now machine_id name trigger answers p e a) in
      let hit = begin-hit now later machine_id (some name) done.shown q held young t in
      (
        ap (λ (r : Bool × Pane D P). r.0) hit,
        ap (λ (r : Bool × Pane D P). r.1.shown) hit
            ∙ restore-blank machine_id (some name) done.shown (record q { cache = q.cache }) d f,
      )
