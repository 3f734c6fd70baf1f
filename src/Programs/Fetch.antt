-- ===== src/Programs/Fetch.antt =====
-- The effect that looks into the cache and fetches, `fetchCurrentDeployment` and `handleRefresh` of
-- frontend/src/components/machine-detail/CurrentProgramPane.tsx.
use shatter_nc.Prelude.{
  ℕ, ◌+◌, Bool, true, false, not, ◌&&◌, Option, none, some, [], ◌∷◌, if◌then◌else◌, ltb,
}
use shatter_nc.Prelude.Maps.{lookup}
use shatter_nc.Prelude.Text.{Text, text_eq}
use shatter_nc.Programs.{
  CachedData, CacheEntry, Cache, get_cached_data, set_cached_data, invalidate_cache, get_cache_key,
  Pane, is_active_name, filename_of, ByOnumber, Listing, Recent, Answers, bare_file, file_info_of,
  same_name, other_machine, is_empty,
}

-- `lastFetchedProgramNameRef` after the listing: it is kept where the listing cannot be read
abbrev pub name_after : Listing → Option Text → Text → Option Text
name_after (Listing.listed files) prior name = some name
name_after Listing.unlisted none name = some name
name_after Listing.unlisted (some []) name = some name
name_after Listing.unlisted (some (c ∷ s)) name = some (c ∷ s)

module _ {D P : Type 0} where
  abbrev pub timestamp_of : Option (CacheEntry D P) → Option ℕ → Option ℕ
  timestamp_of none prior = prior
  timestamp_of (some entry) prior = some entry.timestamp

  -- what the cache holds is shown, unless something is shown already
  unfoldable pub restore : ℕ → Option Text → CachedData D P → Pane D P → Pane D P
  restore machine_id program_name found p = record p {
    shown = if is_empty p.shown.deployment && is_empty p.shown.file_info then found else p.shown;
    loading = false;
    is_refreshing = false;
    previous_machine_id = some machine_id;
    has_data = true;
    last_fetched_program_name = program_name;
    last_fetch_success_at =
        timestamp_of (lookup (get_cache_key machine_id program_name) p.cache)
          p.last_fetch_success_at;
  }

  -- the refs of a machine that is new to the pane
  unfoldable pub reset_machine : ℕ → Pane D P → Pane D P
  reset_machine machine_id p =
      if other_machine p.previous_machine_id machine_id
      then record p { is_initial_load = true; has_data = false; last_fetched_program_name = none }
      else p

  -- the indicators, before the requests are sent
  unfoldable pub indicate : ℕ → Option Text → Pane D P → Pane D P
  indicate machine_id program_name p =
      if p.is_initial_load && not p.has_data
      then record p { loading = true; previous_machine_id = some machine_id }
      else if p.has_data
          && not (other_machine p.previous_machine_id machine_id)
          && not (same_name p.last_fetched_program_name program_name)
      then record p { is_refreshing = true; previous_machine_id = some machine_id }
      else record p { previous_machine_id = some machine_id }

  -- what the effect does at once: whether it fetches, and the pane
  abbrev pub begin_by :
      ℕ → Option Text → Pane D P → Option (CachedData D P) × Cache D P → Bool × Pane D P
  begin_by machine_id program_name p (some found, cache) =
      (false, restore machine_id program_name found (record p { cache = cache }))
  begin_by machine_id program_name p (none, cache) = (
    true,
    indicate machine_id program_name (reset_machine machine_id (record p { cache = cache })),
  )

  unfoldable pub begin : ℕ → ℕ → Option Text → Pane D P → Bool × Pane D P
  unfolding restore reset_machine indicate
  begin now machine_id program_name p = begin_by machine_id program_name p (
      if ltb 0 p.refresh_trigger
      then (none, p.cache)
      else get_cached_data now machine_id program_name p.cache)

  -- `isInitialLoadRef`, and the spinner with it
  abbrev pub loaded : Pane D P → Pane D P
  loaded p = if p.is_initial_load then record p { is_initial_load = false; loading = false } else p

  abbrev pub settle : ℕ → Pane D P → Pane D P
  settle now p = record (loaded p) {
    is_refreshing = false;
    refreshing = false;
    last_fetch_success_at = some now;
  }

  abbrev pub show : CachedData D P → Pane D P → Pane D P
  show found p = record p { shown = found; has_data = true }

  -- shown and written to the cache
  unfoldable pub keep : ℕ → ℕ → Option Text → CachedData D P → Pane D P → Pane D P
  keep now machine_id program_name found p = record (show found p) {
    cache = set_cached_data now machine_id program_name found p.cache;
  }

  abbrev pub only_file : Text → Answers D P → CachedData D P
  only_file name answers = record {
    deployment = none;
    program = none;
    file_info = some (file_info_of name answers.listing);
  }

  abbrev pub only_deployment : D → Option P → CachedData D P
  only_deployment d program = record { deployment = some d; program = program; file_info = none }

  -- the file alone, where no deployment is found: the listing may be read or not
  abbrev pub fallback_file : ℕ → ℕ → Option Text → Answers D P → Pane D P → Pane D P
  fallback_file now machine_id none answers p = record p {
    shown = record (p.shown) { deployment = none; program = none };
  }
  fallback_file now machine_id (some name) answers p =
      if is_active_name (some name)
      then record (keep now machine_id (some name) (only_file name answers) p) {
        last_fetched_program_name = name_after answers.listing p.last_fetched_program_name name;
      }
      else record p { shown = record (p.shown) { deployment = none; program = none } }

  -- the name alone, where the answer is not ok
  abbrev pub fallback_name : ℕ → ℕ → Option Text → Pane D P → Pane D P
  fallback_name now machine_id none p = record p {
    shown = record (p.shown) { deployment = none; program = none };
  }
  fallback_name now machine_id (some name) p =
      if is_active_name (some name)
      then record (keep now machine_id (some name)
          (record {
            deployment = none;
            program = none;
            file_info = some (bare_file (filename_of name));
          })
          p) { last_fetched_program_name = some name }
      else record p { shown = record (p.shown) { deployment = none; program = none } }

  -- the `catch` round it all
  abbrev pub fail : Pane D P → Pane D P
  fail p =
      if p.is_initial_load
      then record p {
        shown = record (p.shown) { deployment = none; program = none };
        is_initial_load = false;
        loading = false;
        is_refreshing = false;
        refreshing = false;
      }
      else record p { is_refreshing = false; refreshing = false }

  unfoldable pub fallback : ℕ → ℕ → Option Text → Answers D P → Recent D P → Pane D P → Pane D P
  unfolding keep
  fallback now machine_id program_name answers (Recent.deployments ((d, program) ∷ ds)) p =
      settle now (keep now machine_id program_name (only_deployment d program) p)
  fallback now machine_id program_name answers (Recent.deployments []) p =
      settle now (fallback_file now machine_id program_name answers p)
  fallback now machine_id program_name answers Recent.not_ok p =
      record (loaded (fallback_name now machine_id program_name p)) { is_refreshing = false }
  fallback now machine_id program_name answers Recent.threw p = fail p

  unfoldable pub by_onumber : ℕ → ℕ → Text → Answers D P → ByOnumber D P → Pane D P → Pane D P
  unfolding keep fallback
  by_onumber now machine_id name answers (ByOnumber.deployed d program) p =
      settle now (record (keep now machine_id (some name) (only_deployment d program) p) {
        last_fetched_program_name = some name;
      })
  by_onumber now machine_id name answers ByOnumber.unknown p =
      settle now (record (keep now machine_id (some name) (only_file name answers) p) {
        last_fetched_program_name = some name;
      })
  by_onumber now machine_id name answers ByOnumber.failed p =
      fallback now machine_id (some name) answers answers.recent p

  abbrev pub fetch_by : Bool → ℕ → ℕ → Option Text → Answers D P → Pane D P → Pane D P
  fetch_by true now machine_id (some name) answers p =
      by_onumber now machine_id name answers answers.by_onumber p
  fetch_by _ now machine_id program_name answers p =
      fallback now machine_id program_name answers answers.recent p

  -- the requests and their answers; `trigger` is the one the effect started with
  unfoldable pub fetch_current_deployment :
      ℕ → ℕ → Option Text → ℕ → Answers D P → Pane D P → Pane D P
  unfolding by_onumber fallback
  fetch_current_deployment now machine_id program_name trigger answers p =
      let done = fetch_by (is_active_name program_name) now machine_id program_name answers p in
      if ltb 0 trigger then record done { refresh_trigger = 0 } else done

  unfoldable pub handle_refresh : ℕ → Option Text → Pane D P → Pane D P
  handle_refresh machine_id program_name p = record p {
    refreshing = true;
    is_refreshing = true;
    cache = invalidate_cache machine_id program_name p.cache;
    shown = record { deployment = none; program = none; file_info = none };
    has_data = false;
    last_fetched_program_name = none;
    refresh_trigger = p.refresh_trigger + 1;
  }
