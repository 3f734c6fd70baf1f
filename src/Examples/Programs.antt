-- ===== src/Examples/Programs.antt =====
-- Program O2045 on machine 3, whose deployment is known by the number 7.
use shatter_nc.Prelude.{ℕ, ◌≡◌, refl, Bool, true, false, Option, none, some, [], ◌∷◌, arith}
use shatter_nc.Prelude.Maps.{lookup}
use shatter_nc.Prelude.Text.{Text, codes}
use shatter_nc.Programs.{
  CachedData, Pane, ByOnumber, Listing, Recent, Answers, bare_file, get_cache_key, set_cached_data,
}
use shatter_nc.Programs.Fetch.{begin, fetch_current_deployment, handle_refresh}
use shatter_nc.Programs.Settled.{IsPane, Rests, fetch_current_deployment-Rests}
use shatter_nc.Programs.Cached.{fetch_current_deployment-cached}
use shatter_nc.Programs.Stale.{begin-stale, handle_refresh-stuck}
use shatter_nc.Paths.{FileLink, build_file_browser_link, linked_file, linked_path, directory_of}
use shatter_nc.Paths.Links.{build_file_browser_link-linked}

abbrev nothing : CachedData ℕ ℕ
nothing = record { deployment = none; program = none; file_info = none }

-- the pane before its first fetch
abbrev fresh_pane : Pane ℕ ℕ
fresh_pane = record {
  shown = nothing;
  loading = true;
  refreshing = false;
  is_refreshing = false;
  refresh_trigger = 0;
  last_fetch_success_at = none;
  is_initial_load = true;
  previous_machine_id = none;
  has_data = false;
  last_fetched_program_name = none;
  cache = [];
}

abbrev name : Text
name = codes "O2045"

-- The deployment is found, with its program.
abbrev found : Answers ℕ ℕ
found = record {
  by_onumber = ByOnumber.deployed 7 (some 70);
  listing = Listing.unlisted;
  recent = Recent.not_ok;
}

-- The server answers with errors.
abbrev down : Answers ℕ ℕ
down = record { by_onumber = ByOnumber.failed; listing = Listing.unlisted; recent = Recent.not_ok }

fetch_current_deployment-Rests_example :
    Rests (fetch_current_deployment 1_000 3 (some name) 0 down fresh_pane)
unfolding IsPane
fetch_current_deployment-Rests_example =
    fetch_current_deployment-Rests 1_000 3 (some name) 0 down fresh_pane refl

abbrev fetched : Pane ℕ ℕ
fetched = fetch_current_deployment 1_000 3 (some name) 0 found fresh_pane

-- A minute after the fetch, the pane is mounted again, and shows the same without another.
fetch_current_deployment-cached_example :
    ((begin 61_000 3 (some name) (record fresh_pane { cache = fetched.cache })).0 ≡ false)
    × ((begin 61_000 3 (some name) (record fresh_pane { cache = fetched.cache })).1.shown
        ≡ fetched.shown)
unfolding shatter_nc.Programs.is_active_name shatter_nc.Prelude.Text.trim
fetch_current_deployment-cached_example =
    fetch_current_deployment-cached 1_000 61_000 3 name 0 found fresh_pane
      (record fresh_pane { cache = fetched.cache }) refl refl (omega arith) refl refl refl refl

abbrev other : CachedData ℕ ℕ
other = record { deployment = some 8; program = none; file_info = none }

-- Deployment 7 is shown, and that of O1 is in the cache.
abbrev busy_pane : Pane ℕ ℕ
busy_pane = record fresh_pane {
  shown = record { deployment = some 7; program = some 70; file_info = none };
  loading = false;
  is_initial_load = false;
  has_data = true;
  cache = (get_cache_key 3 (some (codes "O1")), record { data_ = other; timestamp = 1_000 }) ∷ [];
}

-- Deployment 7 of O2045 is fetched, the machine changes to O1, and the pane still shows 7.
abbrev changed : Bool × Pane ℕ ℕ
changed =
    begin 61_000 3 (some (codes "O1"))
      (fetch_current_deployment 2_000 3 (some name) 0 found busy_pane)

begin-stale_example :
    (changed.0 ≡ false)
    × (changed.1.last_fetched_program_name ≡ some (codes "O1"))
    × (changed.1.shown.deployment ≡ some 7)
unfolding lookup get_cache_key shatter_nc.Prelude.Text.show_nat shatter_nc.Programs.is_active_name
    shatter_nc.Prelude.Text.trim
begin-stale_example =
    begin-stale 2_000 61_000 1_000 3 name (some (codes "O1")) 7 (some 70) found other busy_pane refl
      refl refl refl (omega arith) refl

handle_refresh-stuck_example :
    (fetch_current_deployment 1_000 3
      (some name)
      1
      down
      (handle_refresh 3 (some name) busy_pane)).refreshing
    ≡ true
handle_refresh-stuck_example = handle_refresh-stuck 1_000 3 name 1 down busy_pane refl refl

build_file_browser_link-linked_example :
    (linked_path (build_file_browser_link (codes "parts\\O2045.NC"))
      ≡ (build_file_browser_link (codes "parts\\O2045.NC")).path)
    × (linked_file (build_file_browser_link (codes "parts\\O2045.NC")) ≡ some (codes "O2045.NC"))
unfolding shatter_nc.Paths.segments_of shatter_nc.Paths.split_slash
build_file_browser_link-linked_example = build_file_browser_link-linked (codes "parts\\O2045.NC")
