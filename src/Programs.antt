-- ===== src/Programs.antt =====
-- The pane of the active program: the cache, the fetch and the refresh of
-- frontend/src/components/machine-detail/CurrentProgramPane.tsx.
pub mod Fetch
pub mod Settled
pub mod Cached
pub mod Stale
use shatter_nc.Prelude.{
  ℕ, zero, ◌+◌, ◌-◌, ◌*◌, Bool, true, false, not, ◌&&◌, ◌||◌, Option, none, some, List, [], ◌∷◌,
  ◌++◌, if◌then◌else◌, ltb, nat_beq, find,
}
use shatter_nc.Prelude.Maps.{Map, lookup, insert, erase}
use shatter_nc.Prelude.Text.{Text, text_eq, text_beq, codes, show_nat, trim}

-- An entry of the machine's file listing.
pub record ListedFile : Type 0 where
  pub name : Text
  pub size : Option ℕ
  pub modified : Option Text

abbrev pub FileInfo : Type 0
FileInfo = ListedFile

-- `D` and `P` stand for the deployments and the programs, which the pane only passes on here.
pub record CachedData (D P : Type 0) : Type 0 where
  pub deployment : Option D
  pub program : Option P
  pub file_info : Option FileInfo

pub record CacheEntry (D P : Type 0) : Type 0 where
  pub data_ : CachedData D P
  pub timestamp : ℕ

abbrev pub Cache : Type 0 → Type 0 → Type 0
Cache D P = Map Text (CacheEntry D P)

abbrev pub cache_ttl : ℕ
cache_ttl = 300_000

-- `programName || 'none'`
abbrev pub name_or_none : Option Text → Text
name_or_none none = codes "none"
name_or_none (some []) = codes "none"
name_or_none (some (c ∷ s)) = c ∷ s

unfoldable pub get_cache_key : ℕ → Option Text → Text
get_cache_key machine_id program_name =
    show_nat machine_id ++ codes ":" ++ name_or_none program_name

module _ {D P : Type 0} where
  -- an entry that is too old is taken out
  abbrev pub fresh_entry :
      ℕ → Text → Option (CacheEntry D P) → Cache D P → Option (CachedData D P) × Cache D P
  fresh_entry now key none cache = (none, cache)
  fresh_entry now key (some entry) cache =
      if ltb cache_ttl (now - entry.timestamp)
      then (none, erase key cache)
      else (some entry.data_, cache)

  unfoldable pub get_cached_data :
      ℕ → ℕ → Option Text → Cache D P → Option (CachedData D P) × Cache D P
  get_cached_data now machine_id program_name cache =
      let key = get_cache_key machine_id program_name in
      fresh_entry now key (lookup key cache) cache

  unfoldable pub set_cached_data : ℕ → ℕ → Option Text → CachedData D P → Cache D P → Cache D P
  set_cached_data now machine_id program_name shown cache =
      insert (get_cache_key machine_id program_name) (record { data_ = shown; timestamp = now })
        cache

  unfoldable pub invalidate_cache : ℕ → Option Text → Cache D P → Cache D P
  invalidate_cache machine_id program_name cache =
      erase (get_cache_key machine_id program_name) cache

-- The state and the refs of the pane, and the cache, which outlives it.
pub record Pane (D P : Type 0) : Type 0 where
  pub shown : CachedData D P
  pub loading : Bool
  pub refreshing : Bool
  pub is_refreshing : Bool
  pub refresh_trigger : ℕ
  pub last_fetch_success_at : Option ℕ
  pub is_initial_load : Bool
  pub previous_machine_id : Option ℕ
  pub has_data : Bool
  pub last_fetched_program_name : Option Text
  pub cache : Cache D P

-- a name that the machine gives for a program
unfoldable pub is_active_name : Option Text → Bool
is_active_name none = false
is_active_name (some s) =
    not (text_beq s [])
    && not (text_beq s (codes "----"))
    && not (text_beq s (codes "undefined"))
    && not (text_beq s (codes "null"))
    && not (text_beq (trim s) [])

-- `programName.startsWith('O') ? …`
abbrev pub starts_with_o : Text → Bool
starts_with_o [] = false
starts_with_o (c ∷ s) = nat_beq c b'O'

unfoldable pub filename_of : Text → Text
filename_of s = if starts_with_o s then s ++ codes ".NC" else codes "O" ++ s ++ codes ".NC"

-- The answer about the deployment of the O-number: not ok and failed are one, as they are treated.
pub data ByOnumber (D P : Type 0) : Type 0 where
  deployed : D → Option P → ByOnumber D P
  unknown : ByOnumber D P
  failed : ByOnumber D P

-- The answer about the files of the machine.
pub data Listing : Type 0 where
  listed : List ListedFile → Listing
  unlisted : Listing

-- The answer about the current deployments; a deployment comes with the program that its id finds.
pub data Recent (D P : Type 0) : Type 0 where
  deployments : List (D × Option P) → Recent D P
  not_ok : Recent D P
  threw : Recent D P

pub record Answers (D P : Type 0) : Type 0 where
  pub by_onumber : ByOnumber D P
  pub listing : Listing
  pub recent : Recent D P

abbrev pub bare_file : Text → FileInfo
bare_file name = record { name = name; size = none; modified = none }

abbrev pub is_file_of : Text → ListedFile → Bool
is_file_of name f =
    text_beq f.name (filename_of name)
    || text_beq f.name name
    || text_beq f.name (name ++ codes ".NC")

-- `file ? { name: file.name || filename, … } : { name: filename }`
abbrev pub info_of : Text → Option ListedFile → FileInfo
info_of name none = bare_file (filename_of name)
info_of name (some f) = if text_beq f.name [] then record f { name = filename_of name } else f

unfoldable pub file_info_of : Text → Listing → FileInfo
file_info_of name Listing.unlisted = bare_file (filename_of name)
file_info_of name (Listing.listed files) = info_of name (find (is_file_of name) files)

abbrev pub same_name : Option Text → Option Text → Bool
same_name none none = true
same_name (some a) (some b) = text_beq a b
same_name _ _ = false

abbrev pub other_machine : Option ℕ → ℕ → Bool
other_machine none machine_id = false
other_machine (some id) machine_id = not (nat_beq id machine_id)

abbrev pub is_empty {ℓ} : {A : Type ℓ} → Option A → Bool
is_empty none = true
is_empty (some a) = false
