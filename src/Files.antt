-- ===== src/Files.antt =====
-- The listing of a machine's files: `displayPrograms` of frontend/src/pages/FileBrowser.tsx, which
-- frontend/src/components/machine-detail/FileManagerPane.tsx repeats.
pub mod Listed
use shatter_nc.Prelude.{
  ℕ, Bool, true, false, not, ◌&&◌, ◌||◌, Option, none, some, List, [], ◌∷◌, ◌++◌, if◌then◌else◌,
  filter, ltb,
}
use shatter_nc.Prelude.Sort.{sort_by}
use shatter_nc.Prelude.Text.{Text, codes, text_beq, to_lower, trim, includes}

-- `modified` is what `new Date(modified).getTime()` gives, and `none` where that is NaN.
pub record Program : Type 0 where
  pub name : Text
  pub size : ℕ
  pub modified : Option ℕ
  pub is_directory : Bool
  pub program_note : Option Text

pub data SortBy : Type 0 where
  name comment size modified : SortBy

pub data SortDirection : Type 0 where
  asc desc : SortDirection

-- a comparison that is negative, zero or NaN, or positive
pub data Comparison : Type 0 where
  less same greater : Comparison

abbrev pub compare_nat : ℕ → ℕ → Comparison
compare_nat a b =
    if ltb a b then Comparison.less else if ltb b a then Comparison.greater else Comparison.same

abbrev pub compare_time : Option ℕ → Option ℕ → Comparison
compare_time (some a) (some b) = compare_nat a b
compare_time _ _ = Comparison.same

abbrev pub note_of : Option Text → Text
note_of none = []
note_of (some s) = s

-- the test of a note: `p.program_note && …`
abbrev pub note_includes : Option Text → Text → Bool
note_includes none query = false
note_includes (some []) query = false
note_includes (some (c ∷ s)) query = includes (to_lower (c ∷ s)) query

unfoldable pub matches_search : Text → Program → Bool
matches_search query p =
    includes (to_lower p.name) query
    || note_includes p.program_note query
    || (p.is_directory && includes (codes "directory") query)
    || (not p.is_directory && includes (codes "file") query)

abbrev pub searched : Text → List Program → List Program
searched search_query programs =
    if text_beq (trim search_query) []
    then programs
    else filter (matches_search (to_lower search_query)) programs

-- the comparison in the direction is not positive
abbrev pub is_before : SortDirection → Comparison → Bool
is_before SortDirection.asc Comparison.greater = false
is_before SortDirection.desc Comparison.less = false
is_before _ _ = true

abbrev pub parent_entry : Program
parent_entry = record {
  name = codes "..";
  size = 0;
  modified = none;
  is_directory = true;
  program_note = none;
}

-- `localeCompare` depends on the language of the browser.
module _ (locale_compare : Text → Text → Comparison) where
  unfoldable pub sort_fn : SortBy → Program → Program → Comparison
  sort_fn SortBy.name a b = locale_compare a.name b.name
  sort_fn SortBy.comment a b = locale_compare (note_of a.program_note) (note_of b.program_note)
  sort_fn SortBy.size a b = compare_nat a.size b.size
  sort_fn SortBy.modified a b = compare_time a.modified b.modified

  abbrev pub program_before : SortBy → SortDirection → Program → Program → Bool
  program_before by direction a b = is_before direction (sort_fn by a b)

  unfoldable pub display_programs :
      List Program → Text → SortBy → SortDirection → Text → List Program
  display_programs programs search_query by direction current_path =
      let filtered = searched search_query programs in
      let directories = filter (λ (p : Program). p.is_directory) filtered in
      let files = filter (λ (p : Program). not p.is_directory) filtered in
      let sorted =
        sort_by (program_before by direction) directories
        ++ sort_by (program_before by direction) files in
      if text_beq current_path (codes "/") then sorted else parent_entry ∷ sorted
