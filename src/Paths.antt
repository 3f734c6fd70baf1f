-- ===== src/Paths.antt =====
-- Paths on a machine: `normalizeRemotePath`, `buildDeploymentFilePath` and `buildFileBrowserLink` of
-- frontend/src/components/machine-detail/CurrentProgramPane.tsx, and the navigation of
-- frontend/src/pages/FileBrowser.tsx.
pub mod Split
pub mod Normal
pub mod Links
use mathlib.Core.List.{reverse}
use shatter_nc.Prelude.{
  ℕ, Bool, true, false, not, ◌&&◌, Option, none, some, List, [], ◌∷◌, ◌++◌, map, if◌then◌else◌,
  nat_beq, filter,
}
use shatter_nc.Prelude.Text.{Text, codes, text_beq, to_lower, trim}

-- put in front of the first part
abbrev pub glue : ℕ → List Text → List Text
glue c [] = (c ∷ []) ∷ []
glue c (s ∷ parts) = (c ∷ s) ∷ parts

-- `s.split('/')`
unfoldable pub split_slash : Text → List Text
split_slash [] = [] ∷ []
split_slash (c ∷ s) = let rest = split_slash s in if nat_beq c b'/' then [] ∷ rest else glue c rest

-- `parts.join('/')`
unfoldable pub join_slash : List Text → Text
join_slash [] = []
join_slash (s ∷ []) = s
join_slash (s ∷ t ∷ parts) = s ++ b'/' ∷ join_slash (t ∷ parts)

-- `replace(/\\/g, '/')`
abbrev pub forward : ℕ → ℕ
forward c = if nat_beq c 92 then b'/' else c

abbrev pub is_part : Text → Bool
is_part s = not (text_beq s [])

-- the parts of a path that are not blank
unfoldable pub segments_of : Text → List Text
segments_of raw = filter is_part (split_slash (map forward raw))

-- no path is the blank path
unfoldable pub normalize_remote_path : Option Text → Text
unfolding segments_of
normalize_remote_path none = b'/' ∷ []
normalize_remote_path (some raw) = b'/' ∷ join_slash (segments_of raw)

pub record Deployment : Type 0 where
  pub deployed_filename : Option Text
  pub deployed_path : Option Text

abbrev pub trimmed : Option Text → Text
trimmed none = []
trimmed (some s) = trim s

abbrev pub starts_with : Text → Text → Bool
starts_with [] s = true
starts_with (c ∷ w) [] = false
starts_with (c ∷ w) (d ∷ s) = nat_beq c d && starts_with w s

abbrev pub ends_with : Text → Text → Bool
ends_with s w = starts_with (reverse w) (reverse s)

abbrev pub add_filename : Text → Text → Text
add_filename path [] = path
add_filename path (c ∷ s) =
    if ends_with (to_lower path) (b'/' ∷ to_lower (c ∷ s))
    then path
    else normalize_remote_path (some (path ++ b'/' ∷ c ∷ s))

abbrev pub path_by : Text → Text → Text
path_by [] [] = normalize_remote_path (some (b'/' ∷ []))
path_by (c ∷ filename) [] = normalize_remote_path (some (b'/' ∷ c ∷ filename))
path_by filename (c ∷ raw) = add_filename (normalize_remote_path (some (c ∷ raw))) filename

unfoldable pub build_deployment_file_path : Deployment → Text
build_deployment_file_path dep = path_by (trimmed dep.deployed_filename) (trimmed dep.deployed_path)

-- The query of the link to the file browser, before its values are encoded.
pub record FileLink : Type 0 where
  pub file : Text
  pub file_path : Text
  pub path : Text

abbrev pub last_part : List Text → Text
last_part [] = []
last_part (s ∷ []) = s
last_part (s ∷ t ∷ parts) = last_part (t ∷ parts)

-- `slice(0, -1)`
abbrev pub init_parts : List Text → List Text
init_parts [] = []
init_parts (s ∷ []) = []
init_parts (s ∷ t ∷ parts) = s ∷ init_parts (t ∷ parts)

-- `segments.length > 1 ? … : '/'`
abbrev pub directory_of : List Text → Text
directory_of [] = b'/' ∷ []
directory_of (s ∷ []) = b'/' ∷ []
directory_of (s ∷ t ∷ parts) = b'/' ∷ join_slash (init_parts (s ∷ t ∷ parts))

unfoldable pub build_file_browser_link : Text → FileLink
build_file_browser_link full_file_path =
    let normalized = normalize_remote_path (some full_file_path) in
    let segments = filter is_part (split_slash normalized) in
    record { file = last_part segments; file_path = normalized; path = directory_of segments }

-- `parts.length > 0 ? parts[parts.length - 1] : null`
abbrev pub file_of : List Text → Option Text
file_of [] = none
file_of (s ∷ parts) = some (last_part (s ∷ parts))

-- the file browser on the link: the file that it will select, and the path that it opens
unfoldable pub linked_file : FileLink → Option Text
linked_file link =
    file_of (filter is_part (split_slash (normalize_remote_path (some link.file_path))))

unfoldable pub linked_path : FileLink → Text
linked_path link = normalize_remote_path (some link.path)

-- `handleItemClick` on a directory: down into it, and up again
abbrev pub or_root : Text → Text
or_root [] = b'/' ∷ []
or_root (c ∷ s) = c ∷ s

unfoldable pub parent_path : Text → Text
parent_path current = or_root (join_slash (init_parts (split_slash (or_root current))))

unfoldable pub new_path : Text → Text → Text
new_path current name =
    let base = or_root current in
    if text_beq base (b'/' ∷ []) then b'/' ∷ name else base ++ b'/' ∷ name
