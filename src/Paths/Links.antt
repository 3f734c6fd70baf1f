-- ===== src/Paths/Links.antt =====
-- The link to the file browser, and the browser on it.
use mathlib.Core.Path.{subst}
use mathlib.Core.List.{append_assoc}
use shatter_nc.Prelude.{◌≡◌, refl, ◌∙◌, ap, sym, true, List, [], ◌∷◌, ◌++◌, some, filter, All}
use shatter_nc.Prelude.Text.{Text}
use shatter_nc.Paths.{
  split_slash, join_slash, is_part, segments_of, normalize_remote_path, build_file_browser_link,
  linked_file, linked_path, last_part, file_of, init_parts, directory_of,
}
use shatter_nc.Paths.Normal.{
  clean, segments_of-clean, parts-join_slash, segments_of-join_slash,
  normalize_remote_path_idempotent,
}

init_parts-clean :
    (parts : List Text)
    → All (λ p. clean p ≡ true) parts
    → All (λ p. clean p ≡ true) (init_parts parts)
init_parts-clean [] h = tt
init_parts-clean (s ∷ []) h = tt
init_parts-clean (s ∷ t ∷ parts) (g, h) = (g, init_parts-clean (t ∷ parts) h)

init_parts-last_part :
    (s : Text) (parts : List Text)
    → init_parts (s ∷ parts) ++ last_part (s ∷ parts) ∷ [] ≡ s ∷ parts
init_parts-last_part s [] = refl
init_parts-last_part s (t ∷ parts) = ap (λ (r : List Text). s ∷ r) (init_parts-last_part t parts)

link-parts :
    (raw : Text) → filter is_part (split_slash (normalize_remote_path (some raw))) ≡ segments_of raw
unfolding normalize_remote_path
link-parts raw = parts-join_slash (segments_of raw) (segments_of-clean raw)

join_slash-snoc :
    (s : Text) (parts : List Text) (t : Text)
    → join_slash (s ∷ parts) ++ b'/' ∷ t ≡ join_slash (s ∷ parts ++ t ∷ [])
unfolding join_slash
join_slash-snoc s [] t = refl
join_slash-snoc s (u ∷ parts) t =
    append_assoc s (b'/' ∷ join_slash (u ∷ parts)) (b'/' ∷ t)
    ∙ ap (λ (r : Text). s ++ b'/' ∷ r) (join_slash-snoc u parts t)

directory_of-normal :
    (parts : List Text)
    → All (λ p. clean p ≡ true) parts
    → normalize_remote_path (some (directory_of parts)) ≡ directory_of parts
unfolding normalize_remote_path join_slash
directory_of-normal [] h =
    ap (λ (ps : List Text). b'/' ∷ join_slash ps) (segments_of-join_slash [] tt)
directory_of-normal (s ∷ []) h =
    ap (λ (ps : List Text). b'/' ∷ join_slash ps) (segments_of-join_slash [] tt)
directory_of-normal (s ∷ t ∷ parts) h =
    ap (λ (ps : List Text). b'/' ∷ join_slash ps)
      (segments_of-join_slash (init_parts (s ∷ t ∷ parts)) (init_parts-clean (s ∷ t ∷ parts) h))

segments_of-slashes : (s : Text) → segments_of (b'/' ∷ b'/' ∷ s) ≡ segments_of (b'/' ∷ s)
unfolding segments_of split_slash
segments_of-slashes s = refl

-- the directory and the file, put together
segments_of-directory :
    (s : Text) (parts : List Text)
    → All (λ p. clean p ≡ true) (s ∷ parts)
    → segments_of (directory_of (s ∷ parts) ++ b'/' ∷ last_part (s ∷ parts)) ≡ s ∷ parts
unfolding join_slash
segments_of-directory s [] h = segments_of-slashes s ∙ segments_of-join_slash (s ∷ []) h
segments_of-directory s (t ∷ parts) h =
    ap (λ (r : Text). segments_of (b'/' ∷ r))
      (join_slash-snoc s (init_parts (t ∷ parts)) (last_part (t ∷ parts))
        ∙ ap (λ (ps : List Text). join_slash (s ∷ ps)) (init_parts-last_part t parts))
    ∙ segments_of-join_slash (s ∷ t ∷ parts) h

-- The link to a file and the browser agree: the browser opens the path of the link as it stands, and
-- selects the last part of the file's path, where it has one.
pub build_file_browser_link-linked :
    (raw : Text)
    → (linked_path (build_file_browser_link raw) ≡ (build_file_browser_link raw).path)
      × (linked_file (build_file_browser_link raw) ≡ file_of (segments_of raw))
unfolding build_file_browser_link linked_path linked_file
build_file_browser_link-linked raw = (
  rw (link-parts raw) (directory_of-normal (segments_of raw) (segments_of-clean raw)),
  ap (λ (path : Text). file_of (filter is_part (split_slash path)))
        (normalize_remote_path_idempotent (some raw))
      ∙ ap file_of (link-parts raw),
)

-- The directory and the file of a link are together the normal path of the file, if the path has a
-- part at all.
pub build_file_browser_link-whole :
    (raw s : Text) (parts : List Text)
    → segments_of raw ≡ s ∷ parts
    → normalize_remote_path
        (some ((build_file_browser_link raw).path ++ b'/' ∷ (build_file_browser_link raw).file))
      ≡ (build_file_browser_link raw).file_path
unfolding build_file_browser_link normalize_remote_path
build_file_browser_link-whole raw s parts e =
    ap
      (λ (ps : List Text). b'/' ∷ join_slash (segments_of (directory_of ps ++ b'/' ∷ last_part ps)))
      (link-parts raw ∙ e)
    ∙ ap (λ (ps : List Text). b'/' ∷ join_slash ps)
        (segments_of-directory s parts (subst (All (λ p. clean p ≡ true)) e (segments_of-clean raw))
          ∙ sym e)
