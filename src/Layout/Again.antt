-- ===== src/Layout/Again.antt =====
-- Merging a layout that is merged already.
use mathlib.Core.List.{append-nil}
use shatter_nc.Prelude.{
  ◌≡◌, refl, ap, sym, ◌∙◌, true, false, Option, none, some, List, [], ◌∷◌, ◌++◌, map, arith, filter,
  all, All, All-imp, All-zip, filter-append, filter_idem,
}
use shatter_nc.Prelude.Tests.{string_eq}
use shatter_nc.Layout.Defaults.{PaneLayout}
use shatter_nc.Layout.{fill_pane, place, is_extra, merge_layout_with_defaults}
use shatter_nc.Layout.Ids.{last_pane, saved_pane, merge_layout-saved}
use shatter_nc.Layout.Merge.{
  has_id, distinct_ids, says_visible, placed, placed-id, last_pane-append, last_pane-absent,
  has_id-extra, last_pane-placed, has_id_self,
}

-- the result of a merge
abbrev merged : List PaneLayout → List PaneLayout → List PaneLayout
merged custom defaults = map (placed custom) defaults ++ filter (is_extra defaults) custom

-- Saved as it was merged, a default pane is found again.
saved_again :
    (custom defaults : List PaneLayout)
    → distinct_ids defaults ≡ true
    → All
        (λ (p : PaneLayout). saved_pane p.i (merged custom defaults) ≡ some (placed custom p))
        defaults
saved_again custom defaults h =
    All-imp
      (λ (p : PaneLayout).
        (last_pane p.i none (map (placed custom) defaults) ≡ some (placed custom p))
        × (has_id p.i defaults ≡ true))
      _ defaults
      (All-zip _ _ defaults (last_pane-placed custom (λ id. none) defaults h)
        (has_id_self defaults))
      (λ p (found, listed). found_again p found listed)
  where
    found_again :
        (p : PaneLayout)
        → last_pane p.i none (map (placed custom) defaults) ≡ some (placed custom p)
        → has_id p.i defaults ≡ true
        → saved_pane p.i (merged custom defaults) ≡ some (placed custom p)
    found_again p found listed =
        let whole_list : last_pane p.i none (merged custom defaults) ≡ some (placed custom p) =
          last_pane-append p.i none (map (placed custom) defaults)
            (filter (is_extra defaults) custom)
          ∙ rw found (
              last_pane-absent p.i (some (placed custom p)) (filter (is_extra defaults) custom)
                (has_id-extra p.i defaults custom listed)) in
        rw whole_list refl

fill_again :
    (o : Option PaneLayout) (p : PaneLayout)
    → says_visible p ≡ true
    → fill_pane (place o p) p ≡ place o p
unfolding fill_pane
fill_again none p h = ground arith
fill_again (some q) p h = ground arith

placed_again :
    (custom again ps : List PaneLayout)
    → All (λ (p : PaneLayout). saved_pane p.i again ≡ some (placed custom p)) ps
    → all says_visible ps ≡ true
    → map (placed again) ps ≡ map (placed custom) ps
placed_again custom again [] a h = refl
placed_again custom again (p ∷ ps) (e, a) h =
    let here : says_visible p ≡ true = ground arith in
    let later : all says_visible ps ≡ true = ground arith in
    rw (e, fill_again (saved_pane p.i custom) p here, placed_again custom again ps a later)

extra-placed :
    (custom defaults ps : List PaneLayout)
    → All (λ (p : PaneLayout). has_id p.i defaults ≡ true) ps
    → filter (is_extra defaults) (map (placed custom) ps) ≡ []
extra-placed custom defaults [] a = refl
extra-placed custom defaults (p ∷ ps) (h, a) =
    let listed : has_id (placed custom p).i defaults ≡ true = rw (placed-id custom p) h in
    let drop : is_extra defaults (placed custom p) ≡ false = ground arith in
    rw drop (extra-placed custom defaults ps a)

merged_again :
    (custom defaults : List PaneLayout)
    → distinct_ids defaults ≡ true
    → all says_visible defaults ≡ true
    → merged (merged custom defaults) defaults ≡ merged custom defaults
merged_again custom defaults h v =
    rw
      (
        placed_again custom (merged custom defaults) defaults (saved_again custom defaults h) v,
        filter-append (is_extra defaults) (map (placed custom) defaults)
            (filter (is_extra defaults) custom),
        extra-placed custom defaults defaults (has_id_self defaults),
        filter_idem (is_extra defaults) custom,
      )
      refl

-- A merged list without panes comes from no defaults.
again :
    (panes custom defaults : List PaneLayout)
    → distinct_ids defaults ≡ true
    → all says_visible defaults ≡ true
    → panes ≡ merged custom defaults
    → merge_layout_with_defaults (some panes) defaults ≡ panes
unfolding merge_layout_with_defaults
again [] custom [] h v e = refl
again [] custom (p ∷ ps) h v e = absurd (cc)
again (q ∷ qs) custom defaults h v e =
    merge_layout-saved q qs defaults
    ∙ ap (λ (l : List PaneLayout). merged l defaults) e
    ∙ merged_again custom defaults h v
    ∙ sym e

nothing_saved : (ps : List PaneLayout) → map (placed []) ps ≡ ps
nothing_saved [] = refl
nothing_saved (p ∷ ps) =
    let absent : saved_pane p.i [] ≡ none = ground arith in rw (absent, nothing_saved ps)

merged-nothing : (defaults : List PaneLayout) → defaults ≡ merged [] defaults
merged-nothing defaults = sym (append-nil (map (placed []) defaults) ∙ nothing_saved defaults)

-- Merging a merged layout changes nothing, whatever was saved, if no default id stands twice and
-- every default says whether it is visible.
pub merge_layout_idempotent :
    (custom : Option (List PaneLayout)) (defaults : List PaneLayout)
    → distinct_ids defaults ≡ true
    → all says_visible defaults ≡ true
    → merge_layout_with_defaults (some (merge_layout_with_defaults custom defaults)) defaults
      ≡ merge_layout_with_defaults custom defaults
unfolding merge_layout_with_defaults
merge_layout_idempotent none defaults h v = again defaults [] defaults h v (merged-nothing defaults)
merge_layout_idempotent (some []) defaults h v =
    again defaults [] defaults h v (merged-nothing defaults)
merge_layout_idempotent (some (q ∷ qs)) defaults h v =
    again _ (q ∷ qs) defaults h v (merge_layout-saved q qs defaults)
