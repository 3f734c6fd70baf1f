-- ===== src/Layout/Valid.antt =====
-- Validation, and the compressor layout.
use mathlib.Core.Option
use shatter_nc.Prelude.{
  ◌≡◌, refl, ◌∙◌, Bool, true, Option, none, some, List, [], ◌∷◌, ◌++◌, map, String, arith,
  if◌then◌else◌, filter, all, all-filter, Option-cases, inl, inr,
}
use shatter_nc.Prelude.Tests.{◌==◌, string_eq}
use shatter_nc.Layout.Defaults.{PaneLayout, default_compressor_layout}
use shatter_nc.Layout.{
  LayoutConfig, fill_pane, place, is_extra, merge_layout_with_defaults, valid_pane, validate_layout,
  not_telemetry, layout_config_to_compressor_panes, get_default_compressor_layout,
}
use shatter_nc.Layout.Ids.{last_pane, saved_pane, as_runs, merge_layout-saved}

last_pane-valid :
    (id : String) (found : Option PaneLayout) (ps : List PaneLayout) (p : PaneLayout)
    → all valid_pane ps ≡ true
    → ((q : PaneLayout) → found ≡ some q → valid_pane q ≡ true)
    → last_pane id found ps ≡ some p
    → valid_pane p ≡ true
last_pane-valid id found [] p h f e = f p e
last_pane-valid id found (q ∷ ps) p h f e =
    let here : valid_pane q ≡ true = ground arith in
    let later : all valid_pane ps ≡ true = ground arith in
    last_pane-valid id (if q.i == id then some q else found) ps p later (λ r g. ground (arith, f r))
      e

as_runs-valid : (p : PaneLayout) → valid_pane p ≡ true → valid_pane (as_runs p) ≡ true
unfolding valid_pane
as_runs-valid p h = ground arith

fill-valid : (p q : PaneLayout) → valid_pane p ≡ true → valid_pane (fill_pane p q) ≡ true
unfolding valid_pane fill_pane
fill-valid p q h = ground arith

legacy-valid :
    (id : String) (o : Option PaneLayout) (p : PaneLayout)
    → ((q : PaneLayout) → o ≡ some q → valid_pane q ≡ true)
    → (if "productionRuns" == id then Option.map as_runs o else none) ≡ some p
    → valid_pane p ≡ true
legacy-valid id none p h e = absurd (ground arith)
legacy-valid id (some q) p h e = ground (arith, as_runs-valid q (h q refl))

saved-valid :
    (id : String) (custom : List PaneLayout) (p : PaneLayout)
    → all valid_pane custom ≡ true
    → saved_pane id custom ≡ some p
    → valid_pane p ≡ true
saved-valid id custom p h e = elim (Option-cases (last_pane id none custom)) [
  | inl absent ↦
      legacy-valid id (last_pane "cycleHistory" none custom) p
        (λ q found. last_pane-valid "cycleHistory" none custom q h (λ r g. cc) found)
        (rw absent at e)
  | inr (q, found) ↦ last_pane-valid id none custom p h (λ r g. cc) (found ∙ rw found at e)
]

place-valid :
    (custom : List PaneLayout) (p : PaneLayout)
    → all valid_pane custom ≡ true
    → valid_pane p ≡ true
    → valid_pane (place (saved_pane p.i custom) p) ≡ true
place-valid custom p h v = elim (Option-cases (saved_pane p.i custom)) [
  | inl absent ↦ rw absent v
  | inr (q, found) ↦ rw found (fill-valid q p (saved-valid p.i custom q h found))
]

placed-valid :
    (custom ps : List PaneLayout)
    → all valid_pane custom ≡ true
    → all valid_pane ps ≡ true
    → all valid_pane (map (λ (p : PaneLayout). place (saved_pane p.i custom) p) ps) ≡ true
placed-valid custom [] h v = refl
placed-valid custom (p ∷ ps) h v =
    let here : valid_pane p ≡ true = ground arith in
    let later : all valid_pane ps ≡ true = ground arith in
    rw (place-valid custom p h here) (placed-valid custom ps h later)

filter-valid :
    (keep : PaneLayout → Bool) (ps : List PaneLayout)
    → all valid_pane ps ≡ true
    → all valid_pane (filter keep ps) ≡ true
filter-valid keep [] h = refl
filter-valid keep (p ∷ ps) h = ground (arith, filter-valid keep ps)

all-append :
    (ps qs : List PaneLayout)
    → all valid_pane ps ≡ true
    → all valid_pane qs ≡ true
    → all valid_pane (ps ++ qs) ≡ true
all-append [] qs h k = k
all-append (p ∷ ps) qs h k = ground (arith, all-append ps qs)

validate-all : (ps : List PaneLayout) → validate_layout ps ≡ true → all valid_pane ps ≡ true
unfolding validate_layout
validate-all [] h = cc
validate-all (p ∷ ps) h = h

all-validate :
    (p : PaneLayout) (ps qs : List PaneLayout)
    → all valid_pane ((p ∷ ps) ++ qs) ≡ true
    → validate_layout ((p ∷ ps) ++ qs) ≡ true
unfolding validate_layout
all-validate p ps qs h = h

no_panes : validate_layout [] ≡ true → ⊥
unfolding validate_layout
no_panes h = cc

-- Merging a valid saved layout into valid defaults gives a valid layout: at least one pane, and
-- every pane with an id, a position that is not negative and a size above 0.
pub merge_layout-valid :
    (custom defaults : List PaneLayout)
    → validate_layout custom ≡ true
    → validate_layout defaults ≡ true
    → validate_layout (merge_layout_with_defaults (some custom) defaults) ≡ true
unfolding merge_layout_with_defaults
merge_layout-valid [] defaults h v = v
merge_layout-valid (q ∷ qs) [] h v = absurd (no_panes v)
merge_layout-valid (q ∷ qs) (p ∷ ps) h v =
    let custom = q ∷ qs in
    rw (merge_layout-saved q qs (p ∷ ps)) (
      all-validate (place (saved_pane p.i custom) p)
        (map (λ (r : PaneLayout). place (saved_pane r.i custom) r) ps)
        (filter (is_extra (p ∷ ps)) custom)
        (all-append (map (λ (r : PaneLayout). place (saved_pane r.i custom) r) (p ∷ ps)) _
          (placed-valid custom (p ∷ ps) (validate-all custom h) (validate-all (p ∷ ps) v))
          (filter-valid (is_extra (p ∷ ps)) custom (validate-all custom h))))

-- The compressor's layout never shows the retired telemetry pane, whatever was saved.
pub compressor_panes-not_telemetry :
    (config : Option LayoutConfig)
    → all not_telemetry (layout_config_to_compressor_panes config) ≡ true
unfolding layout_config_to_compressor_panes get_default_compressor_layout
compressor_panes-not_telemetry none = refl
compressor_panes-not_telemetry (some config) = elim (Option-cases config.panes) [
  | inl missing ↦ rw (missing, layout_config_to_compressor_panes) refl
  | inr (panes, saved) ↦
      rw (saved, layout_config_to_compressor_panes)
        (all-filter not_telemetry (
          merge_layout_with_defaults (some (filter not_telemetry panes)) default_compressor_layout))
]
