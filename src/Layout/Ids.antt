-- ===== src/Layout/Ids.antt =====
-- Which saved pane a default pane takes, against the saved list read from its end.
use mathlib.Core.Option
use mathlib.Core.List.{foldl}
use shatter_nc.Prelude.{
  ◌≡◌, refl, ap, ◌∙◌, Option, none, some, List, [], ◌∷◌, ◌++◌, map, String, arith, if◌then◌else◌,
  filter, Option-cases, inl, inr,
}
use shatter_nc.Prelude.Tests.{◌==◌, ==_iff, string_eq}
use shatter_nc.Prelude.Maps.{Map, lookup, insert, lookup-insert}
use shatter_nc.Layout.Defaults.{PaneLayout}
use shatter_nc.Layout.{◌<|>◌, custom_map, with_legacy, place, is_extra, merge_layout_with_defaults}

-- The last pane of the list with the id, or `found` if there is none.
abbrev pub last_pane : String → Option PaneLayout → List PaneLayout → Option PaneLayout
last_pane id found [] = found
last_pane id found (p ∷ ps) = last_pane id (if p.i == id then some p else found) ps

-- a saved 'cycleHistory' read as 'productionRuns'
abbrev pub as_runs : PaneLayout → PaneLayout
as_runs p = record p { i = "productionRuns" }

-- The saved pane for an id: the last one with it, or for 'productionRuns' the last 'cycleHistory'.
abbrev pub saved_pane : String → List PaneLayout → Option PaneLayout
saved_pane id custom =
    last_pane id none custom
    <|> (if "productionRuns" == id
        then Option.map as_runs (last_pane "cycleHistory" none custom)
        else none)

foldl-lookup :
    (id : String) (m : Map String PaneLayout) (ps : List PaneLayout)
    → lookup id (foldl (λ (n : Map String PaneLayout) (p : PaneLayout). insert p.i p n) m ps)
      ≡ last_pane id (lookup id m) ps
foldl-lookup id m [] = refl
foldl-lookup id m (p ∷ ps) = foldl-lookup id (insert p.i p m) ps ∙ rw (lookup-insert p.i id p m)

custom_map-lookup :
    (id : String) (ps : List PaneLayout) → lookup id (custom_map ps) ≡ last_pane id none ps
unfolding custom_map lookup
custom_map-lookup id ps = foldl-lookup id [] ps

runs_there :
    {A : Type 0} (id : String) (runs : A) (at_id o : Option A)
    → ("productionRuns" ≡ id → at_id ≡ some runs)
    → at_id ≡ (at_id <|> (if "productionRuns" == id then o else none))
runs_there id runs none o h = ground (arith, ==_iff "productionRuns" id)
runs_there id runs (some a) o h = refl

runs_missing :
    {A : Type 0} (id : String) (p : A) (at_id : Option A)
    → ("productionRuns" ≡ id → at_id ≡ none)
    → (if "productionRuns" == id then some p else at_id)
      ≡ (at_id <|> (if "productionRuns" == id then some p else none))
runs_missing id p at_id h = ground (arith, ==_iff "productionRuns" id)

with_legacy-lookup :
    (id : String) (m : Map String PaneLayout)
    → lookup id (with_legacy m) ≡ (
        lookup id m
        <|> (if "productionRuns" == id then Option.map as_runs (lookup "cycleHistory" m) else none))
unfolding with_legacy
with_legacy-lookup id m = elim (Option-cases (lookup "cycleHistory" m)) [
  | inl absent ↦ rw (absent, with_legacy) (ground arith)
  | inr (saved, found) ↦ elim (Option-cases (lookup "productionRuns" m)) [
    | inr (runs, there) ↦
        rw (found, with_legacy, there)
          (runs_there id runs (lookup id m) (some (as_runs saved)) (λ e. rw e at there))
    | inl missing ↦
        rw (found, with_legacy, missing)
          (lookup-insert "productionRuns" id (as_runs saved) m
            ∙ runs_missing id (as_runs saved) (lookup id m) (λ e. rw e at missing))
  ]
]

map-saved :
    (custom defaults : List PaneLayout)
    → map (λ (p : PaneLayout). place (lookup p.i (with_legacy (custom_map custom))) p) defaults
      ≡ map (λ (p : PaneLayout). place (saved_pane p.i custom) p) defaults
map-saved custom [] = refl
map-saved custom (p ∷ ps) = rw (
  with_legacy-lookup p.i (custom_map custom),
  custom_map-lookup p.i custom,
  custom_map-lookup "cycleHistory" custom,
  map-saved custom ps,
)

-- With or without the legacy rule, the merged panes are the defaults filled in from the saved
-- panes, followed by the saved panes that are no default and not the legacy one.
pub merge_layout-saved :
    (pane : PaneLayout) (panes defaults : List PaneLayout)
    → merge_layout_with_defaults (some (pane ∷ panes)) defaults
      ≡ map (λ (p : PaneLayout). place (saved_pane p.i (pane ∷ panes)) p) defaults
        ++ filter (is_extra defaults) (pane ∷ panes)
unfolding merge_layout_with_defaults
merge_layout-saved pane panes defaults =
    ap (λ (placed : List PaneLayout). placed ++ filter (is_extra defaults) (pane ∷ panes))
      (map-saved (pane ∷ panes) defaults)
