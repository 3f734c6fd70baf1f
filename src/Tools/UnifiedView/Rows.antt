-- ===== src/Tools/UnifiedView/Rows.antt =====
-- The rows and the spindle of `buildUnifiedToolViewFromLegacy`, against the listing read from its
-- end: what counts is the last entry that loads a tool.
use mathlib.Core.List.{foldl}
use shatter_nc.Prelude.{
  ℕ, ◌≡◌, refl, ◌∙◌, Bool, true, false, not, ◌&&◌, Option, none, some, List, [], ◌∷◌, map, arith,
  if◌then◌else◌, filter, ◌==◌,
}
use shatter_nc.Prelude.Maps.{lookup, lookup-insert}
use shatter_nc.Prelude.Numbers.{Num, whole, lt_num, num_eq}
use shatter_nc.Tools.{SpindleAssignment, LegacyAtcTool, LegacyTableTool}
use shatter_nc.Tools.Pots.{is_spindle_pot}
use shatter_nc.Tools.UnifiedView.{
  Scan, scan_step, scan, numeric_pot, is_cap_number, loaded_number, spindle_of, truthy, build_row,
  build_unified_tool_view_from_legacy,
}

abbrev pub is_some {ℓ} : {A : Type ℓ} → Option A → Bool
is_some none = false
is_some (some a) = true

-- a tool number above 0 that does not mark a cap
abbrev pub is_real : Num → Bool
is_real tn = lt_num (whole 0) tn && not (is_cap_number tn)

-- The entry puts tool `tn` into a numbered pot.
abbrev pub loads : Num → LegacyAtcTool → Bool
loads tn atc =
    not (is_spindle_pot atc.pot_number)
    && is_some (numeric_pot atc.pot_number)
    && is_real (loaded_number atc)
    && loaded_number atc == tn

-- The last entry of the listing that loads the tool, or `found` if none does.
abbrev pub last_load : Num → Option LegacyAtcTool → List LegacyAtcTool → Option LegacyAtcTool
last_load tn found [] = found
last_load tn found (atc ∷ atcs) = last_load tn (if loads tn atc then some atc else found) atcs

-- The last entry of the listing that puts a real tool into the spindle.
abbrev pub last_spindle : Option SpindleAssignment → List LegacyAtcTool → Option SpindleAssignment
last_spindle found [] = found
last_spindle found (atc ∷ atcs) =
    last_spindle
      (if is_spindle_pot atc.pot_number && is_real (loaded_number atc)
        then some (spindle_of atc)
        else found)
      atcs

scan_step-by_tool :
    (tn : Num) (s : Scan) (atc : LegacyAtcTool)
    → lookup tn (scan_step s atc).by_tool ≡ (if loads tn atc then some atc else lookup tn s.by_tool)
unfolding scan_step
scan_step-by_tool tn s atc = ground (arith, lookup-insert (loaded_number atc) tn atc s.by_tool)

foldl-by_tool :
    (tn : Num) (s : Scan) (atcs : List LegacyAtcTool)
    → lookup tn (foldl scan_step s atcs).by_tool ≡ last_load tn (lookup tn s.by_tool) atcs
foldl-by_tool tn s [] = refl
foldl-by_tool tn s (atc ∷ atcs) =
    foldl-by_tool tn (scan_step s atc) atcs ∙ rw (scan_step-by_tool tn s atc)

pub scan-by_tool :
    (tn : Num) (atcs : List LegacyAtcTool) → lookup tn (scan atcs).by_tool ≡ last_load tn none atcs
unfolding scan lookup
scan-by_tool tn atcs = foldl-by_tool tn _ atcs

scan_step-spindle :
    (s : Scan) (atc : LegacyAtcTool)
    → (scan_step s atc).spindle ≡ (
        if is_spindle_pot atc.pot_number && is_real (loaded_number atc)
        then some (spindle_of atc)
        else s.spindle)
unfolding scan_step
scan_step-spindle s atc = ground arith

foldl-spindle :
    (s : Scan) (atcs : List LegacyAtcTool)
    → (foldl scan_step s atcs).spindle ≡ last_spindle s.spindle atcs
foldl-spindle s [] = refl
foldl-spindle s (atc ∷ atcs) = foldl-spindle (scan_step s atc) atcs ∙ rw (scan_step-spindle s atc)

map-build_row :
    (atcs : List LegacyAtcTool) (tols : List LegacyTableTool)
    → map
        (λ (tol : LegacyTableTool). build_row tol (lookup tol.tool_number (scan atcs).by_tool))
        tols
      ≡ map (λ (tol : LegacyTableTool). build_row tol (last_load tol.tool_number none atcs)) tols
map-build_row atcs [] = refl
map-build_row atcs (tol ∷ tols) = rw (scan-by_tool tol.tool_number atcs, map-build_row atcs tols)

-- The view has one row for each table entry with a tool number, in table order; its assignment is
-- that of the last ATC entry that loads the tool into a numbered pot, and it is out of the ATC if
-- there is none. The spindle is the last SPINDLE entry with a number above 0 that marks no cap.
pub build_view-rows :
    (table : List LegacyTableTool) (atcs : List LegacyAtcTool) (pockets : Option ℕ)
    → ((build_unified_tool_view_from_legacy table atcs pockets).tools
        ≡ map
            (λ (tol : LegacyTableTool). build_row tol (last_load tol.tool_number none atcs))
            (filter (λ (t : LegacyTableTool). truthy t.tool_number) table))
      × ((build_unified_tool_view_from_legacy table atcs pockets).spindle ≡ last_spindle none atcs)
unfolding build_unified_tool_view_from_legacy scan
build_view-rows table atcs pockets =
    (map-build_row atcs (filter (λ t. truthy t.tool_number) table), foldl-spindle _ atcs)
