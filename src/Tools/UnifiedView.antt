-- ===== src/Tools/UnifiedView.antt =====
-- `buildUnifiedToolViewFromLegacy` of frontend/src/utils/unifiedToolView.ts: the tool-centric view
-- built from the tool table and the ATC listing.
pub mod Pockets
pub mod Rows
use mathlib.Core.List.{foldl}
use mathlib.Core.Option.{get_or}
use shatter_nc.Prelude.{
  ℕ, zero, suc, ◌+◌, Bool, true, false, not, ◌&&◌, ◌||◌, Option, none, some, List, [], ◌∷◌, map,
  if◌then◌else◌, filter, nat_beq,
}
use shatter_nc.Prelude.Maps.{Map, lookup, insert, contains}
use shatter_nc.Prelude.Sort.{sort_by, insert_sorted}
use shatter_nc.Prelude.Numbers.{Num, nan, pos, whole, lt_num, strict_eq, num_eq}
use shatter_nc.Prelude.Text.{parse_int}
use shatter_nc.Tools.{
  Value, num, str, UnifiedToolView, UnifiedToolRow, EmptyPocket, SpindleAssignment, LegacyAtcTool,
  LegacyTableTool,
}
use shatter_nc.Tools.Pots.{is_spindle_pot, finite}

-- 255 and 999 mark a capped pocket
abbrev pub is_cap_number : Num → Bool
is_cap_number tn = strict_eq tn (whole 255) || strict_eq tn (whole 999)

abbrev pub loaded_number : LegacyAtcTool → Num
loaded_number atc = get_or atc.tool_number (whole 0)

abbrev pub numeric_pot : Option Value → Option Num
numeric_pot none = none
numeric_pot (some (num n)) = finite n
numeric_pot (some (str s)) = finite (parse_int s)

-- the variables of the first loop
pub record Scan : Type 0 where
  pub by_tool : Map Num LegacyAtcTool
  pub empty_by_pot : Map Num EmptyPocket
  pub occupied_pots : List Num
  pub spindle : Option SpindleAssignment

abbrev pub spindle_of : LegacyAtcTool → SpindleAssignment
spindle_of atc = record {
  tool_number = loaded_number atc;
  tool_type = atc.tool_type;
  color = atc.color;
  group = atc.group;
}

abbrev pub pocket_of : LegacyAtcTool → Num → EmptyPocket
pocket_of atc pot_num = record {
  pot_number = pot_num;
  tool_type = atc.tool_type;
  color = atc.color;
  is_cap = some (is_cap_number (loaded_number atc));
}

-- one round of the first loop
unfoldable pub scan_step : Scan → LegacyAtcTool → Scan
scan_step s atc =
    let tn = loaded_number atc in
    if is_spindle_pot atc.pot_number
    then (if lt_num (whole 0) tn && not (is_cap_number tn)
        then record s { spindle = some (spindle_of atc) }
        else s)
    else elim (numeric_pot atc.pot_number) [
      | none ↦ s
      | some pot_num ↦
          if strict_eq tn (whole 0) || is_cap_number tn
          then record s { empty_by_pot = insert pot_num (pocket_of atc pot_num) s.empty_by_pot }
          else if lt_num (whole 0) tn
          then record s {
            by_tool = insert tn atc s.by_tool;
            occupied_pots = pot_num ∷ s.occupied_pots;
          }
          else s
    ]

unfoldable pub scan : List LegacyAtcTool → Scan
unfolding scan_step
scan =
    foldl scan_step (record { by_tool = []; empty_by_pot = []; occupied_pots = []; spindle = none })

abbrev pub fresh_pocket : Num → EmptyPocket
fresh_pocket pot = record {
  pot_number = pot;
  tool_type = some (whole 1);
  color = some (whole 0);
  is_cap = none;
}

-- the loop over pots `pot`, `pot + 1`, …, with `left` rounds to go
unfoldable pub list_pockets : Scan → ℕ → ℕ → List EmptyPocket
list_pockets s zero pot = []
list_pockets s (suc left) pot =
    let rest = list_pockets s left (pot + 1) in
    if contains s.occupied_pots (whole pot)
    then rest
    else get_or (lookup (whole pot) s.empty_by_pot) (fresh_pocket (whole pot)) ∷ rest

-- `a.pot_number - b.pot_number` is not positive
abbrev pub pocket_before : EmptyPocket → EmptyPocket → Bool
pocket_before a b = not (lt_num b.pot_number a.pot_number)

unfoldable pub build_pockets : Scan → Option ℕ → List EmptyPocket
unfolding list_pockets
build_pockets s (some (suc n)) = list_pockets s (suc n) 1
build_pockets s _ = sort_by pocket_before (map (λ e. e.1) s.empty_by_pot)

abbrev pub bare_row : LegacyTableTool → UnifiedToolRow
bare_row tol = record {
  pot_number = none;
  tool_number = tol.tool_number;
  tool_name = tol.tool_name;
  diameter = tol.diameter;
  length = tol.length;
  group = none;
  life = tol.life;
  tool_type = none;
  color = none;
  in_atc = some false;
  is_cap = none;
}

abbrev pub build_row : LegacyTableTool → Option LegacyAtcTool → UnifiedToolRow
build_row tol none = bare_row tol
build_row tol (some atc) = record (bare_row tol) {
  in_atc = some true;
  pot_number = atc.pot_number;
  group = atc.group;
  tool_type = atc.tool_type;
  color = atc.color;
}

-- `t.tool_number` as a condition: neither 0 nor NaN
abbrev pub truthy : Num → Bool
truthy nan = false
truthy n = not (strict_eq n (whole 0))

abbrev pub is_nonempty {ℓ} : {A : Type ℓ} → List A → Bool
is_nonempty [] = false
is_nonempty (x ∷ xs) = true

unfoldable pub build_unified_tool_view_from_legacy :
    List LegacyTableTool → List LegacyAtcTool → Option ℕ → UnifiedToolView
unfolding scan build_pockets
build_unified_tool_view_from_legacy table_tools atc_tools num_pockets =
    let s = scan atc_tools in
    record {
      tools =
          map (λ (tol : LegacyTableTool). build_row tol (lookup tol.tool_number s.by_tool))
            (filter (λ (t : LegacyTableTool). truthy t.tool_number) table_tools);
      empty_pockets = build_pockets s num_pockets;
      spindle = s.spindle;
      atc_available = is_nonempty atc_tools;
    }
