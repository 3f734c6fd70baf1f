-- ===== src/Tools/Occupancy.antt =====
-- Which tool sits in which pot, staged changes included: `isRealAtcToolNumber`,
-- `buildPotOccupancyMap`, `findToolPotAssignment`, `findToolTableEntry` and `getPotOccupantTool` of
-- frontend/src/components/machine-detail/ToolsPane.tsx.
pub mod Pots
use mathlib.Core.List.{foldl}
use mathlib.Core.Option
use shatter_nc.Prelude.{
  Bool, true, false, not, ◌&&◌, ◌||◌, Option, none, some, List, [], ◌∷◌, if◌then◌else◌, find,
}
use shatter_nc.Prelude.Maps.{Map, lookup, insert}
use shatter_nc.Prelude.Numbers.{Num, whole, strict_eq, lt_num, num_eq}
use shatter_nc.Tools.{Tool, EmptyPocket, UnifiedToolRow, UnifiedToolView, Slice, Pending}
use shatter_nc.Tools.Pots.{parse_pot_number}
use shatter_nc.Tools.Fields.{is_true, empty_pocket_as_tool}
use shatter_nc.Tools.Pending.{merge_server_tool_with_pending}

unfoldable pub is_real_atc_tool_number : Num → Bool
is_real_atc_tool_number tn =
    lt_num (whole 0) tn && not (strict_eq tn (whole 255) || strict_eq tn (whole 999))

-- the bodies of the two loops, on a tool that staged changes are merged into
unfoldable pub occupy : Bool → Map Num Num → Tool → Map Num Num
occupy present occupancy merged = elim (parse_pot_number merged.pot_number) [
  | none ↦ occupancy
  | some pot ↦
      if lt_num (whole 0) pot && present && is_real_atc_tool_number merged.tool_number
      then insert pot merged.tool_number occupancy
      else occupancy
]

unfoldable pub occupy_row : Pending → Map Num Num → UnifiedToolRow → Map Num Num
occupy_row pending occupancy row =
    let merged = merge_server_tool_with_pending row pending Slice.tool in
    occupy (is_true merged.in_atc) occupancy merged

unfoldable pub occupy_pocket : Pending → Map Num Num → EmptyPocket → Map Num Num
occupy_pocket pending occupancy pocket =
    occupy true occupancy
      (merge_server_tool_with_pending (empty_pocket_as_tool pocket) pending Slice.pocket)

unfoldable pub build_pot_occupancy_map : UnifiedToolView → Pending → Map Num Num
unfolding occupy_row occupy_pocket
build_pot_occupancy_map cache pending =
    foldl (occupy_pocket pending) (foldl (occupy_row pending) [] cache.tools) cache.empty_pockets

-- the loop over the entries
first_pot_of : Num → Map Num Num → Option Num
first_pot_of tool_number [] = none
first_pot_of tool_number ((pot, t) ∷ m) =
    if strict_eq t tool_number then some pot else first_pot_of tool_number m

unfoldable pub find_tool_pot_assignment : UnifiedToolView → Pending → Num → Option Num
unfolding first_pot_of
find_tool_pot_assignment cache pending tool_number =
    first_pot_of tool_number (build_pot_occupancy_map cache pending)

unfoldable pub find_tool_table_entry : UnifiedToolView → Pending → Num → Option Tool
find_tool_table_entry cache pending tool_number =
    Option.map (λ (row : Tool). merge_server_tool_with_pending row pending Slice.tool)
      (find (λ (t : UnifiedToolRow). strict_eq t.tool_number tool_number) cache.tools)

-- `excludeToolNumber !== undefined && occupant === excludeToolNumber`
abbrev pub excluded : Option Num → Num → Bool
excluded none occupant = false
excluded (some t) occupant = strict_eq occupant t

unfoldable pub get_pot_occupant_tool : UnifiedToolView → Pending → Num → Option Num → Option Num
get_pot_occupant_tool cache pending pot_number exclude =
    elim (lookup pot_number (build_pot_occupancy_map cache pending)) [
      | none ↦ none
      | some occupant ↦ if excluded exclude occupant then none else some occupant
    ]
