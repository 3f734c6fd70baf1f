-- ===== src/Tools/Pending.antt =====
-- Changes that are staged but not pushed: `makePendingKey`, `toolsMatchForSlice`,
-- `mergeServerToolWithPending`, `mergePendingOntoUnifiedCache` and `serverConfirmsPendingChange` of
-- frontend/src/components/machine-detail/ToolsPane.tsx.
pub mod Merge
use mathlib.Core.List.{foldl}
use mathlib.Core.Option.{get_or}
use shatter_nc.Prelude.{
  Bool, true, false, not, ◌&&◌, ◌||◌, Option, none, some, List, [], ◌∷◌, ◌++◌, map, if◌then◌else◌,
  find,
}
use shatter_nc.Prelude.Numbers.{Num, nan, whole, strict_eq, lt_num, is_finite}
use shatter_nc.Prelude.Text.{Text, codes, show_num}
use shatter_nc.Tools.{
  Value, num, str, number_of, string_of, Tool, EmptyPocket, UnifiedToolRow, UnifiedToolView, Field,
  OperationType, Slice, PendingChange, Pending,
}
use shatter_nc.Tools.Pots.{is_spindle_pot, parse_pot_number, pots_equal, same_parsed}
use shatter_nc.Tools.Fields.{
  is_true, apply_field_to_tool, get_tool_field_value, values_equal, empty_pocket_as_tool,
  clear_atc_assignment, apply_assignment_edge,
}

-- the string that a field stands for
field_text : Field → Text
field_text Field.color = codes "color"
field_text Field.tool_number = codes "tool_number"
field_text Field.pot_number = codes "pot_number"
field_text Field.tool_type = codes "tool_type"
field_text Field.length = codes "length"
field_text Field.diameter = codes "diameter"
field_text Field.h = codes "H"
field_text Field.d = codes "D"
field_text Field.life = codes "life"
field_text Field.tool_name = codes "tool_name"
field_text (Field.other s) = s

unfoldable pub make_pending_key : Tool → Field → OperationType → Text
unfolding field_text
make_pending_key t f op =
    let pot = string_of (get_or t.pot_number (str [])) in
    let tn = show_num t.tool_number in
    elim op [
      | OperationType.color ↦ pot ++ codes "-" ++ tn ++ codes "-color"
      | OperationType.tool_number ↦ pot ++ codes "-assignment"
      | OperationType.pot_number ↦ tn ++ codes "-pot-assignment"
      | OperationType.tool_type ↦ pot ++ codes "-type"
      | OperationType.delete ↦ pot ++ codes "-delete"
      | OperationType.cap ↦ pot ++ codes "-cap"
      | OperationType.spindle ↦ codes "spindle-tool"
      | OperationType.offset ↦ tn ++ codes "-offset-" ++ field_text f
      | OperationType.life ↦ tn ++ codes "-life"
      | OperationType.name ↦ tn ++ codes "-name"
    ]

abbrev pub slice_beq : Slice → Slice → Bool
slice_beq Slice.tool Slice.tool = true
slice_beq Slice.pocket Slice.pocket = true
slice_beq Slice.spindle Slice.spindle = true
slice_beq _ _ = false

unfoldable pub tools_match_for_slice : Tool → Tool → Slice → Bool
tools_match_for_slice a b Slice.tool =
    strict_eq a.tool_number b.tool_number && lt_num (whole 0) a.tool_number
tools_match_for_slice a b Slice.pocket = pots_equal a.pot_number b.pot_number
tools_match_for_slice a b Slice.spindle = is_spindle_pot a.pot_number && is_spindle_pot b.pot_number

abbrev pub is_assignment_field : Field → Bool
is_assignment_field Field.pot_number = true
is_assignment_field Field.tool_number = true
is_assignment_field _ = false

-- how one staged change alters a tool of its slice, by its operation
unfoldable pub apply_change_by : OperationType → Slice → PendingChange → Tool → Tool
apply_change_by OperationType.delete slice change merged = clear_atc_assignment merged
apply_change_by OperationType.cap slice change merged = record merged {
  tool_number = whole 0;
  is_cap = some true;
}
apply_change_by _ slice change merged =
    if slice_beq slice Slice.tool && is_assignment_field change.field
    then apply_assignment_edge merged change.field change.new_value
    else apply_field_to_tool merged change.field change.new_value

unfoldable pub apply_change : Slice → PendingChange → Tool → Tool
unfolding apply_change_by
apply_change slice change merged = apply_change_by change.operation_type slice change merged

-- The change is one of this slice, and about this tool.
abbrev pub concerns : Slice → Tool → PendingChange → Bool
concerns slice server change =
    slice_beq change.cache_slice slice && tools_match_for_slice change.tool server slice

-- one round of `forEach`
unfoldable pub merge_step : Slice → Tool → Tool → Text × PendingChange → Tool
merge_step slice server merged (key, change) =
    if concerns slice server change then apply_change slice change merged else merged

unfoldable pub merge_server_tool_with_pending : Tool → Pending → Slice → Tool
unfolding merge_step
merge_server_tool_with_pending server pending slice = foldl (merge_step slice server) server pending

-- `as EmptyPocket`: the fields that an empty pocket is read by
abbrev pub as_empty_pocket : Tool → EmptyPocket
as_empty_pocket t = record {
  pot_number = elim t.pot_number [ some (num n) ↦ n | _ ↦ nan ];
  tool_type = t.tool_type;
  color = t.color;
  is_cap = t.is_cap;
}

unfoldable pub merge_pending_onto_unified_cache : UnifiedToolView → Pending → UnifiedToolView
merge_pending_onto_unified_cache cache pending = record cache {
  tools =
      map (λ (row : UnifiedToolRow). merge_server_tool_with_pending row pending Slice.tool)
        cache.tools;
  empty_pockets =
      map
        (λ (p : EmptyPocket).
          as_empty_pocket
            (merge_server_tool_with_pending (empty_pocket_as_tool p) pending Slice.pocket))
        cache.empty_pockets;
}

-- `row?.in_atc && parsePotNumber(row.pot_number) === targetPot`
abbrev pub assigned_to : Option Num → Option UnifiedToolRow → Bool
assigned_to target none = false
assigned_to target (some row) =
    is_true row.in_atc && same_parsed (parse_pot_number row.pot_number) target

-- by the change's operation
unfoldable pub confirms_by : OperationType → PendingChange → Tool → List UnifiedToolRow → Bool
confirms_by OperationType.delete change server all_tools = not (is_true server.in_atc)
confirms_by OperationType.pot_number change server all_tools =
    assigned_to (some (number_of change.new_value)) (some server)
confirms_by OperationType.tool_number change server all_tools =
    let assigned = number_of change.new_value in
    if slice_beq change.cache_slice Slice.pocket
    then elim (parse_pot_number change.tool.pot_number) [
      | none ↦ false
      | some target ↦
          is_finite assigned
          && assigned_to (some target)
              (find (λ (t : UnifiedToolRow). strict_eq t.tool_number assigned) all_tools)
    ]
    else false
confirms_by OperationType.cap change server all_tools = false
confirms_by _ change server all_tools =
    values_equal (get_or (get_tool_field_value server change.field) (str [])) change.new_value

unfoldable pub server_confirms_pending_change : PendingChange → Tool → List UnifiedToolRow → Bool
unfolding confirms_by
server_confirms_pending_change change server all_tools =
    confirms_by change.operation_type change server all_tools
