-- ===== src/Tools/Staging.antt =====
-- Staging an edit and discarding all edits: `stagePendingChange` and `handleDiscardChanges` of
-- frontend/src/components/machine-detail/ToolsPane.tsx, on the pending changes and the cached view.
pub mod Entries
pub mod Undo
pub mod Discard
use mathlib.Core.List.{foldl}
use mathlib.Core.Option
use shatter_nc.Prelude.{
  Bool, true, false, not, ◌&&◌, Option, none, some, List, [], ◌∷◌, map, if◌then◌else◌,
}
use shatter_nc.Prelude.Maps.{lookup, insert, erase}
use shatter_nc.Prelude.Numbers.{Num, whole, strict_eq, is_finite}
use shatter_nc.Prelude.Text.{Text, text_beq, text_eq}
use shatter_nc.Tools.{
  Value, num, str, number_of, Tool, EmptyPocket, UnifiedToolRow, UnifiedToolView, SpindleAssignment,
  Field, OperationType, Slice, PendingChange, Pending,
}
use shatter_nc.Tools.Fields.{
  apply_field_to_tool, values_equal, empty_pocket_as_tool, restore_atc_assignment,
  apply_assignment_edge,
}
use shatter_nc.Tools.Pending.{
  make_pending_key, tools_match_for_slice, is_assignment_field, slice_beq,
}

-- `pendingChanges` and `unifiedCache`
pub record Staged : Type 0 where
  pub pending : Pending
  pub cache : UnifiedToolView

-- what an edit is: the arguments of `stagePendingChange` but the old and the new value
pub record Edit : Type 0 where
  pub tool : Tool
  pub field : Field
  pub operation_type : OperationType
  pub cache_slice : Slice

-- the last two lines of `applyToTool` and of the reverting functions
abbrev pub write_field : Slice → Field → Value → Tool → Tool
write_field slice field value t =
    if slice_beq slice Slice.tool && is_assignment_field field
    then apply_assignment_edge t field value
    else apply_field_to_tool t field value

unfoldable pub apply_to_tool : OperationType → Slice → Field → Value → Tool → Tool
apply_to_tool OperationType.delete slice field value t =
    apply_assignment_edge t Field.tool_number (num (whole 0))
apply_to_tool OperationType.cap slice field value t = record t {
  tool_number = whole 0;
  is_cap = some true;
}
apply_to_tool OperationType.tool_number Slice.pocket field value t =
    record (apply_field_to_tool t field value) { is_cap = some false }
apply_to_tool op slice field value t = write_field slice field value t

-- `Boolean(value)`
abbrev pub boolean : Value → Bool
boolean (num n) = is_finite n && not (strict_eq n (whole 0))
boolean (str s) = not (text_beq s [])

unfoldable pub revert_tool : OperationType → Slice → Field → Value → Tool → Tool → Tool
revert_tool OperationType.delete slice field baseline tool t = restore_atc_assignment t tool
revert_tool OperationType.cap slice field baseline tool t = record t {
  is_cap = some (boolean baseline);
}
revert_tool op slice field baseline tool t = write_field slice field baseline t

abbrev pub map_row : (Tool → Tool) → Tool → UnifiedToolRow → UnifiedToolRow
map_row f tool row = if tools_match_for_slice row tool Slice.tool then f row else row

abbrev pub map_pocket : (Tool → Tool) → Tool → EmptyPocket → EmptyPocket
map_pocket f tool pocket =
    let as_tool = empty_pocket_as_tool pocket in
    let updated = f as_tool in
    if tools_match_for_slice as_tool tool Slice.pocket
    then record {
      pot_number = pocket.pot_number;
      tool_type = updated.tool_type;
      color = updated.color;
      is_cap = updated.is_cap;
    }
    else pocket

-- the cached view with the tools of a slice that match mapped; the spindle stays
unfoldable pub map_slice : Slice → (Tool → Tool) → Tool → UnifiedToolView → UnifiedToolView
map_slice Slice.tool f tool c = record c { tools = map (map_row f tool) c.tools }
map_slice Slice.pocket f tool c = record c {
  empty_pockets = map (map_pocket f tool) c.empty_pockets;
}
map_slice Slice.spindle f tool c = c

abbrev pub set_spindle : Value → Option SpindleAssignment → Option SpindleAssignment
set_spindle value none = none
set_spindle value (some s) = some (record s { tool_number = number_of value })

-- the cached view that shows a new value
unfoldable pub show_edit : Edit → Value → UnifiedToolView → UnifiedToolView
unfolding map_slice apply_to_tool
show_edit e value c = elim e.cache_slice [
  | Slice.spindle ↦ record c { spindle = set_spindle value c.spindle }
  | slice ↦ map_slice slice (apply_to_tool e.operation_type slice e.field value) e.tool c
]

-- the cached view after the baseline is entered again
unfoldable pub show_revert : Edit → Value → UnifiedToolView → UnifiedToolView
unfolding map_slice revert_tool
show_revert e baseline c =
    map_slice e.cache_slice (revert_tool e.operation_type e.cache_slice e.field baseline e.tool)
      e.tool c

abbrev pub key_of : Edit → Text
key_of e = make_pending_key e.tool e.field e.operation_type

-- `existing?.oldValue ?? oldValue`
abbrev pub baseline_or : Value → Option PendingChange → Value
baseline_or old_value none = old_value
baseline_or old_value (some change) = change.old_value

abbrev pub staged_change : Edit → Value → Value → PendingChange
staged_change e baseline new_value = record {
  tool = e.tool;
  field = e.field;
  old_value = baseline;
  new_value = new_value;
  operation_type = e.operation_type;
  cache_slice = e.cache_slice;
}

unfoldable pub stage_pending_change : Edit → Value → Value → Staged → Staged
unfolding show_edit show_revert
stage_pending_change e old_value new_value s =
    let key = key_of e in
    let baseline = baseline_or old_value (lookup key s.pending) in
    if values_equal new_value baseline
    then record { pending = erase key s.pending; cache = show_revert e baseline s.cache }
    else record {
      pending = insert key (staged_change e baseline new_value) s.pending;
      cache = show_edit e new_value s.cache;
    }

-- `revert` of `handleDiscardChanges`, which knows no caps
unfoldable pub discard_tool : OperationType → PendingChange → Tool → Tool
discard_tool OperationType.delete change t = restore_atc_assignment t change.tool
discard_tool _ change t = write_field change.cache_slice change.field change.old_value t

-- a pocket that is reverted is built without `is_cap`
abbrev pub discard_pocket : (Tool → Tool) → Tool → EmptyPocket → EmptyPocket
discard_pocket f tool pocket =
    let as_tool = empty_pocket_as_tool pocket in
    let reverted = f as_tool in
    if tools_match_for_slice tool as_tool Slice.pocket
    then record {
      pot_number = pocket.pot_number;
      tool_type = reverted.tool_type;
      color = reverted.color;
      is_cap = none;
    }
    else pocket

unfoldable pub discard_change : UnifiedToolView → Text × PendingChange → UnifiedToolView
unfolding discard_tool
discard_change c (key, change) =
    let revert = discard_tool change.operation_type change in
    elim change.cache_slice [
      | Slice.tool ↦ record c {
        tools =
            map
              (λ (row : UnifiedToolRow).
                if tools_match_for_slice change.tool row Slice.tool then revert row else row)
              c.tools;
      }
      | Slice.pocket ↦ record c {
        empty_pockets = map (discard_pocket revert change.tool) c.empty_pockets;
      }
      | Slice.spindle ↦ record c { spindle = set_spindle change.old_value c.spindle }
    ]

unfoldable pub handle_discard_changes : Staged → Staged
unfolding discard_change
handle_discard_changes s = record { pending = []; cache = foldl discard_change s.cache s.pending }
