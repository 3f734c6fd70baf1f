-- ===== src/Tools/Batch.antt =====
-- The batch request and its answer: `pendingToBatchItem`, `getConfirmedValueFromResult` and
-- `applyConfirmedToolChange` of frontend/src/components/machine-detail/ToolsPane.tsx.
pub mod Items
use mathlib.Core.Option
use mathlib.Core.Option.{get_or}
use shatter_nc.Prelude.{
  Bool, true, false, not, ◌&&◌, ◌||◌, Option, none, some, [], if◌then◌else◌, take,
}
use shatter_nc.Prelude.Numbers.{Num, whole, lt_num, is_finite}
use shatter_nc.Prelude.Text.{codes, Text, text_beq, trim}
use shatter_nc.Tools.{
  Value, num, str, number_of, string_of, Tool, Field, OperationType, Slice, PendingChange,
}
use shatter_nc.Tools.Pots.{parse_pot_number}
use shatter_nc.Tools.Fields.{apply_field_to_tool, clear_atc_assignment, apply_assignment_edge}
use shatter_nc.Tools.Pending.{slice_beq, is_assignment_field}

pub data BatchOperation : Type 0 where
  color assignment type cap delete spindle offset life name : BatchOperation

pub record ToolChangeBatchItem : Type 0 where
  pub operation_type : BatchOperation
  pub client_id : Text
  pub pot_number : Option Num
  pub tool_number : Option Num
  pub color : Option Num
  pub tool_type : Option Num
  pub offset_type : Option Field
  pub value : Option Num
  pub life_value : Option Num
  pub name_value : Option Text

-- a string that the client does not know is `unknown`
pub data ResultOperation : Type 0 where
  known : BatchOperation → ResultOperation
  unknown : Text → ResultOperation

pub record ToolChangeBatchResult : Type 0 where
  pub operation_type : ResultOperation
  pub client_id : Option Text
  pub success : Bool
  pub message : Option Text
  pub pot_number : Option Num
  pub tool_number : Option Num
  pub color : Option Num
  pub tool_type : Option Num
  pub offset_type : Option Field
  pub value : Option Num
  pub life_value : Option Num
  pub name_value : Option Text
  -- whether the fields without a value are null, as the server writes them, or left out
  pub nulls : Bool

abbrev bare_item : BatchOperation → Text → ToolChangeBatchItem
bare_item op key = record {
  operation_type = op;
  client_id = key;
  pot_number = none;
  tool_number = none;
  color = none;
  tool_type = none;
  offset_type = none;
  value = none;
  life_value = none;
  name_value = none;
}

-- `if (pot === null || pot < 1) return null;`
abbrev with_pot : Option Num → (Num → ToolChangeBatchItem) → Option ToolChangeBatchItem
with_pot none item = none
with_pot (some pot) item = if lt_num pot (whole 1) then none else some (item pot)

-- by the change's operation
unfoldable pub item_by : OperationType → Text → PendingChange → Option ToolChangeBatchItem
item_by OperationType.color key change = with_pot (parse_pot_number change.tool.pot_number) (λ p.
    record (bare_item BatchOperation.color key) {
      pot_number = some p;
      tool_number = some change.tool.tool_number;
      color = some (number_of change.new_value);
    })
item_by OperationType.tool_number key change =
    with_pot (parse_pot_number change.tool.pot_number) (λ p.
      record (bare_item BatchOperation.assignment key) {
        pot_number = some p;
        tool_number = some (number_of change.new_value);
      })
item_by OperationType.pot_number key change =
    let pot = number_of change.new_value in
    if not (is_finite pot) || lt_num pot (whole 1)
    then none
    else some (record (bare_item BatchOperation.assignment key) {
      pot_number = some pot;
      tool_number = some change.tool.tool_number;
    })
item_by OperationType.tool_type key change =
    with_pot (parse_pot_number change.tool.pot_number) (λ p.
      record (bare_item BatchOperation.type key) {
        pot_number = some p;
        tool_type = some (number_of change.new_value);
      })
item_by OperationType.cap key change =
    with_pot (parse_pot_number change.tool.pot_number)
      (λ p. record (bare_item BatchOperation.cap key) { pot_number = some p })
item_by OperationType.delete key change = with_pot (parse_pot_number change.tool.pot_number) (λ p.
    record (bare_item BatchOperation.delete key) {
      pot_number = some p;
      tool_number = some change.tool.tool_number;
    })
item_by OperationType.spindle key change = some (record (bare_item BatchOperation.spindle key) {
  tool_number = some (number_of change.new_value);
})
item_by OperationType.offset key change = some (record (bare_item BatchOperation.offset key) {
  tool_number = some change.tool.tool_number;
  offset_type = some change.field;
  value = some (number_of change.new_value);
})
item_by OperationType.life key change = some (record (bare_item BatchOperation.life key) {
  tool_number = some change.tool.tool_number;
  life_value = some (number_of change.new_value);
})
item_by OperationType.name key change = some (record (bare_item BatchOperation.name key) {
  tool_number = some change.tool.tool_number;
  name_value = some (take 14 (trim (string_of change.new_value)));
})

unfoldable pub pending_to_batch_item : Text → PendingChange → Option ToolChangeBatchItem
unfolding item_by
pending_to_batch_item key change = item_by change.operation_type key change

-- `result.offset_type` as a condition: present, and not the empty string
abbrev named_field : Option Field → Option Field
named_field none = none
named_field (some (Field.other s)) = if text_beq s [] then none else some (Field.other s)
named_field (some f) = some f

-- `value !== undefined`: null is taken, and is the number 0 or the text "null" when it is written to a
-- field
abbrev confirm : Bool → Field → Option Num → Option (Field × Value)
confirm nulls f none = if nulls then some (f, num (whole 0)) else none
confirm nulls f (some n) = some (f, num n)

abbrev confirm_text : Bool → Field → Option Text → Option (Field × Value)
confirm_text nulls f none = if nulls then some (f, str (codes "null")) else none
confirm_text nulls f (some s) = some (f, str s)

unfoldable pub get_confirmed_value_from_result : ToolChangeBatchResult → Option (Field × Value)
get_confirmed_value_from_result result = elim result.operation_type [
  | known BatchOperation.color ↦ confirm result.nulls Field.color result.color
  | known BatchOperation.assignment ↦ confirm result.nulls Field.tool_number result.tool_number
  | known BatchOperation.type ↦ confirm result.nulls Field.tool_type result.tool_type
  | known BatchOperation.spindle ↦ confirm result.nulls Field.tool_number result.tool_number
  | known BatchOperation.offset ↦ elim (named_field result.offset_type) [
    | none ↦ none
    | some f ↦ confirm result.nulls f result.value
  ]
  | known BatchOperation.life ↦ confirm result.nulls Field.life result.life_value
  | known BatchOperation.name ↦ confirm_text result.nulls Field.tool_name result.name_value
  | _ ↦ none
]

abbrev pub apply_confirmed : Slice → Option (Field × Value) → Tool → Tool
apply_confirmed slice none t = t
apply_confirmed slice (some (f, v)) t =
    if slice_beq slice Slice.tool && is_assignment_field f
    then apply_assignment_edge t f v
    else apply_field_to_tool t f v

-- by the change's operation
unfoldable pub apply_confirmed_by :
    OperationType → Tool → PendingChange → ToolChangeBatchResult → Tool
apply_confirmed_by OperationType.delete t change result = clear_atc_assignment t
apply_confirmed_by OperationType.pot_number t change result =
    apply_assignment_edge t Field.pot_number
      (num (get_or result.pot_number (number_of change.new_value)))
apply_confirmed_by OperationType.cap t change result = record t { is_cap = some true }
apply_confirmed_by _ t change result =
    apply_confirmed change.cache_slice (get_confirmed_value_from_result result) t

unfoldable pub apply_confirmed_tool_change : Tool → PendingChange → ToolChangeBatchResult → Tool
unfolding apply_confirmed_by
apply_confirmed_tool_change t change result =
    apply_confirmed_by change.operation_type t change result
