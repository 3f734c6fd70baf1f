-- ===== src/Tools/Fields.antt =====
-- Reading and writing one field of a tool, and the ATC assignment: `applyFieldToTool`,
-- `getToolFieldValue`, `valuesEqual`, `clearAtcAssignment`, `restoreAtcAssignment` and
-- `applyAssignmentEdge` of frontend/src/components/machine-detail/ToolsPane.tsx.
pub mod Confirm
use mathlib.Core.Option
use shatter_nc.Prelude.{
  Bool, true, false, not, ◌&&◌, ◌||◌, Option, none, some, [], if◌then◌else◌, ltb,
}
use shatter_nc.Prelude.Numbers.{Num, whole, strict_eq, is_finite, dist}
use shatter_nc.Prelude.Text.{text_beq}
use shatter_nc.Tools.{Value, num, str, number_of, string_of, Tool, EmptyPocket, Field}

-- `in_atc` and `is_cap` as conditions
abbrev pub is_true : Option Bool → Bool
is_true (some true) = true
is_true _ = false

-- `value === ''`
abbrev pub is_blank : Value → Bool
is_blank (num n) = false
is_blank (str s) = text_beq s []

unfoldable pub apply_field_to_tool : Tool → Field → Value → Tool
apply_field_to_tool t Field.color v = record t { color = some (number_of v) }
apply_field_to_tool t Field.tool_number v = record t { tool_number = number_of v }
apply_field_to_tool t Field.pot_number v =
    if is_blank v
    then record t { pot_number = none }
    else record t { pot_number = some (num (number_of v)) }
apply_field_to_tool t Field.tool_type v = record t { tool_type = some (number_of v) }
apply_field_to_tool t Field.length v = record t { length = some (number_of v) }
apply_field_to_tool t Field.diameter v = record t { diameter = some (number_of v) }
apply_field_to_tool t Field.h v = record t { length = some (number_of v) }
apply_field_to_tool t Field.d v = record t { diameter = some (number_of v) }
apply_field_to_tool t Field.life v = record t { life = some (number_of v) }
apply_field_to_tool t Field.tool_name v = record t { tool_name = some (string_of v) }
apply_field_to_tool t (Field.other s) v = t

unfoldable pub get_tool_field_value : Tool → Field → Option Value
get_tool_field_value t Field.color = Option.map num t.color
get_tool_field_value t Field.tool_number = some (num t.tool_number)
get_tool_field_value t Field.pot_number = t.pot_number
get_tool_field_value t Field.tool_type = Option.map num t.tool_type
get_tool_field_value t Field.length = Option.map num t.length
get_tool_field_value t Field.diameter = Option.map num t.diameter
get_tool_field_value t Field.life = Option.map num t.life
get_tool_field_value t Field.tool_name = Option.map str t.tool_name
get_tool_field_value t Field.h = Option.map num t.length
get_tool_field_value t Field.d = Option.map num t.diameter
get_tool_field_value t (Field.other s) = none

-- two numbers less than a millionth apart, or the same string
unfoldable pub values_equal : Value → Value → Bool
values_equal (num a) (num b) = is_finite a && is_finite b && ltb (dist a b) 1
values_equal (str s) (str t) = text_beq s t
values_equal _ _ = false

unfoldable pub empty_pocket_as_tool : EmptyPocket → Tool
empty_pocket_as_tool p = record {
  pot_number = some (num p.pot_number);
  tool_number = whole 0;
  tool_name = none;
  diameter = none;
  length = none;
  group = none;
  life = none;
  tool_type = p.tool_type;
  color = p.color;
  in_atc = none;
  is_cap = p.is_cap;
}

unfoldable pub clear_atc_assignment : Tool → Tool
clear_atc_assignment t = record t {
  in_atc = some false;
  pot_number = none;
  group = none;
  tool_type = none;
  color = none;
}

unfoldable pub restore_atc_assignment : Tool → Tool → Tool
restore_atc_assignment t snapshot = record t {
  tool_number = snapshot.tool_number;
  in_atc = some true;
  pot_number = snapshot.pot_number;
  group = snapshot.group;
  tool_type = snapshot.tool_type;
  color = snapshot.color;
}

unfoldable pub apply_assignment_edge : Tool → Field → Value → Tool
unfolding apply_field_to_tool clear_atc_assignment
apply_assignment_edge t Field.tool_number v =
    if strict_eq (number_of v) (whole 0)
    then clear_atc_assignment t
    else apply_field_to_tool t Field.tool_number v
apply_assignment_edge t Field.pot_number v =
    let next = apply_field_to_tool t Field.pot_number v in
    if is_blank v then clear_atc_assignment next else record next { in_atc = some true }
apply_assignment_edge t f v = apply_field_to_tool t f v
