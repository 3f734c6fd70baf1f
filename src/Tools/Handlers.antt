-- ===== src/Tools/Handlers.antt =====
-- The edit handlers of the tool pane, from `handleColorChange` to `handleNameChange` of
-- frontend/src/components/machine-detail/ToolsPane.tsx, on the pane's state.
pub mod Guards
use mathlib.Core.Option.{get_or}
use shatter_nc.Prelude.{
  Bool, true, false, not, ◌&&◌, ◌||◌, Option, none, some, List, [], ◌∷◌, ◌++◌, if◌then◌else◌, take,
}
use shatter_nc.Prelude.Maps.{Map, insert, erase}
use shatter_nc.Prelude.Numbers.{Num, whole, strict_eq, lt_num, is_finite}
use shatter_nc.Prelude.Text.{
  Text, codes, text_beq, text_eq, trim, trim_end, parse_int, parse_float, show_num, pad_start,
}
use shatter_nc.Tools.{Value, num, str, Tool, Field, OperationType, Slice, Pending}
use shatter_nc.Tools.Pots.{parse_pot_number, is_spindle_pot}
use shatter_nc.Tools.UnifiedView.{truthy}
use shatter_nc.Tools.Fields.{is_true}
use shatter_nc.Tools.Pending.{slice_beq}
use shatter_nc.Tools.Occupancy.{get_pot_occupant_tool, find_tool_pot_assignment}
use shatter_nc.Tools.Staging.{Staged, Edit, boolean, stage_pending_change, handle_discard_changes}

-- The state that the handlers read and write, and the props `machineId`, of which only the presence
-- matters, and `numPockets`.
pub record ToolsPane : Type 0 where
  pub machine_id : Bool
  pub num_pockets : Num
  pub staged : Staged
  pub field_warnings : Map Text Text

abbrev pub stage : Tool → Field → Value → Value → OperationType → Slice → ToolsPane → ToolsPane
stage tool field old_value new_value op slice p = record p {
  staged =
      stage_pending_change
        (record { tool = tool; field = field; operation_type = op; cache_slice = slice }) old_value
        new_value p.staged;
}

abbrev pub set_field_warning : Text → Text → ToolsPane → ToolsPane
set_field_warning key message p = record p { field_warnings = insert key message p.field_warnings }

abbrev pub clear_field_warning : Text → ToolsPane → ToolsPane
clear_field_warning key p = record p { field_warnings = erase key p.field_warnings }

pot_assign_warning_key : Num → Text
pot_assign_warning_key tool_number = codes "pot-tool-" ++ show_num tool_number

pocket_assign_warning_key : Num → Text
pocket_assign_warning_key pot_number = codes "pocket-" ++ show_num pot_number

in_use : Num → Num → Text
in_use pot occupant =
    codes "Pot "
    ++ show_num pot
    ++ codes " in use (T"
    ++ pad_start 2 (show_num occupant)
    ++ codes ") — clear first"

already_in : Num → Num → Text
already_in tool_number pot =
    codes "T"
    ++ pad_start 2 (show_num tool_number)
    ++ codes " already in pot "
    ++ show_num pot
    ++ codes " — clear first"

-- whether a pot is truthy
abbrev pub has_pot_number : Option Value → Bool
has_pot_number none = false
has_pot_number (some v) = boolean v

abbrev pub occupant_of : ToolsPane → Num → Option Num → Option Num
occupant_of p pot exclude = get_pot_occupant_tool p.staged.cache p.staged.pending pot exclude

unfoldable pub handle_color_change : Tool → Num → ToolsPane → ToolsPane
handle_color_change tool new_color p =
    if not p.machine_id || not (has_pot_number tool.pot_number) || not (is_true tool.in_atc)
    then p
    else stage tool Field.color (num (get_or tool.color (whole 0))) (num new_color)
        OperationType.color Slice.tool p

-- 0 entered into an empty pocket marks a cap
unfoldable pub cap_pocket : Tool → Num → ToolsPane → ToolsPane
unfolding pocket_assign_warning_key in_use
cap_pocket tool pot p = elim (occupant_of p pot none) [
  | some occupant ↦ set_field_warning (pocket_assign_warning_key pot) (in_use pot occupant) p
  | none ↦
      stage tool (Field.other (codes "is_cap"))
        (num (if is_true tool.is_cap then whole 1 else whole 0)) (num (whole 1)) OperationType.cap
        Slice.pocket (clear_field_warning (pocket_assign_warning_key pot) p)
]

-- the pot that a tool sits in, if it is not this one
abbrev pub elsewhere : Num → Option Num → Option Num
elsewhere pot none = none
elsewhere pot (some existing) = if strict_eq existing pot then none else some existing

-- a tool number entered into an empty pocket
unfoldable pub assign_pocket : Tool → Num → Num → ToolsPane → ToolsPane
unfolding pocket_assign_warning_key in_use already_in
assign_pocket tool pot parsed p = elim (occupant_of p pot none) [
  | some occupant ↦ set_field_warning (pocket_assign_warning_key pot) (in_use pot occupant) p
  | none ↦ elim (elsewhere pot (find_tool_pot_assignment p.staged.cache p.staged.pending parsed)) [
    | some existing ↦
        set_field_warning (pocket_assign_warning_key pot) (already_in parsed existing) p
    | none ↦
        stage tool Field.tool_number (num tool.tool_number) (num parsed) OperationType.tool_number
          Slice.pocket (clear_field_warning (pocket_assign_warning_key pot) p)
  ]
]

unfoldable pub pocket_number : Tool → Num → ToolsPane → ToolsPane
unfolding cap_pocket assign_pocket
pocket_number tool parsed p = elim (parse_pot_number tool.pot_number) [
  | none ↦ p
  | some pot ↦
      if lt_num pot (whole 1)
      then p
      else if strict_eq parsed (whole 0)
      then cap_pocket tool pot p
      else if lt_num parsed (whole 1) || lt_num (whole 999) parsed
      then p
      else assign_pocket tool pot parsed p
]

unfoldable pub handle_tool_number_change : Tool → Text → Slice → ToolsPane → ToolsPane
unfolding pocket_number
handle_tool_number_change tool raw slice p =
    let parsed = parse_int raw in
    if not p.machine_id || not (is_finite parsed)
    then p
    else if slice_beq slice Slice.spindle || is_spindle_pot tool.pot_number
    then stage tool Field.tool_number (num tool.tool_number) (num parsed) OperationType.spindle
        Slice.spindle p
    else if slice_beq slice Slice.pocket
    then pocket_number tool parsed p
    else p

-- the part of `handlePotNumberChange` for a pot in range
unfoldable pub assign_pot_number : Tool → Num → ToolsPane → ToolsPane
unfolding pot_assign_warning_key in_use
assign_pot_number tool parsed p = elim (occupant_of p parsed (some tool.tool_number)) [
  | some occupant ↦
      set_field_warning (pot_assign_warning_key tool.tool_number) (in_use parsed occupant) p
  | none ↦
      stage tool Field.pot_number (get_or tool.pot_number (str [])) (num parsed)
        OperationType.pot_number Slice.tool
        (clear_field_warning (pot_assign_warning_key tool.tool_number) p)
]

unfoldable pub handle_pot_number_change : Tool → Text → ToolsPane → ToolsPane
unfolding pot_assign_warning_key assign_pot_number
handle_pot_number_change tool raw p =
    let trimmed = trim raw in
    let parsed = parse_int trimmed in
    if not p.machine_id || not (truthy tool.tool_number)
    then p
    else if text_beq trimmed []
    then clear_field_warning (pot_assign_warning_key tool.tool_number) p
    else if not (is_finite parsed) || lt_num parsed (whole 1) || lt_num p.num_pockets parsed
    then p
    else assign_pot_number tool parsed p

unfoldable pub handle_tool_type_change : Tool → Text → ToolsPane → ToolsPane
handle_tool_type_change tool raw p =
    let parsed = parse_int raw in
    if not p.machine_id
      || not (has_pot_number tool.pot_number)
      || not (is_true tool.in_atc)
      || is_spindle_pot tool.pot_number
    then p
    else if not
        (strict_eq parsed (whole 1) || strict_eq parsed (whole 2) || strict_eq parsed (whole 3))
    then p
    else stage tool Field.tool_type (num (get_or tool.tool_type (whole 1))) (num parsed)
        OperationType.tool_type Slice.tool p

unfoldable pub handle_delete_from_pot : Tool → ToolsPane → ToolsPane
handle_delete_from_pot tool p =
    if not p.machine_id
      || not (has_pot_number tool.pot_number)
      || is_spindle_pot tool.pot_number
      || not (is_true tool.in_atc)
      || not (truthy tool.tool_number)
    then p
    else stage tool Field.tool_number (num tool.tool_number) (num (whole 0)) OperationType.delete
        Slice.tool p

pub data Offset : Type 0 where
  h d : Offset

abbrev pub offset_field : Offset → Field
offset_field Offset.h = Field.h
offset_field Offset.d = Field.d

abbrev pub offset_of : Offset → Tool → Option Num
offset_of Offset.h tool = tool.length
offset_of Offset.d tool = tool.diameter

unfoldable pub handle_offset_change : Tool → Offset → Text → ToolsPane → ToolsPane
handle_offset_change tool offset raw p =
    let parsed = parse_float raw in
    if not p.machine_id || not (is_finite parsed)
    then p
    else stage tool (offset_field offset) (num (get_or (offset_of offset tool) (whole 0)))
        (num parsed) OperationType.offset Slice.tool p

unfoldable pub handle_life_change : Tool → Text → ToolsPane → ToolsPane
handle_life_change tool raw p =
    let parsed = parse_int raw in
    if not p.machine_id || not (is_finite parsed) || lt_num parsed (whole 0)
    then p
    else stage tool Field.life (num (get_or tool.life (whole 0))) (num parsed) OperationType.life
        Slice.tool p

unfoldable pub handle_name_change : Tool → Text → ToolsPane → ToolsPane
handle_name_change tool raw p =
    if not p.machine_id
    then p
    else stage tool Field.tool_name (str (trim_end (get_or tool.tool_name [])))
        (str (take 14 (trim raw))) OperationType.name Slice.tool p

-- nothing is done where nothing is staged
unfoldable pub discard_by : Pending → ToolsPane → ToolsPane
discard_by [] p = p
discard_by (_ ∷ _) p = record p { field_warnings = []; staged = handle_discard_changes p.staged }

unfoldable pub handle_discard : ToolsPane → ToolsPane
unfolding discard_by
handle_discard p = discard_by p.staged.pending p
