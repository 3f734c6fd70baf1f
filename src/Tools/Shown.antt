-- ===== src/Tools/Shown.antt =====
-- What the tool table says about itself: the warning about the machine's state, the age of the data,
-- and the state of a row, of frontend/src/components/machine-detail/ToolsPane.tsx.
use shatter_nc.Prelude.{
  ℕ, ◌-◌, ◌*◌, ◌/◌, ◌%◌, max, Bool, true, false, not, ◌&&◌, ◌||◌, Option, none, some, List, [], ◌∷◌,
  ◌++◌, if◌then◌else◌, ltb, nat_beq, any,
}
use mathlib.Core.List.{foldl}
use shatter_nc.Prelude.Numbers.{Num, whole, strict_eq, lt_num, is_finite}
use shatter_nc.Prelude.Text.{Text, codes, text_beq, to_lower, show_nat, parse_int}
use shatter_nc.Tools.{Tool}
use shatter_nc.Tools.Fields.{is_true}

-- `memOperationStatus !== undefined && memOperationStatus !== 0`
abbrev pub is_program_active : Option Num → Bool
is_program_active none = false
is_program_active (some n) = not (strict_eq n (whole 0))

abbrev pub is_mode : ℕ → Option Num → Bool
is_mode mode none = false
is_mode mode (some n) = strict_eq n (whole mode)

abbrev pub is_operating : Option Text → Bool
is_operating none = false
is_operating (some s) = text_beq (to_lower s) (codes "operating")

abbrev pub is_edit_mode : Option Num → Bool
is_edit_mode mode = is_mode 3 mode || is_mode 4 mode || is_mode 5 mode

-- a status that is missing or empty, and no mode
abbrev pub is_unknown : Option Text → Option Num → Bool
is_unknown none none = true
is_unknown (some []) none = true
is_unknown _ _ = false

unfoldable pub machine_state_warning : Option Text → Option Num → Option Num → Option Text
machine_state_warning machine_status mem_mode mem_operation_status =
    let program_active = is_program_active mem_operation_status in
    if is_unknown machine_status mem_mode
    then none
    else if is_operating machine_status && program_active
    then some (codes "Machine reports operating — push may be rejected by the control.")
    else if is_mode 2 mem_mode && program_active
    then some (codes "Program operation in progress — push may be rejected by the control.")
    else if is_edit_mode mem_mode
    then some (codes "Machine is in edit mode — exit edit mode before pushing ATC changes.")
    else none

-- When the data were updated: a date string, with the time that it is parsed to, or a time.
pub data UpdatedAt : Type 0 where
  date : Option ℕ → UpdatedAt
  stamp : ℕ → UpdatedAt

-- `ws_at` is `toolsTimestamp || toolTableTimestamp`
unfoldable pub tools_data_last_updated_at : Option (Option ℕ) → Option ℕ → Option UpdatedAt
tools_data_last_updated_at (some parsed) cache_timestamp = some (UpdatedAt.date parsed)
tools_data_last_updated_at none none = none
tools_data_last_updated_at none (some t) = some (UpdatedAt.stamp t)

-- `toolExpectedIntervalMs`
unfoldable pub tool_expected_interval_ms : Option ℕ → ℕ
tool_expected_interval_ms none = 30_000
tool_expected_interval_ms (some seconds) = max (seconds * 1_000) 5_000

-- A time in the future has the age 0.
unfoldable pub tools_age_ms : ℕ → Option UpdatedAt → Option ℕ
tools_age_ms now none = none
tools_age_ms now (some (UpdatedAt.date none)) = none
tools_age_ms now (some (UpdatedAt.date (some t))) = some (now - t)
tools_age_ms now (some (UpdatedAt.stamp t)) = if nat_beq t 0 then none else some (now - t)

unfoldable pub is_tools_snapshot_stale : ℕ → Option ℕ → ℕ → Bool
is_tools_snapshot_stale visible_tools_count none interval_ms = not (nat_beq visible_tools_count 0)
is_tools_snapshot_stale visible_tools_count (some age_ms) interval_ms =
    not (nat_beq visible_tools_count 0) && ltb (interval_ms * 2) age_ms

unfoldable pub format_tools_age : Option ℕ → Text
format_tools_age none = codes "unknown age"
format_tools_age (some age_ms) =
    let secs = age_ms / 1_000 in
    if ltb secs 60
    then show_nat secs ++ codes "s old"
    else show_nat (secs / 60) ++ codes "m " ++ show_nat (secs % 60) ++ codes "s old"

pub data ToolRowState : Type 0 where
  spindle program_atc program atc : ToolRowState

unfoldable pub is_spindle_tool_row : Tool → Option Num → Bool
is_spindle_tool_row tool none = false
is_spindle_tool_row tool (some n) = strict_eq tool.tool_number n

-- `programToolNumbers` is a set, here by its members
unfoldable pub get_tool_row_state : Tool → Option Num → List Num → Option ToolRowState
unfolding is_spindle_tool_row
get_tool_row_state tool spindle_tool_number program_tool_numbers =
    let in_program = any (strict_eq tool.tool_number) program_tool_numbers in
    let in_atc = is_true tool.in_atc in
    if is_spindle_tool_row tool spindle_tool_number
    then some ToolRowState.spindle
    else if in_program && in_atc
    then some ToolRowState.program_atc
    else if in_program
    then some ToolRowState.program
    else if in_atc
    then some ToolRowState.atc
    else none

abbrev pub tool_row_state_titles : ToolRowState → Text
tool_row_state_titles ToolRowState.spindle = codes "Tool is in the spindle"
tool_row_state_titles ToolRowState.program_atc = codes "Used in current program and assigned to ATC"
tool_row_state_titles ToolRowState.program = codes "Used in current program (not in ATC)"
tool_row_state_titles ToolRowState.atc = codes "Assigned to ATC (not used in current program)"

-- `nums.add(n)`, for numbers above 0
unfoldable pub add_tool_number : List Num → Num → List Num
add_tool_number nums n =
    if is_finite n && lt_num (whole 0) n && not (any (strict_eq n) nums)
    then nums ++ n ∷ []
    else nums

abbrev pub add_listed : List Num → Option Num → List Num
add_listed nums none = nums
add_listed nums (some n) = add_tool_number nums n

-- the keys of the validated tools, and the tool numbers of the program's metadata
unfoldable pub extract_program_tool_numbers : List Text → List (Option Num) → List Num
unfolding add_tool_number
extract_program_tool_numbers keys listed =
    foldl add_listed
      (foldl (λ (nums : List Num) (key : Text). add_tool_number nums (parse_int key)) [] keys)
      listed
