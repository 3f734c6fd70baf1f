-- ===== src/Machines.antt =====
-- What a machine's card and overview say of it: frontend/src/utils/machineSummaryStatus.ts,
-- frontend/src/utils/alarmStopLevel.ts and the helpers of
-- frontend/src/components/machine-detail/MachineOverviewPane.tsx and frontend/src/components/MachineCard.tsx.
pub mod Editing
pub mod Alarms
use shatter_nc.Prelude.{
  ℕ, ◌-◌, Bool, true, false, not, ◌&&◌, ◌||◌, Option, none, some, List, [], ◌∷◌, ◌++◌,
  if◌then◌else◌, leb, ltb, length, filter, take,
}
use shatter_nc.Prelude.Sort.{sort_by}
use shatter_nc.Prelude.Numbers.{Num, nan, pos, neg}
use shatter_nc.Prelude.Text.{Text, codes, text_beq, to_lower, trim, includes, parse_int}

pub record MachineStatus : Type 0 where
  pub is_online : Bool
  pub status : Option Text
  pub program_name : Option Text

-- `machine.status?.toLowerCase() || ''`
abbrev pub lower_status : Option Text → Text
lower_status none = []
lower_status (some s) = to_lower s

unfoldable pub machine_summary_status_display : MachineStatus → Text
machine_summary_status_display machine =
    let status = lower_status machine.status in
    if not machine.is_online
    then codes "OFF"
    else if text_beq status (codes "error") || includes status (codes "error")
    then codes "ERROR"
    else if text_beq status (codes "operating")
        || includes status (codes "operating")
        || includes status (codes "running")
    then codes "OPERATING"
    else if text_beq status (codes "standby")
        || includes status (codes "standby")
        || includes status (codes "idle")
    then codes "IDLE"
    else if text_beq status (codes "stopped") || includes status (codes "stopped")
    then codes "STOPPED"
    else if text_beq status (codes "off") || includes status (codes "off")
    then codes "OFF"
    else codes "UNKNOWN"

unfoldable pub machine_summary_status_value_class : MachineStatus → Text
machine_summary_status_value_class machine =
    let status = lower_status machine.status in
    if not machine.is_online
    then codes "text-error"
    else if text_beq status (codes "error") || includes status (codes "error")
    then codes "text-error"
    else codes "text-success"

unfoldable pub active_program_name_from_machine : MachineStatus → Option Text
active_program_name_from_machine machine = active_name machine.program_name
  where
    active_name : Option Text → Option Text
    active_name none = none
    active_name (some s) =
        if not (text_beq s [])
          && not (text_beq s (codes "----"))
          && not (text_beq s (codes "undefined"))
          && not (text_beq s (codes "null"))
          && not (text_beq (trim s) [])
        then some s
        else none

-- the kind of a status, by which the card is colored
pub data StatusType : Type 0 where
  offline error running idle stopped : StatusType

unfoldable pub get_status_type : MachineStatus → StatusType
get_status_type machine =
    let status = lower_status machine.status in
    if not machine.is_online
    then StatusType.offline
    else if text_beq status (codes "error") || includes status (codes "error")
    then StatusType.error
    else if text_beq status (codes "operating") || includes status (codes "running")
    then StatusType.running
    else if text_beq status (codes "standby") || includes status (codes "idle")
    then StatusType.idle
    else if text_beq status (codes "stopped") || text_beq status (codes "off")
    then StatusType.stopped
    else StatusType.idle

-- an alarm, `A` standing for what is only shown of it
pub record Alarm (A : Type 0) : Type 0 where
  pub stop_level : Option Text
  pub shown : A

-- a level from 1 to 5, as millionths
abbrev pub level_of : Num → Option ℕ
level_of nan = none
level_of (neg n) = none
level_of (pos m) = if leb 1_000_000 m && leb m 5_000_000 then some m else none

abbrev pub level_or : Option ℕ → ℕ
level_or none = 3_000_000
level_or (some level) = level

unfoldable pub alarm_stop_level : Option Text → ℕ
alarm_stop_level none = 3_000_000
alarm_stop_level (some raw) =
    if text_beq raw [] then 3_000_000 else level_or (level_of (parse_int raw))

abbrev pub alarm_line_class : Option Text → Text
alarm_line_class stop_level =
    let level = alarm_stop_level stop_level in
    if leb 4_000_000 level
    then codes "text-error"
    else if leb 3_000_000 level
    then codes "text-warning"
    else codes "text-dim"

module _ {A : Type 0} where
  -- the comparison is not positive: the higher level is first
  abbrev pub alarm_before : Alarm A → Alarm A → Bool
  alarm_before a b = leb (alarm_stop_level b.stop_level) (alarm_stop_level a.stop_level)

  abbrev pub is_critical : Alarm A → Bool
  is_critical a = leb 4_000_000 (alarm_stop_level a.stop_level)

  unfoldable pub sorted_alarms : List (Alarm A) → List (Alarm A)
  sorted_alarms = sort_by alarm_before

  -- the two columns of the alarm pane, before they are cut
  unfoldable pub highest_severity_alarms : List (Alarm A) → List (Alarm A)
  unfolding sorted_alarms
  highest_severity_alarms alarms = filter is_critical (sorted_alarms alarms)

  unfoldable pub other_alarms : List (Alarm A) → List (Alarm A)
  unfolding sorted_alarms
  other_alarms alarms = filter (λ (a : Alarm A). not (is_critical a)) (sorted_alarms alarms)

  -- a column as it is shown: all of it where the pane is expanded, else ten alarms at most
  abbrev pub cut : Bool → List (Alarm A) → List (Alarm A)
  cut is_expanded column = if is_expanded then column else take 10 column

  unfoldable pub visible_highest : Bool → List (Alarm A) → List (Alarm A)
  visible_highest is_expanded alarms = cut is_expanded (highest_severity_alarms alarms)

  unfoldable pub visible_others : Bool → List (Alarm A) → List (Alarm A)
  visible_others is_expanded alarms = cut is_expanded (other_alarms alarms)

  -- whether the pane offers to show more
  unfoldable pub has_more_alarms : Bool → List (Alarm A) → Bool
  has_more_alarms is_expanded alarms =
      not is_expanded && ltb 10 (length (highest_severity_alarms alarms))
      || not is_expanded && ltb 10 (length (other_alarms alarms))
