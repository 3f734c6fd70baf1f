-- ===== src/Examples/Machines.antt =====
-- A machine's trace, its files, its alarms, and its settings when they are edited.
use shatter_nc.Prelude.{
  ℕ, zero, ◌<◌, ◌≡◌, ◌≢◌, refl, Bool, true, false, not, ◌&&◌, ◌||◌, Option, none, some, List, [],
  ◌∷◌, ◌++◌, any, arith, ltb, nat_beq, filter, length,
}
use shatter_nc.Prelude.Sort.{IsSorted}
use shatter_nc.Prelude.Text.{Text, codes, text_beq}
use shatter_nc.Timeline.Oscilloscope.{StatusEvent, build_oscilloscope_data}
use shatter_nc.Timeline.Oscilloscope.Trace.{IsTrace, build_oscilloscope_data-IsTrace}
use shatter_nc.Files.{Program, SortBy, SortDirection, Comparison, display_programs}
use shatter_nc.Files.Listed.{directory_first, display_programs-listed}
use shatter_nc.Machines.{
  Alarm, alarm_before, is_critical, sorted_alarms, highest_severity_alarms, other_alarms,
  visible_highest, visible_others, has_more_alarms,
}
use shatter_nc.Machines.Alarms.{columns-sorted_alarms}
use shatter_nc.Machines.Editing.{Form, Card, has_unsaved_changes, perform_edit_cancel}
use shatter_nc.Dashboard.{
  Dashboard, DeleteTarget, can_edit_machine, can_edit_compressor, edit_machine, edit_compressor,
  confirm_delete,
}
use shatter_nc.Dashboard.Exclusive.{Step, Reach, IsExclusive, Reach-IsExclusive}
use shatter_nc.Dashboard.Deleted.{confirm_delete-edited}
use shatter_nc.Machines.Editing.Baseline.{saved_and_reopened, saved_and_reopened-unsaved}

abbrev event : ℕ → Text → StatusEvent
event t status = record { time = some t; status = status; error = none; is_heartbeat = none }

-- The events come in the wrong order, and one is before the window.
abbrev history : List StatusEvent
history =
    event 3_000 (codes "Stopped") ∷ event 1_500 (codes "operating") ∷ event 500 (codes "off") ∷ []

build_oscilloscope_data-IsTrace_example :
    IsTrace (build_oscilloscope_data history 1_000 5_000 (some (codes "standby")) (some true) none)
build_oscilloscope_data-IsTrace_example =
    build_oscilloscope_data-IsTrace 1_000 5_000 (omega arith) history (some (codes "standby"))
      (some true) none (refl, (refl, (refl, tt)))

-- names compared by their lengths
abbrev by_length : Text → Text → Comparison
by_length [] [] = Comparison.same
by_length [] (d ∷ t) = Comparison.less
by_length (c ∷ s) [] = Comparison.greater
by_length (c ∷ s) (d ∷ t) = by_length s t

abbrev listed : Text → Bool → Program
listed name is_directory = record {
  name = name;
  size = 10;
  modified = none;
  is_directory = is_directory;
  program_note = none;
}

abbrev programs : List Program
programs = listed (codes "O1.NC") false ∷ listed (codes "parts") true ∷ []

abbrev is_parts : Program → Bool
is_parts p = text_beq p.name (codes "parts")

-- The directory is found, and stands before the file.
display_programs-listed_example :
    (any is_parts
        (display_programs by_length programs [] SortBy.name SortDirection.asc (codes "/sub"))
      ≡ true)
    × IsSorted directory_first
        (display_programs by_length programs [] SortBy.name SortDirection.asc (codes "/sub"))
unfolding shatter_nc.Prelude.Text.trim
display_programs-listed_example =
    display_programs-listed by_length programs [] SortBy.name SortDirection.asc is_parts
      (codes "/sub")

abbrev alarm : ℕ → Text → Alarm ℕ
alarm n level = record { stop_level = some level; shown = n }

abbrev alarms : List (Alarm ℕ)
alarms = alarm 1 (codes "2") ∷ alarm 2 (codes "5") ∷ alarm 3 (codes "?") ∷ []

columns-sorted_alarms_example :
    (visible_highest false alarms ++ visible_others false alarms ≡ sorted_alarms alarms)
    × (length (filter is_critical (sorted_alarms alarms)) ≡ length (filter is_critical alarms))
    × IsSorted alarm_before (sorted_alarms alarms)
unfolding has_more_alarms highest_severity_alarms other_alarms sorted_alarms
    shatter_nc.Prelude.Sort.sort_by shatter_nc.Prelude.Sort.insert_sorted
    shatter_nc.Machines.alarm_stop_level shatter_nc.Prelude.Text.parse_int
columns-sorted_alarms_example = columns-sorted_alarms false alarms is_critical refl

-- the settings with the address, the other fields being a port
abbrev settings : Text → Form ℕ
settings address = record {
  ip_address = address;
  ftp_username = codes "cnc";
  ftp_password = [];
  control_version = codes "AUTO";
  rest = 21;
}

-- The address has been changed.
abbrev card : Card ℕ
card = record {
  is_editing = true;
  edit_machine_name = codes "M1";
  edit_form_data = settings (codes "10.0.0.2");
  original_form_data = some (settings (codes "10.0.0.1"));
  original_machine_name = some (codes "M1");
  ftp_credentials_configured = true;
  edit_error = none;
  edit_success = false;
  is_edit_saving = false;
  show_save_confirm_modal = false;
  timers = 0;
  switch_requests = 0;
}

-- After the save the new address counts as unsaved, and a cancel brings the old one back.
saved_and_reopened-unsaved_example :
    (has_unsaved_changes nat_beq (saved_and_reopened nat_beq (settings []) [] card) ≡ true)
    × ((perform_edit_cancel
          (settings [])
          []
          (saved_and_reopened nat_beq (settings []) [] card)).edit_form_data
        ≡ settings (codes "10.0.0.1"))
    × ((perform_edit_cancel
          (settings [])
          []
          (saved_and_reopened nat_beq (settings []) [] card)).edit_machine_name
        ≡ codes "M1")
unfolding has_unsaved_changes shatter_nc.Machines.Editing.edit_form_valid
    shatter_nc.Prelude.Text.trim
saved_and_reopened-unsaved_example =
    saved_and_reopened-unsaved nat_beq (settings []) [] card (settings (codes "10.0.0.1"))
      (codes "M1") refl refl refl refl

abbrev quiet : Dashboard
quiet = record {
  edit_mode = false;
  expanded_machine = none;
  expanded_compressor = none;
  editing_machine = none;
  editing_compressor = none;
  pending_edit_machine = none;
  pending_collapse_machine = none;
  pending_collapse_compressor = none;
  scroll_to_status = none;
  show_delete_confirm = false;
  deleting_target = none;
  expansion_chrome = false;
  layout_edit_mode = false;
}

-- Machine 4 is edited, and a click on the edit button of compressor 2 changes nothing.
clicked : Reach quiet (edit_compressor 2 (edit_machine 4 quiet))
clicked = Reach.next (Reach.next Reach.here (Step.edited_machine 4)) (Step.edited_compressor 2)

Reach-IsExclusive_example : IsExclusive (edit_compressor 2 (edit_machine 4 quiet))
unfolding IsExclusive
Reach-IsExclusive_example = Reach-IsExclusive (refl, refl) clicked

-- Machine 4 is edited and its deletion is asked for.
abbrev asked : Dashboard
asked = record quiet {
  editing_machine = some 4;
  deleting_target = some (DeleteTarget.cnc 4);
  show_delete_confirm = true;
}

five_four : ◌≢◌ {A = ℕ} 5 4
five_four e = omega (arith, e)

confirm_delete-edited_example :
    ((confirm_delete true asked).editing_machine ≡ some 4)
    × (can_edit_machine 5 (confirm_delete true asked) ≡ false)
    × (can_edit_compressor 2 (confirm_delete true asked) ≡ false)
confirm_delete-edited_example = confirm_delete-edited asked 4 5 2 refl refl five_four
