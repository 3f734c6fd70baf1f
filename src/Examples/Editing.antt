-- ===== src/Examples/Editing.antt =====
-- Editing a drill, tool 7, in pot 3, on a pane with 21 pockets.
use mathlib.Core.List.{foldl}
use shatter_nc.Prelude.{Bool, String, ◌≡◌, ◌⊎◌, refl, true, false, none, some, List, [], ◌∷◌}
use shatter_nc.Prelude.Maps.{lookup}
use shatter_nc.Prelude.Numbers.{whole, is_finite, lt_num}
use shatter_nc.Prelude.Text.{codes, text_eq, parse_int, trim}
use shatter_nc.Tools.{
  Value, num, str, Tool, EmptyPocket, UnifiedToolView, SpindleAssignment, Field, OperationType,
  Slice, PendingChange,
}
use shatter_nc.Tools.Staging.{Staged, staged_change, stage_pending_change, handle_discard_changes}
use shatter_nc.Tools.Staging.Entries.{AllDiffer, stage_pending_change-AllDiffer}
use shatter_nc.Tools.Staging.Undo.{
  tool_edit, spindle_edit, stage_pending_change-undo, stage_pending_change-spindle,
}
use shatter_nc.Tools.Staging.Discard.{handle_discard_changes-undo}
use shatter_nc.Tools.Handlers.{ToolsPane, occupant_of, handle_pot_number_change, Offset}
use shatter_nc.Tools.Batch.{
  ToolChangeBatchItem, ToolChangeBatchResult, ResultOperation, BatchOperation,
}
use shatter_nc.Tools.Push.{Pushing, Answer, is_empty, batch_items, begin_push, on_answer, on_loaded}
use shatter_nc.Tools.Push.Confirmed.{Running, on_answer-lookup, begin_push-once}
use shatter_nc.Tools.Handlers.Guards.{
  Input, handle, handle-AllDiffer, handle_pot_number_change-free,
}

abbrev milling_drill : Tool
milling_drill = record {
  pot_number = some (num (whole 3));
  tool_number = whole 7;
  tool_name = some (codes "DRILL");
  diameter = some (whole 6);
  length = none;
  group = none;
  life = none;
  tool_type = none;
  color = some (whole 1);
  in_atc = some true;
  is_cap = none;
}

abbrev capped : EmptyPocket
capped = record { pot_number = whole 4; tool_type = none; color = none; is_cap = some true }

abbrev view : UnifiedToolView
view = record {
  tools = milling_drill ∷ [];
  empty_pockets = capped ∷ [];
  spindle = some (record { tool_number = whole 7; tool_type = none; color = none; group = none });
  atc_available = true;
}

abbrev start : Staged
start = record { pending = []; cache = view }

stage_pending_change-AllDiffer_example :
    AllDiffer
      (stage_pending_change
        (tool_edit milling_drill Field.life OperationType.life)
        (num (whole 0))
        (num (whole 50))
        start).pending
stage_pending_change-AllDiffer_example =
    stage_pending_change-AllDiffer (tool_edit milling_drill Field.life OperationType.life)
      (num (whole 0)) (num (whole 50)) start tt

stage_pending_change-undo_example :
    stage_pending_change
      (tool_edit milling_drill Field.color OperationType.color)
      (num (whole 4))
      (num (whole 1))
      (stage_pending_change
        (tool_edit milling_drill Field.color OperationType.color)
        (num (whole 1))
        (num (whole 4))
        start)
    ≡ start
unfolding lookup shatter_nc.Tools.Fields.values_equal shatter_nc.Tools.Fields.apply_field_to_tool
    shatter_nc.Tools.number_of
stage_pending_change-undo_example =
    stage_pending_change-undo milling_drill Field.color OperationType.color (num (whole 1))
      (num (whole 4)) (num (whole 4)) start refl refl refl refl refl ((λ _. refl), tt)

-- The spindle goes from tool 7 to tool 9 and back, and keeps showing tool 9.
stage_pending_change-spindle_example :
    ((stage_pending_change (spindle_edit milling_drill) (num (whole 9)) (num (whole 7)) (
        stage_pending_change
          (spindle_edit milling_drill)
          (num (whole 7))
          (num (whole 9))
          start)).pending
      ≡ [])
    × ((stage_pending_change (spindle_edit milling_drill) (num (whole 9)) (num (whole 7)) (
          stage_pending_change
            (spindle_edit milling_drill)
            (num (whole 7))
            (num (whole 9))
            start)).cache.spindle
        ≡ some (record { tool_number = whole 9; tool_type = none; color = none; group = none }))
unfolding lookup shatter_nc.Tools.Fields.values_equal shatter_nc.Tools.number_of
stage_pending_change-spindle_example =
    stage_pending_change-spindle milling_drill (num (whole 7)) (num (whole 9)) (num (whole 9)) start
      refl refl refl

handle_discard_changes-undo_example :
    handle_discard_changes (
      stage_pending_change
        (tool_edit milling_drill Field.color OperationType.color)
        (num (whole 1))
        (num (whole 4))
        start)
    ≡ start
unfolding shatter_nc.Tools.Fields.values_equal shatter_nc.Tools.Fields.apply_field_to_tool
    shatter_nc.Tools.number_of
handle_discard_changes-undo_example =
    handle_discard_changes-undo milling_drill Field.color OperationType.color (num (whole 1))
      (num (whole 4)) view refl refl refl ((λ _. refl), tt)

-- tool 9 put into the capped pocket 4
abbrev into_capped : PendingChange
into_capped = record {
  tool = record milling_drill { pot_number = some (num (whole 4)); tool_number = whole 0 };
  field = Field.tool_number;
  old_value = num (whole 0);
  new_value = num (whole 9);
  operation_type = OperationType.tool_number;
  cache_slice = Slice.pocket;
}

abbrev pane : ToolsPane
pane = record { machine_id = true; num_pockets = whole 21; staged = start; field_warnings = [] }

abbrev typed : List Input
typed =
    Input.life milling_drill (codes "50")
    ∷ Input.offset milling_drill Offset.h (codes "80.5")
    ∷ Input.life milling_drill (codes "0")
    ∷ []

handle-AllDiffer_example : AllDiffer (foldl handle pane typed).staged.pending
handle-AllDiffer_example = handle-AllDiffer typed pane tt

handle_pot_number_change-free_example :
    ((handle_pot_number_change milling_drill (codes "5") pane).staged ≡ start)
    ⊎ (((is_finite (whole 5) ≡ true)
          × (lt_num (whole 5) (whole 1) ≡ false)
          × (lt_num (whole 21) (whole 5) ≡ false))
        × (occupant_of pane (whole 5) (some (whole 7)) ≡ none))
unfolding parse_int trim
handle_pot_number_change-free_example = handle_pot_number_change-free milling_drill (codes "5") pane

-- two staged changes: one of them is confirmed
abbrev sent : Pushing
sent = record {
  pane = record pane {
    staged = record start {
      pending =
          (codes "4-assignment", into_capped)
          ∷ (
            codes "7-life",
            staged_change (tool_edit milling_drill Field.life OperationType.life) (num (whole 0))
                (num (whole 50)),
          )
          ∷ [];
    };
  };
  is_pushing_changes = false;
  push_complete = false;
  push_error = none;
}

abbrev result : Bool → String → ToolChangeBatchResult
result success key = record {
  operation_type = ResultOperation.known BatchOperation.assignment;
  client_id = some (codes key);
  success = success;
  message = none;
  pot_number = some (whole 4);
  tool_number = some (whole 9);
  color = none;
  tool_type = none;
  offset_type = none;
  value = none;
  life_value = none;
  name_value = none;
  nulls = true;
}

on_answer-lookup_example :
    lookup
      (codes "4-assignment")
      (on_answer
        (Answer.answered (result true "4-assignment" ∷ result false "7-life" ∷ []))
        sent).pane.staged.pending
    ≡ none
on_answer-lookup_example =
    on_answer-lookup (result true "4-assignment" ∷ result false "7-life" ∷ []) sent
      (codes "4-assignment")

-- what the batch has where no input has the focus
abbrev batch : List ToolChangeBatchItem
batch = batch_items sent.pane.staged.pending

abbrev answer : List ToolChangeBatchResult
answer = result true "4-assignment" ∷ []

-- the push after the answer has confirmed a change, and after another click
abbrev loading : Pushing
loading = (begin_push none (on_answer (Answer.answered answer) (begin_push none sent).0)).0

-- The answer has confirmed a change, the button is clicked again, and once more.
begin_push-once_example :
    (is_empty batch ≡ false)
    × (loading.is_pushing_changes ≡ true)
    × ((begin_push none loading).1 ≡ none)
    × ((on_answer (Answer.refused []) loading).is_pushing_changes ≡ false)
    × ((on_answer (Answer.answered answer) loading).is_pushing_changes ≡ true)
    × ((on_loaded answer none loading).is_pushing_changes ≡ false)
unfolding begin_push shatter_nc.Tools.Batch.pending_to_batch_item
    shatter_nc.Tools.Pots.parse_pot_number
begin_push-once_example =
    begin_push-once none none sent loading batch answer none [] refl
      (Running.clicked (Running.confirmed Running.sent answer refl) none)
