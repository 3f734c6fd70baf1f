-- ===== src/Examples/StagedEdits.antt =====
-- Staged edits of a drill, tool 7, in pot 3.
use shatter_nc.Prelude.{◌≡◌, ◌≢◌, refl, true, none, some, [], ◌∷◌, ◌++◌}
use shatter_nc.Prelude.Numbers.{whole}
use shatter_nc.Prelude.Text.{codes}
use shatter_nc.Tools.{
  Value, num, str, Tool, EmptyPocket, UnifiedToolView, OperationType, Field, Slice, PendingChange,
  Pending,
}
use shatter_nc.Tools.Fields.{apply_field_to_tool}
use shatter_nc.Tools.Pending.{
  merge_server_tool_with_pending, server_confirms_pending_change, concerns,
}
use shatter_nc.Tools.Pending.Merge.{merge-confirms}
use shatter_nc.Tools.Occupancy.{get_pot_occupant_tool}
use shatter_nc.Tools.Occupancy.Pots.{get_pot_occupant_tool_iff}
use shatter_nc.Tools.Batch.{pending_to_batch_item}
use shatter_nc.Tools.Batch.Items.{Sound, pending_to_batch_item-Sound}
use shatter_nc.Tools.UnifiedView.Rows.{is_some}

abbrev drill : Tool
drill = record {
  pot_number = some (num (whole 3));
  tool_number = whole 7;
  tool_name = some (codes "DRILL");
  diameter = some (whole 6);
  length = none;
  group = none;
  life = none;
  tool_type = none;
  color = some (whole 1);
  in_atc = some true;
  is_cap = none;
}

abbrev change : OperationType → Field → Value → PendingChange
change op field value = record {
  tool = drill;
  field = field;
  old_value = str [];
  new_value = value;
  operation_type = op;
  cache_slice = Slice.tool;
}

-- a new color, after a new length
abbrev recolor : PendingChange
recolor = change OperationType.color Field.color (num (whole 4))

abbrev staged : Pending
staged = (codes "length", change OperationType.offset Field.length (num (whole 80))) ∷ []

abbrev shown : UnifiedToolView
shown = record { tools = drill ∷ []; empty_pockets = []; spindle = none; atc_available = true }

merge-confirms_example :
    server_confirms_pending_change recolor
      (merge_server_tool_with_pending drill (staged ++ (codes "color", recolor) ∷ []) Slice.tool)
      (drill ∷ [])
    ≡ true
unfolding shatter_nc.Tools.Pending.tools_match_for_slice
merge-confirms_example =
    merge-confirms Slice.tool drill staged (codes "color") recolor (drill ∷ []) refl refl refl

get_pot_occupant_tool_iff_example :
    is_some (get_pot_occupant_tool shown staged (whole 3) none) ≡ true
unfolding shatter_nc.Tools.Pots.parse_pot_number merge_server_tool_with_pending
    shatter_nc.Tools.Pending.tools_match_for_slice shatter_nc.Tools.Pending.apply_change
    apply_field_to_tool shatter_nc.Tools.Occupancy.is_real_atc_tool_number
get_pot_occupant_tool_iff_example = get_pot_occupant_tool_iff shown staged (whole 3)

pending_to_batch_item-Sound_example :
    Sound (codes "color") (pending_to_batch_item (codes "color") recolor)
    × (is_some (pending_to_batch_item (codes "color") recolor) ≡ true)
unfolding shatter_nc.Tools.Pots.parse_pot_number
pending_to_batch_item-Sound_example = pending_to_batch_item-Sound (codes "color") recolor

color≢pot_number : Field.color ≢ Field.pot_number
color≢pot_number e = cc
