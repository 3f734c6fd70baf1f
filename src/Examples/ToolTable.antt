-- ===== src/Examples/ToolTable.antt =====
-- A tool table: a drill, tool 7, in pot 3, and a tap, tool 9, that is not in the ATC.
use shatter_nc.Prelude.{
  ℕ, ◌≡◌, refl, Bool, true, false, not, ◌&&◌, ◌||◌, Option, none, some, List, [], ◌∷◌, ◌++◌, map,
  any, all, leb, filter, arith,
}
use shatter_nc.Prelude.Tests.{◌==◌}
use shatter_nc.Prelude.Numbers.{num_eq, whole, strict_eq}
use shatter_nc.Prelude.Text.{Text, codes, parse_int}
use shatter_nc.Tools.{
  Value, num, str, number_of, Tool, UnifiedToolRow, EmptyPocket, UnifiedToolView, LegacyAtcTool,
  LegacyTableTool, OperationType, Field, Slice, PendingChange, Pending,
}
use shatter_nc.Tools.Pots.{parse_pot_number, pots_equal}
use shatter_nc.Tools.UnifiedView.{build_unified_tool_view_from_legacy, build_row}
use shatter_nc.Tools.UnifiedView.Pockets.{build_view-pockets}
use shatter_nc.Tools.UnifiedView.Rows.{build_view-rows}
use shatter_nc.Tools.Batch.{BatchOperation, ResultOperation, ToolChangeBatchResult}
use shatter_nc.Tools.Reconcile.{reconcile_change, reconcile_unified_cache_after_batch}
use shatter_nc.Tools.Reconcile.Owners.{HasOwners}
use shatter_nc.Tools.Reconcile.Batch.{reconcile-HasOwners}
use shatter_nc.Tools.Reconcile.Assign.{sits_in, reconcile_change-assignment}

abbrev tool : ℕ → Option Value → Bool → Tool
tool n pot in_atc = record {
  pot_number = pot;
  tool_number = whole n;
  tool_name = none;
  diameter = none;
  length = none;
  group = none;
  life = none;
  tool_type = none;
  color = none;
  in_atc = some in_atc;
  is_cap = none;
}

abbrev drill : Tool
drill = tool 7 (some (num (whole 3))) true

abbrev tap : Tool
tap = tool 9 none false

abbrev shown : UnifiedToolView
shown = record {
  tools = drill ∷ tap ∷ [];
  empty_pockets =
      record { pot_number = whole 4; tool_type = none; color = none; is_cap = none } ∷ [];
  spindle = none;
  atc_available = true;
}

-- the tap is put into pot 3
abbrev assign_tap : PendingChange
assign_tap = record {
  tool = tap;
  field = Field.pot_number;
  old_value = str [];
  new_value = num (whole 3);
  operation_type = OperationType.pot_number;
  cache_slice = Slice.tool;
}

abbrev staged : Pending
staged = (codes "pot", assign_tap) ∷ []

abbrev done : ToolChangeBatchResult
done = record {
  operation_type = ResultOperation.known BatchOperation.assignment;
  client_id = some (codes "pot");
  success = true;
  message = none;
  pot_number = some (whole 3);
  tool_number = some (whole 9);
  color = none;
  tool_type = none;
  offset_type = none;
  value = none;
  life_value = none;
  name_value = none;
  nulls = true;
}

shown-HasOwners : HasOwners shown.tools
unfolding parse_pot_number
shown-HasOwners = ((λ _. whole 7), (refl, (tt, tt)))

reconcile-HasOwners_example :
    HasOwners (reconcile_unified_cache_after_batch shown (done ∷ []) staged).tools
unfolding shatter_nc.Tools.Reconcile.confirmed_change shatter_nc.Prelude.Maps.lookup
reconcile-HasOwners_example = reconcile-HasOwners staged shown (done ∷ []) refl shown-HasOwners

reconcile_change-assignment_example :
    (map (sits_in (whole 3)) (reconcile_change assign_tap done shown).tools ≡ false ∷ true ∷ [])
    × (any
          (λ (p : EmptyPocket). strict_eq p.pot_number (whole 3))
          (reconcile_change assign_tap done shown).empty_pockets
        ≡ false)
unfolding number_of
reconcile_change-assignment_example =
    reconcile_change-assignment assign_tap done shown (whole 3) assign_tap.tool.tool_number refl
      refl refl refl

abbrev atc_entry : Value → ℕ → LegacyAtcTool
atc_entry pot n = record {
  pot_number = some pot;
  tool_number = some (whole n);
  tool_type = none;
  color = none;
  group = none;
}

-- tool 7 in pot 2, a cap in pot 1, and tool 9 in the spindle
abbrev atc : List LegacyAtcTool
atc =
    atc_entry (num (whole 2)) 7
    ∷ atc_entry (num (whole 1)) 255
    ∷ atc_entry (str (codes "SPINDLE")) 9
    ∷ []

abbrev drill_entry : LegacyTableTool
drill_entry = record {
  tool_number = whole 7;
  tool_name = some (codes "DRILL");
  diameter = none;
  length = none;
  life = none;
}

abbrev table : List LegacyTableTool
table = drill_entry ∷ []

-- Pot 2 is taken.
build_view-pockets_example :
    any
      (λ (e : EmptyPocket). e.pot_number == whole 2)
      (build_unified_tool_view_from_legacy table atc (some 3)).empty_pockets
    ≡ false
unfolding parse_pot_number shatter_nc.Tools.Pots.is_spindle_pot
build_view-pockets_example = build_view-pockets table atc 3 2 (omega arith)

build_view-rows_example :
    ((build_unified_tool_view_from_legacy table atc (some 3)).tools
      ≡ build_row drill_entry (some (atc_entry (num (whole 2)) 7)) ∷ [])
    × ((build_unified_tool_view_from_legacy table atc (some 3)).spindle
        ≡ some record { tool_number = whole 9; tool_type = none; color = none; group = none })
unfolding shatter_nc.Tools.Pots.is_spindle_pot shatter_nc.Prelude.Text.to_upper
build_view-rows_example = build_view-rows table atc (some 3)
