-- ===== src/Examples/Arriving.antt =====
-- The server's view with a drill, tool 7, whose new color is staged.
use shatter_nc.Prelude.{◌≡◌, refl, Bool, true, false, Option, none, some, [], ◌∷◌}
use shatter_nc.Prelude.Numbers.{Num, whole, strict_eq}
use shatter_nc.Prelude.Text.{codes}
use shatter_nc.Tools.{
  Value, num, str, Tool, UnifiedToolView, OperationType, Field, Slice, PendingChange,
}
use shatter_nc.Tools.Staging.{Staged}
use shatter_nc.Tools.Pending.{merge_pending_onto_unified_cache}
use shatter_nc.Tools.Incoming.{delete_if, on_incoming}
use shatter_nc.Tools.Incoming.Settle.{is_settled, on_incoming-merged}

abbrev drill : Tool
drill = record {
  pot_number = some (num (whole 3));
  tool_number = whole 7;
  tool_name = some (codes "DRILL");
  diameter = some (whole 6);
  length = none;
  group = none;
  life = none;
  tool_type = none;
  color = some (whole 1);
  in_atc = some true;
  is_cap = none;
}

abbrev recolored : PendingChange
recolored = record {
  tool = drill;
  field = Field.color;
  old_value = num (whole 1);
  new_value = num (whole 2);
  operation_type = OperationType.color;
  cache_slice = Slice.tool;
}

abbrev view : UnifiedToolView
view = record { tools = drill ∷ []; empty_pockets = []; spindle = none; atc_available = true }

abbrev staged : Staged
staged = record { pending = (codes "7-color", recolored) ∷ []; cache = view }

on_incoming-merged_example : on_incoming true false view (staged, []) ≡ (
  record {
    pending = delete_if (is_settled view) staged.pending;
    cache = merge_pending_onto_unified_cache view staged.pending;
  },
  [],
)
on_incoming-merged_example = on_incoming-merged false view staged

-- The drill is found by its name in small letters, and it is red.
abbrev is_color : Option Num → Bool
is_color none = false
is_color (some c) = strict_eq c (whole 2)

abbrev is_red : Tool → Bool
is_red t = is_color t.color
