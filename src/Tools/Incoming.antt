-- ===== src/Tools/Incoming.antt =====
-- The server's view arrives: the effect on `resolvedUnifiedView` of
-- frontend/src/components/machine-detail/ToolsPane.tsx, which merges the staged changes into the view
-- and drops those that the server confirms.
pub mod Settle
use shatter_nc.Prelude.{
  Bool, true, false, not, ◌&&◌, ◌||◌, Option, none, some, List, [], ◌∷◌, ◌++◌, map, if◌then◌else◌,
  filter, any,
}
use mathlib.Core.List.{foldl}
use shatter_nc.Prelude.Maps.{Map, lookup, erase}
use shatter_nc.Prelude.Numbers.{Num, strict_eq}
use shatter_nc.Prelude.Text.{Text, text_eq, text_beq, codes, show_num}
use shatter_nc.Tools.{
  Value, num, str, Tool, EmptyPocket, UnifiedToolRow, UnifiedToolView, LegacyAtcTool,
  LegacyTableTool, Field, Slice, PendingChange, Pending,
}
use shatter_nc.Tools.Pots.{pots_equal}
use shatter_nc.Tools.Fields.{apply_field_to_tool, get_tool_field_value, empty_pocket_as_tool}
use shatter_nc.Tools.Pending.{
  merge_server_tool_with_pending, as_empty_pocket, merge_pending_onto_unified_cache,
  server_confirms_pending_change, slice_beq,
}
use shatter_nc.Tools.Staging.{Staged}

-- an entry of `recentlyPushedRef`
pub record Pushed : Type 0 where
  pub field : Field
  pub value : Value

abbrev pub Recently : Type 0
Recently = Map Text Pushed

abbrev pub track_key : UnifiedToolRow → Text
track_key row = show_num row.tool_number ++ codes "-tool"

-- `===` on field values
abbrev pub same_value : Option Value → Value → Bool
same_value none v = false
same_value (some (num a)) (num b) = strict_eq a b
same_value (some (str s)) (str t) = text_beq s t
same_value (some _) _ = false

abbrev pub matches : Field → Option Value → Value → Bool
matches Field.pot_number server value = pots_equal server (some value)
matches _ server value = same_value server value

-- a row, and the entries that are left
abbrev pub merge_row_by :
    Option Pushed → UnifiedToolRow → Tool → Recently → UnifiedToolRow × Recently
merge_row_by none server merged recently = (merged, recently)
merge_row_by (some pushed) server merged recently =
    if matches pushed.field (get_tool_field_value server pushed.field) pushed.value
    then (merged, erase (track_key server) recently)
    else (apply_field_to_tool merged pushed.field pushed.value, recently)

unfoldable pub merge_row : Pending → UnifiedToolRow → Recently → UnifiedToolRow × Recently
merge_row pending server recently =
    merge_row_by (lookup (track_key server) recently) server
      (merge_server_tool_with_pending server pending Slice.tool) recently

unfoldable pub merge_rows :
    Pending → List UnifiedToolRow → Recently → List UnifiedToolRow × Recently
unfolding merge_row
merge_rows pending [] recently = ([], recently)
merge_rows pending (row ∷ rows) recently =
    let (merged, left) = merge_row pending row recently in
    let (rest, last) = merge_rows pending rows left in (merged ∷ rest, last)

abbrev pub merge_pocket : Pending → EmptyPocket → EmptyPocket
merge_pocket pending pocket =
    as_empty_pocket
      (merge_server_tool_with_pending (empty_pocket_as_tool pocket) pending Slice.pocket)

-- the view that is shown, and the entries that are left
unfoldable pub incoming_cache :
    Bool → UnifiedToolView → Pending → Recently → UnifiedToolView × Recently
unfolding merge_rows
incoming_cache true incoming pending recently = (
  record incoming {
    tools =
        map (λ (row : UnifiedToolRow). merge_server_tool_with_pending row pending Slice.tool)
          incoming.tools;
    empty_pockets = map (merge_pocket pending) incoming.empty_pockets;
  },
  recently,
)
incoming_cache false incoming pending recently =
    let (rows, left) = merge_rows pending incoming.tools recently in
    (
      record incoming {
        tools = rows;
        empty_pockets = map (merge_pocket pending) incoming.empty_pockets;
        spindle = incoming.spindle;
      },
      left,
    )

-- the tests of the two inner loops
abbrev pub settled_by_row : List UnifiedToolRow → UnifiedToolRow → PendingChange → Bool
settled_by_row rows row change =
    slice_beq change.cache_slice Slice.tool
    && strict_eq change.tool.tool_number row.tool_number
    && server_confirms_pending_change change row rows

abbrev pub settled_by_pocket : List UnifiedToolRow → EmptyPocket → PendingChange → Bool
settled_by_pocket rows pocket change =
    slice_beq change.cache_slice Slice.pocket
    && pots_equal change.tool.pot_number (empty_pocket_as_tool pocket).pot_number
    && server_confirms_pending_change change (empty_pocket_as_tool pocket) rows

-- an inner loop deletes the entries that pass its test
abbrev pub delete_if : (PendingChange → Bool) → Pending → Pending
delete_if test = filter (λ (entry : Text × PendingChange). not (test entry.1))

unfoldable pub drop_settled : UnifiedToolView → Pending → Pending
drop_settled incoming pending =
    foldl
      (λ (next : Pending) (pocket : EmptyPocket).
        delete_if (settled_by_pocket incoming.tools pocket) next)
      (foldl
        (λ (next : Pending) (row : UnifiedToolRow).
          delete_if (settled_by_row incoming.tools row) next)
        pending incoming.tools)
      incoming.empty_pockets

abbrev pub is_filled {ℓ} : {A : Type ℓ} → List A → Bool
is_filled [] = false
is_filled (x ∷ xs) = true

abbrev pub rows_of : Option UnifiedToolView → List UnifiedToolRow
rows_of none = []
rows_of (some view) = view.tools

-- `hasData`
unfoldable pub has_data : Option UnifiedToolView → List LegacyTableTool → List LegacyAtcTool → Bool
has_data unified table tools = is_filled (rows_of unified) || is_filled table || is_filled tools

-- the effect, `known` being `hasData`
unfoldable pub on_incoming : Bool → Bool → UnifiedToolView → Staged × Recently → Staged × Recently
unfolding incoming_cache drop_settled
on_incoming known pushing incoming (s, recently) =
    let (cache, left) = incoming_cache pushing incoming s.pending recently in
    if known
    then (
      record {
        pending = if pushing then s.pending else drop_settled incoming s.pending;
        cache = cache;
      },
      left,
    )
    else (s, recently)
