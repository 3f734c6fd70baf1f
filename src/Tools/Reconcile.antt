-- ===== src/Tools/Reconcile.antt =====
-- What the answer of a batch does to the cached view: `reconcileUnifiedCacheAfterBatch` of
-- frontend/src/components/machine-detail/ToolsPane.tsx.
pub mod Assign
pub mod Owners
pub mod Batch
use mathlib.Core.Option
use mathlib.Core.Option.{get_or}
use mathlib.Core.List.{foldl}
use shatter_nc.Prelude.{
  Bool, true, false, not, ◌&&◌, ◌||◌, Option, none, some, List, [], ◌∷◌, ◌++◌, map, if◌then◌else◌,
  filter, any,
}
use shatter_nc.Prelude.Maps.{lookup}
use shatter_nc.Prelude.Sort.{sort_by}
use shatter_nc.Prelude.Numbers.{Num, whole, strict_eq, lt_num, is_finite}
use shatter_nc.Prelude.Text.{Text, text_eq, text_beq}
use shatter_nc.Tools.{
  num, number_of, EmptyPocket, UnifiedToolRow, UnifiedToolView, SpindleAssignment, OperationType,
  Slice, PendingChange, Pending,
}
use shatter_nc.Tools.Pots.{parse_pot_number, same_parsed}
use shatter_nc.Tools.UnifiedView.{pocket_before}
use shatter_nc.Tools.Fields.{is_true, empty_pocket_as_tool, clear_atc_assignment}
use shatter_nc.Tools.Pending.{slice_beq, tools_match_for_slice}
use shatter_nc.Tools.Batch.{ToolChangeBatchResult, apply_confirmed_tool_change}

-- `change.operationType === 'delete'`: the row loses its pot, and the pot is listed as empty
unfoldable pub reconcile_delete : PendingChange → UnifiedToolView → UnifiedToolView
reconcile_delete change c =
    let pockets = c.empty_pockets in
    record c {
      tools =
          map
            (λ (row : UnifiedToolRow).
              if tools_match_for_slice change.tool row Slice.tool
              then clear_atc_assignment row
              else row)
            c.tools;
      empty_pockets = elim (parse_pot_number change.tool.pot_number) [
        | none ↦ pockets
        | some pot ↦
            if any (λ (p : EmptyPocket). strict_eq p.pot_number pot) pockets
            then pockets
            else pockets
              ++ (record {
                pot_number = pot;
                tool_type = some (get_or change.tool.tool_type (whole 1));
                color = some (get_or change.tool.color (whole 0));
                is_cap = none;
              })
                ∷ []
      ];
    }

-- the row of the assigned tool takes the pot, and another row in the pot is cleared
unfoldable pub assign_row : Num → Num → UnifiedToolRow → UnifiedToolRow
assign_row target assigned row =
    if strict_eq row.tool_number assigned
    then record row { in_atc = some true; pot_number = some (num target) }
    else if is_true row.in_atc && same_parsed (parse_pot_number row.pot_number) (some target)
    then clear_atc_assignment row
    else row

unfoldable pub assign_pot : Num → Num → UnifiedToolView → UnifiedToolView
assign_pot target assigned c = record c {
  tools = map (assign_row target assigned) c.tools;
  empty_pockets = filter (λ (p : EmptyPocket). not (strict_eq p.pot_number target)) c.empty_pockets;
}

-- the guard of the assignment, whose failures are skipped
unfoldable pub reconcile_assignment : Option Num → Num → UnifiedToolView → UnifiedToolView
reconcile_assignment none assigned c = c
reconcile_assignment (some target) assigned c =
    if not (is_finite target) || lt_num target (whole 1) || not (is_finite assigned)
    then c
    else assign_pot target assigned c

unfoldable pub reconcile_cap : PendingChange → UnifiedToolView → UnifiedToolView
reconcile_cap change c = elim (parse_pot_number change.tool.pot_number) [
  | none ↦ c
  | some pot ↦ record c {
    empty_pockets =
        map
          (λ (p : EmptyPocket).
            if strict_eq p.pot_number pot then record p { is_cap = some true } else p)
          c.empty_pockets;
  }
]

unfoldable pub reconcile_pocket : PendingChange → ToolChangeBatchResult → EmptyPocket → EmptyPocket
reconcile_pocket change result pocket =
    let as_tool = empty_pocket_as_tool pocket in
    let updated = apply_confirmed_tool_change as_tool change result in
    if not (tools_match_for_slice change.tool as_tool Slice.pocket) then pocket else record {
      pot_number = pocket.pot_number;
      tool_type = updated.tool_type;
      color = updated.color;
      is_cap = updated.is_cap;
    }

-- every other change, by the slice that it is about
unfoldable pub reconcile_slice :
    Slice → PendingChange → ToolChangeBatchResult → UnifiedToolView → UnifiedToolView
reconcile_slice Slice.tool change result c = record c {
  tools =
      map
        (λ (row : UnifiedToolRow).
          if tools_match_for_slice change.tool row Slice.tool
          then apply_confirmed_tool_change row change result
          else row)
        c.tools;
}
reconcile_slice Slice.pocket change result c = record c {
  empty_pockets = map (reconcile_pocket change result) c.empty_pockets;
}
reconcile_slice Slice.spindle change result c = record c {
  spindle =
      Option.map
        (λ (s : SpindleAssignment). record s {
          tool_number = get_or result.tool_number (number_of change.new_value);
        })
        c.spindle;
}

-- the body of the loop for a confirmed change, by its operation
unfoldable pub reconcile_by :
    OperationType → PendingChange → ToolChangeBatchResult → UnifiedToolView → UnifiedToolView
reconcile_by OperationType.delete change result c = reconcile_delete change c
reconcile_by OperationType.pot_number change result c =
    reconcile_assignment (some (number_of change.new_value)) change.tool.tool_number c
reconcile_by OperationType.tool_number change result c =
    if slice_beq change.cache_slice Slice.pocket
    then reconcile_assignment (parse_pot_number change.tool.pot_number) (number_of change.new_value)
        c
    else reconcile_slice change.cache_slice change result c
reconcile_by OperationType.cap change result c =
    if slice_beq change.cache_slice Slice.pocket
    then reconcile_cap change c
    else reconcile_slice change.cache_slice change result c
reconcile_by _ change result c = reconcile_slice change.cache_slice change result c

unfoldable pub reconcile_change :
    PendingChange → ToolChangeBatchResult → UnifiedToolView → UnifiedToolView
unfolding reconcile_by
reconcile_change change result c = reconcile_by change.operation_type change result c

-- The staged change that a result confirms: `!result.success || !result.client_id` skips it.
unfoldable pub confirmed_change : Pending → ToolChangeBatchResult → Option PendingChange
confirmed_change pending result = elim result.client_id [
  | none ↦ none
  | some key ↦ if not result.success || text_beq key [] then none else lookup key pending
]

unfoldable pub reconcile_step : Pending → UnifiedToolView → ToolChangeBatchResult → UnifiedToolView
reconcile_step pending c result = elim (confirmed_change pending result) [
  | none ↦ c
  | some change ↦ reconcile_change change result c
]

unfoldable pub reconcile_unified_cache_after_batch :
    UnifiedToolView → List ToolChangeBatchResult → Pending → UnifiedToolView
reconcile_unified_cache_after_batch cache results pending =
    let c = foldl (reconcile_step pending) cache results in
    record c { empty_pockets = sort_by pocket_before c.empty_pockets }
