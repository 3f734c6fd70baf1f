-- ===== src/Tools/Reconcile/Batch.antt =====
-- A batch answer keeps every pot with one tool, result by result.
use mathlib.Core.List.{foldl}
use shatter_nc.Prelude.{
  ◌≡◌, ◌≢◌, refl, Bool, true, false, not, ◌&&◌, ◌||◌, Option, none, some, List, [], ◌∷◌, arith,
  if◌then◌else◌, all, Bool-cases, Option-cases, inl, inr,
}
use shatter_nc.Prelude.Numbers.{Num, num_eq}
use shatter_nc.Tools.{
  Value, UnifiedToolRow, UnifiedToolView, Field, OperationType, Slice, PendingChange, Pending,
}
use shatter_nc.Tools.Fields.{apply_field_to_tool}
use shatter_nc.Tools.Pending.{slice_beq, is_assignment_field, tools_match_for_slice}
use shatter_nc.Tools.Batch.{
  ToolChangeBatchResult, get_confirmed_value_from_result, apply_confirmed, apply_confirmed_by,
  apply_confirmed_tool_change,
}
use shatter_nc.Tools.Reconcile.{
  reconcile_slice, reconcile_by, reconcile_change, confirmed_change, reconcile_step,
  reconcile_unified_cache_after_batch,
}
use shatter_nc.Tools.Reconcile.Owners.{
  Sits, HasOwners, clear-Sits, map-Sits, delete-HasOwners, assignment-HasOwners, cap-HasOwners,
}

-- the field that a result confirms is not an assignment
abbrev plain : Option (Field × Value) → Bool
plain none = true
plain (some (f, v)) = not (is_assignment_field f)

-- The change and the result agree in kind: what is confirmed for a tool row by another operation
-- than an assignment is not an assignment.
abbrev pub harmless_by : OperationType → PendingChange → ToolChangeBatchResult → Bool
harmless_by OperationType.delete change result = true
harmless_by OperationType.pot_number change result = true
harmless_by _ change result =
    not (slice_beq change.cache_slice Slice.tool) || plain (get_confirmed_value_from_result result)

abbrev pub harmless : PendingChange → ToolChangeBatchResult → Bool
harmless change result = harmless_by change.operation_type change result

apply_field-Sits :
    (owner : Num → Num) (f : Field) (v : Value) (row : UnifiedToolRow)
    → is_assignment_field f ≡ false
    → Sits owner row
    → Sits owner (apply_field_to_tool row f v)
unfolding apply_field_to_tool
apply_field-Sits owner Field.tool_number v row h s = cc
apply_field-Sits owner Field.pot_number v row h s = cc
apply_field-Sits owner Field.color v row h s = s
apply_field-Sits owner f v row h s = s

apply_confirmed-Sits :
    (owner : Num → Num) (slice : Slice) (o : Option (Field × Value)) (row : UnifiedToolRow)
    → plain o ≡ true
    → Sits owner row
    → Sits owner (apply_confirmed slice o row)
apply_confirmed-Sits owner slice none row h s = s
apply_confirmed-Sits owner slice (some (f, v)) row h s =
    let other : is_assignment_field f ≡ false = ground arith in
    let skip : (slice_beq slice Slice.tool && is_assignment_field f) ≡ false = ground arith in
    rw skip (apply_field-Sits owner f v row other s)

confirmed-Sits :
    (owner : Num → Num) (op : OperationType) (change : PendingChange)
    (result : ToolChangeBatchResult) (row : UnifiedToolRow)
    → op ≢ OperationType.pot_number
    → plain (get_confirmed_value_from_result result) ≡ true
    → Sits owner row
    → Sits owner (apply_confirmed_by op row change result)
unfolding apply_confirmed_by
confirmed-Sits owner OperationType.delete change result row op h s = clear-Sits owner row
confirmed-Sits owner OperationType.pot_number change result row op h s = absurd (op refl)
confirmed-Sits owner OperationType.cap change result row op h s = s
confirmed-Sits owner _ change result row op h s =
    apply_confirmed-Sits owner change.cache_slice (get_confirmed_value_from_result result) row h s

slice-HasOwners :
    (slice : Slice) (change : PendingChange) (result : ToolChangeBatchResult) (c : UnifiedToolView)
    → change.operation_type ≢ OperationType.pot_number
    → (not (slice_beq slice Slice.tool) || plain (get_confirmed_value_from_result result)) ≡ true
    → HasOwners c.tools
    → HasOwners (reconcile_slice slice change result c).tools
unfolding reconcile_slice apply_confirmed_tool_change
slice-HasOwners Slice.pocket change result c op h s = s
slice-HasOwners Slice.spindle change result c op h s = s
slice-HasOwners Slice.tool change result c op h (owner, s) =
    (owner, map-Sits owner owner _ keep c.tools s)
  where
    keep :
        (row : UnifiedToolRow)
        → Sits owner row
        → Sits owner (
            if tools_match_for_slice change.tool row Slice.tool
            then apply_confirmed_by change.operation_type row change result
            else row)
    keep row t = elim (Bool-cases (tools_match_for_slice change.tool row Slice.tool)) [
      | inl here ↦ rw here (confirmed-Sits owner change.operation_type change result row op h t)
      | inr away ↦ rw away t
    ]

by-HasOwners :
    (op : OperationType) (change : PendingChange) (result : ToolChangeBatchResult)
    (c : UnifiedToolView)
    → change.operation_type ≡ op
    → harmless_by op change result ≡ true
    → HasOwners c.tools
    → HasOwners (reconcile_by op change result c).tools
unfolding reconcile_by
by-HasOwners OperationType.delete change result c e h s = delete-HasOwners change c s
by-HasOwners OperationType.pot_number change result c e h s = assignment-HasOwners _ _ c s
by-HasOwners OperationType.tool_number change result c e h s =
    elim (Bool-cases (slice_beq change.cache_slice Slice.pocket)) [
      | inl here ↦ rw here (assignment-HasOwners _ _ c s)
      | inr away ↦ rw away (slice-HasOwners change.cache_slice change result c (λ k. cc) h s)
    ]
by-HasOwners OperationType.cap change result c e h s =
    elim (Bool-cases (slice_beq change.cache_slice Slice.pocket)) [
      | inl here ↦ rw here (cap-HasOwners change c s)
      | inr away ↦ rw away (slice-HasOwners change.cache_slice change result c (λ k. cc) h s)
    ]
by-HasOwners op change result c e h s =
    slice-HasOwners change.cache_slice change result c (λ k. cc) h s

-- For every result that confirms a staged change, the two agree in kind.
abbrev pub harmless_result : Pending → ToolChangeBatchResult → Bool
harmless_result pending result = elim (confirmed_change pending result) [
  | none ↦ true
  | some change ↦ harmless change result
]

step-HasOwners :
    (pending : Pending) (c : UnifiedToolView) (result : ToolChangeBatchResult)
    → harmless_result pending result ≡ true
    → HasOwners c.tools
    → HasOwners (reconcile_step pending c result).tools
unfolding reconcile_step reconcile_change
step-HasOwners pending c result h s = elim (Option-cases (confirmed_change pending result)) [
  | inl skipped ↦ rw (skipped, reconcile_step) s
  | inr (change, found) ↦
      rw (found, reconcile_step)
        (by-HasOwners change.operation_type change result c refl (rw (found, harmless_result) at h)
          s)
]

foldl-HasOwners :
    (pending : Pending) (c : UnifiedToolView) (results : List ToolChangeBatchResult)
    → all (harmless_result pending) results ≡ true
    → HasOwners c.tools
    → HasOwners (foldl (reconcile_step pending) c results).tools
foldl-HasOwners pending c [] h s = s
foldl-HasOwners pending c (result ∷ results) h s =
    let first : harmless_result pending result ≡ true = ground arith in
    let later : all (harmless_result pending) results ≡ true = ground arith in
    foldl-HasOwners pending (reconcile_step pending c result) results later
      (step-HasOwners pending c result first s)

-- If no pot is held by rows of two tools, none is after a batch answer, whatever it assigns, moves,
-- removes, caps or skips, as long as each result is of the kind of the change that it confirms.
pub reconcile-HasOwners :
    (pending : Pending) (c : UnifiedToolView) (results : List ToolChangeBatchResult)
    → all (harmless_result pending) results ≡ true
    → HasOwners c.tools
    → HasOwners (reconcile_unified_cache_after_batch c results pending).tools
unfolding reconcile_unified_cache_after_batch
reconcile-HasOwners pending c results h s = foldl-HasOwners pending c results h s
