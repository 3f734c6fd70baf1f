-- ===== src/Tools/Push.antt =====
-- Pushing what is staged: `handlePushChanges` of
-- frontend/src/components/machine-detail/ToolsPane.tsx, cut where it waits: for the answer to the
-- batch, and for the tools that it loads afterwards. In between the user may go on editing.
pub mod Confirmed
use mathlib.Core.List.{foldl}
use mathlib.Core.Option.{get_or}
use shatter_nc.Prelude.{
  Bool, true, false, not, ◌||◌, Option, none, some, List, [], ◌∷◌, ◌++◌, map, if◌then◌else◌, filter,
}
use shatter_nc.Prelude.Maps.{erase}
use shatter_nc.Prelude.Text.{Text, codes, text_beq, text_eq}
use shatter_nc.Tools.{UnifiedToolView, PendingChange, Pending}
use shatter_nc.Tools.Pending.{merge_pending_onto_unified_cache}
use shatter_nc.Tools.Batch.{
  BatchOperation, ResultOperation, ToolChangeBatchItem, ToolChangeBatchResult,
  pending_to_batch_item,
}
use shatter_nc.Tools.Reconcile.{reconcile_unified_cache_after_batch}
use shatter_nc.Tools.Staging.{Staged}
use shatter_nc.Tools.Handlers.{ToolsPane, handle_discard}
use shatter_nc.Tools.Handlers.Guards.{Input, handle}

pub record Pushing : Type 0 where
  pub pane : ToolsPane
  pub is_pushing_changes : Bool
  pub push_complete : Bool
  pub push_error : Option Text

-- the loop that collects the items
unfoldable pub batch_items : Pending → List ToolChangeBatchItem
batch_items [] = []
batch_items ((key, change) ∷ pending) =
    let rest = batch_items pending in
    elim (pending_to_batch_item key change) [ none ↦ rest | some item ↦ item ∷ rest ]

abbrev pub is_empty {ℓ} : {A : Type ℓ} → List A → Bool
is_empty [] = true
is_empty (_ ∷ _) = false

-- the state after the part that sends, and the batch that is sent, if one is
unfoldable pub send_batch :
    Pushing → List ToolChangeBatchItem → Pushing × Option (List ToolChangeBatchItem)
send_batch p [] = (
  record p {
    is_pushing_changes = false;
    push_complete = false;
    push_error = some (codes "No valid changes to push");
  },
  none,
)
send_batch p (item ∷ items) = (
  record p { is_pushing_changes = true; push_complete = false; push_error = none },
  some (item ∷ items),
)

-- `document.activeElement.blur()`: the input that has the focus, if one has, gives what is in it to its
-- handler, which may stage a change
abbrev pub blur : Option Input → ToolsPane → ToolsPane
blur none pane = pane
blur (some input) pane = handle pane input

-- the guard, the blur, and then the items of what is staged after it
unfoldable pub begin_push : Option Input → Pushing → Pushing × Option (List ToolChangeBatchItem)
unfolding batch_items send_batch
begin_push focused p =
    if is_empty p.pane.staged.pending || not p.pane.machine_id || p.is_pushing_changes
    then (p, none)
    else let pane = blur focused p.pane in
      send_batch (record p { pane = pane }) (batch_items pane.staged.pending)

-- what comes back: a refusal or an exception with its message, or the results
pub data Answer : Type 0 where
  refused : Text → Answer
  answered : List ToolChangeBatchResult → Answer

-- `next.delete(result.client_id)` for each success that names one
unfoldable pub drop_confirmed : Pending → ToolChangeBatchResult → Pending
drop_confirmed pending result = elim result.client_id [
  | none ↦ pending
  | some key ↦ if text_beq key [] then pending else erase key pending
]

abbrev pub successes : List ToolChangeBatchResult → List ToolChangeBatchResult
successes = filter (λ (r : ToolChangeBatchResult). r.success)

abbrev pub failures : List ToolChangeBatchResult → List ToolChangeBatchResult
failures = filter (λ (r : ToolChangeBatchResult). not r.success)

operation_text : ResultOperation → Text
operation_text (ResultOperation.known BatchOperation.color) = codes "color"
operation_text (ResultOperation.known BatchOperation.assignment) = codes "assignment"
operation_text (ResultOperation.known BatchOperation.type) = codes "type"
operation_text (ResultOperation.known BatchOperation.cap) = codes "cap"
operation_text (ResultOperation.known BatchOperation.delete) = codes "delete"
operation_text (ResultOperation.known BatchOperation.spindle) = codes "spindle"
operation_text (ResultOperation.known BatchOperation.offset) = codes "offset"
operation_text (ResultOperation.known BatchOperation.life) = codes "life"
operation_text (ResultOperation.known BatchOperation.name) = codes "name"
operation_text (ResultOperation.unknown s) = s

-- `f.message || …`
failure_text : ToolChangeBatchResult → Text
unfolding operation_text
failure_text f = elim f.message [
  | some (c ∷ s) ↦ c ∷ s
  | _ ↦ operation_text f.operation_type ++ codes " failed"
]

-- `join('; ')`
join_texts : List Text → Text
join_texts [] = []
join_texts (t ∷ []) = t
join_texts (t ∷ u ∷ ts) = t ++ codes "; " ++ join_texts (u ∷ ts)

-- the pending changes and the cached view once the results are there
unfoldable pub take_results : List ToolChangeBatchResult → Staged → Staged
unfolding drop_confirmed
take_results done s = record {
  pending = foldl drop_confirmed s.pending done;
  cache = reconcile_unified_cache_after_batch s.cache done s.pending;
}

abbrev pub set_staged : Staged → Pushing → Pushing
set_staged s p = record p { pane = record p.pane { staged = s } }

-- what the push ends with
unfoldable pub finish : List ToolChangeBatchResult → Pushing → Pushing
unfolding failure_text join_texts
finish results p =
    if not (is_empty (failures results))
    then record p {
      is_pushing_changes = false;
      push_error = some (join_texts (map failure_text (failures results)));
    }
    else if not (is_empty (successes results))
    then record p { is_pushing_changes = false; push_complete = true }
    else record p {
      is_pushing_changes = false;
      push_error = some (codes "No changes were applied.");
    }

-- The answer is there. A refusal, and an exception at any time, ends the push. Where nothing succeeded
-- the push ends too; otherwise the tools are loaded next.
unfoldable pub on_answer : Answer → Pushing → Pushing
unfolding take_results finish
on_answer (Answer.refused message) p = record p {
  is_pushing_changes = false;
  push_error = some message;
}
on_answer (Answer.answered results) p =
    if is_empty (successes results)
    then finish results p
    else set_staged (take_results (successes results) p.pane.staged) p

-- the tools are loaded, `none` where that failed, and shown with what is staged by then
unfoldable pub on_loaded : List ToolChangeBatchResult → Option UnifiedToolView → Pushing → Pushing
unfolding finish
on_loaded results none p = finish results p
on_loaded results (some fresh_cache) p = finish results (
    set_staged
      (record p.pane.staged {
        cache = merge_pending_onto_unified_cache fresh_cache p.pane.staged.pending;
      })
      p)

-- discarding while the outcome of a push is shown: the error goes too
unfoldable pub discard_and_clear : Pushing → Pushing
discard_and_clear p =
    if is_empty p.pane.staged.pending
    then p
    else record p { pane = handle_discard p.pane; push_error = none }
