-- ===== src/Tools/Pending/Merge.antt =====
-- How staged changes show in the merged view.
use mathlib.Core.List.{foldl}
use shatter_nc.Prelude.{◌≡◌, ◌≢◌, refl, Bool, true, false, ◌&&◌, List, [], ◌∷◌, ◌++◌, arith, any}
use shatter_nc.Prelude.Text.{Text}
use shatter_nc.Tools.{Tool, UnifiedToolRow, Field, OperationType, Slice, PendingChange, Pending}
use shatter_nc.Tools.Fields.Confirm.{fits, read_written}
use shatter_nc.Tools.Pending.{
  concerns, is_assignment_field, slice_beq, apply_change_by, apply_change, confirms_by, merge_step,
  merge_server_tool_with_pending, server_confirms_pending_change,
}

foldl-untouched :
    (slice : Slice) (server merged : Tool) (pending : Pending)
    → any (λ (entry : Text × PendingChange). concerns slice server entry.1) pending ≡ false
    → foldl (merge_step slice server) merged pending ≡ merged
unfolding merge_step
foldl-untouched slice server merged [] h = refl
foldl-untouched slice server merged ((key, change) ∷ pending) h =
    let here : concerns slice server change ≡ false = ground arith in
    let later : any (λ (entry : Text × PendingChange). concerns slice server entry.1) pending
        ≡ false =
      ground arith in
    rw here (foldl-untouched slice server merged pending later)

-- A tool that no staged change concerns is shown as the server sent it.
pub merge-untouched :
    (slice : Slice) (server : Tool) (pending : Pending)
    → any (λ (entry : Text × PendingChange). concerns slice server entry.1) pending ≡ false
    → merge_server_tool_with_pending server pending slice ≡ server
unfolding merge_server_tool_with_pending
merge-untouched slice server pending h = foldl-untouched slice server server pending h

foldl-snoc :
    (slice : Slice) (server merged : Tool) (pending : Pending) (entry : Text × PendingChange)
    → foldl (merge_step slice server) merged (pending ++ entry ∷ [])
      ≡ merge_step slice server (foldl (merge_step slice server) merged pending) entry
foldl-snoc slice server merged [] entry = refl
foldl-snoc slice server merged (e ∷ pending) entry =
    foldl-snoc slice server (merge_step slice server merged e) pending entry

-- operations that write the field that they name
abbrev pub writes_field : OperationType → Bool
writes_field OperationType.color = true
writes_field OperationType.tool_type = true
writes_field OperationType.life = true
writes_field OperationType.offset = true
writes_field OperationType.spindle = true
writes_field OperationType.name = true
writes_field _ = false

ne-pot_number : (f : Field) → is_assignment_field f ≡ false → f ≢ Field.pot_number
ne-pot_number f h e = absurd (ground arith)

confirms-apply :
    (op : OperationType) (slice : Slice) (change : PendingChange) (merged : Tool)
    (rows : List UnifiedToolRow)
    → writes_field op ≡ true
    → is_assignment_field change.field ≡ false
    → confirms_by op change (apply_change_by op slice change merged) rows
      ≡ fits change.field change.new_value
unfolding confirms_by apply_change_by
confirms-apply OperationType.delete slice change merged rows w plain = cc
confirms-apply OperationType.cap slice change merged rows w plain = cc
confirms-apply OperationType.pot_number slice change merged rows w plain = cc
confirms-apply OperationType.tool_number slice change merged rows w plain = cc
confirms-apply op slice change merged rows w plain =
    let skip : (slice_beq slice Slice.tool && is_assignment_field change.field) ≡ false =
      ground arith in
    rw skip (read_written merged change.field change.new_value (ne-pot_number change.field plain))

-- Where the last of all staged changes concerns a tool, its operation writes a field, and the field
-- assigns no tool to a pot, the change decides what the merged tool shows: the server is taken to
-- confirm it on the merged tool exactly if the new value is of the field's kind.
pub merge-confirms :
    (slice : Slice) (server : Tool) (pending : Pending) (key : Text) (change : PendingChange)
    (rows : List UnifiedToolRow)
    → concerns slice server change ≡ true
    → writes_field change.operation_type ≡ true
    → is_assignment_field change.field ≡ false
    → server_confirms_pending_change change
        (merge_server_tool_with_pending server (pending ++ (key, change) ∷ []) slice)
        rows
      ≡ fits change.field change.new_value
unfolding merge_server_tool_with_pending merge_step apply_change server_confirms_pending_change
merge-confirms slice server pending key change rows here writes plain =
    rw (foldl-snoc slice server server pending (key, change), here)
      (confirms-apply change.operation_type slice change _ rows writes plain)
