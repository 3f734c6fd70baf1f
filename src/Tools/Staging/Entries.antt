-- ===== src/Tools/Staging/Entries.antt =====
-- What is staged: the entries of `pendingChanges` after `stagePendingChange`.
use shatter_nc.Prelude.{◌≡◌, false, none, some, [], ◌∷◌, if◌then◌else◌, All, Bool-cases, inl, inr}
use shatter_nc.Prelude.Tests.{◌==◌}
use shatter_nc.Prelude.Maps.{lookup, insert, erase, lookup-insert, lookup-erase}
use shatter_nc.Prelude.Text.{Text, text_eq}
use shatter_nc.Tools.{Value, PendingChange, Pending}
use shatter_nc.Tools.Fields.{values_equal}
use shatter_nc.Tools.Staging.{
  Staged, Edit, key_of, baseline_or, staged_change, stage_pending_change,
}

-- Staging an edit touches the entry of its key alone. The entry keeps the value from before the first
-- edit of that key, and it is gone once that value is entered again.
pub stage_pending_change-lookup :
    (e : Edit) (old new : Value) (s : Staged) (key : Text)
    → lookup key (stage_pending_change e old new s).pending ≡ (
        if key_of e == key
        then if values_equal new (baseline_or old (lookup (key_of e) s.pending))
          then none
          else some (staged_change e (baseline_or old (lookup (key_of e) s.pending)) new)
        else lookup key s.pending)
unfolding stage_pending_change
stage_pending_change-lookup e old new s key =
    elim (Bool-cases (values_equal new (baseline_or old (lookup (key_of e) s.pending)))) [
      | inl same ↦ rw (same, stage_pending_change) (lookup-erase (key_of e) key s.pending)
      | inr other ↦
          rw (other, stage_pending_change)
            (lookup-insert (key_of e) key
              (staged_change e (baseline_or old (lookup (key_of e) s.pending)) new) s.pending)
    ]

-- every staged change changes something
abbrev pub AllDiffer : Pending → Type 0
AllDiffer pending =
    All (λ (entry : Text × PendingChange). values_equal entry.1.new_value entry.1.old_value ≡ false)
      pending

erase-AllDiffer :
    (key : Text) (pending : Pending) → AllDiffer pending → AllDiffer (erase key pending)
unfolding erase
erase-AllDiffer key [] h = tt
erase-AllDiffer key ((j, c) ∷ pending) (d, h) = elim (Bool-cases (j == key)) [
  | inl gone ↦ rw gone (erase-AllDiffer key pending h)
  | inr kept ↦ rw kept (d, erase-AllDiffer key pending h)
]

insert-AllDiffer :
    (key : Text) (change : PendingChange) (pending : Pending)
    → values_equal change.new_value change.old_value ≡ false
    → AllDiffer pending
    → AllDiffer (insert key change pending)
unfolding insert
insert-AllDiffer key change [] d h = (d, tt)
insert-AllDiffer key change ((j, c) ∷ pending) d (e, h) = elim (Bool-cases (j == key)) [
  | inl here ↦ rw here (d, h)
  | inr away ↦ rw away (e, insert-AllDiffer key change pending d h)
]

-- No staged change has a new value that equals its old one, and staging keeps it so: a batch holds no
-- change that changes nothing.
pub stage_pending_change-AllDiffer :
    (e : Edit) (old new : Value) (s : Staged)
    → AllDiffer s.pending
    → AllDiffer (stage_pending_change e old new s).pending
unfolding stage_pending_change
stage_pending_change-AllDiffer e old new s h =
    elim (Bool-cases (values_equal new (baseline_or old (lookup (key_of e) s.pending)))) [
      | inl same ↦ rw (same, stage_pending_change) (erase-AllDiffer (key_of e) s.pending h)
      | inr other ↦
          rw (other, stage_pending_change)
            (insert-AllDiffer (key_of e)
              (staged_change e (baseline_or old (lookup (key_of e) s.pending)) new) s.pending other
              h)
    ]
