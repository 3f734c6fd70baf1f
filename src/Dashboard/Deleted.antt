-- ===== src/Dashboard/Deleted.antt =====
-- What is left of a machine that is deleted while it is edited.
use shatter_nc.Prelude.{ℕ, ◌≡◌, ◌≢◌, refl, Bool, true, false, ◌&&◌, Option, none, some, arith}
use shatter_nc.Dashboard.{
  Dashboard, DeleteTarget, is_none, is_id, can_edit_machine, can_edit_compressor, confirm_delete,
}

other_id : (a id : ℕ) → id ≢ a → is_id (some a) id ≡ false
other_id a id d = ground (arith, d)

and-false : (o : Option ℕ) {b : Bool} → b ≡ false → (is_none o && b) ≡ false
and-false none h = h
and-false (some c) h = refl

-- When a machine is deleted from the form in which it is edited, it stays the one that is edited:
-- no other machine and no compressor can be edited any more, and its card, which would end the
-- session, is gone.
pub confirm_delete-edited :
    (s : Dashboard) (id other c : ℕ)
    → s.editing_machine ≡ some id
    → s.deleting_target ≡ some (DeleteTarget.cnc id)
    → other ≢ id
    → ((confirm_delete true s).editing_machine ≡ some id)
      × (can_edit_machine other (confirm_delete true s) ≡ false)
      × (can_edit_compressor c (confirm_delete true s) ≡ false)
unfolding confirm_delete can_edit_machine can_edit_compressor
confirm_delete-edited s id other c m t d =
    rw (t, m) (refl, and-false s.editing_compressor (other_id id other d), refl)
