-- ===== src/Machines/Editing/Baseline.antt =====
-- A save does not move the values that a cancel goes back to.
use mathlib.Core.Path.{subst}
use shatter_nc.Prelude.{
  ◌≡◌, refl, sym, ap, Bool, true, false, ◌&&◌, Option, none, some, arith, if◌then◌else◌,
}
use shatter_nc.Prelude.Text.{Text}
use shatter_nc.Machines.Editing.{
  Form, Card, Payload, SaveAnswer, payload_of, has_unsaved_changes, start_editing, edit_form_valid,
  handle_edit_save, on_save_answer, on_save_timer, perform_edit_cancel, restored,
}

module _ {R : Type 0} (same_rest : R → R → Bool) (prop_form : Form R) (prop_name : Text) where
  -- a save, from the button to the next time that the card is edited
  abbrev pub saved_and_reopened : Card R → Card R
  saved_and_reopened c =
      start_editing true (on_save_timer (on_save_answer SaveAnswer.saved (handle_edit_save c).1))

  restored-some :
      (form : Form R) (name : Text) (o : Option (Form R)) (m : Option Text)
      → o ≡ some form
      → m ≡ some name
      → restored prop_form prop_name o m ≡ (form, name)
  restored-some form name o m h k = rw (h, k) refl

  and-right : (a b : Bool) → (a && b) ≡ true → b ≡ true
  and-right a b h = ground arith

  handle_edit_save-valid :
      (c : Card R)
      → edit_form_valid c ≡ true
      → handle_edit_save c ≡ (
        some (payload_of c.edit_form_data),
        record c { is_edit_saving = true; edit_error = none; edit_success = false },
      )
  unfolding handle_edit_save
  handle_edit_save-valid c v = if-true (edit_form_valid c) _ _ v
    where
      if-true : (b : Bool) (p q : Option (Payload R) × Card R) → b ≡ true → (if b then p else q) ≡ p
      if-true true p q h = refl
      if-true false p q h = cc

  -- A form that is changed and saved counts as unsaved again when the card is edited the next time,
  -- and a cancel then puts the values from before the save back into it. The settings are to have
  -- been fetched and the form is to be valid.
  pub saved_and_reopened-unsaved :
      (c : Card R) (form : Form R) (name : Text)
      → c.original_form_data ≡ some form
      → c.original_machine_name ≡ some name
      → edit_form_valid c ≡ true
      → has_unsaved_changes same_rest c ≡ true
      → (has_unsaved_changes same_rest (saved_and_reopened c) ≡ true)
        × ((perform_edit_cancel prop_form prop_name (saved_and_reopened c)).edit_form_data ≡ form)
        × ((perform_edit_cancel prop_form prop_name (saved_and_reopened c)).edit_machine_name
            ≡ name)
  unfolding has_unsaved_changes start_editing on_save_answer on_save_timer perform_edit_cancel
  saved_and_reopened-unsaved c form name f n v u =
      let values = restored-some form name c.original_form_data c.original_machine_name f n in
      subst
        (λ (p : Option (Payload R) × Card R).
          let reopened = start_editing true (on_save_timer (on_save_answer SaveAnswer.saved p.1)) in
          (has_unsaved_changes same_rest reopened ≡ true)
          × ((perform_edit_cancel prop_form prop_name reopened).edit_form_data ≡ form)
          × ((perform_edit_cancel prop_form prop_name reopened).edit_machine_name ≡ name))
        (sym (handle_edit_save-valid c v))
        (
          and-right c.is_editing _ u,
          ap (λ (p : Form R × Text). p.0) values,
          ap (λ (p : Form R × Text). p.1) values,
        )
