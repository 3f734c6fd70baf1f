-- ===== src/Machines/Editing.antt =====
-- The session in which a machine's settings are edited, of
-- frontend/src/components/MachineCard.tsx. The page that holds the card sets `is_editing` as the card asks.
pub mod Baseline
use shatter_nc.Prelude.{
  ℕ, ◌+◌, ◌-◌, Bool, true, false, not, ◌&&◌, ◌||◌, Option, none, some, [], ◌∷◌, ◌++◌, if◌then◌else◌,
}
use shatter_nc.Prelude.Text.{Text, codes, text_beq, trim}

-- The form; `R` stands for the fields that are only copied and compared here.
pub record Form (R : Type 0) : Type 0 where
  pub ip_address : Text
  pub ftp_username : Text
  pub ftp_password : Text
  pub control_version : Text
  pub rest : R

pub record Card (R : Type 0) : Type 0 where
  pub is_editing : Bool
  pub edit_machine_name : Text
  pub edit_form_data : Form R
  pub original_form_data : Option (Form R)
  pub original_machine_name : Option Text
  pub ftp_credentials_configured : Bool
  pub edit_error : Option Text
  pub edit_success : Bool
  pub is_edit_saving : Bool
  pub show_save_confirm_modal : Bool
  -- the timers that will end the session, and the requests to switch to this card
  pub timers : ℕ
  pub switch_requests : ℕ

-- the body of the request: no password where none is entered, and no version for "AUTO"
pub record Payload (R : Type 0) : Type 0 where
  pub ip_address : Text
  pub ftp_username : Text
  pub ftp_password : Option Text
  pub control_version : Option Text
  pub rest : R

-- how the request ends: ok, not ok with its text, or with an exception
pub data SaveAnswer : Type 0 where
  saved : SaveAnswer
  refused : Text → SaveAnswer
  threw : Text → SaveAnswer

abbrev pub is_blank : Text → Bool
is_blank s = text_beq s []

-- `JSON.stringify` of two forms is the same; `same_rest` says so of the other fields.
module _ {R : Type 0} (same_rest : R → R → Bool) where
  abbrev pub same_form : Form R → Form R → Bool
  same_form f g =
      text_beq f.ip_address g.ip_address
      && text_beq f.ftp_username g.ftp_username
      && text_beq f.ftp_password g.ftp_password
      && text_beq f.control_version g.control_version
      && same_rest f.rest g.rest

  abbrev pub differs : Card R → Option (Form R) → Option Text → Bool
  differs c (some form) (some name) =
      not (text_beq c.edit_machine_name name) || not (same_form c.edit_form_data form)
  differs c _ _ = false

  unfoldable pub has_unsaved_changes : Card R → Bool
  has_unsaved_changes c = c.is_editing && differs c c.original_form_data c.original_machine_name

module _ {R : Type 0} where
  unfoldable pub start_editing : Bool → Card R → Card R
  start_editing can_edit c =
      if can_edit
      then record c { is_editing = true }
      else record c { switch_requests = c.switch_requests + 1 }

  unfoldable pub stop_editing : Card R → Card R
  stop_editing c = record c { is_editing = false }

  -- the machine's settings arrive
  unfoldable pub on_config : Form R → Text → Bool → Card R → Card R
  on_config fetched name configured c = record c {
    original_form_data = some fetched;
    original_machine_name = some name;
    ftp_credentials_configured = configured;
    edit_machine_name = name;
    edit_form_data = fetched;
  }

  unfoldable pub edit_form_valid : Card R → Bool
  edit_form_valid c =
      not (is_blank c.edit_machine_name)
      && not (is_blank c.edit_form_data.ip_address)
      && not (is_blank c.edit_form_data.ftp_username)
      && (not (is_blank (trim c.edit_form_data.ftp_password)) || c.ftp_credentials_configured)

  abbrev pub payload_of : Form R → Payload R
  payload_of f = record {
    ip_address = f.ip_address;
    ftp_username = f.ftp_username;
    ftp_password = if is_blank (trim f.ftp_password) then none else some f.ftp_password;
    control_version =
        if text_beq f.control_version (codes "AUTO") then none else some f.control_version;
    rest = f.rest;
  }

  -- up to the request, which is sent if there is a body
  unfoldable pub handle_edit_save : Card R → Option (Payload R) × Card R
  handle_edit_save c =
      if edit_form_valid c
      then (
        some (payload_of c.edit_form_data),
        record c { is_edit_saving = true; edit_error = none; edit_success = false },
      )
      else (none, record c { edit_error = some (codes "Please fill in all required fields") })

  unfoldable pub on_save_answer : SaveAnswer → Card R → Card R
  on_save_answer SaveAnswer.saved c = record c {
    edit_success = true;
    timers = c.timers + 1;
    is_edit_saving = false;
  }
  on_save_answer (SaveAnswer.refused status_text) c = record c {
    edit_error = some (codes "Save failed: Update failed: " ++ status_text);
    is_edit_saving = false;
  }
  on_save_answer (SaveAnswer.threw message) c = record c {
    edit_error = some (codes "Save failed: " ++ message);
    is_edit_saving = false;
  }

  -- 1.5 seconds after a save
  unfoldable pub on_save_timer : Card R → Card R
  unfolding stop_editing
  on_save_timer c = record (stop_editing c) { edit_success = false; timers = c.timers - 1 }

  -- the values that the form goes back to; `prop_form` and `prop_name` are those of the machine prop
  abbrev pub restored : Form R → Text → Option (Form R) → Option Text → Form R × Text
  restored prop_form prop_name (some form) (some name) = (form, name)
  restored prop_form prop_name _ _ = (prop_form, prop_name)

  -- the result of the connection test is forgotten too, which is not kept here
  unfoldable pub perform_edit_cancel : Form R → Text → Card R → Card R
  unfolding stop_editing
  perform_edit_cancel prop_form prop_name c =
      let (form, name) =
        restored prop_form prop_name c.original_form_data c.original_machine_name in
      record (stop_editing c) {
        edit_error = none;
        edit_success = false;
        edit_machine_name = name;
        edit_form_data = form;
      }

-- the buttons, the escape key, and the pending switch or collapse
module _ {R : Type 0} (same_rest : R → R → Bool) (prop_form : Form R) (prop_name : Text) where
  unfoldable pub handle_edit_cancel : Card R → Card R
  unfolding perform_edit_cancel
  handle_edit_cancel c =
      if has_unsaved_changes same_rest c
      then record c { show_save_confirm_modal = true }
      else perform_edit_cancel prop_form prop_name c

  -- the two effects on `pendingEditSwitch` and `pendingCollapse`
  unfoldable pub on_pending : Bool → Card R → Card R
  unfolding perform_edit_cancel
  on_pending pending c =
      if not pending || not c.is_editing
      then c
      else if has_unsaved_changes same_rest c
      then record c { show_save_confirm_modal = true }
      else perform_edit_cancel prop_form prop_name c

  -- the modal's three ways out
  unfoldable pub on_modal_close : Card R → Card R
  on_modal_close c = record c { show_save_confirm_modal = false }

  unfoldable pub on_modal_confirm : Card R → Card R
  unfolding perform_edit_cancel
  on_modal_confirm c =
      perform_edit_cancel prop_form prop_name (record c { show_save_confirm_modal = false })

  unfoldable pub on_modal_save : Card R → Option (Payload R) × Card R
  unfolding handle_edit_save
  on_modal_save c = handle_edit_save (record c { show_save_confirm_modal = false })
