-- ===== src/Compressors.antt =====
-- The session in which a compressor's settings are edited, of
-- frontend/src/components/CompressorCard.tsx. The page that holds the card sets `is_editing` as the card asks.
pub mod Session
use shatter_nc.Prelude.{
  ℕ, Bool, true, false, not, ◌&&◌, ◌||◌, Option, none, some, [], ◌∷◌, ◌++◌, if◌then◌else◌, nat_beq,
}
use shatter_nc.Prelude.Text.{Text, codes, text_beq, trim}

-- what the server said of the compressor
pub record Compressor : Type 0 where
  pub compressor_name : Text
  pub ip_address : Text
  pub poll_interval_seconds : Option ℕ
  pub enabled : Option Bool
  pub kaeser_connect_base_url : Option Text
  pub kaeser_username : Option Text
  pub kaeser_credentials_configured : Bool

pub record EditForm : Type 0 where
  pub name : Text
  pub ip_address : Text
  pub poll_interval_seconds : ℕ
  pub enabled : Bool
  pub kaeser_connect_base_url : Text
  pub kaeser_username : Text
  pub kaeser_password : Text

pub record CompressorCard : Type 0 where
  pub is_editing : Bool
  pub edit_compressor_name : Text
  pub edit_form_data : EditForm
  pub edit_error : Option Text
  pub edit_success : Bool
  pub is_edit_saving : Bool
  pub show_save_confirm_modal : Bool

-- `?? 30`, `!== false` and `?? ''`
abbrev pub interval_of : Option ℕ → ℕ
interval_of none = 30
interval_of (some seconds) = seconds

abbrev pub is_enabled : Option Bool → Bool
is_enabled (some false) = false
is_enabled _ = true

abbrev pub text_of : Option Text → Text
text_of none = []
text_of (some s) = s

abbrev pub same_bool : Bool → Bool → Bool
same_bool true b = b
same_bool false b = not b

abbrev pub form_of : Compressor → EditForm
form_of c = record {
  name = c.compressor_name;
  ip_address = c.ip_address;
  poll_interval_seconds = interval_of c.poll_interval_seconds;
  enabled = is_enabled c.enabled;
  kaeser_connect_base_url = text_of c.kaeser_connect_base_url;
  kaeser_username = text_of c.kaeser_username;
  kaeser_password = [];
}

-- the edit button, and the effect that fills in the form then
unfoldable pub open_session : Bool → Compressor → CompressorCard → CompressorCard
open_session can_edit compressor card =
    if can_edit
    then record card {
      is_editing = true;
      edit_compressor_name = compressor.compressor_name;
      edit_form_data = form_of compressor;
    }
    else card

unfoldable pub has_unsaved_changes : Compressor → CompressorCard → Bool
has_unsaved_changes compressor card =
    let form = card.edit_form_data in
    card.is_editing
    && (not (text_beq card.edit_compressor_name compressor.compressor_name)
        || not (text_beq form.ip_address compressor.ip_address)
        || not (nat_beq form.poll_interval_seconds (interval_of compressor.poll_interval_seconds))
        || not (same_bool form.enabled (is_enabled compressor.enabled))
        || not (
            text_beq (trim form.kaeser_connect_base_url)
              (trim (text_of compressor.kaeser_connect_base_url)))
        || not (text_beq (trim form.kaeser_username) (trim (text_of compressor.kaeser_username)))
        || not (text_beq (trim form.kaeser_password) []))

unfoldable pub perform_edit_cancel : Compressor → CompressorCard → CompressorCard
perform_edit_cancel compressor card = record card {
  edit_compressor_name = compressor.compressor_name;
  edit_form_data = form_of compressor;
  edit_error = none;
  edit_success = false;
  is_editing = false;
}

unfoldable pub handle_edit_cancel : Compressor → CompressorCard → CompressorCard
unfolding perform_edit_cancel
handle_edit_cancel compressor card =
    if has_unsaved_changes compressor card
    then record card { show_save_confirm_modal = true }
    else perform_edit_cancel compressor card

-- the effect on `pendingCollapse`
unfoldable pub on_pending_collapse : Bool → Compressor → CompressorCard → CompressorCard
unfolding perform_edit_cancel
on_pending_collapse pending compressor card =
    if not pending || not card.is_editing
    then card
    else if has_unsaved_changes compressor card
    then record card { show_save_confirm_modal = true }
    else perform_edit_cancel compressor card

-- the three credentials belong together
unfoldable pub kaeser_complete : Compressor → EditForm → Bool
kaeser_complete compressor form =
    let no_url = text_beq (trim form.kaeser_connect_base_url) [] in
    let no_user = text_beq (trim form.kaeser_username) [] in
    let no_pass = text_beq (trim form.kaeser_password) [] in
    (no_url && no_user && no_pass)
    || (not no_url && not no_user && (not no_pass || compressor.kaeser_credentials_configured))

unfoldable pub edit_form_valid : Compressor → CompressorCard → Bool
unfolding kaeser_complete
edit_form_valid compressor card =
    not (text_beq (trim card.edit_compressor_name) [])
    && not (text_beq (trim card.edit_form_data.ip_address) [])
    && kaeser_complete compressor card.edit_form_data

-- The body of the request. A password is sent, is sent as blank, or is left out.
pub record Body : Type 0 where
  pub name : Text
  pub ip_address : Text
  pub poll_interval_seconds : ℕ
  pub enabled : Bool
  pub kaeser_connect_base_url : Option Text
  pub kaeser_username : Option Text
  pub kaeser_password : Option Text

-- `s || null`
abbrev pub or_null : Text → Option Text
or_null [] = none
or_null (c ∷ s) = some (c ∷ s)

abbrev pub password_of : Text → Text → Text → Option Text
password_of [] [] password = some []
password_of url user password = or_null password

unfoldable pub body_of : CompressorCard → Body
body_of card =
    let form = card.edit_form_data in
    let url = trim form.kaeser_connect_base_url in
    let user = trim form.kaeser_username in
    record {
      name = trim card.edit_compressor_name;
      ip_address = form.ip_address;
      poll_interval_seconds = form.poll_interval_seconds;
      enabled = form.enabled;
      kaeser_connect_base_url = or_null url;
      kaeser_username = or_null user;
      kaeser_password = password_of url user (trim form.kaeser_password);
    }

-- up to the request; the form is not tested here
unfoldable pub handle_edit_save : CompressorCard → Body × CompressorCard
unfolding body_of
handle_edit_save card =
    (body_of card, record card { is_edit_saving = true; edit_error = none; edit_success = false })

-- how the request ends: ok, not ok with what `getApiErrorMessage` makes of it, or with an exception
pub data UpdateAnswer : Type 0 where
  updated : UpdateAnswer
  refused threw : Text → UpdateAnswer

abbrev pub or_failed : Text → Text
or_failed [] = codes "Update failed"
or_failed (c ∷ s) = c ∷ s

unfoldable pub on_update_answer : UpdateAnswer → CompressorCard → CompressorCard
on_update_answer UpdateAnswer.updated card = record card {
  edit_success = true;
  is_editing = false;
  is_edit_saving = false;
}
on_update_answer (UpdateAnswer.refused message) card = record card {
  edit_error = some (or_failed message);
  is_edit_saving = false;
}
on_update_answer (UpdateAnswer.threw message) card = record card {
  edit_error = some message;
  is_edit_saving = false;
}

-- the ways out of the modal
unfoldable pub on_modal_confirm : Compressor → CompressorCard → CompressorCard
unfolding perform_edit_cancel
on_modal_confirm compressor card =
    perform_edit_cancel compressor (record card { show_save_confirm_modal = false })

unfoldable pub on_modal_save : CompressorCard → Body × CompressorCard
unfolding handle_edit_save
on_modal_save card = handle_edit_save (record card { show_save_confirm_modal = false })
