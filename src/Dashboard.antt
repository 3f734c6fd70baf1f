-- ===== src/Dashboard.antt =====
-- Which asset the dashboard edits and expands: frontend/src/pages/Dashboard.tsx, and the edit buttons of
-- frontend/src/components/MachineCard.tsx and frontend/src/components/CompressorCard.tsx that call it.
pub mod Exclusive
pub mod Deleted
use shatter_nc.Prelude.{
  ℕ, Bool, true, false, not, ◌&&◌, ◌||◌, Option, none, some, if◌then◌else◌, nat_beq,
}

pub data DeleteTarget : Type 0 where
  cnc compressor : ℕ → DeleteTarget

pub record Dashboard : Type 0 where
  pub edit_mode : Bool
  pub expanded_machine : Option ℕ
  pub expanded_compressor : Option ℕ
  pub editing_machine : Option ℕ
  pub editing_compressor : Option ℕ
  pub pending_edit_machine : Option ℕ
  pub pending_collapse_machine : Option ℕ
  pub pending_collapse_compressor : Option ℕ
  pub scroll_to_status : Option ℕ
  pub show_delete_confirm : Bool
  pub deleting_target : Option DeleteTarget
  -- whether the header shows an expanded asset, and its layout is edited
  pub expansion_chrome : Bool
  pub layout_edit_mode : Bool

abbrev pub is_none : Option ℕ → Bool
is_none none = true
is_none (some id) = false

-- `a === id`
abbrev pub is_id : Option ℕ → ℕ → Bool
is_id none id = false
is_id (some a) id = nat_beq a id

unfoldable pub clear_expansion_chrome : Dashboard → Dashboard
clear_expansion_chrome s = record s { expansion_chrome = false; layout_edit_mode = false }

unfoldable pub collapse_all_expanded : Dashboard → Dashboard
unfolding clear_expansion_chrome
collapse_all_expanded s =
    clear_expansion_chrome
      (record s { expanded_machine = none; expanded_compressor = none; scroll_to_status = none })

-- `canEdit` of a machine and of a compressor
unfoldable pub can_edit_machine : ℕ → Dashboard → Bool
can_edit_machine id s =
    is_none s.editing_compressor && (is_none s.editing_machine || is_id s.editing_machine id)

unfoldable pub can_edit_compressor : ℕ → Dashboard → Bool
can_edit_compressor id s =
    is_none s.editing_machine && (is_none s.editing_compressor || is_id s.editing_compressor id)

-- the edit buttons: `startEditing` of the cards, with `onEditStart` and `onRequestEditSwitch`
unfoldable pub edit_machine : ℕ → Dashboard → Dashboard
unfolding can_edit_machine
edit_machine id s =
    if can_edit_machine id s
    then record s { editing_machine = some id; editing_compressor = none }
    else record s { pending_edit_machine = some id }

unfoldable pub edit_compressor : ℕ → Dashboard → Dashboard
unfolding can_edit_compressor
edit_compressor id s =
    if can_edit_compressor id s
    then record s { editing_compressor = some id; editing_machine = none }
    else s

-- `pendingEditSwitch` of a machine's card
unfoldable pub pending_edit_switch : ℕ → Dashboard → Bool
pending_edit_switch id s = is_id s.editing_machine id && not (is_none s.pending_edit_machine)

-- the pending switch, if there is one
abbrev pub switch_to : Option ℕ → Dashboard → Dashboard
switch_to none s = s
switch_to (some id) s = record s { editing_machine = some id; pending_edit_machine = none }

-- `onEditEnd` of a machine: `seen` is the state of the render from which the function is, which tests
-- what is pending there
unfoldable pub end_machine_seen : Dashboard → ℕ → Dashboard → Dashboard
unfolding collapse_all_expanded
end_machine_seen seen id s =
    if is_id seen.pending_collapse_machine id
    then record (collapse_all_expanded (record s { editing_machine = none })) {
      pending_collapse_machine = none;
    }
    else switch_to seen.pending_edit_machine (record s { editing_machine = none })

-- from the last render, as for a click
abbrev pub end_machine : ℕ → Dashboard → Dashboard
end_machine id s = end_machine_seen s id s

-- `onEditEnd` of a compressor

unfoldable pub end_compressor_seen : Dashboard → ℕ → Dashboard → Dashboard
unfolding collapse_all_expanded
end_compressor_seen seen id s =
    if is_id seen.pending_collapse_compressor id
    then record (collapse_all_expanded (record s { editing_compressor = none })) {
      pending_collapse_compressor = none;
    }
    else record s { editing_compressor = none }

abbrev pub end_compressor : ℕ → Dashboard → Dashboard
end_compressor id s = end_compressor_seen s id s

unfoldable pub cancel_edit_switch : Dashboard → Dashboard
cancel_edit_switch s = record s { pending_edit_machine = none }

-- a click on the count of the machines
abbrev pub click_by : Option ℕ → Option ℕ → Dashboard → Dashboard
click_by (some id) editing s = record s { pending_collapse_machine = some id }
click_by none (some id) s = record s { pending_collapse_compressor = some id }
click_by none none s = collapse_all_expanded s

unfoldable pub click_machines : Dashboard → Dashboard
unfolding collapse_all_expanded
click_machines s = click_by s.editing_machine s.editing_compressor s

unfoldable pub expand_machine : ℕ → Dashboard → Dashboard
expand_machine id s = record s { expanded_machine = some id; expanded_compressor = none }

unfoldable pub expand_compressor : ℕ → Dashboard → Dashboard
expand_compressor id s = record s { expanded_compressor = some id; expanded_machine = none }

unfoldable pub collapse_machine : Dashboard → Dashboard
unfolding clear_expansion_chrome
collapse_machine s =
    clear_expansion_chrome (record s { expanded_machine = none; scroll_to_status = none })

unfoldable pub collapse_compressor : Dashboard → Dashboard
unfolding clear_expansion_chrome
collapse_compressor s = clear_expansion_chrome (record s { expanded_compressor = none })

-- the escape key outside of the cards; `is_open` says that a modal or a popup is open
unfoldable pub handle_escape : Bool → Dashboard → Dashboard
handle_escape is_open s =
    if not s.edit_mode
      || not (is_none s.editing_machine)
      || not (is_none s.editing_compressor)
      || s.show_delete_confirm
      || is_open
    then s
    else record s { edit_mode = false }

unfoldable pub handle_delete : DeleteTarget → Dashboard → Dashboard
handle_delete target s = record s { deleting_target = some target; show_delete_confirm = true }

-- the server has deleted the target
abbrev pub deleted : Option DeleteTarget → Dashboard → Dashboard
deleted none s = s
deleted (some (DeleteTarget.cnc id)) s = record s {
  show_delete_confirm = false;
  deleting_target = none;
}
deleted (some (DeleteTarget.compressor id)) s =
    if is_id s.expanded_compressor id
    then clear_expansion_chrome (record s {
      show_delete_confirm = false;
      deleting_target = none;
      expanded_compressor = none;
    })
    else record s { show_delete_confirm = false; deleting_target = none }

-- `confirmDelete`, by whether the server's answer is ok
unfoldable pub confirm_delete : Bool → Dashboard → Dashboard
unfolding clear_expansion_chrome
confirm_delete ok s = if ok then deleted s.deleting_target s else s
