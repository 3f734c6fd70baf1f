-- ===== src/Dashboard/Exclusive.antt =====
-- The steps that change which assets are edited and expanded, and what is reached by them.
use shatter_nc.Prelude.{ℕ, ◌≡◌, refl, Bool, true, false, ◌||◌, Option, none, some, if◌then◌else◌}
use shatter_nc.Dashboard.{
  Dashboard, DeleteTarget, is_none, is_id, edit_machine, edit_compressor, end_machine,
  end_machine_seen, end_compressor_seen, cancel_edit_switch, click_machines, expand_machine,
  expand_compressor, collapse_machine, collapse_compressor, handle_escape, handle_delete,
  confirm_delete, switch_to, deleted, click_by, can_edit_machine, can_edit_compressor,
  collapse_all_expanded, clear_expansion_chrome,
}

-- What a user and the server do, one thing at a time. A click in a machine's form ends the session of
-- that machine. The timer of a save ends a session with what was pending when the save was clicked,
-- whatever is edited by then: the case is left out that a switch to another machine was pending then
-- and a compressor is edited now. The end of a compressor's session, too, tests what was pending at
-- some render.
pub data Step : Dashboard → Dashboard → Type 0 where
  edited_machine : {s : Dashboard} → (id : ℕ) → Step s (edit_machine id s)
  edited_compressor : {s : Dashboard} → (id : ℕ) → Step s (edit_compressor id s)
  ended_machine :
      {s : Dashboard} → (id : ℕ) → s.editing_machine ≡ some id → Step s (end_machine id s)
  timed_machine :
      {s : Dashboard}
      → (id : ℕ) → (seen : Dashboard)
      → (is_none seen.pending_edit_machine || is_none s.editing_compressor) ≡ true
      → Step s (end_machine_seen seen id s)
  ended_compressor :
      {s : Dashboard} → (id : ℕ) → (seen : Dashboard) → Step s (end_compressor_seen seen id s)
  cancelled_switch : {s : Dashboard} → Step s (cancel_edit_switch s)
  clicked_machines : {s : Dashboard} → Step s (click_machines s)
  expanded_machine : {s : Dashboard} → (id : ℕ) → Step s (expand_machine id s)
  expanded_compressor : {s : Dashboard} → (id : ℕ) → Step s (expand_compressor id s)
  collapsed_machine : {s : Dashboard} → Step s (collapse_machine s)
  collapsed_compressor : {s : Dashboard} → Step s (collapse_compressor s)
  escaped : {s : Dashboard} → (is_open : Bool) → Step s (handle_escape is_open s)
  asked_delete : {s : Dashboard} → (target : DeleteTarget) → Step s (handle_delete target s)
  confirmed_delete : {s : Dashboard} → (ok : Bool) → Step s (confirm_delete ok s)

pub data Reach (start : Dashboard) : Dashboard → Type 0 where
  here : Reach start start
  next : {s t : Dashboard} → Reach start s → Step s t → Reach start t

-- A machine or a compressor is edited, or none, and so for what is expanded.
unfoldable pub IsExclusive : Dashboard → Type 0
IsExclusive s =
    ((is_none s.editing_machine || is_none s.editing_compressor) ≡ true)
    × ((is_none s.expanded_machine || is_none s.expanded_compressor) ≡ true)

if-IsExclusive :
    (b : Bool) (p q : Dashboard) → IsExclusive p → IsExclusive q → IsExclusive (if b then p else q)
if-IsExclusive true p q h k = h
if-IsExclusive false p q h k = k

or_true : (b : Bool) → (b || true) ≡ true
or_true true = refl
or_true false = refl

-- the session of the machine ends, and no compressor is edited
switch_to-IsExclusive :
    (o : Option ℕ) (s : Dashboard)
    → is_none s.editing_compressor ≡ true
    → (is_none s.expanded_machine || is_none s.expanded_compressor) ≡ true
    → IsExclusive (switch_to o s)
unfolding IsExclusive
switch_to-IsExclusive none s e h = (rw e (or_true _), h)
switch_to-IsExclusive (some id) s e h = (e, h)

-- what a timer may end
late-IsExclusive :
    (o : Option ℕ) (s : Dashboard)
    → (is_none o || is_none s.editing_compressor) ≡ true
    → (is_none s.expanded_machine || is_none s.expanded_compressor) ≡ true
    → IsExclusive (switch_to o (record s { editing_machine = none }))
unfolding IsExclusive
late-IsExclusive none s e h = (refl, h)
late-IsExclusive (some id) s e h = (e, h)

alone : (o p : Option ℕ) (id : ℕ) → o ≡ some id → (is_none o || is_none p) ≡ true → is_none p ≡ true
alone none p id e h = cc
alone (some a) p id e h = h

click_by-IsExclusive :
    (o p : Option ℕ) (s : Dashboard) → IsExclusive s → IsExclusive (click_by o p s)
unfolding IsExclusive collapse_all_expanded clear_expansion_chrome
click_by-IsExclusive (some id) p s h = h
click_by-IsExclusive none (some id) s h = h
click_by-IsExclusive none none s (e, x) = (e, refl)

deleted-IsExclusive :
    (o : Option DeleteTarget) (s : Dashboard) → IsExclusive s → IsExclusive (deleted o s)
unfolding IsExclusive clear_expansion_chrome
deleted-IsExclusive none s h = h
deleted-IsExclusive (some (DeleteTarget.cnc id)) s h = h
deleted-IsExclusive (some (DeleteTarget.compressor id)) s (e, x) =
    if-IsExclusive (is_id s.expanded_compressor id) _ _ (e, or_true _) (e, x)

Step-IsExclusive : {s t : Dashboard} → IsExclusive s → Step s t → IsExclusive t
unfolding IsExclusive edit_machine edit_compressor end_machine_seen end_compressor_seen
    cancel_edit_switch click_machines expand_machine expand_compressor collapse_machine
    collapse_compressor handle_escape handle_delete confirm_delete
Step-IsExclusive {s} h (edited_machine id) =
    if-IsExclusive (can_edit_machine id s) _ _ (refl, h.1) h
Step-IsExclusive {s} h (edited_compressor id) =
    if-IsExclusive (can_edit_compressor id s) _ _ (refl, h.1) h
Step-IsExclusive {s} (e, x) (ended_machine id m) =
    if-IsExclusive (is_id s.pending_collapse_machine id) _ _ (refl, refl)
      (switch_to-IsExclusive s.pending_edit_machine (record s { editing_machine = none })
        (alone s.editing_machine s.editing_compressor id m e) x)
Step-IsExclusive {s} (e, x) (timed_machine id seen apart) =
    if-IsExclusive (is_id seen.pending_collapse_machine id) _ _ (refl, refl)
      (late-IsExclusive seen.pending_edit_machine (record s { editing_machine = none }) apart x)
Step-IsExclusive {s} (e, x) (ended_compressor id seen) =
    if-IsExclusive (is_id seen.pending_collapse_compressor id) _ _ (or_true _, refl) (or_true _, x)
Step-IsExclusive h cancelled_switch = h
Step-IsExclusive {s} h clicked_machines =
    click_by-IsExclusive s.editing_machine s.editing_compressor s h
Step-IsExclusive (e, x) (expanded_machine id) = (e, refl)
Step-IsExclusive (e, x) (expanded_compressor id) = (e, refl)
Step-IsExclusive (e, x) collapsed_machine = (e, refl)
Step-IsExclusive (e, x) collapsed_compressor = (e, or_true _)
Step-IsExclusive h (escaped is_open) = if-IsExclusive _ _ _ h h
Step-IsExclusive h (asked_delete target) = h
Step-IsExclusive {s} h (confirmed_delete ok) =
    if-IsExclusive ok _ _ (deleted-IsExclusive s.deleting_target s h) h

-- Whatever is clicked and confirmed, in whatever order, no two assets are edited at once, and no two
-- are expanded, unless the timer of a save for which a switch to another machine was pending runs off
-- while a compressor is edited.
pub Reach-IsExclusive : {s t : Dashboard} → IsExclusive s → Reach s t → IsExclusive t
Reach-IsExclusive h here = h
Reach-IsExclusive h (next r step) = Step-IsExclusive (Reach-IsExclusive h r) step

-- In the case that is left out, the machine of the pending switch is edited besides the compressor.
end_machine_seen-both :
    (seen s : Dashboard) (id other c : ℕ)
    → is_id seen.pending_collapse_machine id ≡ false
    → seen.pending_edit_machine ≡ some other
    → s.editing_compressor ≡ some c
    → ((end_machine_seen seen id s).editing_machine ≡ some other)
      × ((end_machine_seen seen id s).editing_compressor ≡ some c)
unfolding end_machine_seen
end_machine_seen-both seen s id other c stays pending edited =
    rw (stays, pending, edited) (refl, refl)
