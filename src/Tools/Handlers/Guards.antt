-- ===== src/Tools/Handlers/Guards.antt =====
-- What the handlers let through: the guards of the edits of the tool pane.
use mathlib.Core.List.{foldl}
use shatter_nc.Prelude.{
  ◌≡◌, ◌⊎◌, refl, Bool, true, false, not, ◌||◌, none, some, List, [], ◌∷◌, arith, if◌then◌else◌,
  Option-cases, inl, inr,
}
use shatter_nc.Prelude.Numbers.{Num, whole, strict_eq, lt_num, is_finite}
use shatter_nc.Prelude.Text.{Text, text_beq, trim, parse_int}
use shatter_nc.Tools.{Value, Tool, Field, OperationType, Slice, Pending}
use shatter_nc.Tools.Pots.{parse_pot_number}
use shatter_nc.Tools.UnifiedView.{truthy}
use shatter_nc.Tools.Occupancy.{find_tool_pot_assignment}
use shatter_nc.Tools.Staging.{Staged, handle_discard_changes}
use shatter_nc.Tools.Staging.Entries.{AllDiffer, stage_pending_change-AllDiffer}
use shatter_nc.Tools.Handlers.{
  ToolsPane, stage, clear_field_warning, occupant_of, elsewhere, handle_color_change, cap_pocket,
  assign_pocket, pocket_number, handle_tool_number_change, assign_pot_number,
  handle_pot_number_change, handle_tool_type_change, handle_delete_from_pot, Offset,
  handle_offset_change, handle_life_change, handle_name_change, discard_by, handle_discard,
}

-- what the user may do to the staged changes
pub data Input : Type 0 where
  color : Tool → Num → Input
  tool_number : Tool → Text → Slice → Input
  pot_number tool_type life name : Tool → Text → Input
  delete : Tool → Input
  offset : Tool → Offset → Text → Input
  discard : Input

abbrev pub handle : ToolsPane → Input → ToolsPane
handle p (color tool new) = handle_color_change tool new p
handle p (tool_number tool raw slice) = handle_tool_number_change tool raw slice p
handle p (pot_number tool raw) = handle_pot_number_change tool raw p
handle p (tool_type tool raw) = handle_tool_type_change tool raw p
handle p (life tool raw) = handle_life_change tool raw p
handle p (name tool raw) = handle_name_change tool raw p
handle p (delete tool) = handle_delete_from_pot tool p
handle p (offset tool which raw) = handle_offset_change tool which raw p
handle p discard = handle_discard p

IsTidy : ToolsPane → Type 0
IsTidy p = AllDiffer p.staged.pending

if-IsTidy : (b : Bool) (p q : ToolsPane) → IsTidy p → IsTidy q → IsTidy (if b then p else q)
if-IsTidy true p q h k = h
if-IsTidy false p q h k = k

stage-IsTidy :
    (tool : Tool) (f : Field) (old new : Value) (op : OperationType) (slice : Slice) (p : ToolsPane)
    → IsTidy p
    → IsTidy (stage tool f old new op slice p)
unfolding IsTidy
stage-IsTidy tool f old new op slice p h = stage_pending_change-AllDiffer _ old new p.staged h

cap_pocket-IsTidy :
    (tool : Tool) (pot : Num) (p : ToolsPane) → IsTidy p → IsTidy (cap_pocket tool pot p)
unfolding cap_pocket IsTidy
cap_pocket-IsTidy tool pot p h = elim (Option-cases (occupant_of p pot none)) [
  | inl free ↦ rw (free, cap_pocket) (stage_pending_change-AllDiffer _ _ _ p.staged h)
  | inr (t, used) ↦ rw (used, cap_pocket) h
]

assign_pocket-IsTidy :
    (tool : Tool) (pot parsed : Num) (p : ToolsPane)
    → IsTidy p
    → IsTidy (assign_pocket tool pot parsed p)
unfolding assign_pocket IsTidy
assign_pocket-IsTidy tool pot parsed p h = elim (Option-cases (occupant_of p pot none)) [
  | inr (t, used) ↦ rw (used, assign_pocket) h
  | inl free ↦
      elim (Option-cases
        (elsewhere pot (find_tool_pot_assignment p.staged.cache p.staged.pending parsed))) [
          | inl nowhere ↦
              rw (free, assign_pocket, nowhere) (stage_pending_change-AllDiffer _ _ _ p.staged h)
          | inr (q, there) ↦ rw (free, assign_pocket, there) h
        ]
]

pocket_number-IsTidy :
    (tool : Tool) (parsed : Num) (p : ToolsPane) → IsTidy p → IsTidy (pocket_number tool parsed p)
unfolding pocket_number
pocket_number-IsTidy tool parsed p h = elim (Option-cases (parse_pot_number tool.pot_number)) [
  | inl no_pot ↦ rw (no_pot, pocket_number) h
  | inr (pot, read) ↦
      rw (read, pocket_number)
        (if-IsTidy (lt_num pot (whole 1)) _ _ h (
          if-IsTidy (strict_eq parsed (whole 0)) _ _ (cap_pocket-IsTidy tool pot p h) (
            if-IsTidy (lt_num parsed (whole 1) || lt_num (whole 999) parsed) _ _ h
              (assign_pocket-IsTidy tool pot parsed p h))))
]

assign_pot_number-IsTidy :
    (tool : Tool) (parsed : Num) (p : ToolsPane)
    → IsTidy p
    → IsTidy (assign_pot_number tool parsed p)
unfolding assign_pot_number IsTidy
assign_pot_number-IsTidy tool parsed p h =
    elim (Option-cases (occupant_of p parsed (some tool.tool_number))) [
      | inl free ↦ rw (free, assign_pot_number) (stage_pending_change-AllDiffer _ _ _ p.staged h)
      | inr (t, used) ↦ rw (used, assign_pot_number) h
    ]

clear-IsTidy : (key : Text) (p : ToolsPane) → IsTidy p → IsTidy (clear_field_warning key p)
unfolding IsTidy
clear-IsTidy key p h = h

discard-IsTidy : (q : Pending) (p : ToolsPane) → IsTidy p → IsTidy (discard_by q p)
unfolding discard_by handle_discard_changes IsTidy
discard-IsTidy [] p h = h
discard-IsTidy (_ ∷ _) p h = tt

handle-IsTidy : (p : ToolsPane) (i : Input) → IsTidy p → IsTidy (handle p i)
unfolding handle_color_change handle_tool_number_change handle_pot_number_change
    handle_tool_type_change handle_delete_from_pot handle_offset_change handle_life_change
    handle_name_change handle_discard
handle-IsTidy p (color tool new) h = if-IsTidy _ _ _ h (stage-IsTidy _ _ _ _ _ _ p h)
handle-IsTidy p (tool_number tool raw slice) h = if-IsTidy _ _ _ h (
    if-IsTidy _ _ _ (stage-IsTidy _ _ _ _ _ _ p h)
      (if-IsTidy _ _ _ (pocket_number-IsTidy tool (parse_int raw) p h) h))
handle-IsTidy p (pot_number tool raw) h =
    if-IsTidy (not p.machine_id || not (truthy tool.tool_number)) _ _ h (
      if-IsTidy (text_beq (trim raw) []) _ _ (clear-IsTidy _ p h) (
        if-IsTidy
          (not (is_finite (parse_int (trim raw)))
            || lt_num (parse_int (trim raw)) (whole 1)
            || lt_num p.num_pockets (parse_int (trim raw)))
          _ _ h (assign_pot_number-IsTidy tool (parse_int (trim raw)) p h)))
handle-IsTidy p (tool_type tool raw) h =
    if-IsTidy _ _ _ h (if-IsTidy _ _ _ h (stage-IsTidy _ _ _ _ _ _ p h))
handle-IsTidy p (life tool raw) h = if-IsTidy _ _ _ h (stage-IsTidy _ _ _ _ _ _ p h)
handle-IsTidy p (name tool raw) h = if-IsTidy _ _ _ h (stage-IsTidy _ _ _ _ _ _ p h)
handle-IsTidy p (delete tool) h = if-IsTidy _ _ _ h (stage-IsTidy _ _ _ _ _ _ p h)
handle-IsTidy p (offset tool which raw) h = if-IsTidy _ _ _ h (stage-IsTidy _ _ _ _ _ _ p h)
handle-IsTidy p discard h = discard-IsTidy p.staged.pending p h

-- Whatever the user enters and discards, in whatever order, no change is ever staged whose new value
-- equals its old one, if none was to begin with.
pub handle-AllDiffer :
    (inputs : List Input) (p : ToolsPane)
    → AllDiffer p.staged.pending
    → AllDiffer (foldl handle p inputs).staged.pending
unfolding IsTidy
handle-AllDiffer [] p h = h
handle-AllDiffer (i ∷ inputs) p h = handle-AllDiffer inputs (handle p i) (handle-IsTidy p i h)

guarded :
    (b : Bool) (p q : ToolsPane) (before : Staged) (Free : Type 0)
    → p.staged ≡ before
    → (b ≡ false → (q.staged ≡ before) ⊎ Free)
    → ((if b then p else q).staged ≡ before) ⊎ Free
guarded true p q before Free h k = inl h
guarded false p q before Free h k = k refl

in_bounds : (a b c : Bool) → (not a || b || c) ≡ false → (a ≡ true) × (b ≡ false) × (c ≡ false)
in_bounds a b c h = ground arith

-- A pot entered for a tool changes what is staged only if it is a whole number from 1 to the number of
-- pockets that no other tool is in, staged changes included.
pub handle_pot_number_change-free :
    (tool : Tool) (raw : Text) (p : ToolsPane)
    → ((handle_pot_number_change tool raw p).staged ≡ p.staged)
      ⊎ (((is_finite (parse_int (trim raw)) ≡ true)
            × (lt_num (parse_int (trim raw)) (whole 1) ≡ false)
            × (lt_num p.num_pockets (parse_int (trim raw)) ≡ false))
          × (occupant_of p (parse_int (trim raw)) (some tool.tool_number) ≡ none))
unfolding handle_pot_number_change assign_pot_number
handle_pot_number_change-free tool raw p =
    guarded (not p.machine_id || not (truthy tool.tool_number)) _ _ p.staged _ refl (λ known.
      guarded (text_beq (trim raw) []) _ _ p.staged _ refl (λ entered.
        guarded
          (not (is_finite (parse_int (trim raw)))
            || lt_num (parse_int (trim raw)) (whole 1)
            || lt_num p.num_pockets (parse_int (trim raw)))
          _ _ p.staged _ refl
          (λ in_range.
            elim (Option-cases (occupant_of p (parse_int (trim raw)) (some tool.tool_number))) [
              | inl free ↦ inr (in_bounds _ _ _ in_range, free)
              | inr (t, used) ↦ inl (rw (used, assign_pot_number) refl)
            ])))

-- A tool number entered into an empty pocket changes what is staged only if no tool is in that pocket
-- and the tool is in no other pot, staged changes included.
pub assign_pocket-free :
    (tool : Tool) (pot parsed : Num) (p : ToolsPane)
    → ((assign_pocket tool pot parsed p).staged ≡ p.staged)
      ⊎ ((occupant_of p pot none ≡ none)
          × (elsewhere pot (find_tool_pot_assignment p.staged.cache p.staged.pending parsed)
              ≡ none))
unfolding assign_pocket
assign_pocket-free tool pot parsed p = elim (Option-cases (occupant_of p pot none)) [
  | inr (t, used) ↦ inl (rw (used, assign_pocket) refl)
  | inl free ↦
      elim (Option-cases
        (elsewhere pot (find_tool_pot_assignment p.staged.cache p.staged.pending parsed))) [
          | inl nowhere ↦ inr (free, nowhere)
          | inr (q, there) ↦ inl (rw (free, assign_pocket, there) refl)
        ]
]
