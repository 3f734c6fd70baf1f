-- ===== src/Tools/Reconcile/Assign.antt =====
-- What an assignment leaves in its pot.
use shatter_nc.Prelude.{
  ◌≡◌, ◌≢◌, refl, ap, Bool, true, false, ◌&&◌, Option, none, some, if◌then◌else◌, List, [], ◌∷◌,
  map, arith, any, any-filter-not, Bool-cases, inl, inr,
}
use shatter_nc.Prelude.Numbers.{Num, whole, strict_eq, lt_num, is_finite, num_eq}
use shatter_nc.Tools.{
  number_of, EmptyPocket, UnifiedToolRow, UnifiedToolView, OperationType, PendingChange, Slice,
}
use mathlib.Core.Option
use shatter_nc.Tools.Pending.{slice_beq}
use shatter_nc.Tools.Pots.{parse_pot_number, same_parsed}
use shatter_nc.Tools.Fields.{is_true, clear_atc_assignment}
use shatter_nc.Tools.Reconcile.{
  assign_row, assign_pot, reconcile_assignment, reconcile_by, reconcile_change,
}
use shatter_nc.Tools.Batch.{ToolChangeBatchResult}

-- The row is in the ATC at pot `target`.
abbrev pub sits_in : Num → UnifiedToolRow → Bool
sits_in target row =
    is_true row.in_atc && same_parsed (parse_pot_number row.pot_number) (some target)

parse_pot_number-none : parse_pot_number none ≡ none
unfolding parse_pot_number
parse_pot_number-none = refl

assign_row-sits_in :
    (target assigned : Num) (row : UnifiedToolRow)
    → is_finite target ≡ true
    → sits_in target (assign_row target assigned row) ≡ strict_eq row.tool_number assigned
unfolding assign_row clear_atc_assignment parse_pot_number
assign_row-sits_in target assigned row h = elim (Bool-cases (strict_eq row.tool_number assigned)) [
  | inl mine ↦ rw mine (ground arith)
  | inr other ↦ elim (Bool-cases (sits_in target row)) [
    | inl sits ↦ rw (other, sits) refl
    | inr away ↦ rw (other, away) away
  ]
]

none-ne-some {ℓ} : {A : Type ℓ} (a : A) → none ≢ some a
none-ne-some a e = cc

map-sits_in :
    (target assigned : Num) (rows : List UnifiedToolRow)
    → is_finite target ≡ true
    → map (sits_in target) (map (assign_row target assigned) rows)
      ≡ map (λ (row : UnifiedToolRow). strict_eq row.tool_number assigned) rows
map-sits_in target assigned [] h = refl
map-sits_in target assigned (row ∷ rows) h =
    rw (assign_row-sits_in target assigned row h, map-sits_in target assigned rows h)

abbrev pub with_second {ℓ κ} : {A : Type ℓ} {B : Type κ} → B → A → A × B
with_second b a = (a, b)

-- The pot and the tool number that a change assigns to one another, if it does: the pot number of a
-- tool, or the tool number of a pocket.
abbrev pub assigned_by : OperationType → PendingChange → Option (Num × Num)
assigned_by OperationType.pot_number change =
    some (number_of change.new_value, change.tool.tool_number)
assigned_by OperationType.tool_number change =
    if slice_beq change.cache_slice Slice.pocket
    then Option.map (with_second (number_of change.new_value))
        (parse_pot_number change.tool.pot_number)
    else none
assigned_by _ change = none

pair-some {ℓ κ} :
    {A : Type ℓ} {B : Type κ} (o : Option A) (b : B) (x : A) (y : B)
    → Option.map (with_second b) o ≡ some (x, y)
    → (o ≡ some x) × (b ≡ y)
pair-some none b x y e = cc
pair-some (some a) b x y e = (cc e, cc e)

reconcile_by-assigned :
    (op : OperationType) (change : PendingChange) (result : ToolChangeBatchResult)
    (c : UnifiedToolView) (target assigned : Num)
    → assigned_by op change ≡ some (target, assigned)
    → reconcile_by op change result c ≡ reconcile_assignment (some target) assigned c
unfolding reconcile_by
reconcile_by-assigned OperationType.pot_number change result c target assigned e =
    ap (λ (o : Option (Num × Num)). by_pair o c) e
  where
    by_pair : Option (Num × Num) → UnifiedToolView → UnifiedToolView
    by_pair none c = c
    by_pair (some (pot, tool)) c = reconcile_assignment (some pot) tool c
reconcile_by-assigned OperationType.tool_number change result c target assigned e =
    elim (Bool-cases (slice_beq change.cache_slice Slice.pocket)) [
      | inl pocket ↦
          let (pot, tool) =
            pair-some (parse_pot_number change.tool.pot_number) (number_of change.new_value) target
              assigned (rw pocket at e) in
          rw (pocket, pot, tool) refl
      | inr other ↦ absurd (none-ne-some (target, assigned) (rw other at e))
    ]
reconcile_by-assigned op change result c target assigned e =
    absurd (none-ne-some (target, assigned) e)

-- A confirmed assignment, of a pot number to a tool or of a tool number to a pocket, leaves exactly
-- the rows of the assigned tool in the pot, and no entry for it among the empty pockets: the pot is a
-- number from 1 up, and the tool number is finite.
pub reconcile_change-assignment :
    (change : PendingChange) (result : ToolChangeBatchResult) (c : UnifiedToolView)
    (target assigned : Num)
    → assigned_by change.operation_type change ≡ some (target, assigned)
    → is_finite target ≡ true
    → lt_num target (whole 1) ≡ false
    → is_finite assigned ≡ true
    → (map (sits_in target) (reconcile_change change result c).tools
        ≡ map (λ (row : UnifiedToolRow). strict_eq row.tool_number assigned) c.tools)
      × (any
            (λ (p : EmptyPocket). strict_eq p.pot_number target)
            (reconcile_change change result c).empty_pockets
          ≡ false)
unfolding reconcile_change reconcile_assignment assign_pot
reconcile_change-assignment change result c target assigned assigns finite_pot above finite_tool =
    rw
      (
        reconcile_by-assigned change.operation_type change result c target assigned assigns,
        finite_pot,
        above,
        finite_tool,
      )
      (
        map-sits_in target assigned c.tools finite_pot,
        any-filter-not (λ (p : EmptyPocket). strict_eq p.pot_number target) c.empty_pockets,
      )
