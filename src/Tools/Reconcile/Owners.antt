-- ===== src/Tools/Reconcile/Owners.antt =====
-- No pot is held by two tools, and a batch answer keeps it so.
use shatter_nc.Prelude.{
  ◌≡◌, refl, true, false, not, ◌||◌, Option, none, some, List, [], ◌∷◌, map, arith, if◌then◌else◌,
  All, ◌==◌, Bool-cases, Option-cases, inl, inr,
}
use shatter_nc.Prelude.Numbers.{
  Num, nan, pos, neg, whole, strict_eq, same_value_iff, is_finite, lt_num, num_eq,
}
use shatter_nc.Tools.{UnifiedToolRow, UnifiedToolView, Slice, PendingChange}
use shatter_nc.Tools.Pots.{parse_pot_number, same_parsed, finite}
use shatter_nc.Tools.Fields.{is_true, clear_atc_assignment}
use shatter_nc.Tools.Pending.{tools_match_for_slice}
use shatter_nc.Tools.Reconcile.{
  assign_row, assign_pot, reconcile_assignment, reconcile_delete, reconcile_cap,
}
use shatter_nc.Tools.Reconcile.Assign.{sits_in}

-- the pot that a row in the ATC holds
abbrev pub seat : UnifiedToolRow → Option Num
seat row = if is_true row.in_atc then parse_pot_number row.pot_number else none

abbrev pub Agrees : (Num → Num) → Option Num → Num → Type 0
Agrees owner none tool = Unit
Agrees owner (some pot) tool = tool ≡ owner pot

abbrev pub Sits : (Num → Num) → UnifiedToolRow → Type 0
Sits owner row = Agrees owner (seat row) row.tool_number

-- Each pot has one tool: all rows that hold a pot are rows of its owner.
abbrev pub HasOwners : List UnifiedToolRow → Type 0
HasOwners rows =
    (owner : Num → Num) × All (λ (row : UnifiedToolRow). Agrees owner (seat row) row.tool_number)
      rows

pub clear-Sits : (owner : Num → Num) (row : UnifiedToolRow) → Sits owner (clear_atc_assignment row)
unfolding clear_atc_assignment
clear-Sits owner row = tt

pub map-Sits :
    (owner owner' : Num → Num) (f : UnifiedToolRow → UnifiedToolRow)
    → ((row : UnifiedToolRow) → Sits owner row → Sits owner' (f row))
    → (rows : List UnifiedToolRow) → All (Sits owner) rows
    → All (Sits owner') (map f rows)
map-Sits owner owner' f keep [] h = tt
map-Sits owner owner' f keep (row ∷ rows) (s, h) = (keep row s, map-Sits owner owner' f keep rows h)

pub delete-HasOwners :
    (change : PendingChange) (c : UnifiedToolView)
    → HasOwners c.tools
    → HasOwners (reconcile_delete change c).tools
unfolding reconcile_delete
delete-HasOwners change c (owner, h) = (owner, map-Sits owner owner _ keep c.tools h)
  where
    keep :
        (row : UnifiedToolRow)
        → Sits owner row
        → Sits owner (
            if tools_match_for_slice change.tool row Slice.tool
            then clear_atc_assignment row
            else row)
    keep row s = elim (Bool-cases (tools_match_for_slice change.tool row Slice.tool)) [
      | inl here ↦ rw here (clear-Sits owner row)
      | inr away ↦ rw away s
    ]

-- the owners after an assignment
abbrev new_owner : Num → Num → (Num → Num) → Num → Num
new_owner target assigned owner pot = if pot == target then assigned else owner pot

away-Agrees :
    (owner : Num → Num) (target assigned tool : Num) (held : Option Num)
    → same_parsed held (some target) ≡ false
    → is_finite target ≡ true
    → Agrees owner held tool
    → Agrees (new_owner target assigned owner) held tool
away-Agrees owner target assigned tool none away fin s = tt
away-Agrees owner target assigned tool (some pot) away fin s = ground arith

mine-Agrees :
    (owner : Num → Num) (target assigned tool : Num)
    → is_finite target ≡ true
    → strict_eq tool assigned ≡ true
    → Agrees (new_owner target assigned owner) (finite target) tool
mine-Agrees owner nan assigned tool fin mine = tt
mine-Agrees owner (pos n) assigned tool fin mine = ground (arith, same_value_iff tool assigned)
mine-Agrees owner (neg n) assigned tool fin mine = ground (arith, same_value_iff tool assigned)

seat_away :
    (target : Num) (row : UnifiedToolRow)
    → sits_in target row ≡ false
    → same_parsed (seat row) (some target) ≡ false
seat_away target row h = elim (Bool-cases (is_true row.in_atc)) [
  | inl there ↦ rw there (rw there at h)
  | inr out ↦ rw out refl
]

assign_row-Sits :
    (owner : Num → Num) (target assigned : Num)
    → is_finite target ≡ true
    → (row : UnifiedToolRow) → Sits owner row
    → Sits (new_owner target assigned owner) (assign_row target assigned row)
unfolding assign_row parse_pot_number
assign_row-Sits owner target assigned fin row s =
    elim (Bool-cases (strict_eq row.tool_number assigned)) [
      | inl mine ↦ rw mine (mine-Agrees owner target assigned row.tool_number fin mine)
      | inr other ↦ elim (Bool-cases (sits_in target row)) [
        | inl sits ↦ rw (other, sits) (clear-Sits _ row)
        | inr away ↦
            rw (other, away)
              (away-Agrees owner target assigned row.tool_number (seat row)
                (seat_away target row away) fin s)
      ]
    ]

pub assignment-HasOwners :
    (target : Option Num) (assigned : Num) (c : UnifiedToolView)
    → HasOwners c.tools
    → HasOwners (reconcile_assignment target assigned c).tools
unfolding reconcile_assignment assign_pot
assignment-HasOwners none assigned c h = h
assignment-HasOwners (some target) assigned c (owner, h) = elim (Bool-cases (is_finite target)) [
  | inr out ↦ rw out (owner, h)
  | inl fin ↦ elim (Bool-cases (lt_num target (whole 1) || not (is_finite assigned))) [
    | inl bad ↦ rw (fin, bad) (owner, h)
    | inr good ↦
        rw (fin, good)
          (
            new_owner target assigned owner,
            map-Sits owner _ (assign_row target assigned)
                (assign_row-Sits owner target assigned fin) c.tools h,
          )
  ]
]

pub cap-HasOwners :
    (change : PendingChange) (c : UnifiedToolView)
    → HasOwners c.tools
    → HasOwners (reconcile_cap change c).tools
unfolding reconcile_cap
cap-HasOwners change c s = elim (Option-cases (parse_pot_number change.tool.pot_number)) [
  | inl missing ↦ rw (missing, reconcile_cap) s
  | inr (pot, named) ↦ rw (named, reconcile_cap) s
]
