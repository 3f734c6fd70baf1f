-- ===== src/Tools/Staging/Discard.antt =====
-- Discarding what is staged: `handleDiscardChanges`.
use shatter_nc.Prelude.{
  ◌≡◌, refl, ap, Bool, true, false, ◌&&◌, Option, none, some, List, [], ◌∷◌, map, arith,
  if◌then◌else◌, All, All-imp, Bool-cases, inl, inr,
}
use shatter_nc.Prelude.Maps.{lookup, insert}
use shatter_nc.Prelude.Numbers.{Num, nan, pos, neg, whole, strict_eq, lt_num}
use shatter_nc.Prelude.Text.{Text, text_eq}
use shatter_nc.Tools.{
  Value, num, Tool, UnifiedToolRow, UnifiedToolView, EmptyPocket, Field, OperationType, Slice,
  PendingChange,
}
use shatter_nc.Tools.Pots.{pots_equal}
use shatter_nc.Tools.Fields.{apply_field_to_tool, values_equal, empty_pocket_as_tool}
use shatter_nc.Tools.Pending.{is_assignment_field, tools_match_for_slice}
use shatter_nc.Tools.Pending.Merge.{writes_field}
use shatter_nc.Tools.Staging.{
  staged_change, apply_to_tool, map_row, map_slice, show_edit, stage_pending_change, discard_tool,
  discard_pocket, discard_change, handle_discard_changes,
}
use shatter_nc.Tools.Staging.Undo.{
  Holds, tool_edit, stage-first, map-undo, apply_to_tool-plain, apply_field-twice,
  match-apply_field,
}

match_symm :
    (a b : Tool) → tools_match_for_slice a b Slice.tool ≡ tools_match_for_slice b a Slice.tool
unfolding tools_match_for_slice
match_symm a b = numbers a.tool_number b.tool_number
  where
    numbers :
        (m n : Num) → (strict_eq m n && lt_num (whole 0) m) ≡ (strict_eq n m && lt_num (whole 0) n)
    numbers nan nan = refl
    numbers nan (pos n) = refl
    numbers nan (neg n) = refl
    numbers (pos m) nan = refl
    numbers (neg m) nan = refl
    numbers (pos m) (neg n) = refl
    numbers (neg m) (pos n) = refl
    numbers (pos m) (pos n) = ground arith
    numbers (neg m) (neg n) = ground arith

discard_tool-plain :
    (op : OperationType) (change : PendingChange) (t : Tool)
    → writes_field op ≡ true
    → change.cache_slice ≡ Slice.tool
    → is_assignment_field change.field ≡ false
    → discard_tool op change t ≡ apply_field_to_tool t change.field change.old_value
unfolding discard_tool
discard_tool-plain op change t w slice h = ground arith

row_discard :
    (op : OperationType) (tool : Tool) (f : Field) (old new : Value) (row : UnifiedToolRow)
    → writes_field op ≡ true
    → is_assignment_field f ≡ false
    → Holds tool f old row
    → (λ (r : UnifiedToolRow).
          if tools_match_for_slice tool r Slice.tool
          then discard_tool op (staged_change (tool_edit tool f op) old new) r
          else r)
        (map_row (apply_to_tool op Slice.tool f new) tool row)
      ≡ row
row_discard op tool f old new row w h holds =
    elim (Bool-cases (tools_match_for_slice row tool Slice.tool)) [
      | inl found ↦
          rw
            (
              found,
              apply_to_tool-plain op f new row w h,
              match_symm tool (apply_field_to_tool row f new),
              match-apply_field row tool f new h,
              found,
              discard_tool-plain op (staged_change (tool_edit tool f op) old new)
                  (apply_field_to_tool row f new) w refl h,
              apply_field-twice row f new old h,
            )
            (holds found)
      | inr away ↦ rw (away, match_symm tool row, away) refl
    ]

-- Discarding takes the only staged edit of a tool's field back completely: nothing is staged, and the
-- cached view is the one from before the edit, if the rows of the tool showed the old value and the
-- field is one that assigns no tool to a pot.
pub handle_discard_changes-undo :
    (tool : Tool) (f : Field) (op : OperationType) (old new : Value) (c : UnifiedToolView)
    → writes_field op ≡ true
    → is_assignment_field f ≡ false
    → values_equal new old ≡ false
    → All (Holds tool f old) c.tools
    → handle_discard_changes
        (stage_pending_change (tool_edit tool f op) old new (record { pending = []; cache = c }))
      ≡ record { pending = []; cache = c }
unfolding handle_discard_changes discard_change show_edit map_slice lookup insert
handle_discard_changes-undo tool f op old new c w h differ holds =
    let e = tool_edit tool f op in
    let change = staged_change e old new in
    rw
      (
        stage-first e old new (record { pending = []; cache = c }) refl differ,
        map-undo
            (λ (r : UnifiedToolRow).
              if tools_match_for_slice tool r Slice.tool then discard_tool op change r else r)
            (map_row (apply_to_tool op Slice.tool f new) tool) c.tools
            (All-imp (Holds tool f old) _ c.tools holds
              (λ row k. row_discard op tool f old new row w h k)),
      )
      refl

pockets-cap :
    (f : Tool → Tool) (tool : Tool) (ps : List EmptyPocket)
    → map (λ (p : EmptyPocket). p.is_cap) (map (discard_pocket f tool) ps)
      ≡ map
          (λ (p : EmptyPocket).
            if pots_equal tool.pot_number (some (num p.pot_number)) then none else p.is_cap)
          ps
unfolding tools_match_for_slice empty_pocket_as_tool
pockets-cap f tool [] = refl
pockets-cap f tool (p ∷ ps) =
    elim (Bool-cases (pots_equal tool.pot_number (some (num p.pot_number)))) [
      | inl here ↦ rw here (ap (λ (l : List (Option Bool)). none ∷ l) (pockets-cap f tool ps))
      | inr away ↦ rw away (ap (λ (l : List (Option Bool)). p.is_cap ∷ l) (pockets-cap f tool ps))
    ]

-- Discarding a staged change of an empty pocket drops the mark of a cap from that pocket, whatever
-- the mark was before, and from no other pocket.
pub handle_discard_changes-cap :
    (key : Text) (change : PendingChange) (c : UnifiedToolView)
    → change.cache_slice ≡ Slice.pocket
    → map
        (λ (p : EmptyPocket). p.is_cap)
        (handle_discard_changes
          (record { pending = (key, change) ∷ []; cache = c })).cache.empty_pockets
      ≡ map
          (λ (p : EmptyPocket).
            if pots_equal change.tool.pot_number (some (num p.pot_number)) then none else p.is_cap)
          c.empty_pockets
unfolding handle_discard_changes discard_change
handle_discard_changes-cap key change c slice =
    rw (slice, discard_change)
      (pockets-cap (discard_tool change.operation_type change) change.tool c.empty_pockets)
