-- ===== src/Tools/Staging/Undo.antt =====
-- An edit and its undoing: entering the old value again, and discarding.
use shatter_nc.Prelude.{
  ◌≡◌, refl, true, false, none, List, [], ◌∷◌, map, arith, All, All-imp, Bool-cases, inl, inr,
}
use shatter_nc.Prelude.Tests.{==_refl}
use shatter_nc.Prelude.Maps.{lookup, insert, erase, lookup-insert, erase-insert}
use shatter_nc.Prelude.Text.{text_eq}
use shatter_nc.Tools.{
  Value, Tool, UnifiedToolRow, UnifiedToolView, Field, OperationType, Slice, Pending,
}
use shatter_nc.Tools.Fields.{apply_field_to_tool, values_equal}
use shatter_nc.Tools.Pending.{is_assignment_field, tools_match_for_slice}
use shatter_nc.Tools.Pending.Merge.{writes_field}
use shatter_nc.Tools.Staging.{
  Staged, Edit, key_of, staged_change, apply_to_tool, revert_tool, map_row, map_slice, set_spindle,
  show_edit, show_revert, stage_pending_change,
}

pub apply_field-twice :
    (t : Tool) (f : Field) (v w : Value)
    → is_assignment_field f ≡ false
    → apply_field_to_tool (apply_field_to_tool t f v) f w ≡ apply_field_to_tool t f w
unfolding apply_field_to_tool
apply_field-twice t Field.pot_number v w h = cc
apply_field-twice t f v w h = refl

pub apply_to_tool-plain :
    (op : OperationType) (f : Field) (v : Value) (t : Tool)
    → writes_field op ≡ true
    → is_assignment_field f ≡ false
    → apply_to_tool op Slice.tool f v t ≡ apply_field_to_tool t f v
unfolding apply_to_tool
apply_to_tool-plain op f v t w h = ground arith

revert_tool-plain :
    (op : OperationType) (f : Field) (v : Value) (tool t : Tool)
    → writes_field op ≡ true
    → is_assignment_field f ≡ false
    → revert_tool op Slice.tool f v tool t ≡ apply_field_to_tool t f v
unfolding revert_tool
revert_tool-plain op f v tool t w h = ground arith

-- A field that does not assign is not what a tool is found by.
pub match-apply_field :
    (t tool : Tool) (f : Field) (v : Value)
    → is_assignment_field f ≡ false
    → tools_match_for_slice (apply_field_to_tool t f v) tool Slice.tool
      ≡ tools_match_for_slice t tool Slice.tool
unfolding apply_field_to_tool tools_match_for_slice
match-apply_field t tool Field.tool_number v h = cc
match-apply_field t tool Field.pot_number v h = cc
match-apply_field t tool f v h = refl

-- the row holds the value in the field, if it is a row of the tool
abbrev pub Holds : Tool → Field → Value → UnifiedToolRow → Type 0
Holds tool f value row =
    tools_match_for_slice row tool Slice.tool ≡ true → apply_field_to_tool row f value ≡ row

row_undo :
    (op : OperationType) (tool : Tool) (f : Field) (old new : Value) (row : UnifiedToolRow)
    → writes_field op ≡ true
    → is_assignment_field f ≡ false
    → Holds tool f old row
    → map_row
        (revert_tool op Slice.tool f old tool)
        tool
        (map_row (apply_to_tool op Slice.tool f new) tool row)
      ≡ row
row_undo op tool f old new row w h holds =
    elim (Bool-cases (tools_match_for_slice row tool Slice.tool)) [
      | inl found ↦
          rw
            (
              found,
              apply_to_tool-plain op f new row w h,
              match-apply_field row tool f new h,
              found,
              revert_tool-plain op f old tool (apply_field_to_tool row f new) w h,
              apply_field-twice row f new old h,
            )
            (holds found)
      | inr away ↦ rw (away, away) refl
    ]

pub map-undo {ℓ} :
    {A : Type ℓ} (f g : A → A) (xs : List A) → All (λ x. f (g x) ≡ x) xs → map f (map g xs) ≡ xs
map-undo f g [] h = refl
map-undo f g (x ∷ xs) (e, h) = cc (e, map-undo f g xs h)

-- an edit of a field of a tool
abbrev pub tool_edit : Tool → Field → OperationType → Edit
tool_edit tool f op = record {
  tool = tool;
  field = f;
  operation_type = op;
  cache_slice = Slice.tool;
}

pub stage-first :
    (e : Edit) (old new : Value) (s : Staged)
    → lookup (key_of e) s.pending ≡ none
    → values_equal new old ≡ false
    → stage_pending_change e old new s ≡ record {
      pending = insert (key_of e) (staged_change e old new) s.pending;
      cache = show_edit e new s.cache;
    }
unfolding stage_pending_change
stage-first e old new s absent differ = rw (absent, stage_pending_change, differ) refl

stage-back :
    (e : Edit) (shown baseline new : Value) (pending : Pending) (cache : UnifiedToolView)
    → values_equal baseline baseline ≡ true
    → stage_pending_change e shown baseline (record {
      pending = insert (key_of e) (staged_change e baseline new) pending;
      cache = cache;
    })
      ≡ record {
        pending = erase (key_of e) (insert (key_of e) (staged_change e baseline new) pending);
        cache = show_revert e baseline cache;
      }
unfolding stage_pending_change
stage-back e shown baseline new pending cache same =
    rw
      (
        lookup-insert (key_of e) (key_of e) (staged_change e baseline new) pending,
        ==_refl (key_of e),
        same,
      )
      refl

rows_undo :
    (op : OperationType) (tool : Tool) (f : Field) (old new : Value) (rows : List UnifiedToolRow)
    → writes_field op ≡ true
    → is_assignment_field f ≡ false
    → All (Holds tool f old) rows
    → map
        (map_row (revert_tool op Slice.tool f old tool) tool)
        (map (map_row (apply_to_tool op Slice.tool f new) tool) rows)
      ≡ rows
rows_undo op tool f old new rows w h holds =
    map-undo (map_row (revert_tool op Slice.tool f old tool) tool)
      (map_row (apply_to_tool op Slice.tool f new) tool) rows
      (All-imp (Holds tool f old) _ rows holds (λ row k. row_undo op tool f old new row w h k))

-- Entering the old value of a field again takes an edit back completely: nothing is staged that was
-- not before, in the order from before, and the cached view is the one from before. The field is one
-- that assigns no tool to a pot, the edit is the first one of its key, and the rows of the tool show
-- the old value.
pub stage_pending_change-undo :
    (tool : Tool) (f : Field) (op : OperationType) (old new shown : Value) (s : Staged)
    → writes_field op ≡ true
    → is_assignment_field f ≡ false
    → lookup (key_of (tool_edit tool f op)) s.pending ≡ none
    → values_equal new old ≡ false
    → values_equal old old ≡ true
    → All (Holds tool f old) s.cache.tools
    → stage_pending_change
        (tool_edit tool f op)
        shown
        old
        (stage_pending_change (tool_edit tool f op) old new s)
      ≡ s
unfolding show_edit show_revert map_slice
stage_pending_change-undo tool f op old new shown s w h absent differ same holds =
    let e = tool_edit tool f op in
    rw
      (
        stage-first e old new s absent differ,
        stage-back e shown old new s.pending (show_edit e new s.cache) same,
        erase-insert (key_of e) (staged_change e old new) s.pending absent,
        rows_undo op tool f old new s.cache.tools w h holds,
      )
      refl

-- the edit of the spindle's tool number
abbrev pub spindle_edit : Tool → Edit
spindle_edit tool = record {
  tool = tool;
  field = Field.tool_number;
  operation_type = OperationType.spindle;
  cache_slice = Slice.spindle;
}

-- For the spindle, entering the old number again stages nothing any more, but the cached view keeps
-- the number that was entered in between.
pub stage_pending_change-spindle :
    (tool : Tool) (old new shown : Value) (s : Staged)
    → lookup (key_of (spindle_edit tool)) s.pending ≡ none
    → values_equal new old ≡ false
    → values_equal old old ≡ true
    → ((stage_pending_change
          (spindle_edit tool)
          shown
          old
          (stage_pending_change (spindle_edit tool) old new s)).pending
        ≡ s.pending)
      × ((stage_pending_change
            (spindle_edit tool)
            shown
            old
            (stage_pending_change (spindle_edit tool) old new s)).cache.spindle
          ≡ set_spindle new s.cache.spindle)
unfolding show_edit show_revert map_slice
stage_pending_change-spindle tool old new shown s absent differ same =
    let e = spindle_edit tool in
    rw
      (
        stage-first e old new s absent differ,
        stage-back e shown old new s.pending (show_edit e new s.cache) same,
        erase-insert (key_of e) (staged_change e old new) s.pending absent,
      )
      (refl, refl)
