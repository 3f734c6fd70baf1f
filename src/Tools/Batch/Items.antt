-- ===== src/Tools/Batch/Items.antt =====
-- Which staged changes are sent, and what an item of the request may hold.
use shatter_nc.Prelude.{
  ◌≡◌, ◌≤◌, refl, Bool, true, false, not, ◌&&◌, Option, none, some, arith, length, length-take-le,
  Bool-cases, inl, inr,
}
use shatter_nc.Prelude.Numbers.{Num, whole, is_finite, lt_num}
use shatter_nc.Prelude.Text.{Text}
use shatter_nc.Tools.{Value, num, str, number_of, OperationType, PendingChange}
use shatter_nc.Tools.Pots.{parse_pot_number, finite}
use shatter_nc.Tools.Batch.{ToolChangeBatchItem, with_pot, item_by, pending_to_batch_item}
use shatter_nc.Tools.UnifiedView.Rows.{is_some}

-- a pot from 1 up
abbrev pub is_pot : Num → Bool
is_pot p = is_finite p && not (lt_num p (whole 1))

abbrev pub has_pot : Option Num → Bool
has_pot none = false
has_pot (some p) = is_pot p

abbrev pub pot_if_any : Option Num → Bool
pot_if_any none = true
pot_if_any (some p) = is_pot p

abbrev pub ShortIfAny : Option Text → Type 0
ShortIfAny none = Unit
ShortIfAny (some s) = length s ≤ 14

-- Whether a change of this operation can be sent: those that act on a pot need one.
abbrev pub sendable_by : OperationType → PendingChange → Bool
sendable_by OperationType.pot_number change = is_pot (number_of change.new_value)
sendable_by OperationType.spindle change = true
sendable_by OperationType.offset change = true
sendable_by OperationType.life change = true
sendable_by OperationType.name change = true
sendable_by _ change = has_pot (parse_pot_number change.tool.pot_number)

finite-is_finite : (n p : Num) → finite n ≡ some p → is_finite p ≡ true
finite-is_finite n p h = ground arith

parse_pot_number-is_finite :
    (a : Option Value) (p : Num) → parse_pot_number a ≡ some p → is_finite p ≡ true
unfolding parse_pot_number
parse_pot_number-is_finite none p h = cc
parse_pot_number-is_finite (some (num n)) p h = finite-is_finite n p h
parse_pot_number-is_finite (some (str s)) p h = ground (arith, finite-is_finite _ p)

-- What holds of an item, if there is one.
abbrev pub Sound : Text → Option ToolChangeBatchItem → Type 0
Sound key none = Unit
Sound key (some item) =
    (item.client_id ≡ key) × (pot_if_any item.pot_number ≡ true) × ShortIfAny item.name_value

-- an item with its pot and no name
abbrev About : Text → Num → ToolChangeBatchItem → Type 0
About key p item = (item.client_id ≡ key) × (item.pot_number ≡ some p) × (item.name_value ≡ none)

Sound-About :
    (key : Text) (p : Num) (item : ToolChangeBatchItem)
    → About key p item
    → is_pot p ≡ true
    → Sound key (some item)
Sound-About key p item (id, pot, name) h = (id, rw pot h, rw name tt)

with_pot-Sound :
    (key : Text) (o : Option Num) (build : Num → ToolChangeBatchItem)
    → ((p : Num) → o ≡ some p → is_finite p ≡ true)
    → ((p : Num) → About key p (build p))
    → Sound key (with_pot o build) × (is_some (with_pot o build) ≡ has_pot o)
with_pot-Sound key none build fin about = (tt, refl)
with_pot-Sound key (some p) build fin about = elim (Bool-cases (lt_num p (whole 1))) [
  | inl low ↦ rw low (tt, ground arith)
  | inr high ↦
      let pot : is_pot p ≡ true = ground (arith, fin p refl) in
      rw high (Sound-About key p (build p) (about p) pot, rw (fin p refl) refl)
]

item_by-Sound :
    (op : OperationType) (key : Text) (change : PendingChange)
    → Sound key (item_by op key change) × (is_some (item_by op key change) ≡ sendable_by op change)
unfolding item_by
item_by-Sound OperationType.pot_number key change =
    elim (Bool-cases (is_pot (number_of change.new_value))) [
      | inl good ↦ ground arith
      | inr bad ↦ ground arith
    ]
item_by-Sound OperationType.spindle key change = ((refl, refl, tt), refl)
item_by-Sound OperationType.offset key change = ((refl, refl, tt), refl)
item_by-Sound OperationType.life key change = ((refl, refl, tt), refl)
item_by-Sound OperationType.name key change = ((refl, refl, length-take-le 14 _), refl)
item_by-Sound op key change =
    with_pot-Sound key (parse_pot_number change.tool.pot_number) _
      (parse_pot_number-is_finite change.tool.pot_number) (λ p. (refl, refl, refl))

-- An item carries the key of its change, a pot only if it is a number from 1 up, and a name of at
-- most 14 characters; a change is left out exactly if it acts on a pot and has no pot from 1 up.
pub pending_to_batch_item-Sound :
    (key : Text) (change : PendingChange)
    → Sound key (pending_to_batch_item key change)
      × (is_some (pending_to_batch_item key change) ≡ sendable_by change.operation_type change)
unfolding pending_to_batch_item
pending_to_batch_item-Sound key change = item_by-Sound change.operation_type key change
