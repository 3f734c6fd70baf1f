-- ===== src/Tools.antt =====
-- The tool table of a machine: frontend/src/utils/unifiedToolView.ts and the functions of
-- frontend/src/components/machine-detail/ToolsPane.tsx. This file holds the data.
pub mod Pots
pub mod UnifiedView
pub mod Fields
pub mod Pending
pub mod Occupancy
pub mod Batch
pub mod Reconcile
pub mod Staging
pub mod Handlers
pub mod Push
pub mod Incoming
pub mod Order
pub mod Display
pub mod Shown
use shatter_nc.Prelude.{ℕ, Bool, Option, none, some, List}
use shatter_nc.Prelude.Maps.{Map}
use shatter_nc.Prelude.Numbers.{Num, nan}
use shatter_nc.Prelude.Text.{Text, to_number, show_num}

-- `string | number`
pub data Value : Type 0 where
  num : Num → Value
  str : Text → Value

-- `Number(value)` and `String(value)`
unfoldable pub number_of : Value → Num
number_of (num n) = n
number_of (str s) = to_number s

unfoldable pub string_of : Value → Text
string_of (num n) = show_num n
string_of (str s) = s

pub record Tool : Type 0 where
  pub pot_number : Option Value
  pub tool_number : Num
  pub tool_name : Option Text
  pub diameter : Option Num
  pub length : Option Num
  pub group : Option Value
  pub life : Option Num
  pub tool_type : Option Num
  pub color : Option Num
  pub in_atc : Option Bool
  pub is_cap : Option Bool

-- A row is a tool at run time: the two are copied into one another field by field.
abbrev pub UnifiedToolRow : Type 0
UnifiedToolRow = Tool

pub record EmptyPocket : Type 0 where
  pub pot_number : Num
  pub tool_type : Option Num
  pub color : Option Num
  pub is_cap : Option Bool

-- its pot is the constant 'SPINDLE'
pub record SpindleAssignment : Type 0 where
  pub tool_number : Num
  pub tool_type : Option Num
  pub color : Option Num
  pub group : Option Value

pub record UnifiedToolView : Type 0 where
  pub tools : List UnifiedToolRow
  pub empty_pockets : List EmptyPocket
  pub spindle : Option SpindleAssignment
  pub atc_available : Bool

pub record LegacyAtcTool : Type 0 where
  pub pot_number : Option Value
  pub tool_number : Option Num
  pub tool_type : Option Num
  pub color : Option Num
  pub group : Option Value

pub record LegacyTableTool : Type 0 where
  pub tool_number : Num
  pub tool_name : Option Text
  pub diameter : Option Num
  pub length : Option Num
  pub life : Option Num

pub data OperationType : Type 0 where
  color tool_number pot_number tool_type delete cap life offset spindle name : OperationType

-- the strings that `field` takes; `other` is any string that the switches do not name
pub data Field : Type 0 where
  color tool_number pot_number tool_type length diameter h d life tool_name : Field
  other : Text → Field

pub data Slice : Type 0 where
  tool pocket spindle : Slice

pub record PendingChange : Type 0 where
  pub tool : Tool
  pub field : Field
  pub old_value : Value
  pub new_value : Value
  pub operation_type : OperationType
  pub cache_slice : Slice

-- pending changes by their key, in the order in which they were first made
abbrev pub Pending : Type 0
Pending = Map Text PendingChange
