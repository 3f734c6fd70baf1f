-- ===== src/Tools/Order.antt =====
-- What the rows of the tool table are compared by: the keys of the sort of
-- frontend/src/components/machine-detail/ToolsPane.tsx.
use shatter_nc.Prelude.{
  Bool, true, false, not, ◌&&◌, ◌||◌, Option, none, some, [], ◌∷◌, if◌then◌else◌, ltb, nat_beq,
}
use shatter_nc.Prelude.Numbers.{Num, pos, neg, whole, strict_eq, lt_num, is_finite}
use shatter_nc.Prelude.Text.{
  Text, codes, text_beq, to_upper, to_lower, trim_end, parse_float, show_num,
}
use shatter_nc.Tools.{Value, num, str, Tool}

pub data SortColumn : Type 0 where
  pot_number tool_number tool_name diameter length_ group life tool_type color : SortColumn

pub data SortDirection : Type 0 where
  asc desc : SortDirection

abbrev pub or_blank : Option Text → Text
or_blank none = []
or_blank (some s) = s

abbrev pub get_tool_display_name : Tool → Text
get_tool_display_name t = trim_end (or_blank t.tool_name)

-- What two tools are compared by. `infinite` is `Infinity`.
pub data Key : Type 0 where
  number : Num → Key
  infinite : Key
  text : Text → Key

-- `n || Infinity`
abbrev pub or_infinite : Num → Key
or_infinite n = if is_finite n && not (strict_eq n (whole 0)) then Key.number n else Key.infinite

abbrev pub pot_key : Option Value → Key
pot_key none = Key.infinite
pot_key (some (num n)) = Key.number n
pot_key (some (str s)) =
    if text_beq (to_upper s) (codes "SPINDLE")
    then Key.number (neg 999_999)
    else or_infinite (parse_float s)

-- `n || 0`, and `n ?? -1`
abbrev pub or_zero : Option Num → Num
or_zero none = pos 0
or_zero (some n) = if is_finite n then n else pos 0

abbrev pub or_minus_one : Option Num → Num
or_minus_one none = neg 999_999
or_minus_one (some n) = n

-- `a.group ? String(a.group) : ''`
abbrev pub group_text : Option Value → Text
group_text none = []
group_text (some (str s)) = s
group_text (some (num n)) = if is_finite n && not (strict_eq n (whole 0)) then show_num n else []

unfoldable pub sort_key : SortColumn → Tool → Key
sort_key SortColumn.pot_number t = pot_key t.pot_number
sort_key SortColumn.tool_number t = Key.number t.tool_number
sort_key SortColumn.tool_name t = Key.text (to_lower (get_tool_display_name t))
sort_key SortColumn.diameter t = Key.number (or_zero t.diameter)
sort_key SortColumn.length_ t = Key.number (or_zero t.length)
sort_key SortColumn.group t = Key.text (group_text t.group)
sort_key SortColumn.life t = Key.number (or_minus_one t.life)
sort_key SortColumn.tool_type t = Key.number (or_minus_one t.tool_type)
sort_key SortColumn.color t = Key.number (or_minus_one t.color)

-- `<` on strings
abbrev pub lt_text : Text → Text → Bool
lt_text s [] = false
lt_text [] (d ∷ t) = true
lt_text (c ∷ s) (d ∷ t) = ltb c d || (nat_beq c d && lt_text s t)

-- `aVal < bVal`: the keys of a column are numbers, or they are strings
unfoldable pub lt_key : Key → Key → Bool
lt_key (Key.number a) (Key.number b) = lt_num a b
lt_key (Key.number a) Key.infinite = is_finite a
lt_key (Key.text s) (Key.text t) = lt_text s t
lt_key _ _ = false

-- the comparison is not positive
abbrev pub before_by : SortDirection → Bool → Bool → Bool
before_by SortDirection.asc less greater = less || not greater
before_by SortDirection.desc less greater = not less

unfoldable pub row_before : SortColumn → SortDirection → Tool → Tool → Bool
row_before column direction a b =
    before_by direction (lt_key (sort_key column a) (sort_key column b))
      (lt_key (sort_key column b) (sort_key column a))
