-- ===== src/Widths.antt =====
-- The column widths of the tool table: frontend/src/hooks/useToolsTableColumnWidths.ts.
pub mod Even
use shatter_nc.Prelude.{
  not, Option, none, some, nat_beq, ℕ, zero, suc, ◌+◌, ◌-◌, ◌*◌, ◌/◌, Bool, true, false, List, [],
  ◌∷◌, max, if◌then◌else◌, leb, ltb, length, String,
}

abbrev pub tool_name_max_length : ℕ
tool_name_max_length = 14

abbrev pub tools_table_name_column_index : ℕ
tools_table_name_column_index = 1

abbrev pub tools_table_measure_column_index : ℕ
tools_table_measure_column_index = 8

abbrev pub tools_table_width_gutter_px : ℕ
tools_table_width_gutter_px = 4

-- the minimum of each column's content
abbrev pub tools_table_content_min_px : List ℕ
tools_table_content_min_px = 34 ∷ 170 ∷ 44 ∷ 48 ∷ 28 ∷ 68 ∷ 28 ∷ 40 ∷ 22 ∷ 78 ∷ []

abbrev pub tools_table_header_labels : List String
tools_table_header_labels =
    "T#" ∷ "NAME" ∷ "D" ∷ "H" ∷ "LIFE" ∷ "POT" ∷ "GRP" ∷ "TYPE" ∷ "M" ∷ "COLOR" ∷ []

-- What the browser measures: the width of a label with its padding and sort caret, rounded up, and
-- that of an input of fourteen characters with its padding.
pub record Measured : Type 0 where
  pub header_min : String → ℕ
  pub name_min : ℕ

-- the greater of a column's content minimum and its header's
unfoldable pub column_mins : Measured → List ℕ → List String → List ℕ
column_mins m [] labels = []
column_mins m (content_min ∷ rest) [] = content_min ∷ column_mins m rest []
column_mins m (content_min ∷ rest) (label ∷ labels) =
    max content_min (m.header_min label) ∷ column_mins m rest labels

-- `mins[index] = value`
abbrev pub set_at : ℕ → ℕ → List ℕ → List ℕ
set_at index value [] = []
set_at zero value (x ∷ xs) = value ∷ xs
set_at (suc index) value (x ∷ xs) = x ∷ set_at index value xs

-- `filter((_, index) => index !== removed)`
abbrev pub remove_at : ℕ → List ℕ → List ℕ
remove_at index [] = []
remove_at zero (x ∷ xs) = xs
remove_at (suc index) (x ∷ xs) = x ∷ remove_at index xs

unfoldable pub resolve_tools_table_column_minimums : Measured → Bool → List ℕ
resolve_tools_table_column_minimums m include_measure =
    let mins =
      set_at tools_table_name_column_index m.name_min
        (column_mins m tools_table_content_min_px tools_table_header_labels) in
    if include_measure then mins else remove_at tools_table_measure_column_index mins

abbrev pub sum : List ℕ → ℕ
sum [] = 0
sum (x ∷ xs) = x + sum xs

pub record Distributed : Type 0 where
  pub widths : List ℕ
  pub table_width : ℕ

-- the `map` that takes one pixel of the remainder for each column while there is one
unfoldable pub spread_extra : ℕ → ℕ → List ℕ → List ℕ
spread_extra base_extra remainder [] = []
spread_extra base_extra zero (min ∷ mins) =
    (min + base_extra + 0) ∷ spread_extra base_extra zero mins
spread_extra base_extra (suc remainder) (min ∷ mins) =
    (min + base_extra + 1) ∷ spread_extra base_extra remainder mins

unfoldable pub distribute_column_widths : ℕ → List ℕ → Distributed
unfolding spread_extra
distribute_column_widths available_width mins =
    let sum_min = sum mins in
    let extra = available_width - sum_min in
    let base_extra = extra / length mins in
    if leb available_width sum_min
    then record { widths = mins; table_width = sum_min }
    else record {
      widths = spread_extra base_extra (extra - base_extra * length mins) mins;
      table_width = available_width;
    }

-- `apply`: the widths set for a table of `cols` columns in a wrapper of this client width
unfoldable pub apply_widths : Measured → Bool → ℕ → ℕ → Option Distributed
apply_widths m include_measure cols client_width =
    let mins = resolve_tools_table_column_minimums m include_measure in
    if not (nat_beq cols (length mins))
    then none
    else some (distribute_column_widths (client_width - tools_table_width_gutter_px) mins)
