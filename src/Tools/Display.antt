-- ===== src/Tools/Display.antt =====
-- The rows that the tool table shows: filter, search and sort of
-- frontend/src/components/machine-detail/ToolsPane.tsx.
pub mod Shown
use mathlib.Core.List.{foldl}
use mathlib.Core.Option
use mathlib.Core.Option.{get_or}
use shatter_nc.Prelude.{
  ℕ, Bool, true, false, not, ◌&&◌, ◌||◌, Option, none, some, List, [], ◌∷◌, ◌++◌, map,
  if◌then◌else◌, filter, find, ltb, length, nat_beq,
}
use shatter_nc.Prelude.Maps.{contains}
use shatter_nc.Prelude.Sort.{sort_by}
use shatter_nc.Prelude.Numbers.{Num, nan, pos, neg, whole, strict_eq, lt_num, is_finite, num_eq}
use shatter_nc.Prelude.Text.{
  Text, codes, text_beq, to_upper, to_lower, trim, trim_end, includes, parse_int, parse_float,
  show_num,
}
use shatter_nc.Tools.{
  Value, num, str, string_of, Field, Tool, EmptyPocket, UnifiedToolRow, UnifiedToolView, Slice,
  Pending,
}
use shatter_nc.Tools.Order.{SortColumn, SortDirection, or_blank, row_before}
use shatter_nc.Tools.Fields.{is_true, empty_pocket_as_tool}
use shatter_nc.Tools.Pending.{merge_server_tool_with_pending}
use shatter_nc.Tools.Occupancy.{is_real_atc_tool_number, find_tool_table_entry}

pub data ToolsViewFilter : Type 0 where
  all_ atc empty : ToolsViewFilter

pub record ViewState : Type 0 where
  pub sort_column : SortColumn
  pub sort_direction : SortDirection
  pub view_filter : ToolsViewFilter

abbrev pub bars : Text
bars = 0x2500 ∷ 0x2500 ∷ []

unfoldable pub format_tool_type : Option Num → Text
format_tool_type none = bars
format_tool_type (some n) =
    if strict_eq n (whole 1)
    then codes "STD"
    else if strict_eq n (whole 2)
    then codes "LARGE"
    else if strict_eq n (whole 3)
    then codes "MED"
    else show_num n

abbrev pub color_names : List (ℕ × Text)
color_names =
    (0, codes "NONE")
    ∷ (1, codes "BLUE")
    ∷ (2, codes "RED")
    ∷ (3, codes "PURPLE")
    ∷ (4, codes "GREEN")
    ∷ (5, codes "LT BLUE")
    ∷ (6, codes "YELLOW")
    ∷ (7, codes "WHITE")
    ∷ []

abbrev pub name_or : Option (ℕ × Text) → Text → Text
name_or none other = other
name_or (some (n, name)) other = name

-- the name of a color
unfoldable pub color_name : Option Num → Text
color_name none = bars
color_name (some c) =
    name_or (find (λ (entry : ℕ × Text). strict_eq c (whole entry.0)) color_names) (show_num c)

-- `x && x.includes(query)` on the fields of a tool
abbrev pub value_includes : Option Value → Text → Bool
value_includes none query = false
value_includes (some (str s)) query = not (text_beq s []) && includes (to_lower s) query
value_includes (some (num n)) query =
    is_finite n && not (strict_eq n (whole 0)) && includes (to_lower (show_num n)) query

-- `value !== undefined && String(value).includes(query)`, `is_null` saying that a field without a
-- value is null
abbrev pub number_includes : Bool → Option Num → Text → Bool
number_includes is_null none query = is_null && includes (codes "null") query
number_includes is_null (some n) query = includes (show_num n) query

-- `value !== undefined`
abbrev pub is_defined {ℓ} : {A : Type ℓ} → Bool → Option A → Bool
is_defined is_null none = is_null
is_defined is_null (some a) = true

-- Which fields of a tool that have no value are null, as in the server's JSON, and not left out: the
-- search treats the two apart.
abbrev pub Nulls : Type 0
Nulls = Tool → Field → Bool

unfoldable pub matches_query : Nulls → Text → Tool → Bool
matches_query is_null query t =
    includes (show_num t.tool_number) query
    || includes (to_lower (or_blank t.tool_name)) query
    || value_includes t.pot_number query
    || value_includes t.group query
    || (is_defined (is_null t Field.tool_type) t.tool_type
        && includes (to_lower (format_tool_type t.tool_type)) query)
    || (is_defined (is_null t Field.color) t.color
        && includes (to_lower (color_name t.color)) query)
    || number_includes (is_null t Field.life) t.life query

abbrev pub passes_view : ToolsViewFilter → Tool → Bool
passes_view ToolsViewFilter.atc t = is_true t.in_atc
passes_view _ t = true

abbrev pub search : Nulls → Text → List Tool → List Tool
search is_null query rows =
    if text_beq (trim query) []
    then rows
    else filter (matches_query is_null (trim (to_lower query))) rows

unfoldable pub filtered_and_sorted_tools :
    Nulls → List Tool → Pending → ToolsViewFilter → Text → SortColumn → SortDirection → List Tool
filtered_and_sorted_tools is_null tools pending view query column direction =
    sort_by (row_before column direction) (
      search is_null query (
        filter (passes_view view)
          (map (λ (t : Tool). merge_server_tool_with_pending t pending Slice.tool) tools)))

-- a row of the empty pots
pub record PocketRow : Type 0 where
  pub pocket : EmptyPocket
  pub merged : Tool
  pub assigned_tool : Option Tool

abbrev pub assigned_of : UnifiedToolView → Pending → Num → Option Tool
assigned_of cache pending tn =
    if is_real_atc_tool_number tn then find_tool_table_entry cache pending tn else none

abbrev pub pocket_row : UnifiedToolView → Pending → EmptyPocket → PocketRow
pocket_row cache pending pocket =
    let merged =
      merge_server_tool_with_pending (empty_pocket_as_tool pocket) pending Slice.pocket in
    record {
      pocket = pocket;
      merged = merged;
      assigned_tool =
          assigned_of cache pending (if is_true merged.is_cap then whole 0 else merged.tool_number);
    }

abbrev pub pocket_before : SortDirection → PocketRow → PocketRow → Bool
pocket_before SortDirection.asc a b = not (lt_num b.pocket.pot_number a.pocket.pot_number)
pocket_before SortDirection.desc a b = not (lt_num a.pocket.pot_number b.pocket.pot_number)

unfoldable pub filtered_and_sorted_empty_pockets :
    UnifiedToolView → Pending → Text → SortDirection → List PocketRow
filtered_and_sorted_empty_pockets cache pending query direction =
    let items = map (pocket_row cache pending) cache.empty_pockets in
    if not cache.atc_available
    then []
    else sort_by (pocket_before direction) (
        if text_beq (trim query) []
        then items
        else filter
            (λ (r : PocketRow). includes (show_num r.pocket.pot_number) (trim (to_lower query)))
            items)

abbrev pub same_column : SortColumn → SortColumn → Bool
same_column SortColumn.pot_number SortColumn.pot_number = true
same_column SortColumn.tool_number SortColumn.tool_number = true
same_column SortColumn.tool_name SortColumn.tool_name = true
same_column SortColumn.diameter SortColumn.diameter = true
same_column SortColumn.length_ SortColumn.length_ = true
same_column SortColumn.group SortColumn.group = true
same_column SortColumn.life SortColumn.life = true
same_column SortColumn.tool_type SortColumn.tool_type = true
same_column SortColumn.color SortColumn.color = true
same_column _ _ = false

abbrev pub flip : SortDirection → SortDirection
flip SortDirection.asc = SortDirection.desc
flip SortDirection.desc = SortDirection.asc

unfoldable pub handle_sort : SortColumn → ViewState → ViewState
handle_sort column s =
    if same_column s.sort_column column
    then record s { sort_direction = flip s.sort_direction }
    else record s { sort_column = column; sort_direction = SortDirection.asc }

unfoldable pub handle_view_filter_click : ToolsViewFilter → ViewState → ViewState
handle_view_filter_click ToolsViewFilter.all_ s = record {
  sort_column = SortColumn.tool_number;
  sort_direction = SortDirection.asc;
  view_filter = ToolsViewFilter.all_;
}
handle_view_filter_click view s = record {
  sort_column = SortColumn.pot_number;
  sort_direction = SortDirection.asc;
  view_filter = view;
}
