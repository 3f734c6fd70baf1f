-- ===== src/Tools/Display/Shown.antt =====
-- Which tools the tool table shows: filteredAndSortedTools of
-- frontend/src/components/machine-detail/ToolsPane.tsx.
use shatter_nc.Prelude.{
  Bool, true, false, not, ◌&&◌, ◌||◌, Option, none, some, ◌++◌, List, [], ◌∷◌, any,
}
use shatter_nc.Prelude.Numbers.{Num, whole, strict_eq, is_finite, num_eq}
use shatter_nc.Prelude.Text.{Text, codes, text_beq, to_lower, trim, includes, show_num}
use shatter_nc.Tools.{Value, num, str, Tool, Field, Pending}
use shatter_nc.Tools.Fields.{is_true}
use shatter_nc.Tools.Order.{or_blank}
use shatter_nc.Tools.Display.{ToolsViewFilter, Nulls, is_defined, format_tool_type, color_name}

-- The texts that the search reads, by column. A missing number, color or type has the text of its
-- cell where it is null, and none where it is left out; a pot and a group that are zero or empty have
-- none.
abbrev pub text_if : Bool → Text → List Text
text_if true text = text ∷ []
text_if false text = []

abbrev pub truthy_text : Option Value → List Text
truthy_text none = []
truthy_text (some (str s)) = text_if (not (text_beq s [])) (to_lower s)
truthy_text (some (num n)) =
    text_if (is_finite n && not (strict_eq n (whole 0))) (to_lower (show_num n))

abbrev pub life_text : Bool → Option Num → List Text
life_text is_null none = text_if is_null (codes "null")
life_text is_null (some n) = show_num n ∷ []

abbrev pub searched_texts : Nulls → Tool → List Text
searched_texts is_null t =
    show_num t.tool_number ∷ to_lower (or_blank t.tool_name) ∷ truthy_text t.pot_number
    ++ truthy_text t.group
    ++ text_if (is_defined (is_null t Field.tool_type) t.tool_type)
        (to_lower (format_tool_type t.tool_type))
    ++ text_if (is_defined (is_null t Field.color) t.color) (to_lower (color_name t.color))
    ++ life_text (is_null t Field.life) t.life

abbrev pub contains_query : Text → Text → Bool
contains_query query text = includes text query

-- the search box is blank, or a text of the tool contains what is in it, in small letters
abbrev pub is_found : Nulls → Text → Tool → Bool
is_found is_null query t =
    text_beq (trim query) []
    || any (contains_query (trim (to_lower query))) (searched_texts is_null t)

-- the view of the ATC has the tools that are in it, and the others have all tools
abbrev pub is_of_view : ToolsViewFilter → Tool → Bool
is_of_view ToolsViewFilter.all_ t = true
is_of_view ToolsViewFilter.empty t = true
is_of_view ToolsViewFilter.atc t = is_true t.in_atc
