-- ===== src/Tools/Fields/Confirm.antt =====
-- What is written to a field is read back.
use mathlib.Core.Option.{get_or}
use shatter_nc.Prelude.{◌≡◌, ◌≢◌, refl, Bool, true, false, [], ◌∷◌, arith}
use shatter_nc.Prelude.Numbers.{nan, is_finite}
use shatter_nc.Prelude.Text.{text_beq, text_beq_iff}
use shatter_nc.Tools.{Value, num, str, Tool, Field, number_of, string_of}
use shatter_nc.Tools.Fields.{apply_field_to_tool, get_tool_field_value, values_equal}

-- A value of the kind that the field holds: a string for the name, a number that is not NaN for
-- the others. A field that no tool has reads as the empty string.
abbrev pub fits : Field → Value → Bool
fits Field.tool_name (str s) = true
fits Field.tool_name (num n) = false
fits (Field.other t) (str s) = text_beq s []
fits (Field.other t) (num n) = false
fits f (num n) = is_finite n
fits f (str s) = false

-- A field that is written and then read equals what was written exactly if the value is of the
-- field's kind.
pub read_written :
    (t : Tool) (f : Field) (v : Value)
    → f ≢ Field.pot_number
    → values_equal (get_or (get_tool_field_value (apply_field_to_tool t f v) f) (str [])) v
      ≡ fits f v
unfolding get_tool_field_value apply_field_to_tool values_equal number_of string_of
read_written t Field.tool_name (str s) other = (text_beq_iff s s).1 refl
read_written t Field.pot_number v other = absurd (other refl)
read_written t Field.color (num nan) other = refl
read_written t f (num n) other = ground arith
read_written t (Field.other u) (str []) other = refl
read_written t (Field.other u) (str (c ∷ s)) other = refl
read_written t f (str s) other = refl
