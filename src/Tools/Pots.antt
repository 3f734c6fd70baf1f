-- ===== src/Tools/Pots.antt =====
-- Pot numbers, spelled as numbers, as strings or as 'SPINDLE': `parsePotNumber`, `isSpindlePot` and
-- `potsEqual` of frontend/src/components/machine-detail/ToolsPane.tsx.
pub mod Equality
use shatter_nc.Prelude.{
  [], ◌≡◌, refl, Bool, true, false, ◌&&◌, ◌||◌, Option, none, some, if◌then◌else◌, arith,
  Bool-cases, ◌⊎◌, inl, inr, ◌↔◌, ◌≢◌, Option-cases, ==_iff,
}
use shatter_nc.Prelude.Numbers.{Num, nan, pos, neg, whole, strict_eq}
use shatter_nc.Prelude.Text.{text_beq, text_beq_iff, Text, codes, to_upper, parse_int, show_num}
use shatter_nc.Tools.{Value, num, str, string_of}

unfoldable pub is_spindle_pot : Option Value → Bool
is_spindle_pot (some (str s)) = text_beq (to_upper s) (codes "SPINDLE")
is_spindle_pot _ = false

-- the last two lines of `parsePotNumber`: a number if it is finite
abbrev pub finite : Num → Option Num
finite nan = none
finite n = some n

unfoldable pub parse_pot_number : Option Value → Option Num
parse_pot_number none = none
parse_pot_number (some (num n)) = finite n
parse_pot_number (some (str s)) =
    if is_spindle_pot (some (str s)) then some (whole 0) else finite (parse_int s)

-- `a === b` on pots
unfoldable pub same_pot : Option Value → Option Value → Bool
same_pot none none = true
same_pot (some (num a)) (some (num b)) = strict_eq a b
same_pot (some (str s)) (some (str t)) = text_beq s t
same_pot _ _ = false

-- `pa !== null && pb !== null && pa === pb`
abbrev pub same_parsed : Option Num → Option Num → Bool
same_parsed (some a) (some b) = strict_eq a b
same_parsed _ _ = false

unfoldable pub pots_equal : Option Value → Option Value → Bool
unfolding same_pot
pots_equal a b =
    same_pot a b
    || (is_spindle_pot a && is_spindle_pot b)
    || same_parsed (parse_pot_number a) (parse_pot_number b)

unfoldable pub format_pot_display : Option Value → Text
format_pot_display none = codes "──"
format_pot_display (some (str s)) = if text_beq s [] then codes "──" else s
format_pot_display (some (num n)) = show_num n
