-- ===== src/Prelude/Json.antt =====
-- JSON values, as far as the program reads them: what `typeof`, a member access and `Number` see.
use mathlib.Core.Bool.{Bool, true, false}
use shatter_nc.Prelude.Tests.{if◌then◌else◌}
use shatter_nc.Prelude.Numbers.{Num, nan, pos, whole}
use shatter_nc.Prelude.Text.{Text, text_beq, to_number}

-- Of an array only the text is kept that `String` makes of it.
mutual
  pub data Json : Type 0 where
    undefined null : Json
    bool : Bool → Json
    num : Num → Json
    str array : Text → Json
    object : Members → Json

  pub data Members : Type 0 where
    end : Members
    member : Text → Json → Members → Members

-- `o[key]`
unfoldable pub get : Text → Members → Json
get key end = Json.undefined
get key (member k v rest) = if text_beq k key then v else get key rest

-- `Number(v)`
unfoldable pub number : Json → Num
number (Json.num n) = n
number (Json.str s) = to_number s
number (Json.array s) = to_number s
number Json.null = pos 0
number (Json.bool true) = whole 1
number (Json.bool false) = pos 0
number Json.undefined = nan
number (Json.object o) = nan
