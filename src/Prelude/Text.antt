-- ===== src/Prelude/Text.antt =====
-- Strings of which the program reads the characters: lists of UTF-16 code units. The functions
-- are those of JavaScript's `String` and `Number` that the program calls, on ASCII letters.
use Prim.Native.Nat.{ℕ, zero, suc, ◌+◌, ◌-◌, ◌*◌, ◌/◌, ◌%◌}
use Prim.Native.Char.{code}
use Prim.Native.String.{String}
use mathlib.Core.Path.{◌≡◌, refl}
use mathlib.Core.Logic.{◌↔◌}
use mathlib.Core.Bool.{Bool, true, false, not, ◌&&◌, ◌||◌}
use mathlib.Core.List.{List, [], ◌∷◌, ◌++◌, map, reverse}
use shatter_nc.Prelude.Tests.{ltb, leb, nat_beq, nat_eq, Eq, list_beq, list_beq_iff, if◌then◌else◌}
use shatter_nc.Prelude.Lists.{length}
use shatter_nc.Prelude.Numbers.{Num, nan, pos, neg, signed}

abbrev pub Text : Type 0
Text = List ℕ

abbrev pub codes : String → Text
codes String.[] = []
codes (String.◌∷◌ c s) = code c ∷ codes s

instance abbrev pub text_eq : Eq Text
text_eq = record { same = list_beq; same_iff = list_beq_iff }

abbrev pub text_beq : Text → Text → Bool
text_beq = list_beq

pub text_beq_iff : (s t : Text) → (text_beq s t ≡ true) ↔ (s ≡ t)
text_beq_iff = list_beq_iff

-- `toUpperCase` and `toLowerCase`
abbrev upper_code : ℕ → ℕ
upper_code c = if leb b'a' c && leb c b'z' then c - 32 else c

abbrev lower_code : ℕ → ℕ
lower_code c = if leb b'A' c && leb c b'Z' then c + 32 else c

unfoldable pub to_upper : Text → Text
to_upper = map upper_code

unfoldable pub to_lower : Text → Text
to_lower = map lower_code

-- the white space that `trim`, `parseInt` and `Number` skip
is_space : ℕ → Bool
is_space c =
    (leb 9 c && leb c 13)
    || nat_beq c 32
    || nat_beq c 0xa0
    || nat_beq c 0x1680
    || (leb 0x2000 c && leb c 0x200a)
    || nat_beq c 0x2028
    || nat_beq c 0x2029
    || nat_beq c 0x202f
    || nat_beq c 0x205f
    || nat_beq c 0x3000
    || nat_beq c 0xfeff

trim_start : Text → Text
trim_start [] = []
trim_start (c ∷ s) = if is_space c then trim_start s else c ∷ s

unfoldable pub trim_end : Text → Text
unfolding is_space trim_start
trim_end s = reverse (trim_start (reverse s))

unfoldable pub trim : Text → Text
unfolding is_space trim_start trim_end
trim s = trim_end (trim_start s)

starts_with : Text → Text → Bool
starts_with [] s = true
starts_with (c ∷ w) [] = false
starts_with (c ∷ w) (d ∷ s) = nat_beq c d && starts_with w s

-- `s.includes(w)`
unfoldable pub includes : Text → Text → Bool
unfolding starts_with
includes [] w = starts_with w []
includes (c ∷ s) w = starts_with w (c ∷ s) || includes s w

is_digit : ℕ → Bool
is_digit c = leb b'0' c && leb c b'9'

-- the digits at the front: how many there are, their value, and what follows them
digits : ℕ → ℕ → Text → ℕ × ℕ × Text
digits k n [] = (k, n, [])
digits k n (c ∷ s) =
    let rest = digits (k + 1) (10 * n + (c - 48)) s in if is_digit c then rest else (k, n, c ∷ s)

-- decimals to six places; further digits are dropped
decimals : ℕ → ℕ → Text → ℕ × ℕ × Text
decimals k unit [] = (k, 0, [])
decimals k unit (c ∷ s) =
    let (k', n, rest) = decimals (k + 1) (unit / 10) s in
    if is_digit c then (k', (c - 48) * unit + n, rest) else (k, 0, c ∷ s)

sign : Text → Bool × Text
sign [] = (false, [])
sign (c ∷ s) =
    if nat_beq c b'-' then (true, s) else if nat_beq c b'+' then (false, s) else (false, c ∷ s)

-- `parseInt(s, 10)`: the longest prefix of digits, NaN if there is none
unfoldable pub parse_int : Text → Num
unfolding is_space trim_start is_digit digits sign
parse_int s =
    let (minus, body) = sign (trim_start s) in
    let (k, n, _) = digits 0 0 body in if nat_beq k 0 then nan else signed minus (n * 1_000_000)

-- `Number(s)`: blank is 0, a decimal is its value, anything else is NaN. (Exponents, hexadecimal
-- and `Infinity` are spellings that no field of the program holds; they give NaN here.)
unfoldable pub to_number : Text → Num
unfolding is_space trim_start trim_end trim is_digit digits decimals sign
to_number s = elim (trim s) [
  | [] ↦ pos 0
  | c ∷ t ↦
      let (minus, body) = sign (c ∷ t) in
      let (k, n, rest) = digits 0 0 body in
      elim rest [
        | [] ↦ if nat_beq k 0 then nan else signed minus (n * 1_000_000)
        | d ∷ r ↦
            let (k', f, end) = decimals 0 100_000 r in
            if nat_beq d b'.' && not (nat_beq (k + k') 0) && list_beq end []
            then signed minus (n * 1_000_000 + f)
            else nan
      ]
]

-- `parseFloat(s)`: the longest prefix that is a decimal, NaN if there is none; exponents end it
unfoldable pub parse_float : Text → Num
unfolding is_space trim_start is_digit digits decimals sign
parse_float s =
    let (minus, body) = sign (trim_start s) in
    let (k, n, rest) = digits 0 0 body in
    elim rest [
      | [] ↦ if nat_beq k 0 then nan else signed minus (n * 1_000_000)
      | d ∷ r ↦
          let (k', f, _) = decimals 0 100_000 r in
          if nat_beq d b'.' && not (nat_beq (k + k') 0)
          then signed minus (n * 1_000_000 + f)
          else if nat_beq k 0
          then nan
          else signed minus (n * 1_000_000)
    ]

-- decimal digits; a number has fewer digits than its value plus one
show_digits : ℕ → ℕ → Text
show_digits zero n = []
show_digits (suc f) n =
    let front = show_digits f (n / 10) in (if ltb n 10 then [] else front) ++ (b'0' + n % 10) ∷ []

unfoldable pub show_nat : ℕ → Text
unfolding show_digits
show_nat n = show_digits (suc n) n

-- the decimals of a fraction in units of a tenth, with no zeros at the end
show_fraction : ℕ → ℕ → Text
show_fraction zero f = []
show_fraction (suc places) f =
    let rest = show_fraction places (10 * f % 1_000_000) in
    if nat_beq f 0 then [] else (b'0' + 10 * f / 1_000_000) ∷ rest

show_magnitude : ℕ → Text
show_magnitude m =
    show_nat (m / 1_000_000)
    ++ (if nat_beq (m % 1_000_000) 0 then [] else b'.' ∷ show_fraction 6 (m % 1_000_000))

-- `String(n)`
unfoldable pub show_num : Num → Text
unfolding show_nat show_fraction show_magnitude
show_num nan = codes "NaN"
show_num (pos m) = show_magnitude m
show_num (neg m) = b'-' ∷ show_magnitude (suc m)

-- `s.padStart(width, '0')`
pad_zeros : ℕ → Text → Text
pad_zeros zero s = s
pad_zeros (suc k) s = b'0' ∷ pad_zeros k s

unfoldable pub pad_start : ℕ → Text → Text
unfolding pad_zeros
pad_start width s = pad_zeros (width - length s) s

parse_tests :
    (parse_int (codes " 12mm") ≡ pos 12_000_000)
    × (parse_int (codes "x") ≡ nan)
    × (to_number (codes " -0.25 ") ≡ neg 249_999)
    × (to_number (codes "") ≡ pos 0)
    × (to_number (codes "1.5x") ≡ nan)
unfolding parse_int to_number
parse_tests = (refl, refl, refl, refl, refl)

show_tests :
    (show_num (pos 12_050_000) ≡ codes "12.05")
    × (show_num (neg 999_999) ≡ codes "-1")
    × (trim (codes "  a b ") ≡ codes "a b")
    × (includes (codes "machine error") (codes "error") ≡ true)
unfolding show_num trim includes
show_tests = (refl, refl, refl, refl)
