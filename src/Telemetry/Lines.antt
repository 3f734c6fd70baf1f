-- ===== src/Telemetry/Lines.antt =====
-- The lines of a compressor's card against the values that its charts draw.
use shatter_nc.Prelude.{
  ◌≡◌, refl, Bool, true, false, Option, none, some, ◌++◌, if◌then◌else◌, Bool-cases, inl, inr,
}
use shatter_nc.Prelude.Numbers.{Num, is_finite}
use shatter_nc.Prelude.Text.{Text, codes, trim, show_num, to_number}
use shatter_nc.Prelude.Json.{Json, Members, get, number}
use shatter_nc.Telemetry.{
  as_record, read, dash, unit_text, round, round_tenth, line, numeric, read_pressure_line,
  read_outlet_temp_line, read_numeric_pressure_temp, CompressorStatus, operational_of,
  compressor_card_telemetry_lines,
}

-- a reading as the card writes it
abbrev pub shown : (Num → Num) → Option Num → Json → Text
shown rounded none unit = dash
shown rounded (some n) unit = trim (show_num (rounded n) ++ unit_text unit)

-- `null`, a Boolean and an array are numbers for `Number`, but no readings.
abbrev pub is_plain : Json → Bool
is_plain Json.null = false
is_plain (Json.bool b) = false
is_plain (Json.array s) = false
is_plain _ = true

-- what stands under the key of a reading
abbrev pub part : Text → Text → Option Members → Json
part name key operational = read key (as_record (read name operational))

value-line :
    (rounded : Num → Num) (v u : Json)
    → is_plain v ≡ true
    → (if is_finite (number v) then trim (show_num (rounded (number v)) ++ unit_text u) else dash)
      ≡ shown rounded (numeric v) u
unfolding number numeric
value-line rounded (Json.num n) u h = elim (Bool-cases (is_finite n)) [
  | inl e ↦ rw e refl
  | inr e ↦ rw e refl
]
value-line rounded (Json.str s) u h = elim (Bool-cases (is_finite (to_number s))) [
  | inl e ↦ rw e refl
  | inr e ↦ rw e refl
]
value-line rounded Json.undefined u h = refl
value-line rounded (Json.object o) u h = refl
value-line rounded Json.null u h = cc
value-line rounded (Json.bool b) u h = cc
value-line rounded (Json.array s) u h = cc

line-shown :
    (rounded : Num → Num) (p : Option Members)
    → is_plain (read (codes "value") p) ≡ true
    → line rounded p ≡ shown rounded (numeric (read (codes "value") p)) (read (codes "unit") p)
unfolding line numeric
line-shown rounded none h = refl
line-shown rounded (some p) h = value-line rounded (get (codes "value") p) (get (codes "unit") p) h

-- An online compressor's card writes exactly the reading that its charts draw, rounded, with its
-- unit, and a dash where they have none; an offline one's card writes dashes. The two values are to
-- be no `null`, no Boolean and no array.
pub compressor_card_telemetry_lines-numeric :
    (c : CompressorStatus)
    → is_plain (part (codes "pressure") (codes "value") (operational_of c)) ≡ true
    → is_plain (part (codes "outletTemp") (codes "value") (operational_of c)) ≡ true
    → ((compressor_card_telemetry_lines c).psi_line ≡ (
        if c.is_online
        then shown round_tenth
            (read_numeric_pressure_temp (operational_of c)).psi
            (part (codes "pressure") (codes "unit") (operational_of c))
        else dash))
      × ((compressor_card_telemetry_lines c).temp_line ≡ (
          if c.is_online
          then shown round
              (read_numeric_pressure_temp (operational_of c)).outlet_temp
              (part (codes "outletTemp") (codes "unit") (operational_of c))
          else dash))
unfolding compressor_card_telemetry_lines read_numeric_pressure_temp read_pressure_line
    read_outlet_temp_line
compressor_card_telemetry_lines-numeric c p t =
    let psi = line-shown round_tenth (as_record (read (codes "pressure") (operational_of c))) p in
    let temp = line-shown round (as_record (read (codes "outletTemp") (operational_of c))) t in
    (rw psi refl, rw temp refl)
