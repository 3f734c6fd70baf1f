-- ===== src/Telemetry.antt =====
-- What a compressor reports, as its card and charts read it: frontend/src/utils/compressorTelemetry.ts
-- and frontend/src/utils/compressorCardSummary.ts.
pub mod Lines
use shatter_nc.Prelude.{
  ◌+◌, ◌*◌, ◌/◌, suc, Bool, true, false, not, ◌&&◌, ◌||◌, Option, none, some, [], ◌∷◌, ◌++◌,
  if◌then◌else◌,
}
use shatter_nc.Prelude.Numbers.{Num, nan, pos, neg, signed, is_finite}
use shatter_nc.Prelude.Text.{Text, codes, text_beq, to_lower, trim, includes, to_number, show_num}
use shatter_nc.Prelude.Json.{Json, Members, get, number}

abbrev pub dash : Text
dash = 0x2014 ∷ []

unfoldable pub as_record : Json → Option Members
as_record (Json.object o) = some o
as_record _ = none

-- `o?.key`
abbrev pub read : Text → Option Members → Json
read key none = Json.undefined
read key (some o) = get key o

-- `typeof v === 'string' ? v : undefined`
abbrev pub string_or : Json → Option Text
string_or (Json.str s) = some s
string_or _ = none

pub record SigmaPanelFields : Type 0 where
  pub panel_clock : Option Text
  pub system_status_display : Option Text
  pub key_label : Option Text
  pub key_toggle : Option Text
  pub key_code : Option Text
  pub key_right : Option Text
  pub run_hours_display : Option Text
  pub load_hours_display : Option Text
  pub maintenance_hours_display : Option Text

unfoldable pub read_sigma_panel : Option Members → SigmaPanelFields
read_sigma_panel operational =
    let sp = as_record (read (codes "sigmaPanel") operational) in
    record {
      panel_clock = string_or (read (codes "panelClock") sp);
      system_status_display = string_or (read (codes "systemStatusDisplay") sp);
      key_label = string_or (read (codes "keyLabel") sp);
      key_toggle = string_or (read (codes "keyToggle") sp);
      key_code = string_or (read (codes "keyCode") sp);
      key_right = string_or (read (codes "keyRight") sp);
      run_hours_display = string_or (read (codes "runHoursDisplay") sp);
      load_hours_display = string_or (read (codes "loadHoursDisplay") sp);
      maintenance_hours_display = string_or (read (codes "maintenanceHoursDisplay") sp);
    }

-- the lamps, as the object that holds them
unfoldable pub read_led_data : Json → Option Members
unfolding as_record
read_led_data raw = elim (as_record raw) [
  | none ↦ none
  | some top ↦ elim (as_record (get (codes "led-data") top)) [
    | some inner ↦ some inner
    | none ↦ some top
  ]
]

-- `Math.round`: halves go up
abbrev pub round : Num → Num
round nan = nan
round (pos m) = pos ((m + 500_000) / 1_000_000 * 1_000_000)
round (neg n) = signed true ((n + 500_000) / 1_000_000 * 1_000_000)

-- `Math.round(n * 10) / 10`
abbrev pub round_tenth : Num → Num
round_tenth nan = nan
round_tenth (pos m) = pos ((m + 50_000) / 100_000 * 100_000)
round_tenth (neg n) = signed true ((n + 50_000) / 100_000 * 100_000)

-- `typeof u === 'string' ? u : ''`
abbrev pub unit_text : Json → Text
unit_text (Json.str s) = s
unit_text _ = []

-- a value and its unit, or a dash
line : (Num → Num) → Option Members → Text
line rounded none = dash
line rounded (some p) =
    let n = number (get (codes "value") p) in
    if is_finite n then trim (show_num (rounded n) ++ unit_text (get (codes "unit") p)) else dash

unfoldable pub read_pressure_line : Option Members → Text
unfolding line
read_pressure_line operational = line round_tenth (as_record (read (codes "pressure") operational))

unfoldable pub read_outlet_temp_line : Option Members → Text
unfolding line
read_outlet_temp_line operational = line round (as_record (read (codes "outletTemp") operational))

pub record NumericPressureTemp : Type 0 where
  pub psi : Option Num
  pub psi_unit : Option Text
  pub outlet_temp : Option Num
  pub temp_unit : Option Text

-- a number, or a string as a number, if it is finite
unfoldable pub numeric : Json → Option Num
numeric (Json.num n) = if is_finite n then some n else none
numeric (Json.str s) = if is_finite (to_number s) then some (to_number s) else none
numeric _ = none

-- a string that is not blank, trimmed
unfoldable pub unit_of : Json → Option Text
unit_of (Json.str s) = if text_beq (trim s) [] then none else some (trim s)
unit_of _ = none

unfoldable pub read_numeric_pressure_temp : Option Members → NumericPressureTemp
read_numeric_pressure_temp operational =
    let p = as_record (read (codes "pressure") operational) in
    let t = as_record (read (codes "outletTemp") operational) in
    record {
      psi = numeric (read (codes "value") p);
      psi_unit = unit_of (read (codes "unit") p);
      outlet_temp = numeric (read (codes "value") t);
      temp_unit = unit_of (read (codes "unit") t);
    }

pub record CompressorStatus : Type 0 where
  pub is_online : Bool
  pub status : Option Text
  pub metrics : Option Members

abbrev pub operational_of : CompressorStatus → Option Members
operational_of c = as_record (read (codes "operational") c.metrics)

-- `a || b` on strings
abbrev pub or_text : Text → Text → Text
or_text [] b = b
or_text (c ∷ s) b = c ∷ s

abbrev pub trimmed : Option Text → Text
trimmed none = []
trimmed (some s) = trim s

unfoldable pub read_compressor_controller_status : CompressorStatus → Text
unfolding read_sigma_panel
read_compressor_controller_status c =
    let operational = operational_of c in
    or_text (trimmed (read_sigma_panel operational).system_status_display)
      (or_text (unit_text (read (codes "compressorState") operational)) (trimmed c.status))

abbrev pub is_true : Json → Bool
is_true (Json.bool true) = true
is_true _ = false

abbrev pub or_blank : Option Text → Text
or_blank none = []
or_blank (some s) = s

unfoldable pub format_load_idle : Option Members → Option Text → Text
format_load_idle led compressor_status =
    let s = to_lower (or_blank compressor_status) in
    if is_true (read (codes "load") led)
    then codes "LOAD"
    else if is_true (read (codes "idle") led)
    then codes "IDLE"
    else if includes s (codes "load") && not (includes s (codes "unload"))
    then codes "LOAD"
    else if includes s (codes "idle") || includes s (codes "standby")
    then codes "IDLE"
    else dash

unfoldable pub compressor_card_status_display : CompressorStatus → Text
compressor_card_status_display c =
    let s = to_lower (or_blank c.status) in
    if not c.is_online
    then codes "OFFLINE"
    else if text_beq s (codes "offline")
    then codes "OFFLINE"
    else if includes s (codes "error")
    then codes "ERROR"
    else codes "ONLINE"

unfoldable pub compressor_card_status_value_class : CompressorStatus → Text
compressor_card_status_value_class c =
    let d = compressor_card_status_display c in
    if text_beq d (codes "OFFLINE") || text_beq d (codes "ERROR")
    then codes "text-error"
    else codes "text-success"

pub record TelemetryLines : Type 0 where
  pub psi_line : Text
  pub temp_line : Text
  pub controller_detail : Text

unfoldable pub compressor_card_telemetry_lines : CompressorStatus → TelemetryLines
compressor_card_telemetry_lines c = record {
  psi_line = if c.is_online then read_pressure_line (operational_of c) else dash;
  temp_line = if c.is_online then read_outlet_temp_line (operational_of c) else dash;
  controller_detail = read_compressor_controller_status c;
}
