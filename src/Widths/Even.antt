-- ===== src/Widths/Even.antt =====
-- The widths fill the table and are even: `distribute_column_widths`.
use shatter_nc.Prelude.{
  Bool, true, false, ℕ, zero, suc, ◌+◌, ◌-◌, ◌*◌, ◌/◌, ◌≤◌, ◌≡◌, List, [], ◌∷◌, arith, length, max,
  leb, Bool-cases, nat_beq, if◌then◌else◌, Option, none, some, inl, inr, true,
}
use native.Mathlib.Nat.{zero-div, mul-suc, div-mul-le_self, lt-div-mul-add}
use shatter_nc.Widths.{
  Measured, sum, spread_extra, Distributed, distribute_column_widths, apply_widths, column_mins,
  tools_table_width_gutter_px, resolve_tools_table_column_minimums,
}

spread_extra-sum :
    (base remainder : ℕ) (mins : List ℕ)
    → remainder ≤ length mins
    → sum (spread_extra base remainder mins) ≡ sum mins + base * length mins + remainder
unfolding spread_extra
spread_extra-sum base zero [] h = omega arith
spread_extra-sum base (suc remainder) [] h = omega (arith, h)
spread_extra-sum base zero (m ∷ mins) h =
    omega (arith, spread_extra-sum base zero mins (omega arith), mul-suc base (length mins))
spread_extra-sum base (suc remainder) (m ∷ mins) h =
    omega
      (arith, spread_extra-sum base remainder mins (omega (arith, h)), mul-suc base (length mins))

-- Each width is its minimum with the base extra and at most one pixel more.
abbrev pub IsEven : ℕ → List ℕ → List ℕ → Type 0
IsEven base [] [] = Unit
IsEven base (m ∷ mins) (w ∷ ws) = ((m + base ≤ w) × (w ≤ m + base + 1)) × IsEven base mins ws
IsEven base [] (w ∷ ws) = ⊥
IsEven base (m ∷ mins) [] = ⊥

spread_extra-IsEven :
    (base remainder : ℕ) (mins : List ℕ) → IsEven base mins (spread_extra base remainder mins)
unfolding spread_extra
spread_extra-IsEven base remainder [] = tt
spread_extra-IsEven base zero (m ∷ mins) =
    ((omega arith, omega arith), spread_extra-IsEven base zero mins)
spread_extra-IsEven base (suc remainder) (m ∷ mins) =
    ((omega arith, omega arith), spread_extra-IsEven base remainder mins)

mins-IsEven : (mins : List ℕ) → IsEven 0 mins mins
mins-IsEven [] = tt
mins-IsEven (m ∷ mins) = ((omega arith, omega arith), mins-IsEven mins)

-- The columns fill the table exactly, and the table is as wide as the pane, or as wide as the sum
-- of the minimums where the pane is narrower. There is at least one column.
pub distribute_column_widths-sum :
    (available : ℕ) (m : ℕ) (mins : List ℕ)
    → (sum (distribute_column_widths available (m ∷ mins)).widths
        ≡ (distribute_column_widths available (m ∷ mins)).table_width)
      × ((distribute_column_widths available (m ∷ mins)).table_width
          ≡ max available (sum (m ∷ mins)))
unfolding distribute_column_widths
distribute_column_widths-sum available m mins =
    let columns = length (m ∷ mins) in
    let extra = available - sum (m ∷ mins) in
    let base = extra / columns in
    let remainder = extra - base * columns in
    let few = lt-div-mul-add {a = extra} {b = columns} (omega arith) in
    let below = div-mul-le_self extra columns in
    let spread = spread_extra-sum base remainder (m ∷ mins) (omega (arith, few, below)) in
    ground (arith, few, below, spread)

sub_none : (a b : ℕ) → leb a b ≡ true → a - b ≡ 0
sub_none a b h = ground arith

-- No column is narrower than its minimum, and the space left over is split evenly: each column gets
-- the same whole number of pixels, and some of them one more.
pub distribute_column_widths-IsEven :
    (available : ℕ) (mins : List ℕ)
    → IsEven
        ((available - sum mins) / length mins)
        mins
        (distribute_column_widths available mins).widths
unfolding distribute_column_widths
distribute_column_widths-IsEven available mins = elim (Bool-cases (leb available (sum mins))) [
  | inl narrow ↦
      rw
        (
          narrow,
          distribute_column_widths,
          sub_none available (sum mins) narrow,
          zero-div (length mins),
        )
        (mins-IsEven mins)
  | inr wide ↦
      rw (wide, distribute_column_widths)
        (spread_extra-IsEven ((available - sum mins) / length mins)
          (available - sum mins - (available - sum mins) / length mins * length mins) mins)
]

length-spread_extra :
    (base remainder : ℕ) (mins : List ℕ) → length (spread_extra base remainder mins) ≡ length mins
unfolding spread_extra
length-spread_extra base remainder [] = omega arith
length-spread_extra base zero (m ∷ mins) = omega (arith, length-spread_extra base zero mins)
length-spread_extra base (suc remainder) (m ∷ mins) =
    omega (arith, length-spread_extra base remainder mins)

distribute-length :
    (available : ℕ) (mins : List ℕ)
    → length (distribute_column_widths available mins).widths ≡ length mins
unfolding distribute_column_widths
distribute-length available mins =
    let base = (available - sum mins) / length mins in
    ground (arith, length-spread_extra base (available - sum mins - base * length mins) mins)

abbrev pub widths_of : Option Distributed → List ℕ
widths_of none = []
widths_of (some d) = d.widths

length-resolve :
    (m : Measured) (include_measure : Bool)
    → length (resolve_tools_table_column_minimums m include_measure)
      ≡ (if include_measure then 10 else 9)
unfolding resolve_tools_table_column_minimums column_mins
length-resolve m true = omega arith
length-resolve m false = omega arith

-- Widths are set exactly for a table with as many columns as there are minimums, ten, or nine without
-- the measuring column, and then every column gets one.
pub apply_widths-length :
    (m : Measured) (include_measure : Bool) (cols client_width : ℕ)
    → length (widths_of (apply_widths m include_measure cols client_width))
      ≡ (if nat_beq cols (if include_measure then 10 else 9) then cols else 0)
unfolding apply_widths
apply_widths-length m include_measure cols client_width =
    let mins = resolve_tools_table_column_minimums m include_measure in
    ground (
      arith,
      length-resolve m include_measure,
      distribute-length (client_width - tools_table_width_gutter_px) mins,
    )
