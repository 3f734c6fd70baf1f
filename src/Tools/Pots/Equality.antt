-- ===== src/Tools/Pots/Equality.antt =====
-- `potsEqual` compares pots by what they name, however they are spelled.
use shatter_nc.Prelude.{◌≡◌, refl, true, Option, none, some, arith, Bool-cases, ◌⊎◌, inl, inr}
use shatter_nc.Prelude.Numbers.{Num, whole, same_value_iff}
use shatter_nc.Prelude.Text.{text_beq_iff}
use shatter_nc.Tools.{Value, num, str}
use shatter_nc.Tools.Pots.{is_spindle_pot, parse_pot_number, same_pot, same_parsed, pots_equal}

same_pot_sound : (a b : Option Value) → same_pot a b ≡ true → a ≡ b
unfolding same_pot
same_pot_sound none none h = refl
same_pot_sound (some (num a)) (some (num b)) h = ground (arith, same_value_iff a b)
same_pot_sound (some (str s)) (some (str t)) h = ground (arith, text_beq_iff s t)
same_pot_sound none (some b) h = cc
same_pot_sound (some a) none h = absurd (ground arith)
same_pot_sound (some (num a)) (some (str t)) h = cc
same_pot_sound (some (str s)) (some (num b)) h = cc

spindle-parse : (a : Option Value) → is_spindle_pot a ≡ true → parse_pot_number a ≡ some (whole 0)
unfolding parse_pot_number is_spindle_pot
spindle-parse (some (str s)) h = ground arith
spindle-parse none h = absurd (ground arith)
spindle-parse (some (num n)) h = absurd (ground arith)

-- Two pots that are equal have one spelling, or parse to one number.
pots_equal_sound :
    (a b : Option Value)
    → pots_equal a b ≡ true
    → (a ≡ b) ⊎ (same_parsed (parse_pot_number a) (parse_pot_number b) ≡ true)
unfolding pots_equal
pots_equal_sound a b h = elim (Bool-cases (same_pot a b)) [
  | inl same ↦ inl (same_pot_sound a b same)
  | inr other ↦ ground (arith, spindle-parse a, spindle-parse b)
]

pots_equal_of_parsed :
    (a b : Option Value)
    → same_parsed (parse_pot_number a) (parse_pot_number b) ≡ true
    → pots_equal a b ≡ true
unfolding pots_equal
pots_equal_of_parsed a b h = ground arith

same_parsed_trans :
    (p q r : Option Num) → same_parsed p q ≡ true → same_parsed q r ≡ true → same_parsed p r ≡ true
same_parsed_trans p q r h k = ground arith

same_parsed_symm : (p q : Option Num) → same_parsed p q ≡ true → same_parsed q p ≡ true
same_parsed_symm p q h = ground arith

pub pots_equal_trans :
    (a b c : Option Value) → pots_equal a b ≡ true → pots_equal b c ≡ true → pots_equal a c ≡ true
pots_equal_trans a b c h k = elim (pots_equal_sound a b h) [
  | inl same ↦ rw same k
  | inr left ↦ elim (pots_equal_sound b c k) [
    | inl same ↦ rw (← same) h
    | inr right ↦ pots_equal_of_parsed a c (
        same_parsed_trans (parse_pot_number a) (parse_pot_number b) (parse_pot_number c) left right)
  ]
]

pub pots_equal_symm : (a b : Option Value) → pots_equal a b ≡ true → pots_equal b a ≡ true
pots_equal_symm a b h = elim (pots_equal_sound a b h) [
  | inl same ↦ rw same (rw same at h)
  | inr left ↦
      pots_equal_of_parsed b a (same_parsed_symm (parse_pot_number a) (parse_pot_number b) left)
]

-- `potsEqual` is symmetric and transitive on all pots, whether they are numbers, strings, 'SPINDLE'
-- in any case, or missing: if a and b are equal and b and c are, so are a and c, and b and a.
pub pots_equal_equivalence :
    (a b c : Option Value)
    → pots_equal a b ≡ true
    → pots_equal b c ≡ true
    → (pots_equal a c ≡ true) × (pots_equal b a ≡ true)
pots_equal_equivalence a b c h k = (pots_equal_trans a b c h k, pots_equal_symm a b h)
