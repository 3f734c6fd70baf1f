-- ===== src/Prelude/Numbers.antt =====
-- JavaScript numbers, as far as the program computes with them: NaN, and finite numbers counted in
-- millionths. The program's values are integers, and decimals of at most six places.
use Prim.Native.Nat.{ℕ, zero, suc, ◌+◌, ◌-◌, ◌*◌}
use mathlib.Core.Path.{◌≡◌, refl}
use mathlib.Core.Logic.{◌↔◌}
use mathlib.Core.Bool.{Bool, true, false}
use native.Mathlib.Omega.{arith}
use shatter_nc.Prelude.Tests.{ltb, nat_beq, Eq, if◌then◌else◌}

-- `neg n` is -(n + 1) millionths.
pub data Num : Type 0 where
  nan : Num
  pos neg : ℕ → Num

abbrev pub whole : ℕ → Num
whole n = pos (n * 1_000_000)

-- `Number.isFinite`
abbrev pub is_finite : Num → Bool
is_finite nan = false
is_finite _ = true

-- `a < b`: false as soon as one side is NaN
abbrev pub lt_num : Num → Num → Bool
lt_num (pos a) (pos b) = ltb a b
lt_num (neg a) (pos b) = true
lt_num (neg a) (neg b) = ltb b a
lt_num _ _ = false

-- `a === b`: NaN differs from itself
abbrev pub strict_eq : Num → Num → Bool
strict_eq (pos a) (pos b) = nat_beq a b
strict_eq (neg a) (neg b) = nat_beq a b
strict_eq _ _ = false

-- the equality of keys in a `Map` or a `Set`: NaN is one key
abbrev pub same_value : Num → Num → Bool
same_value nan nan = true
same_value a b = strict_eq a b

pub same_value_iff : (a b : Num) → (same_value a b ≡ true) ↔ (a ≡ b)
same_value_iff nan nan = ground arith
same_value_iff a b = ground arith

instance abbrev pub num_eq : Eq Num
num_eq = record { same = same_value; same_iff = same_value_iff }

-- distance in millionths; 0 for NaN is never read
abbrev pub dist : Num → Num → ℕ
dist (pos a) (pos b) = (a - b) + (b - a)
dist (neg a) (neg b) = (a - b) + (b - a)
dist (pos a) (neg b) = a + b + 1
dist (neg a) (pos b) = a + b + 1
dist _ _ = 0

-- a sign and a magnitude in millionths; -0 is 0
abbrev pub signed : Bool → ℕ → Num
signed minus zero = pos 0
signed minus (suc n) = if minus then neg n else pos (suc n)

-- `a + b`
abbrev pub add_num : Num → Num → Num
add_num (pos a) (pos b) = pos (a + b)
add_num (neg a) (neg b) = neg (a + b + 1)
add_num (pos a) (neg b) = if ltb b a then pos (a - (b + 1)) else signed true (b + 1 - a)
add_num (neg a) (pos b) = if ltb a b then pos (b - (a + 1)) else signed true (a + 1 - b)
add_num _ _ = nan

pub lt_irrefl : (v : Num) → lt_num v v ≡ false
lt_irrefl nan = refl
lt_irrefl (pos a) = ground arith
lt_irrefl (neg a) = ground arith
