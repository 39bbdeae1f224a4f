-- ===== src/Prelude/Integers.antt =====
-- Signed integers over the native numbers, and decimal notation.
use Prim.Native.Nat.{ℕ, zero, suc, ◌*◌, ◌/◌, ◌%◌, ◌^◌, ◌≤◌}
use Prim.Native.String.{String, slice, ◌++◌ as str_append}
use mathlib.Core.Path.{◌≡◌}
use native.Mathlib.Omega.{arith}
use mathlib.Core.Bool.{Bool, true, false}
use crashsafe.Prelude.Tests.{ltb, leb, ◌==◌, if◌then◌else◌}

pub data ℤ : Type 0 where
  -- n
  pos : ℕ → ℤ
  -- -(n + 1)
  negsuc : ℕ → ℤ

abbrev pub negate : ℕ → ℤ
negate zero = pos 0
negate (suc n) = negsuc n

-- `max(0, i)`
abbrev pub not_below_zero : ℤ → ℕ
not_below_zero (pos n) = n
not_below_zero (negsuc n) = 0

-- `a < b`
abbrev pub below : ℤ → ℤ → Bool
below (pos a) (pos b) = ltb a b
below (pos a) (negsuc b) = false
below (negsuc a) (pos b) = true
below (negsuc a) (negsuc b) = ltb b a

-- `a <= b`
abbrev pub not_above : ℤ → ℤ → Bool
not_above (pos a) (pos b) = leb a b
not_above (pos a) (negsuc b) = false
not_above (negsuc a) (pos b) = true
not_above (negsuc a) (negsuc b) = leb b a

abbrev pub int_eq : ℤ → ℤ → Bool
int_eq (pos a) (pos b) = a == b
int_eq (negsuc a) (negsuc b) = a == b
int_eq _ _ = false

pub int_eq_self : (a : ℤ) → int_eq a a ≡ true
int_eq_self (pos n) = ground arith
int_eq_self (negsuc n) = ground arith

-- A Python float. A finite one is a whole number of units of 2 ^ -1074, the smallest float above zero.
pub data Float : Type 0 where
  finite : ℤ → Float
  infinite : Float
  minus_infinite : Float
  nan : Float

-- An integer in the units of a float.
unfoldable pub in_units : ℤ → ℤ
in_units (pos n) = pos (n * 2 ^ 1074)
in_units (negsuc n) = negate (suc n * 2 ^ 1074)

-- `a < b` of floats
abbrev pub less : Float → Float → Bool
less (finite a) (finite b) = below a b
less (finite a) infinite = true
less (finite a) minus_infinite = false
less (finite a) nan = false
less infinite b = false
less minus_infinite (finite b) = true
less minus_infinite infinite = true
less minus_infinite minus_infinite = false
less minus_infinite nan = false
less nan b = false

-- `a <= b` of floats
abbrev pub less_or_equal : Float → Float → Bool
less_or_equal (finite a) (finite b) = not_above a b
less_or_equal (finite a) infinite = true
less_or_equal (finite a) minus_infinite = false
less_or_equal (finite a) nan = false
less_or_equal infinite (finite b) = false
less_or_equal infinite infinite = true
less_or_equal infinite minus_infinite = false
less_or_equal infinite nan = false
less_or_equal minus_infinite (finite b) = true
less_or_equal minus_infinite infinite = true
less_or_equal minus_infinite minus_infinite = true
less_or_equal minus_infinite nan = false
less_or_equal nan b = false

-- the text of a number below ten
abbrev pub digit : ℕ → String
digit n = slice "0123456789" n (suc n)

-- The digits of a number, the last first to be cut off.
unfoldable pub digits : ℕ → ℕ → String
digits zero n = digit (n % 10)
digits (suc rounds) n =
    let before = digits rounds (n / 10) in
    if ltb n 10 then digit n else str_append before (digit (n % 10))

-- One more round changes nothing.
digits-enough : (rounds n : ℕ) → n ≤ rounds → digits (suc rounds) n ≡ digits rounds n
unfolding digits
digits-enough zero n h = ground arith
digits-enough (suc rounds) n h = ground (arith, digits-enough rounds (n / 10))

-- `str(n)`: a number has no more digits than its value
unfoldable pub decimal : ℕ → String
decimal n = digits n n

unfoldable pub signed_decimal : ℤ → String
signed_decimal (pos n) = decimal n
signed_decimal (negsuc n) = str_append "-" (decimal (suc n))
