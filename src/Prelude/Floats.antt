-- ===== src/Prelude/Floats.antt =====
-- Go's `float64` as its 64 bits, in the format of IEEE 754. What rounds is no part of it: the order and the
-- sign are read off the bits.
use Prim.Native.Nat.{ℕ, ◌+◌, ◌-◌, ◌%◌, ◌^◌}
use mathlib.Core.Bool.{Bool, true, false, ◌&&◌, not}
use opspilot_go_dev_kit.Prelude.Tests.{if◌then◌else◌, eqb, ltb, leb}

pub record Float64 : Type 0 where
  pub bits : ℕ

-- The bits of 0.
abbrev pub float_zero : Float64
float_zero = record { bits = 0 }

abbrev pub sign_bit : ℕ
sign_bit = 2 ^ 63

-- The bits without the sign, which grow with the absolute value.
abbrev pub magnitude : Float64 → ℕ
magnitude x = x.bits % sign_bit

abbrev pub is_negative : Float64 → Bool
is_negative x = leb sign_bit x.bits && not (eqb (magnitude x) 0)

-- The exponent of ones with a mantissa other than zero.
abbrev pub is_nan : Float64 → Bool
is_nan x = ltb 0x7ff0000000000000 (magnitude x)

-- `x < y` of two that are numbers.
abbrev pub below : Float64 → Float64 → Bool
below x y =
    if is_negative x
    then (if is_negative y then ltb (magnitude y) (magnitude x) else true)
    else (if is_negative y then false else ltb (magnitude x) (magnitude y))

-- Go's `x < y` and `x <= y`, false where one is no number.
unfoldable pub float_lt : Float64 → Float64 → Bool
float_lt x y = not (is_nan x) && not (is_nan y) && below x y

unfoldable pub float_le : Float64 → Float64 → Bool
float_le x y = not (is_nan x) && not (is_nan y) && not (below y x)

-- `-x`, the sign bit turned.
unfoldable pub negate : Float64 → Float64
negate x = record { bits = if leb sign_bit x.bits then x.bits - sign_bit else x.bits + sign_bit }
