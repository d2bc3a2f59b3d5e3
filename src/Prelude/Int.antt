-- ===== src/Prelude/Int.antt =====
-- Signed integers, for the `i64` and `i32` fields that may be negative, and the arithmetic of `i64`.
use Prim.Native.Nat.{ℕ, zero, suc, ◌+◌, ◌-◌, ◌*◌, ◌/◌, ◌%◌}
use mathlib.Core.Bool.{Bool, true, false}
use mathlib.Core.Option.{Option, none, some}
use twerk.Prelude.Tests.{◌==◌, ltb, leb, if◌then◌else◌}

-- `negsuc n` is -(n + 1).
pub data ℤ : Type 0 where
  pos : ℕ → ℤ
  negsuc : ℕ → ℤ

abbrev pub is_zero : ℤ → Bool
is_zero (pos n) = n == 0
is_zero (negsuc n) = false

abbrev pub int_eq : ℤ → ℤ → Bool
int_eq (pos a) (pos b) = a == b
int_eq (negsuc a) (negsuc b) = a == b
int_eq _ _ = false

abbrev pub int_lt : ℤ → ℤ → Bool
int_lt (pos a) (pos b) = ltb a b
int_lt (pos a) (negsuc b) = false
int_lt (negsuc a) (pos b) = true
int_lt (negsuc a) (negsuc b) = ltb b a

-- a - b.
abbrev pub difference : ℕ → ℕ → ℤ
difference a b = if leb b a then pos (a - b) else negsuc (b - a - 1)

infixl 60 ◌+ℤ◌
abbrev pub ◌+ℤ◌ : ℤ → ℤ → ℤ
pos a +ℤ pos b = pos (a + b)
pos a +ℤ negsuc b = difference a (suc b)
negsuc a +ℤ pos b = difference b (suc a)
negsuc a +ℤ negsuc b = negsuc (suc (a + b))

abbrev pub negate : ℤ → ℤ
negate (pos zero) = pos 0
negate (pos (suc n)) = negsuc n
negate (negsuc n) = pos (suc n)

abbrev pub magnitude : ℤ → ℕ
magnitude (pos n) = n
magnitude (negsuc n) = suc n

-- A number of this sign, and the number that has this magnitude.
abbrev pub negative : ℤ → Bool
negative (pos n) = false
negative (negsuc n) = true

abbrev pub signed : Bool → ℕ → ℤ
signed false n = pos n
signed true n = negate (pos n)

abbrev pub differ : Bool → Bool → Bool
differ true true = false
differ true false = true
differ false b = b

abbrev pub product : ℤ → ℤ → ℤ
product a b = signed (differ (negative a) (negative b)) (magnitude a * magnitude b)

-- Division and remainder that truncate, by a number that is not zero.
abbrev pub quotient : ℤ → ℤ → ℤ
quotient a b = signed (differ (negative a) (negative b)) (magnitude a / magnitude b)

abbrev pub remainder : ℤ → ℤ → ℤ
remainder a b = signed (negative a) (magnitude a % magnitude b)

-- 2 ^ 63.
abbrev pub i64_bound : ℕ
i64_bound = 9223372036854775808

-- `i64::MIN <= z <= i64::MAX`.
abbrev pub fits : ℤ → Bool
fits (pos n) = ltb n i64_bound
fits (negsuc n) = ltb n i64_bound

abbrev pub checked : ℤ → Option ℤ
checked z = if fits z then some z else none

-- `i64::checked_add`, `checked_sub`, `checked_mul`; `checked_div` and `checked_rem` of a divisor that
-- is not zero, which overflow at `i64::MIN` and -1.
unfoldable pub checked_add : ℤ → ℤ → Option ℤ
checked_add a b = checked (a +ℤ b)

unfoldable pub checked_sub : ℤ → ℤ → Option ℤ
checked_sub a b = checked (a +ℤ negate b)

unfoldable pub checked_mul : ℤ → ℤ → Option ℤ
checked_mul a b = checked (product a b)

unfoldable pub checked_div : ℤ → ℤ → Option ℤ
checked_div a b = checked (quotient a b)

unfoldable pub checked_rem : ℤ → ℤ → Option ℤ
checked_rem a b = if fits (quotient a b) then some (remainder a b) else none

-- `n as i64` of a `usize`.
unfoldable pub as_i64 : ℕ → ℤ
as_i64 n =
    let low = n % (i64_bound + i64_bound) in
    if ltb low i64_bound then pos low else negsuc (i64_bound + i64_bound - 1 - low)
