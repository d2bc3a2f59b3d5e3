-- ===== src/Prelude/Float.antt =====
-- The values of an `f64`, without the payloads of NaN, and the tests that the program makes of them.
use Prim.Native.Nat.{ℕ, suc, ◌*◌, ◌^◌}
use mathlib.Core.Bool.{Bool, true, false, ◌&&◌}
use twerk.Prelude.Int.{ℤ, pos, negsuc}
use twerk.Prelude.Tests.{leb, ◌==◌}

-- `finite s m e` is m · 2 ^ e, negated where `s` holds; `infinite true` is negative infinity.
pub data F64 : Type 0 where
  nan : F64
  infinite : Bool → F64
  finite : (negative : Bool) (mantissa : ℕ) (exponent : ℤ) → F64

-- `f64::is_finite`.
abbrev pub is_finite : F64 → Bool
is_finite (finite s m e) = true
is_finite _ = false

-- m · 2 ^ e ≤ n.
abbrev scaled_le : ℕ → ℤ → ℕ → Bool
scaled_le m (pos k) n = leb (m * 2 ^ k) n
scaled_le m (negsuc k) n = leb m (n * 2 ^ (suc k))

-- `x <= 0.0` and `0.0 <= x`; the two zeros are equal.
abbrev pub at_most_zero : F64 → Bool
at_most_zero nan = false
at_most_zero (infinite s) = s
at_most_zero (finite true m e) = true
at_most_zero (finite false m e) = m == 0

abbrev pub at_least_zero : F64 → Bool
at_least_zero nan = false
at_least_zero (infinite true) = false
at_least_zero (infinite false) = true
at_least_zero (finite true m e) = m == 0
at_least_zero (finite false m e) = true

-- `x <= n` for a whole number `n`.
abbrev pub at_most : F64 → ℕ → Bool
at_most nan n = false
at_most (infinite s) n = s
at_most (finite true m e) n = true
at_most (finite false m e) n = scaled_le m e n

-- `(0.0..=100.0).contains(&x)`.
abbrev pub is_percentage : F64 → Bool
is_percentage x = at_least_zero x && at_most x 100
