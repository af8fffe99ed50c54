-- ===== src/Base/Int.antt =====
-- Go's `int` and `int64`: integers with 64 bits that wrap around. (The library's ℤ stands on the
-- unary numbers.)
use Prim.Native.Nat.{ℕ, zero, suc, ◌+◌, ◌-◌, ◌*◌, ◌%◌, ◌^◌, ◌<◌}
use mathlib.Core.Path.{◌≡◌}
use mathlib.Core.Bool.{Bool, true, false}
use native.Mathlib.Omega.{arith}
use mailgun_operator.Base.Tests.{ltb, nat_eq, if◌then◌else◌}

-- `negsuc n` is -(n + 1).
pub data ℤ : Type 0 where
  pos : ℕ → ℤ
  negsuc : ℕ → ℤ

-- -n.
abbrev pub neg : ℕ → ℤ
neg zero = pos 0
neg (suc n) = negsuc n

abbrev pub is_positive : ℤ → Bool
is_positive (pos zero) = false
is_positive (pos (suc n)) = true
is_positive (negsuc n) = false

abbrev pub int_eq : ℤ → ℤ → Bool
int_eq (pos a) (pos b) = nat_eq a b
int_eq (negsuc a) (negsuc b) = nat_eq a b
int_eq _ _ = false

-- The integer that is equal to the argument modulo 2 ^ 64 and lies in the range of an `int64`.
abbrev of_bits : ℕ → ℤ
of_bits b = if ltb b (2 ^ 63) then pos b else negsuc (2 ^ 64 - 1 - b)

unfoldable pub wrap64 : ℤ → ℤ
wrap64 (pos n) = of_bits (n % 2 ^ 64)
wrap64 (negsuc n) = of_bits (2 ^ 64 - 1 - n % 2 ^ 64)

abbrev pub FitsInt64 : ℤ → Type 0
FitsInt64 (pos n) = n < 2 ^ 63
FitsInt64 (negsuc n) = n < 2 ^ 63

-- `x++`
unfoldable pub increment : ℤ → ℤ
unfolding wrap64
increment (pos n) = wrap64 (pos (n + 1))
increment (negsuc zero) = pos 0
increment (negsuc (suc n)) = wrap64 (negsuc n)

-- `x * k` for a constant k > 0.
unfoldable pub scale : ℤ → ℕ → ℤ
unfolding wrap64
scale (pos n) k = wrap64 (pos (n * k))
scale (negsuc n) k = wrap64 (negsuc (suc n * k - 1))

pub wrap64-FitsInt64 : (z : ℤ) → FitsInt64 (wrap64 z)
unfolding wrap64
wrap64-FitsInt64 (pos n) = ground arith
wrap64-FitsInt64 (negsuc n) = ground arith

-- A value in range is left alone.
pub wrap64-eq_of_fits : (z : ℤ) → FitsInt64 z → wrap64 z ≡ z
unfolding wrap64
wrap64-eq_of_fits (pos n) h = ground arith
wrap64-eq_of_fits (negsuc n) h = ground arith
