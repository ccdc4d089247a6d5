-- ===== src/Prelude/Int.antt =====
-- C's `int` results: a count, or a negative code. `negsuc n` is -(n + 1).
use Prim.Native.Nat.{ℕ, ◌+◌}
use mathlib.Core.Bool.{Bool, true, false}
use libmobile.Prelude.Tests.{◌==◌}

pub data ℤ : Type 0 where
  pos : ℕ → ℤ
  negsuc : ℕ → ℤ

abbrev pub is_negative : ℤ → Bool
is_negative (pos n) = false
is_negative (negsuc n) = true

-- The test that C makes of an `int` in a condition.
abbrev pub is_zero : ℤ → Bool
is_zero (pos n) = n == 0
is_zero (negsuc n) = false

-- The value of a result that has been found not to be negative.
abbrev pub to_ℕ : ℤ → ℕ
to_ℕ (pos n) = n
to_ℕ (negsuc n) = 0

-- A result of -k, for k above 0.
abbrev pub is_code : ℕ → ℤ → Bool
is_code k (pos n) = false
is_code k (negsuc n) = n + 1 == k
