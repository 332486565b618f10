-- ===== src/Prelude/Int.antt =====
-- Integers, as far as the pages compare them: a `bigint` that a text was read as may be negative.
use Prim.Native.Nat.{ℕ}
use mathlib.Core.Bool.{Bool, true, false}
use package.masjid_protocol.Prelude.Tests.{ltb, leb, ◌==◌}

-- `negsuc n` is -(n + 1).
pub data ℤ : Type 0 where
  pos : ℕ → ℤ
  negsuc : ℕ → ℤ

abbrev pub is_zero : ℤ → Bool
is_zero (pos n) = n == 0
is_zero (negsuc n) = false

-- `a >= b` and `b > a`, for a natural number `a`.
abbrev pub at_least : ℕ → ℤ → Bool
at_least a (pos n) = leb n a
at_least a (negsuc n) = true

abbrev pub exceeds : ℤ → ℕ → Bool
exceeds (pos n) a = ltb a n
exceeds (negsuc n) a = false
