-- ===== src/Common/Int.antt =====
-- `time.Duration`, a signed count of nanoseconds, and the operations on it that the program uses.
-- `time.Time` is a native number of nanoseconds. `negsuc n` is -(n + 1).
use Prim.Native.Nat.{ℕ}
use mathlib.Core.Bool.{Bool, true, false}
use nat_pmp.Common.Tests.{ltb, leb}

pub data ℤ : Type 0 where
  pos : ℕ → ℤ
  negsuc : ℕ → ℤ

-- d < 0
abbrev pub is_negative : ℤ → Bool
is_negative (pos n) = false
is_negative (negsuc n) = true

-- d > n, for a constant n ≥ 0
abbrev pub exceeds : ℤ → ℕ → Bool
exceeds (pos n) m = ltb m n
exceeds (negsuc n) m = false

-- d <= 0
abbrev pub is_nonpositive : ℤ → Bool
is_nonpositive (pos n) = leb n 0
is_nonpositive (negsuc n) = true

-- The nanoseconds of a duration that is not negative.
abbrev pub nanoseconds : ℤ → ℕ
nanoseconds (pos n) = n
nanoseconds (negsuc n) = 0

-- `time.Second`
abbrev pub second : ℕ
second = 1_000_000_000
