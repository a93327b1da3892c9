-- ===== src/Common/Int.antt =====
-- The integers over the native numbers, for Go's `int` where the program only compares.
use Prim.Native.Nat.{ℕ}

-- `negsuc n` is -(n + 1).
pub data ℤ : Type 0 where
  pos : ℕ → ℤ
  negsuc : ℕ → ℤ
