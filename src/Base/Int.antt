-- ===== src/Base/Int.antt =====
-- The source's signed numbers, where it tests for negative ones.
use Prim.Native.Nat.{ℕ}

-- `negsuc n` is minus `n + 1`.
pub data ℤ : Type 0 where
  pos negsuc : ℕ → ℤ
