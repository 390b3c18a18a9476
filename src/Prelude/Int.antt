-- ===== src/Prelude/Int.antt =====
-- Go's signed integers, for values that may be negative.
use Prim.Native.Nat.{ℕ}

pub data ℤ : Type 0 where
  pos : ℕ → ℤ
  negsuc : ℕ → ℤ
