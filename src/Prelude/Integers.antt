-- ===== src/Prelude/Integers.antt =====
-- Integers over the native numbers: a Go `int` that may be negative.
use Prim.Native.Nat.{ℕ}

pub data ℤ : Type 0 where
  pos negsuc : ℕ → ℤ
