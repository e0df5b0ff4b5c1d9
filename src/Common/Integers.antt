-- ===== src/Common/Integers.antt =====
-- Integers over the native numbers; `negsuc n` is the negative of `n + 1`.
use Prim.Native.Nat.{ℕ}
use mathlib.Core.Bool.{Bool, false}
use smart_factory_monitor.Common.Tests.{◌==◌}

pub data ℤ : Type 0 where
  pos negsuc : ℕ → ℤ

unfoldable pub same_int : ℤ → ℤ → Bool
same_int (ℤ.pos m) (ℤ.pos n) = m == n
same_int (ℤ.negsuc m) (ℤ.negsuc n) = m == n
same_int (ℤ.pos m) (ℤ.negsuc n) = false
same_int (ℤ.negsuc m) (ℤ.pos n) = false
