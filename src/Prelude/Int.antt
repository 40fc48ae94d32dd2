-- ===== src/Prelude/Int.antt =====
-- The values of an `int` that the program tells apart: a descriptor, or a negative number.
use Prim.Native.Nat.{ℕ}
use mathlib.Core.Bool.{Bool, false}
use http_server.Prelude.Tests.{◌==◌}

-- `negsuc n` is -(n + 1).
pub data ℤ : Type 0 where
  pos : ℕ → ℤ
  negsuc : ℕ → ℤ

unfoldable pub same_int : ℤ → ℤ → Bool
same_int (pos a) (pos b) = a == b
same_int (pos a) (negsuc b) = false
same_int (negsuc a) (pos b) = false
same_int (negsuc a) (negsuc b) = a == b
