-- ===== src/Base/Int.antt =====
-- Signed numbers, as far as the program compares them with counters.
use Prim.Native.Nat.{ℕ, max}
use mathlib.Core.Bool.{Bool, false}
use aspect_cli.Base.Tests.{leb}

-- `negsuc n` is -(n + 1)
pub data ℤ : Type 0 where
  pos : ℕ → ℤ
  negsuc : ℕ → ℤ

-- `n <= z` for a counter `n`
abbrev pub le_signed : ℕ → ℤ → Bool
le_signed n (pos m) = leb n m
le_signed n (negsuc m) = false

-- `n.max(z)` for a counter `n`
abbrev pub max_signed : ℕ → ℤ → ℕ
max_signed n (pos m) = max n m
max_signed n (negsuc m) = n
