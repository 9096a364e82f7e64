-- ===== src/Base/Integers.antt =====
-- Integers of JavaScript, over the native numbers.
use Prim.Native.Nat.{ℕ}
use mathlib.Core.Bool.{Bool, false, ◌||◌}
use mathlib.Core.List.{List, [], ◌∷◌}
use agentdock_mcp_harness.Base.Tests.{◌==◌}

pub data ℤ : Type 0 where
  pos : ℕ → ℤ
  negsuc : ℕ → ℤ

-- `===`
abbrev pub same_int : ℤ → ℤ → Bool
same_int (pos m) (pos n) = m == n
same_int (negsuc m) (negsuc n) = m == n
same_int _ _ = false

-- `xs.includes(z)`
abbrev pub includes_int : List ℤ → ℤ → Bool
includes_int [] z = false
includes_int (x ∷ xs) z = same_int x z || includes_int xs z
