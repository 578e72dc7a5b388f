-- ===== src/Base/Int.antt =====
-- Signed numbers, under the library's names: the results of functions that return a count or an error.
use Prim.Native.Nat.{ℕ, zero, suc}
use mathlib.Core.Bool.{Bool, true, false}

-- `negsuc n` is - (n + 1).
pub data ℤ : Type 0 where
  pos : ℕ → ℤ
  negsuc : ℕ → ℤ

-- `min(0, x)`
abbrev pub min_zero : ℤ → ℤ
min_zero (pos n) = pos 0
min_zero (negsuc n) = negsuc n

-- `if (x)`
abbrev pub is_nonzero : ℤ → Bool
is_nonzero (pos zero) = false
is_nonzero (pos (suc n)) = true
is_nonzero (negsuc n) = true
