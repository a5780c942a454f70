-- ===== src/Base/Int.antt =====
-- Signed integers over the native numbers, and the integer that a w-bit pattern stands for.
use Prim.Native.Nat.{ℕ, zero, suc, ◌+◌, ◌-◌, ◌^◌}
use fast_gdb.Base.Tests.{ltb, if◌then◌else◌}

-- `negsuc n` is -(n + 1).
pub data ℤ : Type 0 where
  pos : ℕ → ℤ
  negsuc : ℕ → ℤ

abbrev pub neg : ℤ → ℤ
neg (pos zero) = pos zero
neg (pos (suc n)) = negsuc n
neg (negsuc n) = pos (suc n)

abbrev pub abs : ℤ → ℕ
abs (pos n) = n
abs (negsuc n) = suc n

-- The two's complement reading of a pattern below 2 ^ suc w.
abbrev pub signed : ℕ → ℕ → ℤ
signed w v = if ltb v (2 ^ w) then pos v else negsuc (2 ^ w + 2 ^ w - v - 1)
