-- ===== src/Base/Int.antt =====
-- Signed integers; `negsuc n` is -(n + 1).
use Prim.Native.Nat.{ℕ, suc, ◌+◌, ◌-◌}
use vita_mtp.Base.Tests.{leb, if◌then◌else◌}

pub data ℤ : Type 0 where
  pos : ℕ → ℤ
  negsuc : ℕ → ℤ

-- a - b, as an integer.
abbrev pub sub_ℕ : ℕ → ℕ → ℤ
sub_ℕ a b = if leb b a then pos (a - b) else negsuc (b - a - 1)

abbrev pub negate : ℤ → ℤ
negate (pos n) = sub_ℕ 0 n
negate (negsuc n) = pos (suc n)

abbrev pub minus_ℕ : ℤ → ℕ → ℤ
minus_ℕ (pos a) b = sub_ℕ a b
minus_ℕ (negsuc a) b = negsuc (a + b)
