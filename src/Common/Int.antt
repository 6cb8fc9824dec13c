-- ===== src/Common/Int.antt =====
-- Signed integers over the native numbers, for the values that the program lets be negative.
use Prim.Native.Nat.{ℕ, suc, ◌-◌, ◌≤◌, min}
use native.Mathlib.Omega.{arith}
use pigugu_server.Common.Tests.{leb, if◌then◌else◌}

-- `negsuc n` is -(n + 1).
pub data ℤ : Type 0 where
  pos : ℕ → ℤ
  negsuc : ℕ → ℤ

-- max(x, 0)
abbrev pub pos_part : ℤ → ℕ
pos_part (pos n) = n
pos_part (negsuc n) = 0

-- max(-x, 0)
abbrev pub neg_part : ℤ → ℕ
neg_part (pos n) = 0
neg_part (negsuc n) = suc n

-- a - b, as an integer
abbrev pub sub_ℕ : ℕ → ℕ → ℤ
sub_ℕ a b = if leb b a then pos (a - b) else negsuc (b - a - 1)

-- min(max(x, 0), 100), a percentage or a speaker level
unfoldable pub clamp_percent : ℤ → ℕ
clamp_percent x = min (pos_part x) 100

pub clamp_percent-le : (x : ℤ) → clamp_percent x ≤ 100
unfolding clamp_percent
clamp_percent-le x = omega arith
