-- ===== src/Prelude/Int.antt =====
-- Signed integers over the native numbers, for byte deltas.
use Prim.Native.Nat.{ℕ, zero, suc, ◌+◌, ◌-◌}

-- `negsuc n` is -(n + 1).
pub data ℤ : Type 0 where
  pos : ℕ → ℤ
  negsuc : ℕ → ℤ

-- `max(0, n + d)` for a count `n` and a signed `d`: subtraction on ℕ stops at 0.
abbrev pub add_clamped : ℕ → ℤ → ℕ
add_clamped n (pos k) = n + k
add_clamped n (negsuc k) = n - suc k

-- `-n`
abbrev pub neg : ℕ → ℤ
neg zero = pos 0
neg (suc n) = negsuc n
