-- ===== src/Common/Int.antt =====
-- The signed integers that the sources use as positions, over the native numbers.
use Prim.Native.Nat.{ℕ, zero, suc}
use mathlib.Core.Path.{◌≡◌, refl}

-- `negsuc n` is -(n + 1).
pub data ℤ : Type 0 where
  pos : ℕ → ℤ
  negsuc : ℕ → ℤ

-- n - 1
abbrev pub pred_ℕ : ℕ → ℤ
pred_ℕ zero = negsuc 0
pred_ℕ (suc n) = pos n

-- z + 1
abbrev pub suc_ℤ : ℤ → ℤ
suc_ℤ (pos n) = pos (suc n)
suc_ℤ (negsuc zero) = pos 0
suc_ℤ (negsuc (suc n)) = negsuc n

suc_ℤ-pred_ℕ : (n : ℕ) → suc_ℤ (pred_ℕ n) ≡ pos n
suc_ℤ-pred_ℕ zero = refl
suc_ℤ-pred_ℕ (suc n) = refl
