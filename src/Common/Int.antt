-- ===== src/Common/Int.antt =====
-- Signed integers, for `i64` values. `negsuc n` is -(n + 1).
use Prim.Native.Nat.{ℕ, suc, ◌+◌, ◌-◌, ◌*◌, ◌^◌, min}
use mathlib.Core.Path.{◌≡◌}
use mathlib.Core.Bool.{Bool, true, false}
use native.Mathlib.Omega.{arith}
use immich_rs.Common.Tests.{◌==◌, ltb}

pub data ℤ : Type 0 where
  pos : ℕ → ℤ
  negsuc : ℕ → ℤ

-- A product with a positive factor.
abbrev pub scale_ℤ : ℤ → ℕ → ℤ
scale_ℤ (pos n) k = pos (n * k)
scale_ℤ (negsuc n) k = negsuc (suc n * k - 1)

-- `a == b`, `a < b`, and `a.saturating_sub(b)` on `i64` for a ≥ b, where it is a number.
abbrev pub eq_ℤ : ℤ → ℤ → Bool
eq_ℤ (pos a) (pos b) = a == b
eq_ℤ (negsuc a) (negsuc b) = a == b
eq_ℤ (pos _) (negsuc _) = false
eq_ℤ (negsuc _) (pos _) = false

abbrev pub lt_ℤ : ℤ → ℤ → Bool
lt_ℤ (pos a) (pos b) = ltb a b
lt_ℤ (negsuc a) (negsuc b) = ltb b a
lt_ℤ (pos _) (negsuc _) = false
lt_ℤ (negsuc _) (pos _) = true

abbrev pub since : ℤ → ℤ → ℕ
since (pos a) (pos b) = a - b
since (pos a) (negsuc b) = min (a + suc b) (2 ^ 63 - 1)
since (negsuc a) (negsuc b) = b - a
since (negsuc _) (pos _) = 0

pub eq_ℤ_refl : (a : ℤ) → eq_ℤ a a ≡ true
eq_ℤ_refl (pos a) = ground arith
eq_ℤ_refl (negsuc a) = ground arith
