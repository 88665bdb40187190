-- ===== src/Prelude/Signed.antt =====
-- The signed results of the source's comparisons, over the native numbers.
use Prim.Native.Nat.{ℕ, ◌-◌}
use mathlib.Core.Path.{◌≡◌}
use mathlib.Core.Logic.{◌↔◌}
use mathlib.Core.Bool.{Bool, true, false}
use native.Mathlib.Omega.{arith}
use xbt_os_misaka.Prelude.Tests.{leb, ◌==◌, if◌then◌else◌}

-- `negsuc n` is -(n + 1).
pub data ℤ : Type 0 where
  pos : ℕ → ℤ
  negsuc : ℕ → ℤ

-- a - b, as an integer.
abbrev pub sub_ℕ : ℕ → ℕ → ℤ
sub_ℕ a b = if leb b a then pos (a - b) else negsuc (b - a - 1)

abbrev pub is_zero : ℤ → Bool
is_zero (pos n) = n == 0
is_zero (negsuc n) = false

pub is_zero-sub_ℕ_iff : (a b : ℕ) → (is_zero (sub_ℕ a b) ≡ true) ↔ (a ≡ b)
is_zero-sub_ℕ_iff a b = ground arith
