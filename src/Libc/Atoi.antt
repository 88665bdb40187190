-- ===== src/Libc/Atoi.antt =====
-- kernel/memory/libc.cpp: `atoi` on what `print_signed` prints.
use xbt_os_misaka.KString.{Bytes}
use xbt_os_misaka.Libc.{isspace}
use xbt_os_misaka.Libc.Unsigned.{IsDigitIn, value_in}
use xbt_os_misaka.Prelude.{ℕ, ◌^◌, ◌<◌, ◌≡◌, true, All, ◌∷◌, ℤ, pos, negsuc}

abbrev pub IsSpace : ℕ → Type 0
IsSpace c = isspace c ≡ true

-- The integers of 32 bits.
abbrev pub IsInt : ℤ → Type 0
IsInt (pos n) = n < 2 ^ 31
IsInt (negsuc n) = n < 2 ^ 31

-- The digits of a number, of which there is one at least.
record Printed (n : ℕ) (p : Bytes) : Type 0 where
  pub first : ℕ
  pub others : Bytes
  pub same : p ≡ first ∷ others
  pub digits : All (IsDigitIn 10) (first ∷ others)
  pub value : value_in 10 0 (first ∷ others) ≡ n

-- The least integer, for which there is no positive one.
abbrev pub least : ℤ
least = negsuc 0x7FFF_FFFF
