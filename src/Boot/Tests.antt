-- ===== src/Boot/Tests.antt =====
-- The loader over a firmware that logs the texts.
use xbt_os_misaka.Boot.{Wide, efi_load_error, efi_main, wide}
use xbt_os_misaka.Prelude.{ℕ, ◌≡◌, refl, ◌&&◌, ◌||◌, not, ◌==◌, ltb, Bool, true, List, [], ◌∷◌}

log : Wide → List Wide → ℕ × List Wide
log text texts = (0, text ∷ texts)

-- One unit of UTF-16 that is a character by itself, and not the NUL.
abbrev is_unit : ℕ → Bool
is_unit u = not (u == 0) && (ltb u 0xD800 || not (ltb u 0xE000) && ltb u 0x10000)

are_units : Wide → Bool
are_units [] = true
are_units (u ∷ text) = is_unit u && are_units text

are_texts : List Wide → Bool
unfolding are_units
are_texts [] = true
are_texts (text ∷ texts) = are_units text && are_texts texts

-- The loader ends with an error, whatever the firmware says.
efi_main-fails :
    {Firmware : Type 0} (output_string : Wide → Firmware → ℕ × Firmware) (f : Firmware)
    → (efi_main output_string f).0 ≡ efi_load_error
unfolding efi_main
efi_main-fails output_string f = refl

-- Every text that it prints is a string of single units, with no NUL inside.
efi_main-texts : are_texts ((efi_main log []).1) ≡ true
unfolding efi_main log wide are_texts are_units
efi_main-texts = refl
