-- ===== src/Vga/Screen.antt =====
-- What the console promises: a screen of lines and columns with a cursor. A character goes to the
-- cursor; a line that is full ends; the screen moves up by a line when the cursor leaves it.
use xbt_os_misaka.Prelude.{ℕ, ◌+◌, ◌-◌, ◌*◌, ◌/◌, ◌%◌, ◌==◌, ◌&&◌, ltb, leb, if◌then◌else◌, [], ◌∷◌}
use xbt_os_misaka.KString.{Bytes}
use xbt_os_misaka.Vga.{Ports, cell, vga_height, vga_width}

-- `at` takes the line and the column.
pub record Screen : Type 0 where
  pub at : ℕ → ℕ → ℕ
  pub x : ℕ
  pub y : ℕ
  pub color : ℕ

abbrev pub blank : Screen → ℕ
blank s = cell s.color b' '

abbrev pub set_at : (ℕ → ℕ → ℕ) → ℕ → ℕ → ℕ → ℕ → ℕ → ℕ
set_at at y x c r q = if r == y && q == x then c else at r q

abbrev pub place : Screen → ℕ → Screen
place s c =
    if c == 10
    then record s { x = 0; y = s.y + 1 }
    else if c == 8
    then (if s.x == 0
        then s
        else record s { at = set_at s.at s.y (s.x - 1) (blank s); x = s.x - 1 })
    else record s { at = set_at s.at s.y s.x (cell s.color c); x = s.x + 1 }

abbrev pub wrap : Screen → Screen
wrap s = if leb vga_width s.x then record s { x = 0; y = s.y + 1 } else s

abbrev pub scroll : Screen → Screen
scroll s = if ltb s.y vga_height then s else record s {
  at = λ r q. if ltb r (vga_height - 1) then s.at (r + 1) q else blank s;
  y = vga_height - 1;
}

unfoldable pub put : Screen → ℕ → Screen
put s c = scroll (wrap (place s c))

-- The screen after `clear`.
abbrev pub cleared : Screen → Screen
cleared s = record s { at = λ r q. blank s; x = 0; y = 0 }

-- The bytes of a text, up to its NUL.
unfoldable pub put_all : Screen → Bytes → Screen
put_all s [] = s
put_all s (c ∷ text) = put_all (put s c) text

-- What the cursor registers of the device are set to: the low and the high byte of its place.
abbrev pub cursor_at : Screen → Ports
cursor_at s =
    (0x3D4, 0x0F)
    ∷ (0x3D5, (s.y * vga_width + s.x) % 256)
    ∷ (0x3D4, 0x0E)
    ∷ (0x3D5, (s.y * vga_width + s.x) / 256)
    ∷ []
