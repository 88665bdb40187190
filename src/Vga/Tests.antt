-- ===== src/Vga/Tests.antt =====
-- The VGA console at concrete screens.
use xbt_os_misaka.Prelude.{
  ℕ, ◌≡◌, ◌+◌, ◌*◌, refl, List, [], ◌∷◌, replicate, length-replicate, get_or-replicate, arith,
}
use xbt_os_misaka.Vga.{cell, Vga, vga_put_char, vga_width, render}
use xbt_os_misaka.Vga.Refine.{Holds, OnScreen, Shows, screen_of, vga_put_char-Shows}
use xbt_os_misaka.Vga.Render.{
  Call, ShowsAs, plain, render-ShowsAs, scalars, shown_all, single, trace_of, wipe,
}
use xbt_os_misaka.Vga.Screen

-- An empty memory, with the cursor in the last cell.
abbrev last_cell : Vga
last_cell = record { cells = replicate 2000 0; cursor_x = 79; cursor_y = 24; color = 0x0F }

abbrev nothing : ℕ → ℕ → ℕ
nothing r q = 0

last_cell-Holds : Holds last_cell nothing
last_cell-Holds = record {
  size = length-replicate 2000 0;
  grid = λ r q r_lt q_lt. get_or-replicate 2000 (r * vga_width + q) 0;
}

last_cell-OnScreen : OnScreen (screen_of last_cell nothing)
last_cell-OnScreen = record { column = omega arith; line = omega arith }

vga_put_char-Shows_example :
    Shows (vga_put_char last_cell b'x') (Screen.put (screen_of last_cell nothing) b'x')
    × OnScreen (Screen.put (screen_of last_cell nothing) b'x')
vga_put_char-Shows_example = vga_put_char-Shows b'x' last_cell-Holds last_cell-OnScreen

-- The cursor is then at the begin of the last line.
put_last :
    ((Screen.put (screen_of last_cell nothing) b'x').x ≡ 0)
    × ((Screen.put (screen_of last_cell nothing) b'x').y ≡ 24)
    × ((Screen.put (screen_of last_cell nothing) b'x').at 23 79 ≡ 0x0F78)
unfolding Screen.put cell
put_last = (refl, refl, refl)

-- An `a`, a `中` and a line feed.
abbrev points : List ℕ
points = 0x61 ∷ 0x4E2D ∷ 10 ∷ []

abbrev calls : List Call
calls = wipe ∷ plain (b'x' ∷ 10 ∷ []) ∷ scalars points ∷ single 8 ∷ []

render-ShowsAs_example :
    ShowsAs (render last_cell (trace_of calls)) (shown_all (screen_of last_cell nothing) calls)
render-ShowsAs_example =
    render-ShowsAs calls (tt, (tt, (omega arith, (tt, tt)))) last_cell-Holds last_cell-OnScreen
