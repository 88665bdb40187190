-- ===== src/Vga/Device.antt =====
-- The device as a whole: `vga_clear` and `vga_write_utf8` against the screen.
use xbt_os_misaka.KString.{IsText}
use xbt_os_misaka.KString.Compare.{text-eq_self}
use xbt_os_misaka.Prelude.{
  ℕ, ◌+◌, ◌*◌, ◌<◌, ◌≡◌, ◌≢◌, ◌∙◌, refl, ap, some, arith, All, List, [], ◌∷◌, length,
}
use xbt_os_misaka.Vga.{Ports, Vga, cell, vga_clear, vga_width, vga_height, vga_write_utf8}
use xbt_os_misaka.Vga.Refine.{Holds, OnScreen, Shows, screen_of, update_cursor-eq}
use xbt_os_misaka.Vga.Screen
use xbt_os_misaka.Vga.Scroll.{fill_lem}
use xbt_os_misaka.Vga.Utf8.{IsScalar, encode, glyphs, utf8_loop-encode, write_chars_lem}

-- Whatever the memory held, `vga_clear` leaves blank cells and the cursor at the first of them.
pub vga_clear-Shows :
    (v : Vga) (at : ℕ → ℕ → ℕ)
    → length v.cells ≡ vga_width * vga_height
    → Shows (vga_clear v) (Screen.cleared (screen_of v at))
      × OnScreen (Screen.cleared (screen_of v at))
unfolding vga_clear
vga_clear-Shows v at size =
    let (cells, filled, n, cells_at) =
      fill_lem 2000 0 (cell v.color b' ') v.cells 0 (omega (arith, size)) in
    let v' : Vga = record v { cells = cells; cursor_x = 0; cursor_y = 0 } in
    let on : OnScreen (screen_of v' (λ r q. cell v.color b' ')) = record {
      column = omega arith;
      line = omega arith;
    } in
    (
      (
        v',
        (λ r q. cell v.color b' '),
        rw (filled, update_cursor-eq v' (λ r q. cell v.color b' ') on) refl,
        record {
          size = n ∙ size;
          grid = λ r q r_lt q_lt. ground (arith, cells_at (r * vga_width + q));
        },
        refl,
      ),
      record { column = omega arith; line = omega arith },
    )

glyphs-IsText : (cs : List ℕ) → All IsScalar cs → IsText (glyphs cs)
glyphs-IsText [] all = tt
glyphs-IsText (c ∷ cs) all = (ground (arith, all.0.0), glyphs-IsText cs (all.1))

-- On a valid console, writing well-formed UTF-8 does not fault, and puts one character on the screen
-- for each code point: the code point if it is ASCII, and a question mark otherwise.
pub vga_write_utf8_lem :
    (cs : List ℕ) {v : Vga} {at : ℕ → ℕ → ℕ}
    → All IsScalar cs
    → Holds v at
    → OnScreen (screen_of v at)
    → (v' : Vga) × (at' : ℕ → ℕ → ℕ) × (out : Ports) × (vga_write_utf8 v (some (encode cs))
        ≡ some (v', out))
      × Holds v' at'
      × (screen_of v' at' ≡ Screen.put_all (screen_of v at) (glyphs cs))
      × OnScreen (screen_of v' at')
unfolding vga_write_utf8
vga_write_utf8_lem cs {v} {at} all h on =
    let (v', at', out, run, h', same, on') = write_chars_lem (glyphs cs) h on in
    (
      v',
      at',
      out,
      utf8_loop-encode cs v all ∙ run,
      h',
      same ∙ ap (Screen.put_all (screen_of v at)) (text-eq_self (glyphs cs) (glyphs-IsText cs all)),
      on',
    )

abbrev pub IsAscii : ℕ → Type 0
IsAscii c = (c ≢ 0) × (c < 0x80)
