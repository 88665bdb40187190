-- ===== src/Vga.antt =====
-- kernel/hal/console.cpp: the text console on the VGA memory, which is behind `ConsoleDevice`.
-- `cells` is the memory from `VGA_BUFFER` on. What a function writes to the ports is a list of pairs
-- of a port and a byte. A `char` is a byte.
pub mod Scroll
pub mod Screen
pub mod Refine
pub mod Utf8
pub mod Device
pub mod Render
mod Tests
use xbt_os_misaka.Console.{ConsoleOp, Trace, bytes, clear, put_char, write, write_utf8}
use xbt_os_misaka.KString.{Bytes}
use xbt_os_misaka.Prelude.{
  ℕ, zero, suc, ◌+◌, ◌-◌, ◌*◌, ◌/◌, ◌%◌, ◌^◌, ◌==◌, ltb, leb, if◌then◌else◌, bit_and, bit_or, List,
  [], ◌∷◌, ◌++◌, Option, none, some, Run, ◌>>=◌, load, store,
}

abbrev pub vga_width : ℕ
vga_width = 80

abbrev pub vga_height : ℕ
vga_height = 25

pub record Vga : Type 0 where
  pub cells : List ℕ
  pub cursor_x : ℕ
  pub cursor_y : ℕ
  pub color : ℕ

abbrev pub Ports : Type 0
Ports = List (ℕ × ℕ)

-- `((uint16_t)color << 8) | c`
unfoldable pub cell : ℕ → ℕ → ℕ
cell color c = bit_or (color * 2 ^ 8 % 2 ^ 16) (c % 2 ^ 8)

unfoldable pub update_cursor : Vga → Ports
update_cursor v =
    let pos = (v.cursor_y * vga_width + v.cursor_x) % 2 ^ 16 in
    (0x3D4, 0x0F)
    ∷ (0x3D5, bit_and pos 0xFF)
    ∷ (0x3D4, 0x0E)
    ∷ (0x3D5, bit_and (pos / 2 ^ 8) 0xFF)
    ∷ []

-- `for (; i < end; ++i) VGA_BUFFER[i] = VGA_BUFFER[i + VGA_WIDTH];` with the rounds that are left.
unfoldable pub move_up : ℕ → ℕ → List ℕ → Run (List ℕ)
move_up zero i cells = some cells
move_up (suc rounds) i cells = do
  below ← load cells (i + vga_width)
  moved ← store cells i below
  move_up rounds (i + 1) moved

-- `for (; i < end; ++i) VGA_BUFFER[i] = c;`
unfoldable pub fill : ℕ → ℕ → ℕ → List ℕ → Run (List ℕ)
fill zero i c cells = some cells
fill (suc rounds) i c cells = do filled ← store cells i c; fill rounds (i + 1) c filled

unfoldable pub scroll_if_needed : Vga → Run Vga
scroll_if_needed v = if ltb v.cursor_y vga_height then some v else (do
  moved ← move_up ((vga_height - 1) * vga_width) 0 v.cells
  cells ← fill vga_width ((vga_height - 1) * vga_width) (cell v.color b' ') moved
  some (record v { cells = cells; cursor_y = vga_height - 1 }))

unfoldable pub vga_clear : Vga → Run (Vga × Ports)
vga_clear v = do
  cells ← fill (vga_width * vga_height) 0 (cell v.color b' ') v.cells
  let v' = record v { cells = cells; cursor_x = 0; cursor_y = 0 }
  some (v', update_cursor v')

-- The first part of `vga_put_char`: the character itself.
unfoldable pub place_char : Vga → ℕ → Run Vga
place_char v c =
    if c == 10
    then some (record v { cursor_x = 0; cursor_y = v.cursor_y + 1 })
    else if c == 8
    then (if v.cursor_x == 0 then some v else (do
      cells ← store v.cells (v.cursor_y * vga_width + (v.cursor_x - 1)) (cell v.color b' ')
      some (record v { cells = cells; cursor_x = v.cursor_x - 1 })))
    else (do
      cells ← store v.cells (v.cursor_y * vga_width + v.cursor_x) (cell v.color c)
      some (record v { cells = cells; cursor_x = v.cursor_x + 1 }))

-- The end of a line.
abbrev pub wrap_line : Vga → Vga
wrap_line v =
    if leb vga_width v.cursor_x then record v { cursor_x = 0; cursor_y = v.cursor_y + 1 } else v

unfoldable pub vga_put_char : Vga → ℕ → Run (Vga × Ports)
unfolding place_char scroll_if_needed
vga_put_char v c = do
  placed ← place_char v c
  scrolled ← scroll_if_needed (wrap_line placed)
  some (scrolled, update_cursor scrolled)

-- The loop of `vga_write`.
unfoldable pub write_chars : Vga → Bytes → Run (Vga × Ports)
write_chars v [] = some (v, [])
write_chars v (c ∷ text) =
    if c == 0
    then some (v, [])
    else (do (v₁, out) ← vga_put_char v c; (v₂, rest) ← write_chars v₁ text; some (v₂, out ++ rest))

abbrev pub null_text : Bytes
null_text = bytes "(null)"

-- The text is `none` for a null pointer.
unfoldable pub vga_write : Vga → Option Bytes → Run (Vga × Ports)
unfolding write_chars
vga_write v none = write_chars v null_text
vga_write v (some text) = write_chars v text

-- The bytes that are passed over behind a byte that is not ASCII.
unfoldable pub skipped : ℕ → ℕ
skipped byte =
    if bit_and byte 0xE0 == 0xC0
    then 1
    else if bit_and byte 0xF0 == 0xE0
    then 2
    else if bit_and byte 0xF8 == 0xF0
    then 3
    else 0

-- The loop of `vga_write_utf8`, with the bytes that are still to be passed over. To pass over the NUL
-- that ends the text is a fault: what is read then is not the text's.
unfoldable pub utf8_loop : Vga → ℕ → Bytes → Run (Vga × Ports)
utf8_loop v zero [] = some (v, [])
utf8_loop v (suc skip) [] = none
utf8_loop v (suc skip) (_ ∷ text) = utf8_loop v skip text
utf8_loop v zero (byte ∷ text) = if byte == 0 then some (v, []) else (do
  (v₁, out) ← vga_put_char v (if ltb byte 0x80 then byte else b'?')
  (v₂, rest) ← utf8_loop v₁ (if ltb byte 0x80 then 0 else skipped byte) text
  some (v₂, out ++ rest))

unfoldable pub vga_write_utf8 : Vga → Option Bytes → Run (Vga × Ports)
unfolding utf8_loop vga_write
vga_write_utf8 v none = vga_write v (some null_text)
vga_write_utf8 v (some text) = utf8_loop v 0 text

-- The device, one call of it.
unfoldable pub vga_console : Vga → ConsoleOp → Run (Vga × Ports)
vga_console v clear = vga_clear v
vga_console v (put_char c) = vga_put_char v c
vga_console v (write text) = vga_write v (some text)
vga_console v (write_utf8 text) = vga_write_utf8 v (some text)

abbrev pub console_init : Vga → Run (Vga × Ports)
console_init v = vga_clear v

-- The calls of a trace, one after another.
unfoldable pub render : Vga → Trace → Run (Vga × Ports)
unfolding vga_console
render v [] = some (v, [])
render v (op ∷ ops) = do
  (v₁, out) ← vga_console v op
  (v₂, rest) ← render v₁ ops
  some (v₂, out ++ rest)
