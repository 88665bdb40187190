-- ===== src/Vga/Refine.antt =====
-- kernel/hal/console.cpp: the functions of the console against those of the screen.
use mathlib.Core.Path.{subst}
use xbt_os_misaka.Prelude.{
  sym, ◌^◌, ℕ, ◌+◌, ◌-◌, ◌*◌, ◌/◌, ◌%◌, ◌≤◌, ◌<◌, ◌≡◌, ◌∙◌, refl, ap, inl, inr, some, Run, ◌==◌,
  ◌&&◌, ltb, leb, if◌then◌else◌, arith, bit_and, bit_and_ones, Bool-cases, get_or, get_or-set,
  length, length-set, set, store-eq_some,
}
use xbt_os_misaka.Vga.{
  Ports, Vga, cell, place_char, scroll_if_needed, update_cursor, vga_height, vga_put_char,
  vga_width, wrap_line,
}
use xbt_os_misaka.Vga.Screen
use xbt_os_misaka.Vga.Screen.{Screen, cursor_at}
use xbt_os_misaka.Vga.Scroll.{fill_lem, move_up_lem}

-- The screen that the state shows, with the cells `at`.
abbrev pub screen_of : Vga → (ℕ → ℕ → ℕ) → Screen
screen_of v at = record { at = at; x = v.cursor_x; y = v.cursor_y; color = v.color }

pub record Holds (v : Vga) (at : ℕ → ℕ → ℕ) : Type 0 where
  pub size : length v.cells ≡ vga_width * vga_height
  pub grid :
      (r q : ℕ) → r < vga_height → q < vga_width → get_or v.cells (r * vga_width + q) 0 ≡ at r q

-- The cursor is on the screen.
pub record OnScreen (s : Screen) : Type 0 where
  pub column : s.x < vga_width
  pub line : s.y < vga_height

abbrev Refines : Run Vga → Screen → Type 0
Refines run s = (v : Vga) × (at : ℕ → ℕ → ℕ) × (run ≡ some v) × Holds v at × (screen_of v at ≡ s)

same_cell :
    (r q y x : ℕ)
    → q < vga_width
    → x < vga_width
    → (y * vga_width + x == r * vga_width + q) ≡ (r == y && q == x)
same_cell r q y x q_lt x_lt = ground arith

-- A cell on the screen is written.
set-Holds :
    {v : Vga} {at : ℕ → ℕ → ℕ} (y x c x' : ℕ)
    → Holds v at
    → y < vga_height
    → x < vga_width
    → Holds
        (record v { cells = set v.cells (y * vga_width + x) c; cursor_x = x' })
        (Screen.set_at at y x c)
set-Holds {v} {at} y x c x' h y_lt x_lt = record {
  size = length-set v.cells (y * vga_width + x) c ∙ h.size;
  grid = λ r q r_lt q_lt.
      let lt : y * vga_width + x < length v.cells = omega (arith, h.size) in
      ground (
        arith,
        get_or-set v.cells (y * vga_width + x) (r * vga_width + q) c 0 lt,
        same_cell r q y x q_lt x_lt,
        h.grid r q r_lt q_lt,
      );
}

moved-Holds :
    {v : Vga} {at : ℕ → ℕ → ℕ} (x y : ℕ)
    → Holds v at
    → Holds (record v { cursor_x = x; cursor_y = y }) at
moved-Holds x y h = record { size = h.size; grid = h.grid }

place_char-Refines :
    {v : Vga} {at : ℕ → ℕ → ℕ} (c : ℕ)
    → Holds v at
    → OnScreen (screen_of v at)
    → Refines (place_char v c) (Screen.place (screen_of v at) c)
unfolding place_char
place_char-Refines {v} {at} c h on = elim (Bool-cases (c == 10)) [
  | inl line ↦ (
    record v { cursor_x = 0; cursor_y = v.cursor_y + 1 },
    at,
    rw line refl,
    moved-Holds _ _ h,
    rw line refl,
  )
  | inr no_line ↦ elim (Bool-cases (c == 8)) [
    | inl back ↦ elim (Bool-cases (v.cursor_x == 0)) [
      | inl first ↦ (v, at, rw (no_line, back, first) refl, h, rw (no_line, back, first) refl)
      | inr more ↦
          let lt : v.cursor_y * vga_width + (v.cursor_x - 1) < length v.cells =
            omega (arith, h.size, on.line, on.column) in
          (
            _,
            _,
            rw (no_line, back, more, store-eq_some v.cells _ (cell v.color b' ') lt) refl,
            set-Holds v.cursor_y (v.cursor_x - 1) (cell v.color b' ') (v.cursor_x - 1) h on.line
                (omega (arith, on.column)),
            rw (no_line, back, more) refl,
          )
    ]
    | inr no_back ↦
        let lt : v.cursor_y * vga_width + v.cursor_x < length v.cells =
          omega (arith, h.size, on.line, on.column) in
        (
          _,
          _,
          rw (no_line, no_back, store-eq_some v.cells _ (cell v.color c) lt) refl,
          set-Holds v.cursor_y v.cursor_x (cell v.color c) (v.cursor_x + 1) h on.line on.column,
          rw (no_line, no_back) refl,
        )
  ]
]

scroll-Refines :
    {v : Vga} {at : ℕ → ℕ → ℕ}
    → Holds v at
    → Refines (scroll_if_needed v) (Screen.scroll (screen_of v at))
unfolding scroll_if_needed
scroll-Refines {v} {at} h = elim (Bool-cases (ltb v.cursor_y vga_height)) [
  | inl fits ↦ (v, at, rw fits refl, h, rw fits refl)
  | inr below ↦
      let (moved, up, n, moved_at) = move_up_lem 1920 0 v.cells 0 (omega (arith, h.size)) in
      let (cells, filled, n', cells_at) =
        fill_lem 80 1920 (cell v.color b' ') moved 0 (omega (arith, n, h.size)) in
      (
        record v { cells = cells; cursor_y = 24 },
        (λ r q. if ltb r 24 then at (r + 1) q else cell v.color b' '),
        rw (below, up, filled) refl,
        record {
          size = n' ∙ n ∙ h.size;
          grid = λ r q r_lt q_lt.
              let next : r * vga_width + q + vga_width ≡ (r + 1) * vga_width + q = omega arith in
              let there = ap (λ j. get_or v.cells j 0) next in
              ground (
                arith,
                cells_at (r * vga_width + q),
                moved_at (r * vga_width + q),
                there,
                h.grid (r + 1) q,
              );
        },
        rw below refl,
      )
]

pub update_cursor-eq :
    (v : Vga) (at : ℕ → ℕ → ℕ)
    → OnScreen (screen_of v at)
    → update_cursor v ≡ cursor_at (screen_of v at)
unfolding update_cursor
update_cursor-eq v at on =
    let pos = v.cursor_y * vga_width + v.cursor_x in
    let small : pos < 2000 = omega (arith, on.line, on.column) in
    let whole : pos % 2 ^ 16 ≡ pos = omega (arith, small) in
    let low : bit_and pos 0xFF ≡ pos % 256 = bit_and_ones 8 pos in
    let high : bit_and (pos / 2 ^ 8) 0xFF ≡ pos / 256 =
      omega (arith, small, bit_and_ones 8 (pos / 2 ^ 8)) in
    rw (whole, low, high) refl

-- A call of the device shows a screen: the memory holds it, its cursor is on it, and the cursor
-- registers are set to the cursor's place.
abbrev pub Shows : Run (Vga × Ports) → Screen → Type 0
Shows run s =
    (v : Vga) × (at : ℕ → ℕ → ℕ) × (run ≡ some (v, cursor_at s)) × Holds v at × (screen_of v at ≡ s)

-- Between the steps the cursor may be behind the last column or below the last line, not both.
abbrev IsNear : Screen → Type 0
IsNear s = (s.x ≤ vga_width) × (s.y ≤ vga_height) × (s.x ≡ vga_width → s.y < vga_height)

place-IsNear : (s : Screen) (c : ℕ) → OnScreen s → IsNear (Screen.place s c)
place-IsNear s c on = elim (Bool-cases (c == 10)) [
  | inl line ↦ rw line (omega arith, omega (arith, on.line), λ e. absurd (omega (arith, e)))
  | inr no_line ↦ elim (Bool-cases (c == 8)) [
    | inl back ↦ elim (Bool-cases (s.x == 0)) [
      | inl first ↦
          rw (no_line, back, first) (omega (arith, on.column), omega (arith, on.line), λ _. on.line)
      | inr more ↦
          rw (no_line, back, more) (omega (arith, on.column), omega (arith, on.line), λ _. on.line)
    ]
    | inr no_back ↦
        rw (no_line, no_back) (omega (arith, on.column), omega (arith, on.line), λ _. on.line)
  ]
]

scroll-OnScreen : (s : Screen) → IsNear s → OnScreen (Screen.scroll (Screen.wrap s))
scroll-OnScreen s near = elim (Bool-cases (leb vga_width s.x)) [
  | inl full ↦ elim (Bool-cases (ltb (s.y + 1) vga_height)) [
    | inl fits ↦ rw (full, fits) (record { column = omega arith; line = ground (arith, fits) })
    | inr below ↦ rw (full, below) (record { column = omega arith; line = omega arith })
  ]
  | inr room ↦
      let lt : s.x < vga_width = ground (arith, room) in
      elim (Bool-cases (ltb s.y vga_height)) [
        | inl fits ↦ rw (room, fits) (record { column = lt; line = ground (arith, fits) })
        | inr below ↦ rw (room, below) (record { column = lt; line = omega arith })
      ]
]

OnScreen-put : (s : Screen) (c : ℕ) → OnScreen s → OnScreen (Screen.put s c)
unfolding Screen.put
OnScreen-put s c on = scroll-OnScreen (Screen.place s c) (place-IsNear s c on)

wrap_line-Refines :
    {v : Vga} {at : ℕ → ℕ → ℕ}
    → Holds v at
    → Holds (wrap_line v) at × (screen_of (wrap_line v) at ≡ Screen.wrap (screen_of v at))
wrap_line-Refines {v} {at} h = elim (Bool-cases (leb vga_width v.cursor_x)) [
  | inl full ↦ rw full (moved-Holds 0 (v.cursor_y + 1) h, refl)
  | inr room ↦ rw room (h, refl)
]

-- A character on a valid console: the memory, the cursor and the cursor registers are those of the
-- screen on which the character was put, and no cell outside the VGA memory is touched.
pub vga_put_char-Shows :
    {v : Vga} {at : ℕ → ℕ → ℕ} (c : ℕ)
    → Holds v at
    → OnScreen (screen_of v at)
    → Shows (vga_put_char v c) (Screen.put (screen_of v at) c)
      × OnScreen (Screen.put (screen_of v at) c)
unfolding vga_put_char Screen.put
vga_put_char-Shows {v} {at} c h on =
    let (v₁, at₁, placed, h₁, e₁) = place_char-Refines c h on in
    let (h₂, e₂) = wrap_line-Refines {v = v₁} {at = at₁} h₁ in
    let (v₃, at₃, scrolled, h₃, e₃) = scroll-Refines {v = wrap_line v₁} {at = at₁} h₂ in
    let same : screen_of v₃ at₃ ≡ Screen.scroll (Screen.wrap (Screen.place (screen_of v at) c)) =
      e₃ ∙ ap Screen.scroll (e₂ ∙ ap Screen.wrap e₁) in
    let on' = OnScreen-put (screen_of v at) c on in
    let on₃ : OnScreen (screen_of v₃ at₃) = subst OnScreen (sym same) on' in
    (
      (
        v₃,
        at₃,
        rw (placed, scrolled, update_cursor-eq v₃ at₃ on₃) (ap (λ s. some (v₃, cursor_at s)) same),
        h₃,
        same,
      ),
      on',
    )
