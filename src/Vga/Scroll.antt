-- ===== src/Vga/Scroll.antt =====
-- kernel/hal/console.cpp: the loops over the VGA memory.
use xbt_os_misaka.Prelude.{
  ℕ, zero, suc, ◌+◌, ◌≤◌, ◌<◌, ◌≡◌, ◌&&◌, ◌∙◌, refl, List, some, arith, get_or, get_or-set,
  if◌then◌else◌, length, length-set, load-eq_some, ltb, leb, set, store-eq_some,
}
use xbt_os_misaka.Vga.{fill, move_up, vga_width}

pub fill_lem :
    (rounds i c : ℕ) (cells : List ℕ) (d : ℕ)
    → i + rounds ≤ length cells
    → (out : List ℕ) × (fill rounds i c cells ≡ some out)
      × (length out ≡ length cells)
      × ((j : ℕ) → get_or out j d ≡ (if leb i j && ltb j (i + rounds) then c else get_or cells j d))
unfolding fill
fill_lem zero i c cells d fits = (cells, refl, refl, λ j. ground arith)
fill_lem (suc rounds) i c cells d fits =
    let size = length-set cells i c in
    let (out, run, n, at) = fill_lem rounds (i + 1) c (set cells i c) d (omega (arith, size)) in
    let lt : i < length cells = omega arith in
    (
      out,
      rw (store-eq_some cells i c (omega arith)) run,
      n ∙ size,
      λ j. ground (arith, at j, get_or-set cells i j c d lt),
    )

pub move_up_lem :
    (rounds i : ℕ) (cells : List ℕ) (d : ℕ)
    → i + rounds + vga_width ≤ length cells
    → (out : List ℕ) × (move_up rounds i cells ≡ some out)
      × (length out ≡ length cells)
      × ((j : ℕ)
          → get_or out j d ≡ (
              if leb i j && ltb j (i + rounds)
              then get_or cells (j + vga_width) d
              else get_or cells j d))
unfolding move_up
move_up_lem zero i cells d fits = (cells, refl, refl, λ j. ground arith)
move_up_lem (suc rounds) i cells d fits =
    let c = get_or cells (i + vga_width) d in
    let size = length-set cells i c in
    let (out, run, n, at) = move_up_lem rounds (i + 1) (set cells i c) d (omega (arith, size)) in
    let lt : i < length cells = omega arith in
    (
      out,
      rw (load-eq_some cells (i + vga_width) d (omega arith), store-eq_some cells i c (omega arith))
          run,
      n ∙ size,
      λ j.
          ground
            (arith, at j, get_or-set cells i j c d lt, get_or-set cells i (j + vga_width) c d lt),
    )
