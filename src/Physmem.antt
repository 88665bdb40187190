-- ===== src/Physmem.antt =====
-- kernel/memory/physmem.cpp: the bitmap of physical pages.
-- `words` is the memory from `memory_bitmap` (0x100000) on, as 32-bit words: the functions may touch
-- words behind the `bitmap_size` words of the bitmap, and fault behind the memory. An address is a
-- number, and 0 is `nullptr`.
pub mod Scan
pub mod Bitmap
pub mod Alloc
pub mod Free
pub mod Boot
pub mod Session
mod Tests
use xbt_os_misaka.Prelude.{
  ℕ, zero, suc, ◌+◌, ◌*◌, ◌/◌, ◌%◌, ◌^◌, bit_and, bit_or, Option, none, some, List, [], ◌∷◌, ◌==◌,
  if◌then◌else◌, Run, ◌>>=◌, store, get_or, mask, complement,
}

abbrev pub page_size : ℕ
page_size = 4096

abbrev pub bitmap_address : ℕ
bitmap_address = 0x100000

pub record Physmem : Type 0 where
  pub words : List ℕ
  pub bitmap_size : ℕ

-- Puts a word before the words behind it.
abbrev pub keep_word : {A : Type 0} → ℕ → Run (A × List ℕ) → Run (A × List ℕ)
keep_word w none = none
keep_word w (some (a, words)) = some (a, w ∷ words)

-- `for (i = 0; i < bitmap_size; i++) memory_bitmap[i] = 0;`
unfoldable pub clear_words : List ℕ → ℕ → Run (List ℕ)
clear_words words zero = some words
clear_words [] (suc rounds) = none
clear_words (_ ∷ words) (suc rounds) = do rest ← clear_words words rounds; some (0 ∷ rest)

-- The loop that marks the first megabyte, from page `i` on.
unfoldable pub mark_pages : ℕ → ℕ → List ℕ → Run (List ℕ)
mark_pages zero i words = some words
mark_pages (suc rounds) i words = do
  marked ← store words (i / 32) (bit_or (get_or words (i / 32) 0) (mask (i % 32)))
  mark_pages rounds (i + 1) marked

unfoldable pub pm_init : ℕ → List ℕ → Run Physmem
pm_init mem_size words = do
  let num_pages = mem_size / page_size
  let bitmap_size = (num_pages + 31) % 2 ^ 32 / 32
  cleared ← clear_words words bitmap_size
  marked ← mark_pages 256 0 cleared
  some (record { words = marked; bitmap_size = bitmap_size })

-- The inner loop, from bit `j` on: the first clear bit.
unfoldable pub find_bit : ℕ → ℕ → ℕ → Option ℕ
find_bit w zero j = none
find_bit w (suc rounds) j =
    let rest = find_bit w rounds (j + 1) in if bit_and w (mask j) == 0 then some j else rest

-- The outer loop at `memory_bitmap + i`.
unfoldable pub alloc_loop : List ℕ → ℕ → ℕ → Run (ℕ × List ℕ)
alloc_loop words zero i = some (0, words)
alloc_loop [] (suc rounds) i = none
alloc_loop (w ∷ words) (suc rounds) i =
    let next = keep_word w (alloc_loop words rounds (i + 1)) in
    if w == 0xFFFF_FFFF then next else elim (find_bit w 32 0) [
      | none ↦ next
      | some j ↦ some ((i * 32 + j) * page_size % 2 ^ 32, bit_or w (mask j) ∷ words)
    ]

unfoldable pub pm_alloc_page : Physmem → Run (ℕ × Physmem)
pm_alloc_page pm = do
  (address, words) ← alloc_loop pm.words pm.bitmap_size 0
  some (address, record pm { words = words })

unfoldable pub pm_free_page : Physmem → ℕ → Run Physmem
pm_free_page pm address = do
  let frame = address / page_size
  let index = frame / 32
  let offset = frame % 32
  words ← store pm.words index (bit_and (get_or pm.words index 0) (complement 32 (mask offset)))
  some (record pm { words = words })
