-- ===== src/Physmem/Tests.antt =====
-- The page allocator on a memory of 512 pages, and its theorems at it.
use xbt_os_misaka.Prelude.{
  ℕ, ◌*◌, ◌/◌, ◌<◌, ◌≤◌, bit, store, ◌≡◌, refl, List, [], ◌∷◌, ◌==◌, ltb, some, if◌then◌else◌,
  arith,
}
use xbt_os_misaka.Physmem.{
  Physmem, pm_init, pm_alloc_page, pm_free_page, page_size, bitmap_address, find_bit, alloc_loop,
}
use xbt_os_misaka.Physmem.Alloc.{Allocated, pm_alloc_page-Allocated}
use xbt_os_misaka.Physmem.Bitmap.{used, IsValid}
use xbt_os_misaka.Physmem.Boot.{frames, pm_init-marks, pm_alloc_page-pm_init}
use xbt_os_misaka.Physmem.Free.{pm_free_page-clears}
use xbt_os_misaka.Physmem.Session.{Op, alloc, free, run, Owns, holders, run-Owns}

-- A memory of 16 words from the bitmap on, and of 512 pages.
abbrev dirty : List ℕ
dirty = 7 ∷ 0 ∷ 1 ∷ 2 ∷ 3 ∷ 4 ∷ 5 ∷ 6 ∷ 7 ∷ 8 ∷ 9 ∷ 10 ∷ 11 ∷ 12 ∷ 13 ∷ 0xFFFF_FFFF ∷ []

abbrev memory : ℕ
memory = 512 * page_size

abbrev ones : ℕ
ones = 0xFFFF_FFFF

-- Two words are full, and the third lacks bit 3.
abbrev partial : Physmem
partial = record { words = ones ∷ ones ∷ 7 ∷ 1 ∷ []; bitmap_size = 3 }

partial-IsValid : IsValid partial
partial-IsValid = omega arith

alloc_partial :
    pm_alloc_page partial ≡ some (0x43000, record partial { words = ones ∷ ones ∷ 15 ∷ 1 ∷ [] })
unfolding pm_alloc_page alloc_loop find_bit
alloc_partial = refl

alloc_next :
    pm_alloc_page (record partial { words = ones ∷ ones ∷ 15 ∷ 1 ∷ [] })
    ≡ some (0x44000, record partial { words = ones ∷ ones ∷ 31 ∷ 1 ∷ [] })
unfolding pm_alloc_page alloc_loop find_bit
alloc_next = refl

pm_init-marks_example :
    (pm : Physmem) × (pm_init memory dirty ≡ some pm)
    × IsValid pm
    × (32 * pm.bitmap_size ≡ frames memory)
    × ((g : ℕ) → g < frames memory → used pm g ≡ (if ltb g 256 then 1 else 0))
pm_init-marks_example =
    pm_init-marks memory dirty (omega arith) (omega arith) (omega arith) (omega arith)

pm_alloc_page-pm_init_example :
    (pm pm' : Physmem) × (pm_init memory dirty ≡ some pm)
    × (pm_alloc_page pm ≡ some (bitmap_address, pm'))
pm_alloc_page-pm_init_example =
    pm_alloc_page-pm_init memory dirty (omega arith) (omega arith) (omega arith) (omega arith)
      (omega arith)

pm_alloc_page-Allocated_example :
    (address : ℕ) × (pm' : Physmem) × (pm_alloc_page partial ≡ some (address, pm'))
    × Allocated partial address pm'
pm_alloc_page-Allocated_example = pm_alloc_page-Allocated partial-IsValid

pm_free_page-clears_example :
    (pm' : Physmem) × (pm_free_page partial 0x21000 ≡ some pm')
    × IsValid pm'
    × ((g : ℕ) → used pm' g ≡ (if 0x21000 / page_size == g then 0 else used partial g))
pm_free_page-clears_example = pm_free_page-clears 0x21000 partial-IsValid (omega arith)

-- Three pages, the second of them given back, and another.
abbrev calls : List Op
calls = alloc ∷ alloc ∷ alloc ∷ free 1 ∷ free 7 ∷ alloc ∷ []

run-Owns_example :
    (held : List ℕ) × (pm' : Physmem) × (run partial [] calls ≡ some (held, pm'))
    × Owns partial pm' held
    × ((g : ℕ) → holders held g ≤ 1)
unfolding bit
run-Owns_example = run-Owns calls partial-IsValid refl

-- The page that was given back is handed out again.
run_calls :
    run partial [] calls
    ≡ some
        (0x44000 ∷ 0x45000 ∷ 0x43000 ∷ [], record partial { words = ones ∷ ones ∷ 0x3F ∷ 1 ∷ [] })
unfolding run pm_alloc_page pm_free_page alloc_loop find_bit store
run_calls = refl
