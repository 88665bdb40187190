-- ===== src/Heap/Tests.antt =====
-- The heap at concrete states.
use xbt_os_misaka.Heap.{Heap, heap_init}
use xbt_os_misaka.Heap.Blocks.{InHeap, PairwiseApart, kmalloc_all, kmalloc_all-apart}
use xbt_os_misaka.Prelude.{ℕ, ◌≡◌, some, false, List, [], ◌∷◌, arith}

-- A memory of zeros.
abbrev zeros : Heap
zeros = record { header = λ p. record { size = 0; is_free = false; next = 0 }; free_list = 0 }

abbrev sizes : List ℕ
sizes = 100 ∷ 0x200000 ∷ 0 ∷ 5000 ∷ []

kmalloc_all-apart_example :
    (blocks : List (ℕ × ℕ)) × (h' : Heap) × (kmalloc_all 6 (heap_init zeros) sizes
      ≡ some (blocks, h'))
    × PairwiseApart blocks
    × InHeap blocks
kmalloc_all-apart_example = kmalloc_all-apart sizes zeros (omega arith)
