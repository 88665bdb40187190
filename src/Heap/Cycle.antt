-- ===== src/Heap/Cycle.antt =====
-- Lists that lead back to themselves, and sizes that wrap around.
use xbt_os_misaka.Heap.{
  Heap, allocate_block, header_size, heap_init, heap_size, heap_start, kmalloc, search_list,
  split_block,
}
use xbt_os_misaka.Prelude.{
  ℕ, ◌+◌, ◌-◌, ◌%◌, ◌^◌, ◌≤◌, ◌<◌, ◌≡◌, refl, ◌==◌, leb, true, false, some, arith,
}

-- A size whose block, with its header, does not have a size of 32 bits wraps around: `kmalloc` returns
-- a block of fewer than 12 bytes for it, header and all.
pub kmalloc-wraps :
    (h : Heap) (size : ℕ)
    → 2 ^ 32 ≤ size + header_size
    → size < 2 ^ 32
    → (h' : Heap) × (kmalloc 1 (heap_init h) size ≡ some (heap_start + header_size, h'))
      × ((h'.header heap_start).size < header_size)
unfolding kmalloc search_list allocate_block heap_init
kmalloc-wraps h size big small =
    let total = size + header_size - 2 ^ 32 in
    let ne : (size == 0) ≡ false = ground (arith, big) in
    let wrapped : (size + header_size) % 2 ^ 32 ≡ total = omega (arith, big, small) in
    let fit : leb total heap_size ≡ true = ground (arith, big, small) in
    let splits : leb ((total + header_size + 32) % 2 ^ 32) heap_size ≡ true =
      ground (arith, big, small) in
    (
      split_block (heap_init h) heap_start 0 total,
      rw (ne, wrapped, fit, splits) refl,
      omega (arith, big, small),
    )
