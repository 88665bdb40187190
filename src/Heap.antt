-- ===== src/Heap.antt =====
-- kernel/memory/heap.cpp and kernel/memory/stdlib.cpp: the kernel's heap and the wrappers around it.
-- `header` holds the `Header` at each address; the bytes behind a header belong to the program and no
-- two headers overlap as long as the blocks do not. An address is a number, and 0 is null. A `Header`
-- has 12 bytes. The search takes fuel: `none` is that it has not ended.
pub mod Chain
pub mod Search
pub mod Allocate
pub mod Blocks
pub mod Cycle
mod Tests
use xbt_os_misaka.Prelude.{
  ℕ, zero, suc, ◌+◌, ◌-◌, ◌%◌, ◌^◌, ◌==◌, leb, if◌then◌else◌, Bool, true, false, ◌&&◌, Option, none,
  some, ◌>>=◌,
}

abbrev pub heap_start : ℕ
heap_start = 0x200000

abbrev pub heap_size : ℕ
heap_size = 0x100000

abbrev pub header_size : ℕ
header_size = 12

pub record Header : Type 0 where
  pub size : ℕ
  pub is_free : Bool
  pub next : ℕ

pub record Heap : Type 0 where
  pub header : ℕ → Header
  pub free_list : ℕ

abbrev pub set_header : Heap → ℕ → Header → Heap
set_header h p b = record h { header = λ q. if p == q then b else h.header q }

-- `if (prev) prev->next = target; else free_list = target;`
abbrev pub set_link : Heap → ℕ → ℕ → Heap
set_link h prev target =
    if prev == 0
    then record h { free_list = target }
    else set_header h prev (record (h.header prev) { next = target })

unfoldable pub heap_init : Heap → Heap
heap_init h =
    set_header (record h { free_list = heap_start }) heap_start
      (record { size = heap_size; is_free = true; next = 0 })

-- A block that is large enough is split: `total` bytes of it are handed out.
unfoldable pub split_block : Heap → ℕ → ℕ → ℕ → Heap
split_block h curr prev total =
    let new_block = (curr + total) % 2 ^ 32 in
    let h₁ = set_header h new_block (record {
      size = ((h.header curr).size + 2 ^ 32 - total) % 2 ^ 32;
      is_free = true;
      next = (h.header curr).next;
    }) in
    let h₂ = set_header h₁ curr (record { size = total; is_free = false; next = new_block }) in
    set_link h₂ prev curr

-- A block that is not is handed out whole.
unfoldable pub take_block : Heap → ℕ → ℕ → Heap
take_block h curr prev =
    let h₁ = set_header h curr (record (h.header curr) { is_free = false }) in
    set_link h₁ prev (h₁.header curr).next

unfoldable pub allocate_block : Heap → ℕ → ℕ → ℕ → Heap
unfolding split_block take_block
allocate_block h curr prev total =
    if leb ((total + header_size + 32) % 2 ^ 32) (h.header curr).size
    then split_block h curr prev total
    else take_block h curr prev

-- The loop over the list, with the fuel that is left.
unfoldable pub search_list : ℕ → Heap → ℕ → ℕ → ℕ → Option (ℕ × Heap)
search_list zero h curr prev total = none
search_list (suc fuel) h curr prev total =
    let rest = search_list fuel h (h.header curr).next curr total in
    if curr == 0
    then some (0, h)
    else if (h.header curr).is_free && leb total (h.header curr).size
    then some ((curr + header_size) % 2 ^ 32, allocate_block h curr prev total)
    else rest

unfoldable pub kmalloc : ℕ → Heap → ℕ → Option (ℕ × Heap)
kmalloc fuel h size =
    if size == 0
    then some (0, h)
    else search_list fuel h h.free_list 0 ((size + header_size) % 2 ^ 32)

unfoldable pub kfree : Heap → ℕ → Heap
kfree h ptr =
    let p = (ptr + 2 ^ 32 - header_size) % 2 ^ 32 in
    if ptr == 0
    then h
    else record (set_header h p (record (h.header p) { is_free = true; next = h.free_list })) {
      free_list = p;
    }

unfoldable pub malloc : ℕ → Heap → ℕ → Option (ℕ × Heap)
malloc fuel h size = kmalloc fuel h (size % 2 ^ 32)

unfoldable pub free : Heap → ℕ → Heap
free h ptr = if ptr == 0 then h else kfree h ptr
