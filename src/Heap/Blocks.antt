-- ===== src/Heap/Blocks.antt =====
-- `kmalloc` on a heap whose list is a chain, and any sequence of calls of it.
use xbt_os_misaka.Heap.{Heap, header_size, heap_init, heap_start, kmalloc}
use xbt_os_misaka.Heap.Chain.{Apart, Apart-part, Avoids, Chain, heap_end}
use xbt_os_misaka.Heap.Search.{Outcome, search_list_lem}
use xbt_os_misaka.Prelude.{
  ℕ, ◌+◌, ◌%◌, ◌^◌, ◌≤◌, ◌<◌, ◌≡◌, ◌≢◌, inl, inr, refl, ◌==◌, if◌then◌else◌, All, List, [], ◌∷◌,
  arith, some, length, Option, ◌>>=◌, false, true, Bool-cases,
}

-- A size that has 32 bits together with the header, so that `kmalloc` does not wrap around.
abbrev pub IsSize : ℕ → Type 0
IsSize size = size + header_size < 2 ^ 32

-- `kmalloc` of a size that is not 0 ends on a heap whose list is a chain. It returns null and changes nothing, and then no free
-- block is large enough; or it hands out a block of the heap, which was apart from every range that
-- the free blocks kept out of, and the list is a chain again.
pub kmalloc_lem :
    (qs : List ℕ) (fuel : ℕ) (h : Heap) (size : ℕ)
    → Chain h.header heap_start h.free_list qs
    → size ≢ 0
    → IsSize size
    → length qs < fuel
    → Outcome h heap_start 0 (size + header_size) qs (kmalloc fuel h size)
unfolding kmalloc
kmalloc_lem qs fuel h size chain some_bytes valid enough =
    let whole : (size + header_size) % 2 ^ 32 ≡ size + header_size = omega (arith, valid) in
    let ne : (size == 0) ≡ false = ground (arith, some_bytes) in
    rw (ne, whole)
      (search_list_lem qs fuel h heap_start h.free_list 0 (size + header_size) enough (omega arith)
        (omega arith) (omega arith) refl chain)

-- The calls of `kmalloc` for some sizes, one after another: the addresses that are not null, with
-- their sizes.
unfoldable pub kmalloc_all : ℕ → Heap → List ℕ → Option (List (ℕ × ℕ) × Heap)
kmalloc_all fuel h [] = some ([], h)
kmalloc_all fuel h (size ∷ sizes) = do
  (a, h₁) ← kmalloc fuel h size
  (blocks, h₂) ← kmalloc_all fuel h₁ sizes
  some ((if a == 0 then blocks else (a, size) ∷ blocks), h₂)

-- The memory that was handed out keeps out of a range.
abbrev pub AllApart : List (ℕ × ℕ) → ℕ → ℕ → Type 0
AllApart blocks x n = All (λ b. Apart (b.0) (b.1) x n) blocks

abbrev pub PairwiseApart : List (ℕ × ℕ) → Type 0
PairwiseApart [] = Unit
PairwiseApart ((a, size) ∷ blocks) = AllApart blocks a size × PairwiseApart blocks

abbrev pub InHeap : List (ℕ × ℕ) → Type 0
InHeap blocks = All (λ b. (heap_start ≤ b.0) × (b.0 + b.1 ≤ heap_end)) blocks

Apart-sym : (p m q n : ℕ) → Apart p m q n → Apart q n p m
Apart-sym p m q n (inl le) = inr le
Apart-sym p m q n (inr le) = inl le

AllApart-part :
    (blocks : List (ℕ × ℕ)) (p m q s : ℕ)
    → q ≤ p
    → p + m ≤ q + s
    → AllApart blocks q s
    → AllApart blocks p m
AllApart-part [] p m q s lo hi apart = tt
AllApart-part ((a, size) ∷ blocks) p m q s lo hi (here, later) = (
  Apart-sym p m a size (Apart-part p m q s a size lo hi (Apart-sym a size q s here)),
  AllApart-part blocks p m q s lo hi later,
)

kmalloc-zero :
    (fuel : ℕ) (h : Heap) (size : ℕ) → (size == 0) ≡ true → kmalloc fuel h size ≡ some (0, h)
unfolding kmalloc
kmalloc-zero fuel h size nothing = rw nothing refl

-- What a sequence of calls comes to.
record Kept (h : Heap) (qs : List ℕ) (fuel : ℕ) (sizes : List ℕ) : Type 0 where
  pub blocks : List (ℕ × ℕ)
  pub last : Heap
  pub run : kmalloc_all fuel h sizes ≡ some (blocks, last)
  pub pairwise : PairwiseApart blocks
  pub inside : InHeap blocks
  pub apart : (x n : ℕ) → Avoids h.header qs x n → AllApart blocks x n

kmalloc_all-Kept :
    (sizes qs : List ℕ) (fuel : ℕ) (h : Heap)
    → Chain h.header heap_start h.free_list qs
    → All IsSize sizes
    → length qs + length sizes < fuel
    → Kept h qs fuel sizes
unfolding kmalloc_all
kmalloc_all-Kept [] qs fuel h chain valid enough = record {
  blocks = [];
  last = h;
  run = refl;
  pairwise = tt;
  inside = tt;
  apart = λ x n avoids. tt;
}
kmalloc_all-Kept (size ∷ sizes) qs fuel h chain valid enough =
    let null_Kept : kmalloc fuel h size ≡ some (0, h) → Kept h qs fuel (size ∷ sizes) = λ run.
      let k = kmalloc_all-Kept sizes qs fuel h chain (valid.1) (omega arith) in
      record {
        blocks = k.blocks;
        last = k.last;
        run = rw (run, k.run) refl;
        pairwise = k.pairwise;
        inside = k.inside;
        apart = k.apart;
      } in
    elim (Bool-cases (size == 0)) [
      | inl nothing ↦ null_Kept (kmalloc-zero fuel h size nothing)
      | inr positive ↦
          elim (kmalloc_lem qs fuel h size chain (ground (arith, positive)) (valid.0)
            (omega arith)) [
              | inl (run, _) ↦ null_Kept run
              | inr (block, h₁, run, out) ↦
                  let k =
                    kmalloc_all-Kept sizes out.blocks fuel h₁ out.chain (valid.1)
                      (omega (arith, out.grows)) in
                  let ne : (block + header_size == 0) ≡ false = ground arith in
                  record {
                    blocks = (block + header_size, size) ∷ k.blocks;
                    last = k.last;
                    run = rw (run, k.run, ne) refl;
                    pairwise = (
                      AllApart-part k.blocks (block + header_size) size block (size + header_size)
                          (omega arith) (omega arith) (k.apart block (size + header_size) out.own),
                      k.pairwise,
                    );
                    inside = ((omega (arith, out.above), omega (arith, out.inside)), k.inside);
                    apart = λ x n avoids.
                        let (here, later) = out.apart x n avoids in
                        (
                          Apart-part (block + header_size) size block (size + header_size) x n
                              (omega arith) (omega arith) here,
                          k.apart x n later,
                        );
                  }
            ]
    ]

-- After `heap_init`, any sequence of calls of `kmalloc` whose sizes are, with the header of 12 bytes,
-- below 2 ^ 32 ends, each call with a search of at most one step more than there were calls. The memory
-- that the calls hand out lies in the heap, and no two of them hand out a byte in common.
pub kmalloc_all-apart :
    (sizes : List ℕ) (h : Heap)
    → All IsSize sizes
    → (blocks : List (ℕ × ℕ)) × (h' : Heap) × (kmalloc_all (length sizes + 2) (heap_init h) sizes
        ≡ some (blocks, h'))
      × PairwiseApart blocks
      × InHeap blocks
unfolding heap_init
kmalloc_all-apart sizes h valid =
    let k =
      kmalloc_all-Kept sizes (heap_start ∷ []) (length sizes + 2) (heap_init h)
        (refl, omega arith, omega arith, omega arith, refl) valid (omega arith) in
    (k.blocks, k.last, k.run, k.pairwise, k.inside)
