-- ===== src/Heap/Chain.antt =====
-- kernel/memory/heap.cpp: lists of blocks whose addresses rise.
use xbt_os_misaka.Heap.{Header, Heap, header_size, heap_size, heap_start, set_link}
use xbt_os_misaka.Prelude.{
  suc, length, Bool-cases, refl, true, false, ◌<◌, inl, inr, ◌≢◌, ◌==◌, if◌then◌else◌, ℕ, ◌+◌, ◌≤◌,
  ◌≡◌, ◌⊎◌, ◌&&◌, leb, List, [], ◌∷◌, arith, All,
}

abbrev pub heap_end : ℕ
heap_end = heap_start + heap_size

-- The addresses of the list from `p` on: none below `low`, and each block before the next.
abbrev pub Chain : (ℕ → Header) → ℕ → ℕ → List ℕ → Type 0
Chain header low p [] = p ≡ 0
Chain header low p (q ∷ qs) =
    (p ≡ q)
    × (low ≤ q)
    × (header_size ≤ (header q).size)
    × (q + (header q).size ≤ heap_end)
    × Chain header (q + (header q).size) (header q).next qs

-- Two ranges of addresses have no address in common.
abbrev pub Apart : ℕ → ℕ → ℕ → ℕ → Type 0
Apart p m q n = (p + m ≤ q) ⊎ (q + n ≤ p)

-- A part of a range is apart from what the range is apart from.
pub Apart-part : (p m q s x n : ℕ) → q ≤ p → p + m ≤ q + s → Apart q s x n → Apart p m x n
Apart-part p m q s x n lo hi (inl le) = inl (omega (arith, le, hi))
Apart-part p m q s x n lo hi (inr le) = inr (omega (arith, le, lo))

-- The free blocks keep out of the range.
abbrev pub Avoids : (ℕ → Header) → List ℕ → ℕ → ℕ → Type 0
Avoids header qs x n = All (λ q. (header q).is_free ≡ true → Apart q (header q).size x n) qs

-- No free block is large enough.
abbrev pub NoFit : (ℕ → Header) → List ℕ → ℕ → Type 0
NoFit header qs total = All (λ q. ((header q).is_free && leb total (header q).size) ≡ false) qs

module _ (header header' : ℕ → Header) where
  -- A chain is one of any headers that agree with its own from `low` on.
  pub Chain-agree :
      (qs : List ℕ) (low p : ℕ)
      → ((q : ℕ) → low ≤ q → header' q ≡ header q)
      → Chain header low p qs
      → Chain header' low p qs
  Chain-agree [] low p agree chain = chain
  Chain-agree (q ∷ qs) low p agree (at, lo, least, fits, rest) =
      let later =
        Chain-agree qs (q + (header q).size) (header q).next
          (λ r r_lo. agree r (omega (arith, lo, r_lo))) rest in
      rw (agree q lo) (at, lo, least, fits, later)

  pub Avoids-agree :
      (qs : List ℕ) (low p x n : ℕ)
      → ((q : ℕ) → low ≤ q → header' q ≡ header q)
      → Chain header low p qs
      → Avoids header qs x n
      → Avoids header' qs x n
  Avoids-agree [] low p x n agree chain avoids = tt
  Avoids-agree (q ∷ qs) low p x n agree (at, lo, least, fits, rest) avoids = (
    rw (agree q lo) (avoids.0),
    Avoids-agree qs (q + (header q).size) (header q).next x n
        (λ r r_lo. agree r (omega (arith, lo, r_lo))) rest (avoids.1),
  )

-- A bound further down, and the ranges below it.
pub Chain-lower :
    (header : ℕ → Header) (qs : List ℕ) (low low' p : ℕ)
    → low' ≤ low
    → Chain header low p qs
    → Chain header low' p qs
Chain-lower header [] low low' p le chain = chain
Chain-lower header (q ∷ qs) low low' p le (at, lo, least, fits, rest) =
    (at, omega (arith, le, lo), least, fits, rest)

pub Avoids-below :
    (header : ℕ → Header) (qs : List ℕ) (low p x n : ℕ)
    → x + n ≤ low
    → Chain header low p qs
    → Avoids header qs x n
Avoids-below header [] low p x n le chain = tt
Avoids-below header (q ∷ qs) low p x n le (at, lo, least, fits, rest) = (
  λ _. inr (omega (arith, le, lo)),
  Avoids-below header qs (q + (header q).size) (header q).next x n (omega (arith, le, lo)) rest,
)

-- The pointer that leads to the block behind `prev`.
abbrev pub link : Heap → ℕ → ℕ
link h prev = if prev == 0 then h.free_list else (h.header prev).next

-- Setting a link changes no header but the one that holds it, and of that only the link.
pub header-set_link : (h : Heap) (p t r : ℕ) → r ≢ p → (set_link h p t).header r ≡ h.header r
header-set_link h p t r ne = elim (Bool-cases (p == 0)) [
  | inl first ↦ rw first refl
  | inr more ↦ rw more (ground arith)
]

pub link-set_link : (h : Heap) (p t : ℕ) → link (set_link h p t) p ≡ t
link-set_link h p t = elim (Bool-cases (p == 0)) [
  | inl first ↦ rw first (ground arith)
  | inr more ↦ rw more (ground arith)
]

pub size-set_link : (h : Heap) (p t : ℕ) → ((set_link h p t).header p).size ≡ (h.header p).size
size-set_link h p t = elim (Bool-cases (p == 0)) [
  | inl first ↦ rw first refl
  | inr more ↦ rw more (ground arith)
]

pub is_free-set_link :
    (h : Heap) (p t : ℕ) → ((set_link h p t).header p).is_free ≡ (h.header p).is_free
is_free-set_link h p t = elim (Bool-cases (p == 0)) [
  | inl first ↦ rw first refl
  | inr more ↦ rw more (ground arith)
]

pub free_list-set_link : (h : Heap) (p t : ℕ) → p ≢ 0 → (set_link h p t).free_list ≡ h.free_list
free_list-set_link h p t ne = ground arith

-- What handing out a block of `total` bytes at `a - 12` does to the list `qs` behind `prev`. Nothing
-- below `low` changes but the link in `prev`; the block was apart from every range that the free
-- blocks keep out of, and they keep out of it.
pub record HandsOut (h h' : Heap) (low prev total : ℕ) (qs : List ℕ) (block : ℕ) : Type 0 where
  pub blocks : List ℕ
  pub chain : Chain h'.header low (link h' prev) blocks
  pub below : (r : ℕ) → r < low → r ≢ prev → h'.header r ≡ h.header r
  pub same_size : prev ≢ 0 → (h'.header prev).size ≡ (h.header prev).size
  pub same_use : prev ≢ 0 → (h'.header prev).is_free ≡ (h.header prev).is_free
  pub same_head : prev ≢ 0 → h'.free_list ≡ h.free_list
  pub above : low ≤ block
  pub inside : block + total ≤ heap_end
  pub apart :
      (x n : ℕ) → Avoids h.header qs x n → Apart block total x n × Avoids h'.header blocks x n
  pub own : Avoids h'.header blocks block total
  pub grows : length blocks ≤ suc (length qs)
