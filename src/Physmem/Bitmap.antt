-- ===== src/Physmem/Bitmap.antt =====
-- The bitmap as a set of page frames, and writes of one word.
use xbt_os_misaka.Prelude.{
  ℕ, ◌/◌, ◌%◌, ◌^◌, ◌≤◌, ◌<◌, ◌≡◌, bit_and, bit_or, List, ◌==◌, min, if◌then◌else◌, get_or, set,
  length, get_or-set, All, All-get_or, All-set, arith, bit, bit-bit_or, bit-bit_and, bit-mask,
  bit_and-le, mask, mask-lt, complement, bit-complement, bit-injective, bit_of_zero, bit-lt, true,
  ◌↔◌, ==_iff,
}
use xbt_os_misaka.Physmem.{Physmem}

-- Whether frame `f` is marked, in the words of a bitmap.
abbrev pub marked : List ℕ → ℕ → ℕ
marked words f = bit (get_or words (f / 32) 0) (f % 32)

-- 1 for a frame in use, 0 for a free one.
abbrev pub used : Physmem → ℕ → ℕ
used pm f = marked pm.words f

abbrev pub AreWords : List ℕ → Type 0
AreWords words = All (λ w. w < 2 ^ 32) words

-- The bitmap lies in memory, and its frames have 32-bit addresses.
pub record IsValid (pm : Physmem) : Type 0 where
  pub fits : pm.bitmap_size ≤ length pm.words
  pub addressable : pm.bitmap_size ≤ 2 ^ 15
  pub words : AreWords pm.words

pub get_or-lt : (words : List ℕ) (i : ℕ) → AreWords words → get_or words i 0 < 2 ^ 32
get_or-lt words i h = All-get_or (λ w. w < 2 ^ 32) words i 0 h (omega arith)

pub set-AreWords :
    (words : List ℕ) (i v : ℕ) → AreWords words → v < 2 ^ 32 → AreWords (set words i v)
set-AreWords words i v h lt = All-set (λ w. w < 2 ^ 32) words i v h lt

-- Two frames are one if they have the same word and the same bit.
frame_eq : (f g : ℕ) → (f == g) ≡ (if f / 32 == g / 32 then f % 32 == g % 32 else (f == g))
frame_eq f g = ground arith

-- The word of frame `f`, with the bit of `f` set.
abbrev pub with_mark : List ℕ → ℕ → ℕ
with_mark words f = bit_or (get_or words (f / 32) 0) (mask (f % 32))

abbrev pub without_mark : List ℕ → ℕ → ℕ
without_mark words f = bit_and (get_or words (f / 32) 0) (complement 32 (mask (f % 32)))

pub marked-set_mark :
    (words : List ℕ) (f g : ℕ)
    → f / 32 < length words
    → marked (set words (f / 32) (with_mark words f)) g ≡ (if f == g then 1 else marked words g)
marked-set_mark words f g h = ground (
  arith,
  get_or-set words (f / 32) (g / 32) (with_mark words f) 0,
  bit-bit_or (g % 32) (get_or words (f / 32) 0) (mask (f % 32)),
  bit-mask (f % 32) (g % 32),
  bit-lt (get_or words (g / 32) 0) (g % 32),
)

pub marked-set_unmark :
    (words : List ℕ) (f g : ℕ)
    → f / 32 < length words
    → marked (set words (f / 32) (without_mark words f)) g ≡ (if f == g then 0 else marked words g)
marked-set_unmark words f g h = ground (
  arith,
  get_or-set words (f / 32) (g / 32) (without_mark words f) 0,
  bit-bit_and (g % 32) (get_or words (f / 32) 0) (complement 32 (mask (f % 32))),
  bit-complement 32 (mask (f % 32)) (g % 32),
  mask-lt 32 (f % 32),
  bit-mask (f % 32) (g % 32),
  bit-lt (get_or words (g / 32) 0) (g % 32),
)

-- `!(w & (1 << j))` tests the bit.
pub bit_and-mask_iff : (w j : ℕ) → w < 2 ^ 32 → ((bit_and w (mask j) == 0) ≡ true) ↔ (bit w j ≡ 0)
bit_and-mask_iff w j h = (
  (λ e.
      let z : bit_and w (mask j) ≡ 0 = (==_iff _ _).0 e in
      let b : bit 0 j ≡ min (bit w j) (bit (mask j) j) = rw z at (bit-bit_and j w (mask j)) in
      ground (arith, bit_of_zero j, bit-mask j j, bit-lt w j)),
  (λ e. (==_iff _ _).1 (
      bit-injective 32 (bit_and w (mask j)) 0 (omega (arith, bit_and-le 32 w (mask j) h))
        (omega arith)
        (λ k k_lt. ground (arith, bit-bit_and k w (mask j), bit-mask j k, bit_of_zero k)))),
)
