-- ===== src/Physmem/Boot.antt =====
-- `pm_init`, and the first allocation after it.
use xbt_os_misaka.Prelude.{
  ℕ, zero, suc, ◌+◌, ◌*◌, ◌/◌, ◌%◌, ◌^◌, ◌≤◌, ◌<◌, ◌≡◌, refl, List, [], ◌∷◌, ◌==◌, ltb, leb, ◌&&◌,
  if◌then◌else◌, get_or, set, length, length-set, arith, bit_or-lt, bit_of_zero, mask, mask-lt,
  Bool-cases, inl, inr, ap, some, ◌∙◌, store-eq_some,
}
use xbt_os_misaka.Physmem.{
  Physmem, clear_words, mark_pages, pm_init, pm_alloc_page, page_size, bitmap_address,
}
use xbt_os_misaka.Physmem.Alloc.{pm_alloc_page-Allocated}
use xbt_os_misaka.Physmem.Bitmap.{
  marked, used, AreWords, IsValid, get_or-lt, set-AreWords, with_mark, marked-set_mark,
}

-- What clearing `n` words leaves.
record Cleared (words : List ℕ) (n : ℕ) (words' : List ℕ) : Type 0 where
  zeros : (i : ℕ) → i < n → get_or words' i 0 ≡ 0
  same_length : length words' ≡ length words
  are_words : AreWords words'

clear_words-Cleared :
    (words : List ℕ) (n : ℕ)
    → n ≤ length words
    → AreWords words
    → (words' : List ℕ) × (clear_words words n ≡ some words') × Cleared words n words'
unfolding clear_words
clear_words-Cleared [] zero fits are =
    ([], refl, record { zeros = λ i lt. absurd (omega arith); same_length = refl; are_words = are })
clear_words-Cleared (w ∷ words) zero fits are = (
  w ∷ words,
  refl,
  record { zeros = λ i lt. absurd (omega arith); same_length = refl; are_words = are },
)
clear_words-Cleared [] (suc n) fits are = absurd (omega arith)
clear_words-Cleared (w ∷ words) (suc n) fits are =
    let (words', run, c) = clear_words-Cleared words n (omega arith) are.1 in
    (
      0 ∷ words',
      rw run,
      record {
        zeros = elim [ zero ↦ λ lt. refl | suc i ↦ λ lt. c.zeros i (omega arith) ];
        same_length = ap suc c.same_length;
        are_words = (omega arith, c.are_words);
      },
    )

-- What marking the pages from `i` to `j` leaves.
record Marked (words : List ℕ) (i j : ℕ) (words' : List ℕ) : Type 0 where
  marks : (g : ℕ) → marked words' g ≡ (if leb i g && ltb g j then 1 else marked words g)
  same_length : length words' ≡ length words
  are_words : AreWords words'

mark_pages-Marked :
    (n i j : ℕ) (words : List ℕ)
    → i + n ≡ j
    → j ≤ 32 * length words
    → AreWords words
    → (words' : List ℕ) × (mark_pages n i words ≡ some words') × Marked words i j words'
unfolding mark_pages
mark_pages-Marked zero i j words e fits are =
    (words, refl, record { marks = λ g. ground arith; same_length = refl; are_words = are })
mark_pages-Marked (suc n) i j words e fits are =
    let inside : i / 32 < length words = omega arith in
    let w = with_mark words i in
    let next = set words (i / 32) w in
    let w_lt : w < 2 ^ 32 =
      bit_or-lt 32 (get_or words (i / 32) 0) (mask (i % 32)) (get_or-lt words (i / 32) are)
        (mask-lt 32 (i % 32) (omega arith)) in
    let (words', run, m) =
      mark_pages-Marked n (i + 1) j next (omega arith) (omega (arith, length-set words (i / 32) w))
        (set-AreWords words (i / 32) w are w_lt) in
    (
      words',
      rw (store-eq_some words (i / 32) w inside) run,
      record {
        marks = λ g. ground (arith, m.marks g, marked-set_mark words i g);
        same_length = m.same_length ∙ length-set words (i / 32) w;
        are_words = m.are_words;
      },
    )

-- The frames of a memory size.
abbrev pub frames : ℕ → ℕ
frames mem_size = 32 * ((mem_size / page_size + 31) / 32)

-- `pm_init` marks the pages of the first megabyte and no other page of the bitmap, if the bitmap and
-- the eight words of those pages lie in memory.
pub pm_init-marks :
    (mem_size : ℕ) (words : List ℕ)
    → mem_size < 2 ^ 32
    → AreWords words
    → 8 ≤ length words
    → frames mem_size ≤ 32 * length words
    → (pm : Physmem) × (pm_init mem_size words ≡ some pm)
      × IsValid pm
      × (32 * pm.bitmap_size ≡ frames mem_size)
      × ((g : ℕ) → g < frames mem_size → used pm g ≡ (if ltb g 256 then 1 else 0))
unfolding pm_init
pm_init-marks mem_size words small are eight fits =
    let size = (mem_size / page_size + 31) % 2 ^ 32 / 32 in
    let same : size ≡ (mem_size / page_size + 31) / 32 = omega arith in
    let (cleared, run, c) = clear_words-Cleared words size (omega arith) are in
    let (done, run', m) =
      mark_pages-Marked 256 0 256 cleared refl (omega (arith, c.same_length)) c.are_words in
    (
      record { words = done; bitmap_size = size },
      rw (run, run'),
      record {
        fits = omega (arith, m.same_length, c.same_length);
        addressable = omega arith;
        words = m.are_words;
      },
      omega arith,
      λ g lt. ground (arith, m.marks g, c.zeros (g / 32), bit_of_zero (g % 32)),
    )

-- After `pm_init` of a memory of 257 pages or more, the first page that is allocated is the page at
-- which the bitmap itself lies.
pub pm_alloc_page-pm_init :
    (mem_size : ℕ) (words : List ℕ)
    → mem_size < 2 ^ 32
    → 257 * page_size ≤ mem_size
    → AreWords words
    → 8 ≤ length words
    → frames mem_size ≤ 32 * length words
    → (pm pm' : Physmem) × (pm_init mem_size words ≡ some pm)
      × (pm_alloc_page pm ≡ some (bitmap_address, pm'))
pm_alloc_page-pm_init mem_size words small large are eight fits =
    let (pm, booted, v, size, marks) = pm_init-marks mem_size words small are eight fits in
    let (address, pm', run, done) = pm_alloc_page-Allocated v in
    let first : address ≡ bitmap_address = elim done.outcome [
      | inl (f, takes) ↦ elim (Bool-cases (ltb f 256)) [
        | inl low ↦ ground (arith, marks f, takes.free, takes.in_range)
        | inr high ↦ elim (Bool-cases (f == 256)) [
          | inl e ↦ ground (arith, takes.at)
          | inr e ↦ ground (arith, marks 256, takes.lowest 256)
        ]
      ]
      | inr none_free ↦ ground (arith, marks 256, none_free.taken 256)
    ] in
    (pm, pm', booted, rw (← first) run)
