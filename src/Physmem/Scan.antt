-- ===== src/Physmem/Scan.antt =====
-- The scan of `pm_alloc_page` over the words of the bitmap.
use xbt_os_misaka.Prelude.{
  ltb, bit_of_ones, ℕ, zero, suc, ◌+◌, ◌-◌, ◌*◌, ◌/◌, ◌%◌, ◌^◌, ◌≤◌, ◌<◌, ◌≡◌, refl, bit_and,
  bit_or, List, [], ◌∷◌, ◌==◌, ◌⊎◌, if◌then◌else◌, length, arith, bit, bit_or-lt, mask, mask-lt,
  bit-lt, Bool-cases, inl, inr, ap, some, none, Option-cases, ◌∙◌,
}
use xbt_os_misaka.Physmem.{find_bit, alloc_loop, page_size}
use xbt_os_misaka.Physmem.Bitmap.{marked, AreWords, marked-set_mark, bit_and-mask_iff}

pub find_bit-eq_some :
    (w rounds j : ℕ) {k : ℕ}
    → w < 2 ^ 32
    → find_bit w rounds j ≡ some k
    → (j ≤ k) × (k < j + rounds) × (bit w k ≡ 0) × ((m : ℕ) → j ≤ m → m < k → bit w m ≡ 1)
unfolding find_bit
find_bit-eq_some w zero j lt h = cc
find_bit-eq_some w (suc rounds) j {k} lt h = elim (Bool-cases (bit_and w (mask j) == 0)) [
  | inl free ↦
      let k≡j : k ≡ j = ground arith in
      let clear : bit w j ≡ 0 = (bit_and-mask_iff w j lt).0 free in
      (omega arith, omega arith, rw k≡j clear, λ m lo hi. absurd (omega arith))
  | inr taken ↦
      let (lo, hi, clear, below) = find_bit-eq_some w rounds (j + 1) {k = k} lt (ground arith) in
      (
        omega arith,
        omega arith,
        clear,
        λ m m_lo m_hi. elim (Bool-cases (j == m)) [
          | inl e ↦ ground (arith, bit_and-mask_iff w j lt, bit-lt w j)
          | inr e ↦ below m (ground arith) m_hi
        ],
      )
]

pub find_bit-eq_none :
    (w rounds j : ℕ)
    → w < 2 ^ 32
    → find_bit w rounds j ≡ none
    → (m : ℕ) → j ≤ m
    → m < j + rounds
    → bit w m ≡ 1
unfolding find_bit
find_bit-eq_none w zero j lt h m lo hi = absurd (omega arith)
find_bit-eq_none w (suc rounds) j lt h m lo hi = elim (Bool-cases (j == m)) [
  | inl e ↦ ground (arith, bit_and-mask_iff w j lt, bit-lt w j)
  | inr e ↦ find_bit-eq_none w rounds (j + 1) lt (ground arith) m (ground arith) (omega arith)
]

-- The frames of a bitmap that starts with the word `w`.
pub marked_low : (w : ℕ) (words : List ℕ) (f : ℕ) → f < 32 → marked (w ∷ words) f ≡ bit w f
marked_low w words f h =
    let q : f / 32 ≡ 0 = omega arith in let r : f % 32 ≡ f = omega arith in rw (q, r)

pub marked_high : (w : ℕ) (words : List ℕ) (f : ℕ) → marked (w ∷ words) (32 + f) ≡ marked words f
marked_high w words f =
    let q : (32 + f) / 32 ≡ suc (f / 32) = omega arith in
    let r : (32 + f) % 32 ≡ f % 32 = omega arith in rw (q, r)

pub frame-cases : (f : ℕ) → (f < 32) ⊎ ((g : ℕ) × (f ≡ 32 + g))
frame-cases f = elim (Bool-cases (ltb f 32)) [
  | inl low ↦ inl (ground arith)
  | inr high ↦ inr (f - 32, ground arith)
]

-- What the loop at the word `i` has done: it has marked the lowest free frame.
pub record Found (words : List ℕ) (rounds i address : ℕ) (words' : List ℕ) (f : ℕ) : Type 0 where
  pub in_range : f < 32 * rounds
  pub at : address ≡ (i * 32 + f) * page_size % 2 ^ 32
  pub free : marked words f ≡ 0
  pub lowest : (g : ℕ) → g < f → marked words g ≡ 1
  pub marks : (g : ℕ) → marked words' g ≡ (if f == g then 1 else marked words g)
  pub same_length : length words' ≡ length words
  pub are_words : AreWords words'

-- Or it has found no free frame.
pub record NoneFree (words : List ℕ) (rounds address : ℕ) (words' : List ℕ) : Type 0 where
  pub null : address ≡ 0
  pub unchanged : words' ≡ words
  pub taken : (g : ℕ) → g < 32 * rounds → marked words g ≡ 1

abbrev pub Scanned : List ℕ → ℕ → ℕ → ℕ → List ℕ → Type 0
Scanned words rounds i address words' =
    ((f : ℕ) × Found words rounds i address words' f) ⊎ NoneFree words rounds address words'

-- The first word is full.
pub skip_word :
    {w : ℕ} {words : List ℕ} {rounds i address : ℕ} {words' : List ℕ}
    → w < 2 ^ 32
    → ((k : ℕ) → k < 32 → bit w k ≡ 1)
    → Scanned words rounds (i + 1) address words'
    → Scanned (w ∷ words) (suc rounds) i address (w ∷ words')
skip_word {w} {words} {rounds} {i} {address} {words'} lt full (inl (f, found)) = inl (
  32 + f,
  record {
    in_range = omega (arith, found.in_range);
    at = found.at ∙ ap (λ (k : ℕ). k * page_size % 2 ^ 32) (omega arith);
    free = marked_high w words f ∙ found.free;
    lowest = λ g g_lt. elim (frame-cases g) [
      | inl low ↦ marked_low w words g low ∙ full g low
      | inr (h, e) ↦ rw e (marked_high w words h ∙ found.lowest h (omega arith))
    ];
    marks = λ g. elim (frame-cases g) [
      | inl low ↦ ground (arith, marked_low w words g, marked_low w words' g)
      | inr (h, e) ↦
          rw e (ground (arith, marked_high w words h, marked_high w words' h, found.marks h))
    ];
    same_length = ap suc found.same_length;
    are_words = (lt, found.are_words);
  },
)
skip_word {w} {words} lt full (inr none_free) = inr (record {
  null = none_free.null;
  unchanged = ap (λ r. w ∷ r) none_free.unchanged;
  taken = λ g g_lt. elim (frame-cases g) [
    | inl low ↦ marked_low w words g low ∙ full g low
    | inr (h, e) ↦ rw e (marked_high w words h ∙ none_free.taken h (omega arith))
  ];
})

-- The first word has a clear bit, the lowest of which is `j`.
pub hit_word :
    {w : ℕ} {words : List ℕ} (rounds i j : ℕ)
    → AreWords (w ∷ words)
    → j < 32
    → bit w j ≡ 0
    → ((m : ℕ) → m < j → bit w m ≡ 1)
    → Found
        (w ∷ words)
        (suc rounds)
        i
        ((i * 32 + j) * page_size % 2 ^ 32)
        (bit_or w (mask j) ∷ words)
        j
hit_word {w} {words} rounds i j are lt clear below =
    let q : j / 32 ≡ 0 = omega arith in
    let r : j % 32 ≡ j = omega arith in
    record {
      in_range = omega arith;
      at = refl;
      free = marked_low w words j lt ∙ clear;
      lowest = λ g g_lt. marked_low w words g (omega arith) ∙ below g g_lt;
      marks = λ g. rw (q, r) at (marked-set_mark (w ∷ words) j g (omega arith));
      same_length = refl;
      are_words = (bit_or-lt 32 w (mask j) are.0 (mask-lt 32 j lt), are.1);
    }

pub nothing_left :
    (words : List ℕ) (i : ℕ)
    → (address : ℕ) × (words' : List ℕ) × (alloc_loop words zero i ≡ some (address, words'))
      × Scanned words zero i address words'
unfolding alloc_loop
nothing_left [] i = (
  0,
  [],
  refl,
  inr (record { null = refl; unchanged = refl; taken = λ g lt. absurd (omega arith) }),
)
nothing_left (w ∷ words) i = (
  0,
  w ∷ words,
  refl,
  inr (record { null = refl; unchanged = refl; taken = λ g lt. absurd (omega arith) }),
)

pub alloc_loop-Scanned :
    (words : List ℕ) (rounds i : ℕ)
    → rounds ≤ length words
    → AreWords words
    → (address : ℕ) × (words' : List ℕ) × (alloc_loop words rounds i ≡ some (address, words'))
      × Scanned words rounds i address words'
unfolding alloc_loop
alloc_loop-Scanned [] zero i fits are = nothing_left [] i
alloc_loop-Scanned (w ∷ words) zero i fits are = nothing_left (w ∷ words) i
alloc_loop-Scanned [] (suc rounds) i fits are = absurd (omega arith)
alloc_loop-Scanned (w ∷ words) (suc rounds) i fits are =
    let (address, words', run, scanned) =
      alloc_loop-Scanned words rounds (i + 1) (omega arith) are.1 in
    elim (Bool-cases (w == 0xFFFF_FFFF)) [
      | inl ones ↦ (
        address,
        w ∷ words',
        ground arith,
        skip_word are.0 (λ k k_lt. ground (arith, bit_of_ones 32 k)) scanned,
      )
      | inr other ↦ elim (Option-cases (find_bit w 32 0)) [
        | inl full ↦ (
          address,
          w ∷ words',
          ground arith,
          skip_word are.0
              (λ k k_lt. find_bit-eq_none w 32 0 are.0 full k (omega arith) (omega arith)) scanned,
        )
        | inr (j, found) ↦
            let (lo, hi, clear, below) = find_bit-eq_some w 32 0 are.0 found in
            (
              (i * 32 + j) * page_size % 2 ^ 32,
              bit_or w (mask j) ∷ words,
              ground arith,
              inl (
                j,
                hit_word rounds i j are (omega arith) clear (λ m m_lt. below m (omega arith) m_lt),
              ),
            )
      ]
    ]

-- What `pm_alloc_page` has done: it has taken the lowest free frame, or found none.
