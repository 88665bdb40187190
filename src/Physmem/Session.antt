-- ===== src/Physmem/Session.antt =====
-- A client of the page allocator: it keeps the pages that it was given, and gives back pages it keeps.
use xbt_os_misaka.Physmem.{Physmem, page_size, pm_alloc_page, pm_free_page}
use xbt_os_misaka.Physmem.Alloc.{Allocated, Takes, pm_alloc_page-Allocated}
use xbt_os_misaka.Physmem.Bitmap.{IsValid, used}
use xbt_os_misaka.Physmem.Free.{pm_free_page-clears}
use xbt_os_misaka.Prelude.{
  ℕ, zero, suc, ◌+◌, ◌*◌, ◌/◌, ◌<◌, ◌≤◌, ◌≡◌, ◌==◌, refl, List, [], ◌∷◌, All, Run, ◌>>=◌, some,
  if◌then◌else◌, ltb, length, get_or, arith, inl, inr, ◌∙◌, bit-lt, ◌%◌, Bool-cases, store,
  Whenever, Whenever-then, Whenever-some, false,
}

pub data Op : Type 0 where
  alloc : Op
  -- Gives back the page that stands at this place in the list of pages kept.
  free : ℕ → Op

-- The pages without the one at place `i`.
abbrev pub without : List ℕ → ℕ → List ℕ
without [] i = []
without (a ∷ held) zero = held
without (a ∷ held) (suc i) = a ∷ without held i

abbrev pub step : Physmem → List ℕ → Op → Run (List ℕ × Physmem)
step pm held alloc = do
  (address, pm') ← pm_alloc_page pm
  some ((if address == 0 then held else address ∷ held), pm')
step pm held (free i) =
    if ltb i (length held)
    then (do pm' ← pm_free_page pm (get_or held i 0); some (without held i, pm'))
    else some (held, pm)

unfoldable pub run : Physmem → List ℕ → List Op → Run (List ℕ × Physmem)
run pm held [] = some (held, pm)
run pm held (op ∷ ops) = do (held', pm') ← step pm held op; run pm' held' ops

-- How many of the pages are the frame `g`.
abbrev pub holders : List ℕ → ℕ → ℕ
holders [] g = 0
holders (a ∷ held) g = (if a / page_size == g then 1 else 0) + holders held g

-- A page of the bitmap that is not page 0.
abbrev pub IsPage : Physmem → ℕ → Type 0
IsPage pm a =
    (a ≡ a / page_size * page_size) × (0 < a / page_size) × (a / page_size < 32 * pm.bitmap_size)

-- The client keeps `held`, which it got since the bitmap was `pm`: the pages are pages of the bitmap,
-- no frame is among them twice, and a frame is marked exactly when it was marked before or is kept.
pub record Owns (pm pm' : Physmem) (held : List ℕ) : Type 0 where
  pub valid : IsValid pm'
  pub size : pm'.bitmap_size ≡ pm.bitmap_size
  pub pages : All (IsPage pm) held
  pub marks : (g : ℕ) → used pm' g ≡ used pm g + holders held g

without-pages :
    (pm : Physmem) (held : List ℕ) (i : ℕ) → All (IsPage pm) held → All (IsPage pm) (without held i)
without-pages pm [] i all = tt
without-pages pm (a ∷ held) zero all = all.1
without-pages pm (a ∷ held) (suc i) all = (all.0, without-pages pm held i all.1)

get_or-IsPage :
    (pm : Physmem) (held : List ℕ) (i : ℕ)
    → i < length held
    → All (IsPage pm) held
    → IsPage pm (get_or held i 0)
get_or-IsPage pm [] i lt all = absurd (omega arith)
get_or-IsPage pm (a ∷ held) zero lt all = all.0
get_or-IsPage pm (a ∷ held) (suc i) lt all = get_or-IsPage pm held i (omega arith) all.1

holders-without :
    (held : List ℕ) (i g : ℕ)
    → i < length held
    → holders held g
      ≡ (if get_or held i 0 / page_size == g then 1 else 0) + holders (without held i) g
holders-without [] i g lt = absurd (omega arith)
holders-without (a ∷ held) zero g lt = refl
holders-without (a ∷ held) (suc i) g lt =
    let rest = holders-without held i g (omega arith) in omega arith

taken-Owns :
    {pm pm' pm'' : Physmem} {address f : ℕ} (held : List ℕ)
    → used pm 0 ≡ 1
    → Owns pm pm' held
    → Allocated pm' address pm''
    → Takes pm' address pm'' f
    → (0 < f) × Owns pm pm'' (address ∷ held)
taken-Owns {pm} {pm'} {pm''} {address} {f} held null owns done takes =
    let frame : address / page_size ≡ f = omega (arith, takes.at) in
    let positive : 0 < f = ground (arith, null, owns.marks f, takes.free) in
    (
      positive,
      record {
        valid = done.valid;
        size = done.size ∙ owns.size;
        pages = (omega (arith, frame, takes.at, positive, takes.in_range, owns.size), owns.pages);
        marks = λ g. ground (arith, takes.marks g, takes.free, owns.marks g, frame);
      },
    )

alloc-Owns :
    {pm pm' : Physmem} (held : List ℕ)
    → used pm 0 ≡ 1
    → Owns pm pm' held
    → (held'' : List ℕ) × (pm'' : Physmem) × (step pm' held alloc ≡ some (held'', pm''))
      × Owns pm pm'' held''
alloc-Owns {pm} {pm'} held null owns =
    let (address, pm'', ran, done) = pm_alloc_page-Allocated owns.valid in
    elim done.outcome [
      | inr full ↦ (held, pm', rw (ran, full.null, full.unchanged) refl, owns)
      | inl (f, takes) ↦
          let (positive, owns'') = taken-Owns held null owns done takes in
          let ne : (address == 0) ≡ false = ground (arith, takes.at, positive) in
          (address ∷ held, pm'', rw (ran, ne) refl, owns'')
    ]

pm_free_page-bitmap_size :
    (pm : Physmem) (a : ℕ) → Whenever (λ pm'. pm'.bitmap_size ≡ pm.bitmap_size) (pm_free_page pm a)
unfolding pm_free_page
pm_free_page-bitmap_size pm a = Whenever-then _ (store pm.words _ _) _ (λ words. refl)

free-Owns :
    {pm pm' : Physmem} (held : List ℕ) (i : ℕ)
    → Owns pm pm' held
    → (held'' : List ℕ) × (pm'' : Physmem) × (step pm' held (free i) ≡ some (held'', pm''))
      × Owns pm pm'' held''
free-Owns {pm} {pm'} held i owns = elim (Bool-cases (ltb i (length held))) [
  | inr outside ↦ (held, pm', rw outside refl, owns)
  | inl inside ↦
      let lt : i < length held = ground (arith, inside) in
      let a = get_or held i 0 in
      let (at, positive, in_range) = get_or-IsPage pm held i lt owns.pages in
      let (pm'', ran, valid, clears) =
        pm_free_page-clears a owns.valid (omega (arith, in_range, owns.size, owns.valid.fits)) in
      (
        without held i,
        pm'',
        rw (inside, ran) refl,
        record {
          valid = valid;
          size =
              Whenever-some _ (pm_free_page pm' a) pm'' ran (pm_free_page-bitmap_size pm' a)
              ∙ owns.size;
          pages = without-pages pm held i owns.pages;
          marks = λ g. ground (
            arith,
            clears g,
            owns.marks g,
            holders-without held i g lt,
            bit-lt (get_or pm'.words (g / 32) 0) (g % 32),
          );
        },
      )
]

step-Owns :
    {pm pm' : Physmem} (held : List ℕ) (op : Op)
    → used pm 0 ≡ 1
    → Owns pm pm' held
    → (held'' : List ℕ) × (pm'' : Physmem) × (step pm' held op ≡ some (held'', pm''))
      × Owns pm pm'' held''
step-Owns held alloc null owns = alloc-Owns held null owns
step-Owns held (free i) null owns = free-Owns held i owns

steps-Owns :
    {pm : Physmem} (ops : List Op) {pm' : Physmem} (held : List ℕ)
    → used pm 0 ≡ 1
    → Owns pm pm' held
    → (held'' : List ℕ) × (pm'' : Physmem) × (run pm' held ops ≡ some (held'', pm''))
      × Owns pm pm'' held''
unfolding run
steps-Owns {pm} [] {pm'} held null owns = (held, pm', refl, owns)
steps-Owns {pm} (op ∷ ops) {pm'} held null owns =
    let (held₁, pm₁, first, owns₁) = step-Owns held op null owns in
    let (held₂, pm₂, rest, owns₂) = steps-Owns ops held₁ null owns₁ in
    (held₂, pm₂, rw (first, rest) refl, owns₂)

-- On a valid bitmap that keeps page 0 back, no sequence in which pages are allocated and pages that are
-- kept are freed, in any order, faults. The pages kept in the end are pages of the bitmap, no frame is
-- among them twice, and a frame is marked exactly when it was marked before or is kept.
pub run-Owns :
    {pm : Physmem} (ops : List Op)
    → IsValid pm
    → used pm 0 ≡ 1
    → (held : List ℕ) × (pm' : Physmem) × (run pm [] ops ≡ some (held, pm'))
      × Owns pm pm' held
      × ((g : ℕ) → holders held g ≤ 1)
run-Owns {pm} ops valid null =
    let none_held : Owns pm pm [] = record {
      valid = valid;
      size = refl;
      pages = tt;
      marks = λ g. omega arith;
    } in
    let (held, pm', ran, owns) = steps-Owns ops [] null none_held in
    (
      held,
      pm',
      ran,
      owns,
      λ g. omega (arith, owns.marks g, bit-lt (get_or pm'.words (g / 32) 0) (g % 32)),
    )
