-- ===== src/Physmem/Alloc.antt =====
-- kernel/memory/physmem.cpp: `pm_alloc_page`.
use mathlib.Core.Option.{some-injective}
use mathlib.Core.Path.{subst}
use xbt_os_misaka.Prelude.{
  sym, ℕ, ◌*◌, ◌<◌, ◌≡◌, refl, List, ◌==◌, ◌⊎◌, if◌then◌else◌, length, arith, inl, inr, ap, some,
  ◌∙◌,
}
use xbt_os_misaka.Physmem.{Physmem, pm_alloc_page, page_size}
use xbt_os_misaka.Physmem.Bitmap.{used, IsValid}
use xbt_os_misaka.Physmem.Scan.{Scanned, alloc_loop-Scanned}

pub record Takes (pm : Physmem) (address : ℕ) (pm' : Physmem) (f : ℕ) : Type 0 where
  pub in_range : f < 32 * pm.bitmap_size
  pub at : address ≡ f * page_size
  pub free : used pm f ≡ 0
  pub lowest : (g : ℕ) → g < f → used pm g ≡ 1
  pub marks : (g : ℕ) → used pm' g ≡ (if f == g then 1 else used pm g)

pub record Exhausted (pm : Physmem) (address : ℕ) (pm' : Physmem) : Type 0 where
  pub null : address ≡ 0
  pub unchanged : pm' ≡ pm
  pub taken : (g : ℕ) → g < 32 * pm.bitmap_size → used pm g ≡ 1

pub record Allocated (pm : Physmem) (address : ℕ) (pm' : Physmem) : Type 0 where
  pub valid : IsValid pm'
  pub size : pm'.bitmap_size ≡ pm.bitmap_size
  pub same_length : length pm'.words ≡ length pm.words
  pub outcome : ((f : ℕ) × Takes pm address pm' f) ⊎ Exhausted pm address pm'

allocated :
    (pm : Physmem) (address : ℕ) (words' : List ℕ)
    → IsValid pm
    → Scanned pm.words pm.bitmap_size 0 address words'
    → Allocated pm address (record pm { words = words' })
allocated pm address words' v (inl (f, found)) = record {
  valid = record {
    fits = omega (arith, v.fits, found.same_length);
    addressable = v.addressable;
    words = found.are_words;
  };
  size = refl;
  same_length = found.same_length;
  outcome = inl (
    f,
    record {
      in_range = found.in_range;
      at = omega (arith, found.at, found.in_range, v.addressable);
      free = found.free;
      lowest = found.lowest;
      marks = found.marks;
    },
  );
}
allocated pm address words' v (inr none_free) =
    let same : record pm { words = words' } ≡ pm =
      ap (λ (ws : List ℕ). record pm { words = ws }) none_free.unchanged in
    record {
      valid = rw same v;
      size = refl;
      same_length = ap length none_free.unchanged;
      outcome = inr (record { null = none_free.null; unchanged = same; taken = none_free.taken });
    }

-- `pm_alloc_page` does not fault on a valid bitmap. It marks the lowest free frame, and no other, and
-- returns its address; where every frame of the bitmap is marked it returns null and changes nothing.
pub pm_alloc_page-Allocated :
    {pm : Physmem}
    → IsValid pm
    → (address : ℕ) × (pm' : Physmem) × (pm_alloc_page pm ≡ some (address, pm'))
      × Allocated pm address pm'
unfolding pm_alloc_page
pm_alloc_page-Allocated {pm} v =
    let (address, words', run, scanned) =
      alloc_loop-Scanned pm.words pm.bitmap_size 0 v.fits v.words in
    (address, record pm { words = words' }, rw run, allocated pm address words' v scanned)

pub Allocated-of :
    {pm pm' : Physmem} {address : ℕ}
    → IsValid pm
    → pm_alloc_page pm ≡ some (address, pm')
    → Allocated pm address pm'
Allocated-of {pm} {pm'} {address} v run =
    let (a, p, run', done) = pm_alloc_page-Allocated v in
    subst (λ (r : ℕ × Physmem). Allocated pm r.0 r.1)
      (some-injective (a, p) (address, pm') (sym run' ∙ run)) done
