-- ===== src/Physmem/Free.antt =====
-- `pm_free_page`, and what it does to a page that was allocated.
use xbt_os_misaka.Prelude.{
  ℕ, ◌/◌, ◌%◌, ◌^◌, ◌<◌, ◌≡◌, ◌≢◌, ◌==◌, if◌then◌else◌, get_or, set, length, length-set, arith,
  bit_and-le, mask, complement, inl, inr, some, sym, ◌∙◌, store-eq_some,
}
use xbt_os_misaka.Physmem.{Physmem, pm_alloc_page, pm_free_page, page_size}
use xbt_os_misaka.Physmem.Alloc.{Allocated-of}
use xbt_os_misaka.Physmem.Bitmap.{
  used, IsValid, get_or-lt, set-AreWords, without_mark, marked-set_unmark,
}

-- `pm_free_page` clears the frame of the address, and no other, if the frame's word lies in memory.
pub pm_free_page-clears :
    {pm : Physmem} (address : ℕ)
    → IsValid pm
    → address / page_size / 32 < length pm.words
    → (pm' : Physmem) × (pm_free_page pm address ≡ some pm')
      × IsValid pm'
      × ((g : ℕ) → used pm' g ≡ (if address / page_size == g then 0 else used pm g))
unfolding pm_free_page
pm_free_page-clears {pm} address v inside =
    let f = address / page_size in
    let w = without_mark pm.words f in
    let w_lt : w < 2 ^ 32 = omega (
      arith,
      get_or-lt pm.words (f / 32) v.words,
      bit_and-le 32 (get_or pm.words (f / 32) 0) (complement 32 (mask (f % 32)))
          (get_or-lt pm.words (f / 32) v.words),
    ) in
    (
      record pm { words = set pm.words (f / 32) w },
      rw (store-eq_some pm.words (f / 32) w inside),
      record {
        fits = omega (arith, v.fits, length-set pm.words (f / 32) w);
        addressable = v.addressable;
        words = set-AreWords pm.words (f / 32) w v.words w_lt;
      },
      λ g. marked-set_unmark pm.words f g inside,
    )

-- The page that was allocated is free again, and nothing else has changed.
pub free_alloc :
    {pm pm' : Physmem} {address : ℕ}
    → IsValid pm
    → pm_alloc_page pm ≡ some (address, pm')
    → address ≢ 0
    → (pm'' : Physmem) × (pm_free_page pm' address ≡ some pm'')
      × ((g : ℕ) → used pm'' g ≡ used pm g)
free_alloc {pm} {pm'} {address} v run taken =
    let done = Allocated-of v run in
    elim done.outcome [
      | inl (f, takes) ↦
          let frame : address / page_size ≡ f = omega (arith, takes.at) in
          let (pm'', freed, _, clears) =
            pm_free_page-clears address done.valid
              (omega (arith, frame, takes.in_range, v.fits, done.same_length)) in
          (pm'', freed, λ g. ground (arith, clears g, takes.marks g, frame, takes.free))
      | inr none_free ↦ absurd (taken none_free.null)
    ]

-- Two pages that are allocated one after the other are different.
pub alloc-ne_alloc :
    {pm pm₁ pm₂ : Physmem} {a b : ℕ}
    → IsValid pm
    → pm_alloc_page pm ≡ some (a, pm₁)
    → pm_alloc_page pm₁ ≡ some (b, pm₂)
    → b ≢ 0
    → a ≢ b
alloc-ne_alloc {pm} {pm₁} {pm₂} {a} {b} v first second taken =
    let done = Allocated-of v first in
    let done₁ = Allocated-of done.valid second in
    elim done.outcome [
      | inr none_free ↦ λ e. taken (sym e ∙ none_free.null)
      | inl (f, takes) ↦ elim done₁.outcome [
        | inr none_free ↦ λ e. taken none_free.null
        | inl (g, takes₁) ↦ ground (arith, takes.at, takes₁.at, takes₁.free, takes.marks g)
      ]
    ]
