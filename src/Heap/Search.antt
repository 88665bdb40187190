-- ===== src/Heap/Search.antt =====
-- kernel/memory/heap.cpp: the search of `kmalloc`.
use xbt_os_misaka.Heap.{Heap, allocate_block, header_size, search_list}
use xbt_os_misaka.Heap.Allocate.{allocate_block-HandsOut}
use xbt_os_misaka.Heap.Chain.{Chain, HandsOut, NoFit, heap_end, link}
use xbt_os_misaka.Prelude.{
  ℕ, zero, suc, ◌+◌, ◌≤◌, ◌<◌, ◌≡◌, ◌⊎◌, inl, inr, refl, ap, sym, ◌∙◌, ◌==◌, ◌&&◌, leb,
  if◌then◌else◌, Bool, true, false, List, [], ◌∷◌, arith, Bool-cases, some, length, Option,
}

-- What the search comes to.
abbrev pub Outcome : Heap → ℕ → ℕ → ℕ → List ℕ → Option (ℕ × Heap) → Type 0
Outcome h low prev total qs run =
    ((run ≡ some (0, h)) × NoFit h.header qs total)
    ⊎ ((block : ℕ) × (h' : Heap) × (run ≡ some (block + header_size, h'))
        × HandsOut h h' low prev total qs block)

-- A block that is passed over.
module _ (h h' : Heap) (low prev total q : ℕ) (qs : List ℕ) (block : ℕ) (before : prev < low)
    (lo : low ≤ q) (least : header_size ≤ (h.header q).size)
    (fits : q + (h.header q).size ≤ heap_end) (linked : link h prev ≡ q) (positive : 0 < q)
    (out : HandsOut h h' (q + (h.header q).size) q total qs block) where
  same_link : link h' prev ≡ q
  same_link = elim (Bool-cases (prev == 0)) [
    | inl first ↦ rw first (
        out.same_head (omega (arith, positive))
        ∙ ap (λ (t : Bool). if t then h.free_list else (h.header prev).next) (sym first)
        ∙ linked)
    | inr more ↦ rw more (
        ap (λ b. b.next) (out.below prev (omega arith) (omega arith))
        ∙ ap (λ (t : Bool). if t then h.free_list else (h.header prev).next) (sym more)
        ∙ linked)
  ]

  next-link : link h' q ≡ (h'.header q).next
  next-link = ground (arith, positive)

  pass-HandsOut : HandsOut h h' low prev total (q ∷ qs) block
  pass-HandsOut =
      let size = out.same_size (omega (arith, positive)) in
      let use_flag = out.same_use (omega (arith, positive)) in
      record {
        blocks = q ∷ out.blocks;
        chain = rw (same_link, size) (refl, lo, least, fits, rw (← next-link) out.chain);
        below = λ r r_lt ne. out.below r (omega arith) (omega arith);
        same_size = λ ne. ap (λ b. b.size) (out.below prev (omega arith) (omega arith));
        same_use = λ ne. ap (λ b. b.is_free) (out.below prev (omega arith) (omega arith));
        same_head = λ ne. out.same_head (omega (arith, positive));
        above = omega (arith, out.above);
        inside = out.inside;
        apart = λ x n avoids.
            let (left, right) = out.apart x n (avoids.1) in
            (left, (rw (size, use_flag) (avoids.0), right));
        own = rw (size, use_flag) ((λ _. inl out.above), out.own);
        grows = omega (arith, out.grows);
      }

pub search_list_lem :
    (qs : List ℕ) (fuel : ℕ) (h : Heap) (low curr prev total : ℕ)
    → length qs < fuel
    → 0 < low
    → prev < low
    → header_size ≤ total
    → link h prev ≡ curr
    → Chain h.header low curr qs
    → Outcome h low prev total qs (search_list fuel h curr prev total)
unfolding search_list
search_list_lem qs zero h low curr prev total fuel positive before least linked chain =
    absurd (omega arith)
search_list_lem [] (suc fuel) h low curr prev total enough positive before least linked chain =
    inl (rw chain refl, tt)
search_list_lem (q ∷ qs) (suc fuel) h low curr prev total enough positive before least linked
      (at, lo, q_least, fits, rest) =
    let b = h.header q in
    let ne : (q == 0) ≡ false = ground (arith, lo, positive) in
    let linked_q : link h prev ≡ q = linked ∙ at in
    elim (Bool-cases (b.is_free && leb total b.size)) [
      | inl fit ↦
          let unused : b.is_free ≡ true = ground (arith, fit) in
          let room : total ≤ b.size = ground (arith, fit) in
          inr (
            q,
            allocate_block h q prev total,
            rw (at, ne, fit)
                (ap (λ a. some (a, allocate_block h q prev total)) (omega (arith, fits))),
            allocate_block-HandsOut h low prev total q qs positive before lo least room fits rest
                unused,
          )
      | inr no_fit ↦
          elim (search_list_lem qs fuel h (q + b.size) b.next q total (omega arith)
            (omega (arith, lo)) (omega (arith, q_least)) least (ground (arith, lo, positive))
            rest) [
              | inl (run, none_fits) ↦ inl (rw (at, ne, no_fit) run, (no_fit, none_fits))
              | inr (block, h', run, out) ↦ inr (
                block,
                h',
                rw (at, ne, no_fit) run,
                pass-HandsOut h h' low prev total q qs block before lo q_least fits linked_q
                    (omega (arith, lo, positive)) out,
              )
            ]
    ]
