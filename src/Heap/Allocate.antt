-- ===== src/Heap/Allocate.antt =====
-- Handing out the block at the head of a chain.
use xbt_os_misaka.Heap.{
  Header, Heap, allocate_block, header_size, set_header, split_block, take_block,
}
use xbt_os_misaka.Heap.Chain.{
  Apart-part, Avoids-agree, Avoids-below, header-set_link, link-set_link, size-set_link,
  is_free-set_link, free_list-set_link, Chain, Chain-agree, Chain-lower, HandsOut, heap_end, link,
}
use xbt_os_misaka.Prelude.{
  ℕ, ◌+◌, ◌-◌, ◌%◌, ◌^◌, ◌≤◌, ◌<◌, ◌≡◌, inl, inr, refl, ◌∙◌, leb, true, false, List, ◌∷◌, arith,
  Bool-cases,
}

module _ (h : Heap) (low prev total q : ℕ) (qs : List ℕ) (positive : 0 < low) (before : prev < low)
    (lo : low ≤ q) (least : header_size ≤ total) (enough : total ≤ (h.header q).size)
    (fits : q + (h.header q).size ≤ heap_end)
    (rest : Chain h.header (q + (h.header q).size) (h.header q).next qs)
    (unused : (h.header q).is_free ≡ true) where
  abbrev taken : Heap
  taken = take_block h q prev

  abbrev marked : Heap
  marked = set_header h q (record (h.header q) { is_free = false })

  taken_above : (r : ℕ) → q + (h.header q).size ≤ r → taken.header r ≡ h.header r
  unfolding take_block
  taken_above r r_lo =
      header-set_link marked prev _ r (λ e. absurd (omega (arith, e))) ∙ ground (arith, r_lo)

  link-taken : link taken prev ≡ (h.header q).next
  unfolding take_block
  link-taken = link-set_link marked prev _ ∙ ground arith

  pub take-HandsOut : HandsOut h taken low prev total (q ∷ qs) q
  unfolding take_block
  take-HandsOut = record {
    blocks = qs;
    chain = rw link-taken (
        Chain-lower taken.header qs (q + (h.header q).size) low (h.header q).next
          (omega (arith, lo))
          (Chain-agree h.header taken.header qs (q + (h.header q).size) (h.header q).next
            taken_above rest));
    below = λ r r_lt ne. header-set_link marked prev _ r ne ∙ ground (arith, r_lt);
    same_size = λ ne. size-set_link marked prev _ ∙ ground arith;
    same_use = λ ne. is_free-set_link marked prev _ ∙ ground arith;
    same_head = λ ne. free_list-set_link marked prev _ ne;
    above = lo;
    inside = omega (arith, enough, fits);
    apart = λ x n avoids. (
      Apart-part q total q (h.header q).size x n (omega arith) (omega (arith, enough))
          (avoids.0 unused),
      Avoids-agree h.header taken.header qs (q + (h.header q).size) (h.header q).next x n
          taken_above rest (avoids.1),
    );
    own =
        Avoids-below taken.header qs (q + (h.header q).size) (h.header q).next q total
          (omega (arith, enough))
          (Chain-agree h.header taken.header qs (q + (h.header q).size) (h.header q).next
            taken_above rest);
    grows = omega arith;
  }

  abbrev rest_of : ℕ
  rest_of = q + total

  abbrev split : Heap
  split = split_block h q prev total

  no_wrap : (q + total) % 2 ^ 32 ≡ q + total
  no_wrap = omega (arith, enough, fits)

  rest_size : ((h.header q).size + 2 ^ 32 - total) % 2 ^ 32 ≡ (h.header q).size - total
  rest_size = omega (arith, enough, fits)

  abbrev rest_header : Header
  rest_header = record {
    size = (h.header q).size - total;
    is_free = true;
    next = (h.header q).next;
  }

  abbrev cut : Heap
  cut =
      set_header
        (set_header h ((q + total) % 2 ^ 32) (record {
          size = ((h.header q).size + 2 ^ 32 - total) % 2 ^ 32;
          is_free = true;
          next = (h.header q).next;
        }))
        q (record { size = total; is_free = false; next = (q + total) % 2 ^ 32 })

  split_above :
      (r : ℕ) → q + (h.header q).size ≤ r → total < (h.header q).size → split.header r ≡ h.header r
  unfolding split_block
  split_above r r_lo more =
      header-set_link cut prev q r (λ e. absurd (omega (arith, e)))
      ∙ rw (no_wrap, rest_size) (ground (arith, r_lo, more))

  header-split_rest : split.header rest_of ≡ rest_header
  unfolding split_block
  header-split_rest =
      header-set_link cut prev q rest_of (λ e. absurd (omega (arith, e)))
      ∙ rw (no_wrap, rest_size) (ground arith)

  header-split : split.header q ≡ record { size = total; is_free = false; next = rest_of }
  unfolding split_block
  header-split =
      header-set_link cut prev q q (λ e. absurd (omega (arith, e)))
      ∙ rw (no_wrap, rest_size) (ground arith)

  link-split : link split prev ≡ q
  unfolding split_block
  link-split = link-set_link cut prev q

  pub split-HandsOut :
      total + header_size ≤ (h.header q).size → HandsOut h split low prev total (q ∷ qs) q
  unfolding split_block
  split-HandsOut more =
      let above =
        λ (r : ℕ) (r_lo : q + (h.header q).size ≤ r). split_above r r_lo (omega (arith, more)) in
      let whole : rest_of + ((h.header q).size - total) ≡ q + (h.header q).size =
        omega (arith, more) in
      let after : Chain split.header (q + (h.header q).size) (h.header q).next qs =
        Chain-agree h.header split.header qs (q + (h.header q).size) (h.header q).next above rest in
      record {
        blocks = q ∷ rest_of ∷ qs;
        chain =
            rw (link-split, header-split, header-split_rest)
              (
                refl,
                lo,
                least,
                omega (arith, enough, fits),
                (refl, omega arith, omega (arith, more), omega (arith, more, fits), rw whole after),
              );
        below = λ r r_lt ne.
            header-set_link cut prev q r ne ∙ rw (no_wrap, rest_size) (ground (arith, r_lt));
        same_size = λ ne. size-set_link cut prev q ∙ rw (no_wrap, rest_size) (ground arith);
        same_use = λ ne. is_free-set_link cut prev q ∙ rw (no_wrap, rest_size) (ground arith);
        same_head = λ ne. free_list-set_link cut prev q ne;
        above = lo;
        inside = omega (arith, enough, fits);
        apart = λ x n avoids. (
          Apart-part q total q (h.header q).size x n (omega arith) (omega (arith, enough))
              (avoids.0 unused),
          rw (header-split, header-split_rest)
              (
                (λ used. absurd (ground (arith, used))),
                (
                  (λ _.
                      Apart-part rest_of ((h.header q).size - total) q (h.header q).size x n
                        (omega arith) (omega (arith, more)) (avoids.0 unused)),
                  Avoids-agree h.header split.header qs (q + (h.header q).size) (h.header q).next x
                      n above rest (avoids.1),
                ),
              ),
        );
        own =
            rw (header-split, header-split_rest)
              (
                (λ used. absurd (ground (arith, used))),
                (
                  (λ _. inr (omega arith)),
                  Avoids-below split.header qs (q + (h.header q).size) (h.header q).next q total
                      (omega (arith, enough)) after,
                ),
              );
        grows = omega arith;
      }

  -- Both ways of handing the block out.
  pub allocate_block-HandsOut : HandsOut h (allocate_block h q prev total) low prev total (q ∷ qs) q
  unfolding allocate_block
  allocate_block-HandsOut =
      elim (Bool-cases (leb ((total + header_size + 32) % 2 ^ 32) (h.header q).size)) [
        | inl big ↦ rw big (split-HandsOut (ground (arith, big, enough, fits)))
        | inr small ↦ rw small take-HandsOut
      ]
