-- ===== src/Vfs/Removed.antt =====
-- `remove_slot`: the last file takes the place of the removed one.
use xbt_os_misaka.Prelude.{
  ℕ, ◌+◌, ◌-◌, ◌%◌, ◌^◌, ◌<◌, ◌≡◌, ◌≢◌, ap, inl, inr, arith, length, none, some, false, ◌==◌,
  if◌then◌else◌, Bool-cases, Option-cases, sym, ◌∙◌, List, get_or, set, get_or-set, length-set,
  fun_ext, store-eq_some,
}
use xbt_os_misaka.KString.{Bytes, text, streq}
use xbt_os_misaka.KString.Compare.{streq_iff}
use xbt_os_misaka.Vfs.{File, FileSystem, file_at, zero_file, max_files, remove_slot, ok}
use xbt_os_misaka.Vfs.Search.{IsValid, slot_of, view, slot_of-some, slot_of-none, slot_of-eq}
use xbt_os_misaka.Vfs.Slots.{view-eq_some, view-eq_none, view-none_of, streq-ne}
use xbt_os_misaka.Vfs.Store.{update}

-- The old place of the file at `j`.
abbrev pub old_place : ℕ → ℕ → ℕ → ℕ
old_place i last j = if i == j then last else j

-- The table without the file at `i`.
pub record IsWithout (fs : FileSystem) (i : ℕ) (fs' : FileSystem) : Type 0 where
  pub table : length fs'.files ≡ max_files
  pub counted : fs'.file_count + 1 ≡ fs.file_count
  pub placed :
      (j : ℕ) → j < fs'.file_count → file_at fs' j ≡ file_at fs (old_place i fs'.file_count j)

module _ {fs : FileSystem} (v : IsValid fs) (i : ℕ) (lt : i < fs.file_count) where
  abbrev last : ℕ
  last = fs.file_count - 1

  abbrev cleared : List File
  cleared = set fs.files i zero_file

  abbrev moved : List File
  moved = set cleared i (get_or cleared last zero_file)

  abbrev final : List File
  final = if i == last then cleared else set moved last zero_file

  length-cleared : length cleared ≡ max_files
  length-cleared = length-set fs.files i zero_file ∙ v.table

  length-moved : length moved ≡ max_files
  length-moved = length-set cleared i (get_or cleared last zero_file) ∙ length-cleared

  length-final : length final ≡ max_files
  length-final = elim (Bool-cases (i == last)) [
    | inl e ↦ rw e length-cleared
    | inr e ↦ rw e (length-set moved last zero_file ∙ length-moved)
  ]

  get_or-cleared : (j : ℕ) → (i == j) ≡ false → get_or cleared j zero_file ≡ file_at fs j
  get_or-cleared j e =
      get_or-set fs.files i j zero_file zero_file (omega (arith, v.table, v.count)) ∙ rw e

  -- Below the last slot a move reads as it should.
  get_or-moved :
      (j : ℕ) → (i == last) ≡ false → get_or moved j zero_file ≡ file_at fs (old_place i last j)
  get_or-moved j e = elim (Bool-cases (i == j)) [
    | inl same ↦
        get_or-set cleared i j (get_or cleared last zero_file) zero_file
          (omega (arith, length-cleared, v.count))
        ∙ rw same (get_or-cleared last e)
    | inr other ↦
        get_or-set cleared i j (get_or cleared last zero_file) zero_file
          (omega (arith, length-cleared, v.count))
        ∙ rw other (get_or-cleared j other)
  ]

  get_or-final : (j : ℕ) → j < last → get_or final j zero_file ≡ file_at fs (old_place i last j)
  get_or-final j j_lt = elim (Bool-cases (i == last)) [
    | inl e ↦ let other : (i == j) ≡ false = ground arith in rw (e, other) (get_or-cleared j other)
    | inr e ↦
        let other : (last == j) ≡ false = ground arith in
        rw e (
          get_or-set moved last j zero_file zero_file (omega (arith, length-moved, v.count))
          ∙ rw other (get_or-moved j e))
  ]

  remove_slot-run : remove_slot fs i ≡ some (ok, record fs { files = final; file_count = last })
  unfolding remove_slot
  remove_slot-run =
      let wrap : (fs.file_count + 2 ^ 32 - 1) % 2 ^ 32 ≡ last = omega (arith, v.count) in
      rw (wrap, store-eq_some fs.files i zero_file (omega (arith, v.table, v.count)))
        (elim (Bool-cases (i == last)) [
          | inl e ↦ rw e
          | inr e ↦ rw (
            e,
            store-eq_some cleared i (get_or cleared last zero_file)
                (omega (arith, length-cleared, v.count)),
            store-eq_some moved last zero_file (omega (arith, length-moved, v.count)),
          )
        ])

  pub remove_slot-IsWithout :
      (fs' : FileSystem) × (remove_slot fs i ≡ some (ok, fs')) × IsWithout fs i fs'
  remove_slot-IsWithout = (
    record fs { files = final; file_count = last },
    remove_slot-run,
    record { table = length-final; counted = omega arith; placed = get_or-final },
  )

module _ {fs fs' : FileSystem} (v : IsValid fs) (i : ℕ) (lt : i < fs.file_count)
    (w : IsWithout fs i fs') where
  abbrev place : ℕ → ℕ
  place j = old_place i fs'.file_count j

  place-lt : (j : ℕ) → j < fs'.file_count → place j < fs.file_count
  place-lt j j_lt = ground (arith, w.counted)

  place-ne : (j : ℕ) → j < fs'.file_count → place j ≢ i
  place-ne j j_lt = ground (arith, w.counted)

  place_injective : (a b : ℕ) → a < fs'.file_count → b < fs'.file_count → place a ≡ place b → a ≡ b
  place_injective a b a_lt b_lt e = ground (arith, w.counted)

  pub IsWithout-IsValid : IsValid fs'
  IsWithout-IsValid = record {
    table = w.table;
    count = omega (arith, w.counted, v.count);
    slot = λ j j_lt. rw (w.placed j j_lt) (v.slot (place j) (place-lt j j_lt));
    distinct = λ a b a_lt b_lt e. place_injective a b a_lt b_lt (
        v.distinct (place a) (place b) (place-lt a a_lt) (place-lt b b_lt)
          (rw (w.placed a a_lt, w.placed b b_lt) at e));
  }

  -- Where the file at `k` is now.
  new_place : ℕ → ℕ
  new_place k = if k == fs'.file_count then i else k

  new_place-lt : (k : ℕ) → k < fs.file_count → k ≢ i → new_place k < fs'.file_count
  unfolding new_place
  new_place-lt k k_lt ne = ground (arith, w.counted)

  place-new_place : (k : ℕ) → k < fs.file_count → k ≢ i → place (new_place k) ≡ k
  unfolding new_place
  place-new_place k k_lt ne = ground (arith, w.counted)

  file_at-new_place : (k : ℕ) → k < fs.file_count → k ≢ i → file_at fs' (new_place k) ≡ file_at fs k
  file_at-new_place k k_lt ne =
      w.placed (new_place k) (new_place-lt k k_lt ne) ∙ ap (file_at fs) (place-new_place k k_lt ne)

  module _ (n : Bytes) (at : slot_of fs n ≡ some i) where
    named : text (file_at fs i).name ≡ text n
    named = (slot_of-some fs n at).1

    view_self : (q : Bytes) → text n ≡ text q → view fs' q ≡ none
    view_self q e = view-none_of fs' q λ j j_lt h. place-ne j j_lt (
        v.distinct (place j) i (place-lt j j_lt) lt ((rw (w.placed j j_lt) at h) ∙ sym (named ∙ e)))

    view_other : (q : Bytes) → text n ≢ text q → view fs' q ≡ view fs q
    view_other q ne = elim (Option-cases (slot_of fs q)) [
      | inl absent ↦
          view-none_of fs' q (λ j j_lt h.
            slot_of-none q (place j) v absent (place-lt j j_lt) (rw (w.placed j j_lt) at h))
          ∙ sym (view-eq_none fs q absent)
      | inr (k, found) ↦
          let (k_lt, k_named) = slot_of-some fs q found in
          let k_ne : k ≢ i =
            λ e. ne (sym named ∙ ap (λ m. text (file_at fs m).name) (sym e) ∙ k_named) in
          let kept = file_at-new_place k k_lt k_ne in
          view-eq_some fs' q (new_place k) (
            slot_of-eq q (new_place k) IsWithout-IsValid (new_place-lt k k_lt k_ne)
              (rw kept k_named))
          ∙ ap {A = File} (λ g. some (text g.contents)) kept
          ∙ sym (view-eq_some fs q k found)
    ]

    pub view-removed : view fs' ≡ update (view fs) n none
    view-removed = fun_ext λ q. elim (Bool-cases (streq n q)) [
      | inl e ↦ rw e (view_self q ((streq_iff n q).0 e))
      | inr e ↦ rw e (view_other q (streq-ne n q e))
    ]
