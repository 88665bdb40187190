-- ===== src/Vfs/Added.antt =====
-- A file put behind the last slot.
use xbt_os_misaka.Prelude.{
  ℕ, ◌+◌, ◌<◌, ◌≡◌, ◌≢◌, refl, ap, ◌⊎◌, inl, inr, arith, none, some, ◌==◌, if◌then◌else◌,
  Bool-cases, Option-cases, sym, ◌∙◌, set, get_or-set, length-set, fun_ext, ==_iff,
}
use xbt_os_misaka.KString.{Bytes, text, streq}
use xbt_os_misaka.KString.Compare.{streq_iff}
use xbt_os_misaka.Vfs.{File, FileSystem, file_at, zero_file, max_files}
use xbt_os_misaka.Vfs.Search.{
  IsFile, IsValid, slot_of, view, slot_of-some, slot_of-none, slot_of-eq,
}
use xbt_os_misaka.Vfs.Slots.{view-eq_some, view-eq_none, view-none_of, streq-ne}
use xbt_os_misaka.Vfs.Store.{update}

abbrev pub added : FileSystem → File → FileSystem
added fs f = record fs { files = set fs.files fs.file_count f; file_count = fs.file_count + 1 }

module _ {fs : FileSystem} (v : IsValid fs) (room : fs.file_count < max_files) (f : File)
    (good : IsFile f) (n : Bytes) (named : text f.name ≡ text n) (fresh : slot_of fs n ≡ none) where
  abbrev fs' : FileSystem
  fs' = added fs f

  file_at-added : (j : ℕ) → file_at fs' j ≡ (if fs.file_count == j then f else file_at fs j)
  file_at-added j = get_or-set fs.files fs.file_count j f zero_file (omega (arith, v.table))

  file_at-last : file_at fs' fs.file_count ≡ f
  file_at-last = rw (file_at-added fs.file_count, (==_iff fs.file_count fs.file_count).1 refl)

  file_at-old : (j : ℕ) → j < fs.file_count → file_at fs' j ≡ file_at fs j
  file_at-old j lt = ground (arith, file_at-added j)

  -- A slot of the new table is the new one or an old one.
  slot-cases : (j : ℕ) → j < fs.file_count + 1 → (j ≡ fs.file_count) ⊎ (j < fs.file_count)
  slot-cases j lt = omega arith

  IsFile-added : (j : ℕ) → j < fs.file_count + 1 → IsFile (file_at fs' j)
  IsFile-added j lt = elim (slot-cases j lt) [
    | inl e ↦ rw (e, file_at-last) good
    | inr old ↦ rw (file_at-old j old) (v.slot j old)
  ]

  old-ne : (j : ℕ) → j < fs.file_count → text (file_at fs' j).name ≢ text n
  old-ne j old h = slot_of-none n j v fresh old (rw (file_at-old j old) at h)

  last_named : text (file_at fs' fs.file_count).name ≡ text n
  last_named = rw file_at-last named

  distinct_added :
      (a b : ℕ)
      → a < fs.file_count + 1
      → b < fs.file_count + 1
      → text (file_at fs' a).name ≡ text (file_at fs' b).name
      → a ≡ b
  distinct_added a b a_lt b_lt e = elim (slot-cases a a_lt) [
    | inl a_last ↦ elim (slot-cases b b_lt) [
      | inl b_last ↦ a_last ∙ sym b_last
      | inr b_old ↦ absurd (old-ne b b_old (sym e ∙ rw a_last last_named))
    ]
    | inr a_old ↦ elim (slot-cases b b_lt) [
      | inl b_last ↦ absurd (old-ne a a_old (e ∙ rw b_last last_named))
      | inr b_old ↦ v.distinct a b a_old b_old (rw (file_at-old a a_old, file_at-old b b_old) at e)
    ]
  ]

  pub added-IsValid : IsValid fs'
  added-IsValid = record {
    table = length-set fs.files fs.file_count f ∙ v.table;
    count = omega arith;
    slot = IsFile-added;
    distinct = distinct_added;
  }

  view_self : (q : Bytes) → text n ≡ text q → view fs' q ≡ some (text f.contents)
  view_self q e =
      view-eq_some fs' q fs.file_count
        (slot_of-eq q fs.file_count added-IsValid (omega arith) (last_named ∙ e))
      ∙ ap {A = File} (λ g. some (text g.contents)) file_at-last

  view_other : (q : Bytes) → text n ≢ text q → view fs' q ≡ view fs q
  view_other q ne = elim (Option-cases (slot_of fs q)) [
    | inl absent ↦
        view-none_of fs' q (λ j lt h. elim (slot-cases j lt) [
          | inl last ↦ ne (sym last_named ∙ rw last at h)
          | inr old ↦ slot_of-none q j v absent old (rw (file_at-old j old) at h)
        ])
        ∙ sym (view-eq_none fs q absent)
    | inr (k, found) ↦
        let (lt, k_named) = slot_of-some fs q found in
        view-eq_some fs' q k
          (slot_of-eq q k added-IsValid (omega arith) (rw (file_at-old k lt) k_named))
        ∙ ap {A = File} (λ g. some (text g.contents)) (file_at-old k lt)
        ∙ sym (view-eq_some fs q k found)
  ]

  pub view-added : view fs' ≡ update (view fs) n (some (text f.contents))
  view-added = fun_ext λ q. elim (Bool-cases (streq n q)) [
    | inl e ↦ rw e (view_self q ((streq_iff n q).0 e))
    | inr e ↦ rw e (view_other q (streq-ne n q e))
  ]
