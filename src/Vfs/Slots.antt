-- ===== src/Vfs/Slots.antt =====
-- Writes to one slot of the table: a file replaced by one of the same name, and a file put behind
-- the last. They keep the invariant, and change the view at that name only.
use xbt_os_misaka.Prelude.{
  ℕ, ◌<◌, ◌≡◌, ◌≢◌, refl, ap, inl, inr, arith, none, some, false, ◌==◌, if◌then◌else◌, Bool-cases,
  Option-cases, sym, ◌∙◌, set, get_or-set, ==_iff, length-set, fun_ext,
}
use xbt_os_misaka.KString.{Bytes, text, streq}
use xbt_os_misaka.KString.Compare.{streq_iff}
use xbt_os_misaka.Vfs.{File, FileSystem, file_at, zero_file}
use xbt_os_misaka.Vfs.Search.{
  IsFile, IsValid, slot_of, view, slot_of-some, slot_of-none, slot_of-eq,
}
use xbt_os_misaka.Vfs.Store.{update}

pub view-eq_some :
    (fs : FileSystem) (q : Bytes) (i : ℕ)
    → slot_of fs q ≡ some i
    → view fs q ≡ some (text (file_at fs i).contents)
unfolding view
view-eq_some fs q i e = rw e

pub view-eq_none : (fs : FileSystem) (q : Bytes) → slot_of fs q ≡ none → view fs q ≡ none
unfolding view
view-eq_none fs q e = rw e

-- A name that no slot has leads nowhere.
pub view-none_of :
    (fs : FileSystem) (q : Bytes)
    → ((j : ℕ) → j < fs.file_count → text (file_at fs j).name ≢ text q)
    → view fs q ≡ none
view-none_of fs q other = elim (Option-cases (slot_of fs q)) [
  | inl e ↦ view-eq_none fs q e
  | inr (k, e) ↦ let (lt, named) = slot_of-some fs q e in absurd (other k lt named)
]

pub streq-ne : (a b : Bytes) → streq a b ≡ false → text a ≢ text b
streq-ne a b e h = ground (arith, streq_iff a b)

abbrev pub replaced : FileSystem → ℕ → File → FileSystem
replaced fs i f = record fs { files = set fs.files i f }

module _ {fs : FileSystem} (v : IsValid fs) (i : ℕ) (lt : i < fs.file_count) (f : File)
    (good : IsFile f) (same : text f.name ≡ text (file_at fs i).name) where
  abbrev fs' : FileSystem
  fs' = replaced fs i f

  file_at-replaced : (j : ℕ) → file_at fs' j ≡ (if i == j then f else file_at fs j)
  file_at-replaced j = get_or-set fs.files i j f zero_file (omega (arith, v.table, v.count))

  name-replaced : (j : ℕ) → text (file_at fs' j).name ≡ text (file_at fs j).name
  name-replaced j = elim (Bool-cases (i == j)) [
    | inl e ↦
        let i≡j : i ≡ j = (==_iff i j).0 e in
        rw (file_at-replaced j, e) (same ∙ ap (λ k. text (file_at fs k).name) i≡j)
    | inr e ↦ rw (file_at-replaced j, e)
  ]

  IsFile-replaced : (j : ℕ) → j < fs.file_count → IsFile (file_at fs' j)
  IsFile-replaced j j_lt = elim (Bool-cases (i == j)) [
    | inl e ↦ rw (file_at-replaced j, e) good
    | inr e ↦ rw (file_at-replaced j, e) (v.slot j j_lt)
  ]

  pub replaced-IsValid : IsValid fs'
  replaced-IsValid = record {
    table = length-set fs.files i f ∙ v.table;
    count = v.count;
    slot = IsFile-replaced;
    distinct =
        λ a b a_lt b_lt e. v.distinct a b a_lt b_lt (sym (name-replaced a) ∙ e ∙ name-replaced b);
  }

  -- The slot of another name is another slot.
  slot-ne :
      (n q : Bytes) (k : ℕ)
      → slot_of fs n ≡ some i
      → streq n q ≡ false
      → slot_of fs q ≡ some k
      → (i == k) ≡ false
  slot-ne n q k at e found =
      let (_, q_named) = slot_of-some fs q found in
      let (_, n_named) = slot_of-some fs n at in ground (arith, streq_iff n q)

  view_other : (n q : Bytes) → slot_of fs n ≡ some i → streq n q ≡ false → view fs' q ≡ view fs q
  view_other n q at e = elim (Option-cases (slot_of fs q)) [
    | inl absent ↦
        view-none_of fs' q (λ j j_lt h. slot_of-none q j v absent j_lt (sym (name-replaced j) ∙ h))
        ∙ sym (view-eq_none fs q absent)
    | inr (k, found) ↦
        let (k_lt, named) = slot_of-some fs q found in
        let kept : file_at fs' k ≡ file_at fs k =
          rw (file_at-replaced k, slot-ne n q k at e found) in
        view-eq_some fs' q k (slot_of-eq q k replaced-IsValid k_lt (name-replaced k ∙ named))
        ∙ ap {A = File} (λ g. some (text g.contents)) kept
        ∙ sym (view-eq_some fs q k found)
  ]

  view_self :
      (n q : Bytes) → slot_of fs n ≡ some i → text n ≡ text q → view fs' q ≡ some (text f.contents)
  view_self n q at e =
      let (_, named) = slot_of-some fs n at in
      let new : file_at fs' i ≡ f = rw (file_at-replaced i, (==_iff i i).1 refl) in
      view-eq_some fs' q i (slot_of-eq q i replaced-IsValid lt (name-replaced i ∙ named ∙ e))
      ∙ ap {A = File} (λ g. some (text g.contents)) new

  pub view-replaced :
      (n : Bytes) → slot_of fs n ≡ some i → view fs' ≡ update (view fs) n (some (text f.contents))
  view-replaced n at = fun_ext λ q. elim (Bool-cases (streq n q)) [
    | inl e ↦ rw e (view_self n q at ((streq_iff n q).0 e))
    | inr e ↦ rw e (view_other n q at e)
  ]
