-- ===== src/Vfs/Refine/Contents.antt =====
-- `write` and `append`.
use mathlib.Core.Option
use xbt_os_misaka.Prelude.{
  ℕ, ◌+◌, ◌≡◌, refl, ap, inl, inr, [], Option, none, some, Bool, true, false, leb, if◌then◌else◌,
  Bool-cases, Option-cases, ◌∙◌, Run, ◌>>=◌,
}
use xbt_os_misaka.KString.{Bytes, text}
use xbt_os_misaka.KString.Compare.{streq_refl}
use xbt_os_misaka.Vfs.{
  FileSystem, FileResult, file_at, max_files, ok, err_full, create, open_file, write_file,
  append_file, write, append, may_write, is_ok,
}
use xbt_os_misaka.Vfs.Names.{name_of}
use xbt_os_misaka.Vfs.Refine.Create.{create-Refines, create-eq_invalid}
use xbt_os_misaka.Vfs.Slots.{view-eq_some, view-eq_none}
use xbt_os_misaka.Vfs.Refine.{store_of, Refines}
use xbt_os_misaka.Vfs.Search.{IsValid, slot_of, view, find-eq_slot_of, find-eq_none}
use xbt_os_misaka.Vfs.Store
use xbt_os_misaka.Vfs.Store.{Store}
use xbt_os_misaka.Vfs.Refine.Stored.{
  Fits, write_file-Refines, append_file-Refines, view_of_lookup, create-eq_add,
}

-- A string that leaves room for a file in the address space.
-- `create`, and what follows it in `write` and `append`.
module _ {fs : FileSystem} (v : IsValid fs) (path : Option Bytes) (n : Bytes)
    (named : name_of path ≡ some n) (absent : slot_of fs n ≡ none)
    (body : FileSystem → ℕ → Run (FileResult × FileSystem)) (f : Store → FileResult × Store)
    (goes_on : FileResult → Bool) (on_ok : goes_on ok ≡ true) (on_full : goes_on err_full ≡ false)
    (step : (fs₁ : FileSystem) (i : ℕ)
      → IsValid fs₁
      → slot_of fs₁ n ≡ some i
      → text (file_at fs₁ i).contents ≡ []
      → Refines (body fs₁ i) (f (store_of fs₁))) where
  abbrev tried : FileResult × FileSystem → Run (FileResult × FileSystem)
  tried (r, fs₁) = if goes_on r then open_file body fs₁ path else some (r, fs₁)

  create-added : Refines (create fs path) (Store.add (store_of fs) n)
  create-added =
      rw (create-eq_add (store_of fs) path n named (view-eq_none fs n absent)) at
        (create-Refines path v)

  open_new :
      (fs₁ : FileSystem)
      → IsValid fs₁
      → view fs₁ n ≡ some []
      → Refines (open_file body fs₁ path) (f (store_of fs₁))
  unfolding open_file
  open_new fs₁ v₁ new =
      let (i, at, holds) = view_of_lookup fs₁ n new in
      rw (find-eq_slot_of fs₁ path n v₁ named, at) (step fs₁ i v₁ at holds)

  create_then-Refines :
      Refines (create fs path >>= tried) (Store.after f (Store.add (store_of fs) n))
  unfolding Store.add
  create_then-Refines =
      let (fs₁, run, v₁, holds) = create-added in
      let s = store_of fs in
      elim (Bool-cases (leb max_files fs.file_count)) [
        | inl full ↦
            let e : Store.add s n ≡ (err_full, s) = rw full in
            rw (run, e, on_full) (fs₁, refl, v₁, rw e at holds)
        | inr free ↦
            let s₁ : Store = record {
              lookup = Store.update (view fs) n (some []);
              count = fs.file_count + 1;
            } in
            let e : Store.add s n ≡ (ok, s₁) = rw free in
            let held : store_of fs₁ ≡ s₁ = rw e at holds in
            let new : view fs₁ n ≡ some [] =
              ap (λ (t : Store). t.lookup n) held ∙ rw (streq_refl n) in
            rw (run, e, on_ok) (rw held at (open_new fs₁ v₁ new))
      ]

-- `write` gives the name of the path the new contents; a name that is not there is added first, and
-- stays, empty, where the contents are too large. A null pointer writes the empty string.
pub write-Refines :
    {fs : FileSystem} (path content : Option Bytes)
    → IsValid fs
    → Fits (Option.get_or content [])
    → Refines
        (write fs path content)
        (Store.write (store_of fs) path (text (Option.get_or content [])))
unfolding write Store.write
write-Refines {fs} path content v fits =
    let c = Option.get_or content [] in
    elim (Option-cases (name_of path)) [
      | inl bad ↦
          let found = find-eq_none fs path bad in
          let created = create-eq_invalid fs path bad in
          (fs, rw (found, created, Store.write, bad), v, rw (Store.write, bad))
      | inr (n, named) ↦
          let found = find-eq_slot_of fs path n v named in
          elim (Option-cases (slot_of fs n)) [
            | inr (i, at) ↦
                rw (found, at, Store.write, named, view-eq_some fs n i at)
                  (write_file-Refines v n i at c fits)
            | inl absent ↦
                rw (found, absent, Store.write, named, view-eq_none fs n absent)
                  (create_then-Refines v path n named absent (λ s. write_file s c)
                    (Store.put n (text c)) may_write refl refl
                    (λ fs₁ i v₁ at _. write_file-Refines v₁ n i at c fits))
          ]
    ]

-- `append` puts the contents behind those of the name of the path; a name that is not there is added
-- first, and stays, empty, where the contents are too large. A null pointer changes nothing.
pub append-Refines :
    {fs : FileSystem} (path : Option Bytes) (c : Bytes)
    → IsValid fs
    → Fits c
    → Refines (append fs path (some c)) (Store.append (store_of fs) path (text c))
unfolding append Store.append
append-Refines {fs} path c v fits = elim (Option-cases (name_of path)) [
  | inl bad ↦
      let found = find-eq_none fs path bad in
      let created = create-eq_invalid fs path bad in
      (fs, rw (found, created, Store.append, bad), v, rw (Store.append, bad))
  | inr (n, named) ↦
      let found = find-eq_slot_of fs path n v named in
      elim (Option-cases (slot_of fs n)) [
        | inr (i, at) ↦
            rw (found, at, Store.append, named, view-eq_some fs n i at)
              (append_file-Refines v n i at c fits)
        | inl absent ↦
            rw (found, absent, Store.append, named, view-eq_none fs n absent)
              (create_then-Refines v path n named absent (λ s. append_file s c)
                (Store.put n (text c)) is_ok refl refl
                (λ fs₁ i v₁ at empty. rw empty at (append_file-Refines v₁ n i at c fits)))
      ]
]
