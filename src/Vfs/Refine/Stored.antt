-- ===== src/Vfs/Refine/Stored.antt =====
-- A slot whose content is written or extended.
use xbt_os_misaka.Prelude.{
  ℕ, ◌+◌, ◌%◌, ◌^◌, ◌≤◌, ◌<◌, ◌≡◌, refl, ap, inl, inr, ◌++◌, arith, length, length-append, Option,
  none, some, leb, Bool-cases, Option-cases, sym, ◌∙◌, store-eq_some,
}
use xbt_os_misaka.KString.{Bytes, text}
use xbt_os_misaka.KString.Compare.{kstrlen-eq-length}
use xbt_os_misaka.KString.Copy.{kmemcpy-poke, kmemcpy-poke_behind}
use xbt_os_misaka.Vfs.{File, FileSystem, file_at, file_data_size, write_file, append_file}
use xbt_os_misaka.Vfs.Names.{name_of}
use xbt_os_misaka.Vfs.Slots.{replaced, replaced-IsValid, view-replaced, view-eq_some, view-eq_none}
use xbt_os_misaka.Vfs.Refine.{store_of, Refines}
use xbt_os_misaka.Vfs.Search.{IsFile, IsValid, slot_of, slot_of-some, view}
use xbt_os_misaka.Vfs.Store
use xbt_os_misaka.Vfs.Store.{Store}

abbrev pub Fits : Bytes → Type 0
Fits c = length (text c) + file_data_size ≤ 2 ^ 32

module _ {fs : FileSystem} (v : IsValid fs) (n : Bytes) (i : ℕ) (at : slot_of fs n ≡ some i) where
  abbrev pub file : File
  file = file_at fs i

  pub lt : i < fs.file_count
  lt = (slot_of-some fs n at).0

  pub in_table : i < length fs.files
  in_table = omega (arith, lt, v.table, v.count)

  pub old : IsFile file
  old = v.slot i lt

  -- New contents in the slot of the name.
  pub put-Refines :
      (d c : Bytes) (size : ℕ)
      → text d ≡ c
      → length d ≡ file_data_size
      → size ≡ length c
      → length c < file_data_size
      → let fs' = replaced fs i (record file { contents = d; size = size }) in
        IsValid fs' × (store_of fs' ≡ Store.assign (store_of fs) n (some c))
  put-Refines d c size t width sized small =
      let f : File = record file { contents = d; size = size } in
      let good : IsFile f = record {
        used = old.used;
        name_size = old.name_size;
        named = old.named;
        data_size = width;
        sized = sized ∙ ap length (sym t);
        room = omega (arith, sized, small);
      } in
      (
        replaced-IsValid v i lt f good refl,
        ap {B = Store} (λ l. record { lookup = l; count = fs.file_count })
            (view-replaced v i lt f good refl n at ∙ ap (λ x. Store.update (view fs) n (some x)) t),
      )

  pub write_file-Refines :
      (c : Bytes) → Fits c → Refines (write_file fs c i) (Store.put n (text c) (store_of fs))
  unfolding write_file Store.put
  write_file-Refines c fits =
      let len = kstrlen-eq-length c (omega arith) in
      elim (Bool-cases (leb file_data_size (length (text c)))) [
        | inl big ↦ (fs, rw (len, big), v, rw big)
        | inr small ↦
            let (d₁, d, copied, ended, t, width) =
              kmemcpy-poke file.contents c (ground (arith, old.data_size)) in
            let (valid, holds) =
              put-Refines d (text c) (length (text c)) t (width ∙ old.data_size) refl
                (ground arith) in
            (
              replaced fs i (record file { contents = d; size = length (text c) }),
              rw (
                len,
                small,
                copied,
                ended,
                store-eq_some fs.files i (record file { contents = d; size = length (text c) })
                    in_table,
              ),
              valid,
              rw small holds,
            )
      ]

  pub append_file-Refines :
      (c : Bytes)
      → Fits c
      → Refines (append_file fs c i) (Store.put n (text file.contents ++ text c) (store_of fs))
  unfolding append_file Store.put
  append_file-Refines c fits =
      let len = kstrlen-eq-length c (omega arith) in
      let held = text file.contents in
      let size : (file.size + length (text c)) % 2 ^ 32 ≡ length held + length (text c) =
        omega (arith, old.sized, old.room) in
      let both = length-append held (text c) in
      elim (Bool-cases (leb file_data_size (length held + length (text c)))) [
        | inl big ↦ (fs, rw (len, size, big, Store.put, both, big), v, rw (Store.put, both, big))
        | inr small ↦
            let (d₁, d, copied, ended, t, width) =
              kmemcpy-poke_behind file.contents c (ground (arith, old.data_size)) in
            let (valid, holds) =
              put-Refines d (held ++ text c) (length held + length (text c)) t
                (width ∙ old.data_size) (sym both) (ground (arith, both)) in
            (
              replaced fs i (record file { contents = d; size = length held + length (text c) }),
              rw (
                len,
                size,
                small,
                old.sized,
                copied,
                ended,
                store-eq_some fs.files i
                    (record file { contents = d; size = length held + length (text c) }) in_table,
                Store.put,
                both,
                small,
              ),
              valid,
              rw (Store.put, both, small) holds,
            )
      ]

-- A file that was created for its contents holds none yet.
pub view_of_lookup :
    (fs : FileSystem) (n : Bytes) {c : Bytes}
    → view fs n ≡ some c
    → (i : ℕ) × (slot_of fs n ≡ some i) × (text (file_at fs i).contents ≡ c)
view_of_lookup fs n {c} e = elim (Option-cases (slot_of fs n)) [
  | inl absent ↦ let none_found = view-eq_none fs n absent in cc
  | inr (i, at) ↦ let found = view-eq_some fs n i at in (i, at, cc)
]

pub create-eq_add :
    (s : Store) (path : Option Bytes) (n : Bytes)
    → name_of path ≡ some n
    → s.lookup n ≡ none
    → Store.create s path ≡ Store.add s n
unfolding Store.create
create-eq_add s path n named absent = rw (Store.create, named, absent)
