-- ===== src/Vfs/Refine/Create.antt =====
-- `create`.
use xbt_os_misaka.Prelude.{
  ◌<◌, ◌≡◌, refl, inl, inr, [], arith, length, Option, none, some, true, leb, Bool-cases,
  Option-cases, sym, ◌∙◌, replicate, length-replicate, store-eq_some,
}
use xbt_os_misaka.KString.{Bytes, text}
use xbt_os_misaka.KString.Copy.{kstrcpy_lem}
use xbt_os_misaka.Vfs.{
  err_invalid_name, File, FileSystem, zero_file, zero_name, zero_data, max_files, err_exists,
  create, create_new, fill_slot, allocate_slot, file_name_size, file_data_size,
}
use xbt_os_misaka.Vfs.Added.{added, added-IsValid, view-added}
use xbt_os_misaka.Vfs.Names.{
  name_of, is_name, normalize_name-ok, normalize_name-err, name_of-is_name, name_of-buffer,
  is_name-short,
}
use xbt_os_misaka.Vfs.Refine.{store_of, Refines}
use xbt_os_misaka.Vfs.Search.{IsFile, IsValid, slot_of, view, find-eq_slot_of, length-zero_name}
use xbt_os_misaka.Vfs.Slots.{view-eq_some, view-eq_none}
use xbt_os_misaka.Vfs.Store

length-zero_data : length zero_data ≡ file_data_size
unfolding zero_data
length-zero_data = length-replicate file_data_size 0

text-zero_data : text zero_data ≡ []
unfolding zero_data replicate text
text-zero_data = refl

abbrev fresh_file : Bytes → File
fresh_file name = record zero_file { name = name; is_used = true }

fresh_file-IsFile :
    (name n : Bytes)
    → length name ≡ file_name_size
    → text name ≡ n
    → is_name n ≡ true
    → IsFile (fresh_file name)
fresh_file-IsFile name n size e good = record {
  used = refl;
  name_size = size;
  named = rw e good;
  data_size = length-zero_data;
  sized = rw text-zero_data;
  room = omega arith;
}

-- The end of `create` fills the slot behind the last, or finds the table full.
fill_slot-Refines :
    {fs : FileSystem} (v : IsValid fs) (out n : Bytes)
    → text out ≡ n
    → text n ≡ n
    → is_name n ≡ true
    → slot_of fs n ≡ none
    → Refines (fill_slot out (allocate_slot fs)) (Store.add (store_of fs) n)
unfolding fill_slot allocate_slot Store.add
fill_slot-Refines {fs} v out n e proper good absent =
    elim (Bool-cases (leb max_files fs.file_count)) [
      | inl full ↦ (fs, rw full, v, rw full)
      | inr free ↦
          let room : fs.file_count < max_files = ground arith in
          let (name, copied, t, size) =
            kstrcpy_lem zero_name out (rw (e, length-zero_name) (is_name-short n good)) in
          let sized = size ∙ length-zero_name in
          let file = fresh_file-IsFile name n sized (t ∙ e) good in
          (
            added fs (fresh_file name),
            rw (
              free,
              copied,
              store-eq_some fs.files fs.file_count (fresh_file name) (omega (arith, v.table)),
            ),
            added-IsValid v room (fresh_file name) file n (t ∙ e ∙ sym proper) absent,
            rw (
              free,
              view-added v room (fresh_file name) file n (t ∙ e ∙ sym proper) absent,
              text-zero_data,
            ),
          )
    ]

create_new-Refines :
    {fs : FileSystem} (v : IsValid fs) (out n : Bytes)
    → text out ≡ n
    → text n ≡ n
    → is_name n ≡ true
    → Refines
        (create_new fs out)
        (elim (view fs n) [ some _ ↦ (err_exists, store_of fs) | none ↦ Store.add (store_of fs) n ])
unfolding create_new
create_new-Refines {fs} v out n e proper good =
    let found = find-eq_slot_of fs (some out) n v (name_of-buffer out good e) in
    elim (Option-cases (slot_of fs n)) [
      | inr (i, at) ↦ (fs, rw (found, at, view-eq_some fs n i at), v, rw (view-eq_some fs n i at))
      | inl absent ↦
          rw (found, absent, view-eq_none fs n absent)
            (fill_slot-Refines v out n e proper good absent)
    ]

-- `create` adds a new empty file under the name of the path, unless the path has no name, the name
-- is taken, or the table is full; in these cases nothing changes.
pub create-Refines :
    {fs : FileSystem} (path : Option Bytes)
    → IsValid fs
    → Refines (create fs path) (Store.create (store_of fs) path)
unfolding create Store.create
create-Refines {fs} path v = elim (Option-cases (name_of path)) [
  | inl bad ↦
      let (out, run) = normalize_name-err path zero_name length-zero_name bad in
      (fs, rw (run, bad, Store.create), v, rw (bad, Store.create))
  | inr (n, named) ↦
      let (out, run, t, size) = normalize_name-ok path zero_name length-zero_name named in
      let (good, proper) = name_of-is_name path named in
      rw (run, named, Store.create) (create_new-Refines v out n t proper good)
]

-- A path without a name is refused, and nothing changes.
pub create-eq_invalid :
    (fs : FileSystem) (path : Option Bytes)
    → name_of path ≡ none
    → create fs path ≡ some (err_invalid_name, fs)
unfolding create
create-eq_invalid fs path bad =
    let (out, run) = normalize_name-err path zero_name length-zero_name bad in rw run
