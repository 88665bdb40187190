-- ===== src/Vfs/Refine/Remove.antt =====
-- `remove`, and the operations that only read.
use xbt_os_misaka.Prelude.{none, ℕ, ◌≡◌, ap, inl, inr, arith, Option, Option-cases, sym, ◌∙◌}
use xbt_os_misaka.KString.{Bytes}
use xbt_os_misaka.Vfs.{FileSystem, zero_name, remove}
use xbt_os_misaka.Vfs.Names.{name_of, normalize_name-ok, normalize_name-err, name_of-is_name}
use xbt_os_misaka.Vfs.Refine.{store_of, Refines}
use xbt_os_misaka.Vfs.Removed.{remove_slot-IsWithout, IsWithout-IsValid, view-removed}
use xbt_os_misaka.Vfs.Search.{
  IsValid, find_loop-slot_of, view, slot_of, slot_of_congr, slot_of-some, length-zero_name,
}
use xbt_os_misaka.Vfs.Slots.{view-eq_some, view-eq_none}
use xbt_os_misaka.Vfs.Store

-- `remove` takes the name of the path out of the store, unless the path has no name or the name is
-- not there; in these cases nothing changes.
pub remove-Refines :
    {fs : FileSystem} (path : Option Bytes)
    → IsValid fs
    → Refines (remove fs path) (Store.remove (store_of fs) path)
unfolding remove Store.remove
remove-Refines {fs} path v = elim (Option-cases (name_of path)) [
  | inl bad ↦
      let (out, run) = normalize_name-err path zero_name length-zero_name bad in
      (fs, rw (run, bad, Store.remove), v, rw (bad, Store.remove))
  | inr (n, named) ↦
      let (out, run, t, size) = normalize_name-ok path zero_name length-zero_name named in
      let (good, proper) = name_of-is_name path named in
      let found = find_loop-slot_of fs out v in
      let same : slot_of fs out ≡ slot_of fs n = slot_of_congr fs out n (t ∙ sym proper) in
      elim (Option-cases (slot_of fs n)) [
        | inl absent ↦ (
          fs,
          rw (run, found, same, absent, named, Store.remove, view-eq_none fs n absent),
          v,
          rw (named, Store.remove, view-eq_none fs n absent),
        )
        | inr (i, at) ↦
            let (lt, _) = slot_of-some fs n at in
            let (fs', removed, w) = remove_slot-IsWithout v i lt in
            (
              fs',
              rw (run, found, same, at, removed, named, Store.remove, view-eq_some fs n i at),
              IsWithout-IsValid v i lt w,
              rw (named, Store.remove, view-eq_some fs n i at, view-removed v i lt w n at)
                  (ap {B = Store.Store}
                    (λ (k : ℕ). record { lookup = Store.update (view fs) n none; count = k })
                    (omega (arith, w.counted))),
            )
      ]
]
