-- ===== src/Vfs/Session.antt =====
-- Any sequence of changing calls on the table, against the same calls on the abstract store.
use mathlib.Core.Option
use xbt_os_misaka.Prelude.{◌≡◌, refl, Option, none, some, [], ◌∷◌, List, All, ◌∙◌, Run, ◌>>=◌}
use xbt_os_misaka.KString.{Bytes, text}
use xbt_os_misaka.Vfs.{FileSystem, FileResult, ok, create, write, append, remove}
use xbt_os_misaka.Vfs.Refine.{store_of, Refines}
use xbt_os_misaka.Vfs.Refine.Stored.{Fits}
use xbt_os_misaka.Vfs.Refine.Contents.{write-Refines, append-Refines}
use xbt_os_misaka.Vfs.Refine.Create.{create-Refines}
use xbt_os_misaka.Vfs.Refine.Remove.{remove-Refines}
use xbt_os_misaka.Vfs.Search.{IsValid}
use xbt_os_misaka.Vfs.Store
use xbt_os_misaka.Vfs.Store.{Store}

-- A call that may change the table.
pub data Op : Type 0 where
  create_op : Option Bytes → Op
  write_op : Option Bytes → Option Bytes → Op
  append_op : Option Bytes → Option Bytes → Op
  remove_op : Option Bytes → Op

unfoldable pub step : FileSystem → Op → Run (FileResult × FileSystem)
step fs (create_op path) = create fs path
step fs (write_op path content) = write fs path content
step fs (append_op path content) = append fs path content
step fs (remove_op path) = remove fs path

unfoldable pub store_step : Store → Op → FileResult × Store
store_step s (create_op path) = Store.create s path
store_step s (write_op path content) = Store.write s path (text (Option.get_or content []))
store_step s (append_op path none) = (ok, s)
store_step s (append_op path (some c)) = Store.append s path (text c)
store_step s (remove_op path) = Store.remove s path

-- The results of the calls, and the table at the end.
unfoldable pub run : FileSystem → List Op → Run (List FileResult × FileSystem)
run fs [] = some ([], fs)
run fs (op ∷ ops) = do (r, fs₁) ← step fs op; (rs, fs₂) ← run fs₁ ops; some (r ∷ rs, fs₂)

unfoldable pub store_run : Store → List Op → List FileResult × Store
store_run s [] = ([], s)
store_run s (op ∷ ops) =
    let (r, s₁) = store_step s op in let (rs, s₂) = store_run s₁ ops in (r ∷ rs, s₂)

abbrev pub OpFits : Op → Type 0
OpFits (write_op path content) = Fits (Option.get_or content [])
OpFits (append_op path (some c)) = Fits c
OpFits _ = Unit

-- One call.
step-Refines :
    {fs : FileSystem} (op : Op)
    → IsValid fs
    → OpFits op
    → Refines (step fs op) (store_step (store_of fs) op)
unfolding step store_step append
step-Refines (create_op path) v fits = create-Refines path v
step-Refines (write_op path content) v fits = write-Refines path content v fits
step-Refines {fs} (append_op path none) v fits = (fs, refl, v, refl)
step-Refines (append_op path (some c)) v fits = append-Refines path c v fits
step-Refines (remove_op path) v fits = remove-Refines path v

-- No sequence of calls whose contents leave room in the address space faults on a valid table; the
-- calls return what the store's return, and the table at the end is valid and holds what the store
-- holds.
pub run-Refines :
    (ops : List Op) {fs : FileSystem}
    → IsValid fs
    → All OpFits ops
    → (fs' : FileSystem) × (run fs ops ≡ some ((store_run (store_of fs) ops).0, fs'))
      × IsValid fs'
      × (store_of fs' ≡ (store_run (store_of fs) ops).1)
unfolding run store_run
run-Refines [] {fs} v fits = (fs, refl, v, refl)
run-Refines (op ∷ ops) {fs} v fits =
    let (fs₁, stepped, v₁, holds₁) = step-Refines op v fits.0 in
    let (fs₂, ran, v₂, holds₂) = run-Refines ops {fs = fs₁} v₁ fits.1 in
    (fs₂, rw (stepped, ran, holds₁), v₂, holds₂ ∙ rw holds₁)
