-- ===== src/Vfs/Tests.antt =====
-- Runs of the file system on small tables, and its theorems at concrete inputs.
use mathlib.Core.Option
use xbt_os_misaka.Prelude.{
  take, ◌∙◌, ◌≡◌, refl, Option, some, length-replicate, [], ◌∷◌, List, arith, replicate, store,
  ◌>>=◌, true, ap,
}
use xbt_os_misaka.KString.{Bytes, text, kstrcmp, kstrlen, kstrcpy, kmemcpy, at_offset}
use xbt_os_misaka.Console.{bytes}
use xbt_os_misaka.Vfs.{
  FileSystem, FileStat, ok, err_exists, err_invalid_name, init, create, write, append, remove, read,
  exists, stat, path_size, zero_name, zero_data, is_path_separator, skip_separators, copy_name,
  normalize_name, is_named, find_loop, find, allocate_slot, fill_slot, write_file, append_file,
  remove_slot,
}
use xbt_os_misaka.Vfs.Listing.{list}
use xbt_os_misaka.Console.{Trace}
use xbt_os_misaka.Vfs.Listing.Lines.{IsListing, list_lem, printed}
use xbt_os_misaka.Vfs.Names.{name_of, is_name}
use xbt_os_misaka.Vfs.Refine.{store_of, Refines}
use xbt_os_misaka.Vfs.Refine.Contents.{write-Refines, append-Refines}
use xbt_os_misaka.Vfs.Refine.Create.{create-Refines}
use xbt_os_misaka.Vfs.Refine.Reads.{init-IsValid, reads-Agree, Stats, is_some}
use xbt_os_misaka.Vfs.Refine.Remove.{remove-Refines}
use xbt_os_misaka.Vfs.Search.{IsValid, view}
use xbt_os_misaka.Vfs.Session.{
  Op, create_op, write_op, append_op, remove_op, step, run, store_run, run-Refines,
}
use xbt_os_misaka.Vfs.Store
use xbt_os_misaka.Vfs.Store.{Store}

abbrev boot : FileSystem
boot = record { files = []; file_count = 0; current_path = replicate path_size 0 }

abbrev fresh : FileSystem
fresh = init boot

abbrev notes : Option Bytes
notes = some (bytes "/notes")

abbrev script : List Op
script =
    write_op notes (some (bytes "one"))
    ∷ create_op (some (bytes "b"))
    ∷ append_op notes (some (bytes " two"))
    ∷ remove_op (some (bytes "\\notes"))
    ∷ create_op (some (bytes "b"))
    ∷ remove_op (some (bytes ".x"))
    ∷ []

-- What a run computes with.
computed : Unit {0}
unfolding bytes text kstrcmp kstrlen kstrcpy kmemcpy at_offset replicate store zero_name zero_data
    init is_path_separator skip_separators copy_name normalize_name is_named find_loop find
    allocate_slot fill_slot create write_file write append_file append remove_slot remove run step
    view is_name name_of Store.add Store.put Store.write
computed = tt

fresh-IsValid : IsValid fresh
fresh-IsValid = (init-IsValid boot (length-replicate path_size 0)).0

create-Refines_example : Refines (create fresh notes) (Store.create (store_of fresh) notes)
create-Refines_example = create-Refines notes fresh-IsValid

write-Refines_example :
    Refines
      (write fresh notes (some (bytes "one")))
      (Store.write (store_of fresh) notes (text (bytes "one")))
unfolding text bytes
write-Refines_example = write-Refines notes (some (bytes "one")) fresh-IsValid (omega arith)

first_write :
    Refines
      (write fresh notes (some (bytes "one")))
      (Store.write (store_of fresh) notes (text (bytes "one")))
unfolding text bytes
first_write = write-Refines notes (some (bytes "one")) fresh-IsValid (omega arith)

written : FileSystem
written = first_write.0

written-IsValid : IsValid written
unfolding written
written-IsValid = first_write.2

append-Refines_example :
    Refines
      (append written notes (some (bytes "two")))
      (Store.append (store_of written) notes (text (bytes "two")))
unfolding text bytes
append-Refines_example = append-Refines notes (bytes "two") written-IsValid (omega arith)

remove-Refines_example : Refines (remove written notes) (Store.remove (store_of written) notes)
remove-Refines_example = remove-Refines notes written-IsValid

no_file : FileStat
no_file = record { name = []; size = 0; is_directory = true }

reads-Agree_example :
    ((read written notes >>= λ r. some (Option.map text r))
      ≡ some (Store.read (store_of written) notes))
    × (exists written notes ≡ some (is_some (Store.read (store_of written) notes)))
    × Stats notes no_file (Store.read (store_of written) notes) (stat written notes (some no_file))
reads-Agree_example = reads-Agree notes no_file written-IsValid

name_of-notes : name_of notes ≡ some (bytes "notes")
unfolding name_of bytes text skip_separators is_name is_path_separator
name_of-notes = refl

view-written : view written (bytes "notes") ≡ some (bytes "one")
unfolding written computed
view-written = ap (λ (t : Store). t.lookup (bytes "notes")) first_write.3 ∙ refl

-- The store that is read holds the name.
read-written : Store.read (store_of written) notes ≡ some (bytes "one")
unfolding Store.read
read-written = rw (Store.read, name_of-notes) view-written

run-Refines_example :
    (fs' : FileSystem) × (run fresh script ≡ some ((store_run (store_of fresh) script).0, fs'))
    × IsValid fs'
    × (store_of fs' ≡ (store_run (store_of fresh) script).1)
unfolding text bytes
run-Refines_example = run-Refines script fresh-IsValid (omega arith)

-- The code itself, run on the script.
run_results :
    Option.map (λ r. r.0) (run fresh script)
    ≡ some (ok ∷ ok ∷ ok ∷ ok ∷ err_exists ∷ err_invalid_name ∷ [])
unfolding computed
run_results = refl

list_lem_example :
    (t : Trace) × (list written ≡ some t)
    × IsListing (take written.file_count written.files) (printed t)
list_lem_example = list_lem written-IsValid
