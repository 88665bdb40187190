-- ===== src/Vfs/Refine.antt =====
-- kernel/fs/vfs.cpp: the operations of the file system against those of the abstract store.
pub mod Stored
pub mod Create
pub mod Contents
pub mod Reads
pub mod Remove
use xbt_os_misaka.Prelude.{ℕ, ◌≡◌, some, Run}
use xbt_os_misaka.Vfs.{FileResult, FileSystem}
use xbt_os_misaka.Vfs.Search.{IsValid, view}
use xbt_os_misaka.Vfs.Store.{Store}

-- The store that a table holds.
abbrev pub store_of : FileSystem → Store
store_of fs = record { lookup = view fs; count = fs.file_count }

abbrev pub Refines : Run (FileResult × FileSystem) → FileResult × Store → Type 0
Refines run spec =
    (fs' : FileSystem) × (run ≡ some (spec.0, fs')) × IsValid fs' × (store_of fs' ≡ spec.1)
