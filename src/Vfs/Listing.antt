-- ===== src/Vfs/Listing.antt =====
-- `FileSystem::list` of kernel/fs/vfs.cpp.
pub mod Lines
use xbt_os_misaka.Prelude.{
  ℕ, zero, suc, List, [], ◌∷◌, ◌++◌, if◌then◌else◌, Bool, true, false, Run, ◌>>=◌, some, none,
}
use xbt_os_misaka.Console.{Trace, print, print_string}
use xbt_os_misaka.Decimal.{digits}
use xbt_os_misaka.Vfs.{File, FileSystem}

-- The line of a file.
unfoldable pub list_file : File → Trace
list_file f =
    print " - "
    ++ print_string f.name
    ++ print "  "
    ++ print_string (digits f.size)
    ++ print " bytes\n"

-- The loop at `files + i`, with the rounds that are left: `found`, and what is printed. A read behind the
-- array is a fault.
unfoldable pub list_loop : List File → ℕ → Run (Bool × Trace)
unfolding list_file
list_loop [] zero = some (false, [])
list_loop [] (suc rounds) = none
list_loop (f ∷ files) zero = some (false, [])
list_loop (f ∷ files) (suc rounds) = do
  (found, lines) ← list_loop files rounds
  some (if f.is_used then (true, list_file f ++ lines) else (found, lines))

unfoldable pub list : FileSystem → Run Trace
list fs = do
  (found, lines) ← list_loop fs.files fs.file_count
  some (if found then lines else lines ++ print " (empty)\n")
