-- ===== src/Vfs/Store.antt =====
-- What the file system promises: a map from names to contents, of at most `max_files` names. Paths
-- and contents are those of the calls; a result is the code's.
use xbt_os_misaka.Prelude.{ℕ, ◌+◌, ◌-◌, Option, none, some, [], ◌++◌, leb, if◌then◌else◌, length}
use xbt_os_misaka.KString.{Bytes, streq}
use xbt_os_misaka.Vfs.{
  FileResult, ok, err_not_found, err_exists, err_full, err_invalid_name, err_too_large, max_files,
  file_data_size,
}
use xbt_os_misaka.Vfs.Names.{name_of}

pub record Store : Type 0 where
  pub lookup : Bytes → Option Bytes
  pub count : ℕ

-- No files.
abbrev pub empty : Store
empty = record { lookup = λ n. none; count = 0 }

abbrev pub update : (Bytes → Option Bytes) → Bytes → Option Bytes → Bytes → Option Bytes
update f n v q = if streq n q then v else f q

abbrev pub assign : Store → Bytes → Option Bytes → Store
assign s n v = record s { lookup = update s.lookup n v }

-- A new name, with empty contents.
unfoldable pub add : Store → Bytes → FileResult × Store
add s n =
    if leb max_files s.count
    then (err_full, s)
    else (ok, record { lookup = update s.lookup n (some []); count = s.count + 1 })

-- New contents of a name.
unfoldable pub put : Bytes → Bytes → Store → FileResult × Store
put n c s = if leb file_data_size (length c) then (err_too_large, s) else (ok, assign s n (some c))

-- Goes on with the store if the name could be added.
abbrev pub after : (Store → FileResult × Store) → FileResult × Store → FileResult × Store
after f (ok, s) = f s
after f r = r

unfoldable pub create : Store → Option Bytes → FileResult × Store
create s path = elim (name_of path) [
  | none ↦ (err_invalid_name, s)
  | some n ↦ elim (s.lookup n) [ some _ ↦ (err_exists, s) | none ↦ add s n ]
]

unfoldable pub write : Store → Option Bytes → Bytes → FileResult × Store
write s path c = elim (name_of path) [
  | none ↦ (err_invalid_name, s)
  | some n ↦ elim (s.lookup n) [ some _ ↦ put n c s | none ↦ after (put n c) (add s n) ]
]

unfoldable pub append : Store → Option Bytes → Bytes → FileResult × Store
append s path c = elim (name_of path) [
  | none ↦ (err_invalid_name, s)
  | some n ↦ elim (s.lookup n) [ some old ↦ put n (old ++ c) s | none ↦ after (put n c) (add s n) ]
]

unfoldable pub remove : Store → Option Bytes → FileResult × Store
remove s path = elim (name_of path) [
  | none ↦ (err_invalid_name, s)
  | some n ↦ elim (s.lookup n) [
    | none ↦ (err_not_found, s)
    | some _ ↦ (ok, record { lookup = update s.lookup n none; count = s.count - 1 })
  ]
]

unfoldable pub read : Store → Option Bytes → Option Bytes
read s path = elim (name_of path) [ none ↦ none | some n ↦ s.lookup n ]
