-- ===== src/Vfs.antt =====
-- kernel/fs/vfs.h and kernel/fs/vfs.cpp: the flat file table. A `File*` is an index into the table.
-- `kmemset(file, 0, sizeof(File))` is the assignment of `zero_file`.
pub mod Names
pub mod Listing
pub mod Added
pub mod Removed
pub mod Refine
pub mod Search
pub mod Session
pub mod Slots
pub mod Store
mod Tests
use mathlib.Core.Option
use xbt_os_misaka.Prelude.{
  ℕ, zero, suc, ◌+◌, ◌-◌, ◌%◌, ◌^◌, Bool, true, false, ◌&&◌, ◌||◌, Option, none, some, List, [],
  ◌∷◌, ◌==◌, leb, if◌then◌else◌, Run, ◌>>=◌, store, get_or, replicate,
}
use xbt_os_misaka.Console.{Trace, print}
use xbt_os_misaka.KString.{Bytes, head, kmemcpy, streq, kstrlen, kstrcpy, poke, at_offset, text}

abbrev pub max_files : ℕ
max_files = 64

abbrev pub file_name_size : ℕ
file_name_size = 32

abbrev pub file_data_size : ℕ
file_data_size = 1024

abbrev pub path_size : ℕ
path_size = 64

pub data FileResult : Type 0 where
  ok err_not_found err_exists err_full err_invalid_name err_too_large : FileResult

abbrev pub is_ok : FileResult → Bool
is_ok ok = true
is_ok _ = false

pub record FileStat : Type 0 where
  pub name : Bytes
  pub size : ℕ
  pub is_directory : Bool

-- `contents` is the field `data`.
pub record File : Type 0 where
  pub name : Bytes
  pub contents : Bytes
  pub size : ℕ
  pub is_used : Bool

pub record FileSystem : Type 0 where
  pub files : List File
  pub file_count : ℕ
  pub current_path : Bytes

-- Buffers of zero bytes, shut: they are long.
unfoldable pub zero_name : Bytes
zero_name = replicate file_name_size 0

unfoldable pub zero_data : Bytes
zero_data = replicate file_data_size 0

abbrev pub zero_file : File
zero_file = record { name = zero_name; contents = zero_data; size = 0; is_used = false }

abbrev pub file_at : FileSystem → ℕ → File
file_at fs i = get_or fs.files i zero_file

-- `current_path[0] = '/'; current_path[1] = '\0';` over what the buffer held.
set_root : Bytes → Bytes
set_root (_ ∷ _ ∷ p) = b'/' ∷ 0 ∷ p
set_root p = p

-- The state after `init`, whatever it was before.
unfoldable pub init : FileSystem → FileSystem
unfolding set_root
init fs = record {
  files = replicate max_files zero_file;
  file_count = 0;
  current_path = set_root fs.current_path;
}

-- The constructor, on memory that holds anything.
abbrev pub constructed : FileSystem → FileSystem
constructed fs = init fs

-- What `init` prints.
abbrev pub init_output : Trace
init_output = print "VFS Initialized.\n"

unfoldable pub is_path_separator : ℕ → Bool
is_path_separator c = c == b'/' || c == 0x5c

unfoldable pub skip_separators : Bytes → Bytes
skip_separators [] = []
skip_separators (c ∷ path) = if is_path_separator c then skip_separators path else c ∷ path

-- The NUL behind the name.
end_name : Bytes → Run (FileResult × Bytes)
end_name [] = none
end_name (_ ∷ out) = some (ok, 0 ∷ out)

keep_byte : ℕ → Run (FileResult × Bytes) → Run (FileResult × Bytes)
keep_byte c none = none
keep_byte c (some (r, out)) = some (r, c ∷ out)

-- The copying loop, from `path + len` to `out_name + len`.
unfoldable pub copy_name : Bytes → Bytes → ℕ → Run (FileResult × Bytes)
unfolding end_name keep_byte
copy_name [] out len = end_name out
copy_name (c ∷ path) [] len =
    if c == 0
    then end_name []
    else if is_path_separator c || leb (file_name_size - 1) len
    then some (err_invalid_name, [])
    else none
copy_name (c ∷ path) (o ∷ out) len =
    if c == 0
    then end_name (o ∷ out)
    else if is_path_separator c || leb (file_name_size - 1) len
    then some (err_invalid_name, o ∷ out)
    else keep_byte c (copy_name path out (len + 1))

unfoldable pub normalize_name : Option Bytes → Bytes → Run (FileResult × Bytes)
normalize_name none out = some (err_invalid_name, out)
normalize_name (some path) out =
    let rest = skip_separators path in
    if head path == 0
    then some (err_invalid_name, out)
    else if head rest == 0 || head rest == b'.'
    then some (err_invalid_name, out)
    else copy_name rest out 0

unfoldable pub is_named : File → Bytes → Bool
is_named f name = f.is_used && streq f.name name

-- The search loop at `files + i`, with the rounds that are left. A read behind the array is a fault.
unfoldable pub find_loop : List File → ℕ → ℕ → Bytes → Run (Option ℕ)
find_loop [] zero i name = some none
find_loop [] (suc rounds) i name = none
find_loop (f ∷ files) zero i name = some none
find_loop (f ∷ files) (suc rounds) i name =
    let rest = find_loop files rounds (i + 1) name in
    if is_named f name then some (some i) else rest

-- Both overloads. The local buffer `name` is not initialised; what it holds does not matter.
unfoldable pub find : FileSystem → Option Bytes → Run (Option ℕ)
find fs path = do
  (normalized, name) ← normalize_name path zero_name
  if is_ok normalized then find_loop fs.files fs.file_count 0 name else some none

unfoldable pub allocate_slot : FileSystem → Option ℕ × FileSystem
allocate_slot fs =
    if leb max_files fs.file_count
    then (none, fs)
    else (some fs.file_count, record fs { file_count = fs.file_count + 1 })

-- The end of `create`, from the slot on.
unfoldable pub fill_slot : Bytes → Option ℕ × FileSystem → Run (FileResult × FileSystem)
fill_slot name (none, fs) = some (err_full, fs)
fill_slot name (some i, fs) = do
  named ← kstrcpy zero_name name
  files ← store fs.files i (record zero_file { name = named; is_used = true })
  some (ok, record fs { files = files })

create_new : FileSystem → Bytes → Run (FileResult × FileSystem)
create_new fs name = do
  found ← find fs (some name)
  elim found [ some _ ↦ some (err_exists, fs) | none ↦ fill_slot name (allocate_slot fs) ]

unfoldable pub create : FileSystem → Option Bytes → Run (FileResult × FileSystem)
unfolding create_new
create fs path = do
  (normalized, name) ← normalize_name path zero_name
  if is_ok normalized then create_new fs name else some (normalized, fs)

-- The end of `write`, from the file on.
unfoldable pub write_file : FileSystem → Bytes → ℕ → Run (FileResult × FileSystem)
write_file fs content i = do
  let len = kstrlen (some content)
  if leb file_data_size len then some (err_too_large, fs) else do
    copied ← kmemcpy (file_at fs i).contents content len
    ended ← at_offset len (poke 0) copied
    files ← store fs.files i (record (file_at fs i) { contents = ended; size = len })
    some (ok, record fs { files = files })

-- `if (!file) return FILE_ERR_NOT_FOUND;` and what follows.
unfoldable pub with_file :
    (FileSystem → ℕ → Run (FileResult × FileSystem))
    → FileSystem
    → Option ℕ
    → Run (FileResult × FileSystem)
with_file body fs none = some (err_not_found, fs)
with_file body fs (some i) = body fs i

-- The second `file = find(path);` and what follows.
unfoldable pub open_file :
    (FileSystem → ℕ → Run (FileResult × FileSystem))
    → FileSystem
    → Option Bytes
    → Run (FileResult × FileSystem)
unfolding with_file
open_file body fs path = find fs path >>= with_file body fs

-- The results of `create` after which `write` goes on.
abbrev pub may_write : FileResult → Bool
may_write ok = true
may_write err_exists = true
may_write _ = false

unfoldable pub write : FileSystem → Option Bytes → Option Bytes → Run (FileResult × FileSystem)
unfolding open_file
write fs path content = do
  let text = Option.get_or content []
  found ← find fs path
  elim found [
    | some i ↦ write_file fs text i
    | none ↦ do
      (created, fs') ← create fs path
      if may_write created then open_file (λ s. write_file s text) fs' path else some (created, fs')
  ]

-- The end of `append`, from the file on.
unfoldable pub append_file : FileSystem → Bytes → ℕ → Run (FileResult × FileSystem)
append_file fs content i = do
  let f = file_at fs i
  let add_len = kstrlen (some content)
  let size = (f.size + add_len) % 2 ^ 32
  if leb file_data_size size then some (err_too_large, fs) else do
    copied ← at_offset f.size (λ p. kmemcpy p content add_len) f.contents
    ended ← at_offset size (poke 0) copied
    files ← store fs.files i (record f { contents = ended; size = size })
    some (ok, record fs { files = files })

append_text : FileSystem → Option Bytes → Bytes → Run (FileResult × FileSystem)
append_text fs path content = do
  found ← find fs path
  elim found [
    | some i ↦ append_file fs content i
    | none ↦ do
      (created, fs') ← create fs path
      if is_ok created then open_file (λ s. append_file s content) fs' path else some (created, fs')
  ]

unfoldable pub append : FileSystem → Option Bytes → Option Bytes → Run (FileResult × FileSystem)
unfolding append_text open_file
append fs path none = some (ok, fs)
append fs path (some content) = append_text fs path content

-- The buffer that the returned pointer leads to.
unfoldable pub read : FileSystem → Option Bytes → Run (Option Bytes)
read fs path = do found ← find fs path; some (Option.map (λ i. (file_at fs i).contents) found)

unfoldable pub exists : FileSystem → Option Bytes → Run Bool
exists fs path = do found ← find fs path; some (elim found [ none ↦ false | some _ ↦ true ])

-- What `stat` leaves in `*out_stat`; `out` is `none` for a null pointer.
unfoldable pub stat :
    FileSystem → Option Bytes → Option FileStat → Run (FileResult × Option FileStat)
stat fs path none = some (err_invalid_name, none)
stat fs path (some out) = do
  found ← find fs path
  elim found [
    | none ↦ some (err_not_found, some out)
    | some i ↦ do
      name ← kstrcpy zero_name (file_at fs i).name
      some (ok, some (record { name = name; size = (file_at fs i).size; is_directory = false }))
  ]

-- The body of the loop of `remove` at the slot that it returns from.
unfoldable pub remove_slot : FileSystem → ℕ → Run (FileResult × FileSystem)
remove_slot fs i = do
  let last = (fs.file_count + 2 ^ 32 - 1) % 2 ^ 32
  cleared ← store fs.files i zero_file
  files ←
      if i == last
      then some cleared
      else store cleared i (get_or cleared last zero_file) >>= λ moved. store moved last zero_file
  some (ok, record fs { files = files; file_count = last })

-- The loop of `remove` has the test of `find`, and returns at the first slot that passes it.
unfoldable pub remove : FileSystem → Option Bytes → Run (FileResult × FileSystem)
unfolding with_file
remove fs path = do
  (normalized, name) ← normalize_name path zero_name
  if is_ok normalized
      then (do found ← find_loop fs.files fs.file_count 0 name; with_file remove_slot fs found)
      else some (normalized, fs)

unfoldable pub pwd : FileSystem → Bytes
pwd fs = text fs.current_path
