-- ===== src/Ascii/Files.antt =====
-- kernel/fs/vfs.cpp: the contents of the files are made of the bytes that are written to them.
use mathlib.Core.Option
use xbt_os_misaka.Ascii.{AreAscii, at_offset-AreAscii, kmemcpy-AreAscii, poke-AreAscii}
use xbt_os_misaka.KString.{Bytes, at_offset, kmemcpy, kstrcpy, kstrlen, poke}
use xbt_os_misaka.Prelude.{
  ℕ, ◌+◌, ◌-◌, ◌%◌, ◌^◌, ◌<◌, ◌==◌, leb, Bool, Bool-cases, Option-cases, inl, inr, All, All-get_or,
  All-replicate, All-store, [], none, some, arith, store, Whenever, Whenever-bind, Whenever-if,
  Whenever-then, Option, Run, ◌>>=◌, if◌then◌else◌,
}
use xbt_os_misaka.Vfs
use xbt_os_misaka.Vfs.{
  File, FileResult, FileSystem, allocate_slot, append, append_file, create, err_exists, err_full,
  err_invalid_name, err_not_found, err_too_large, file_at, file_data_size, fill_slot, find,
  find_loop, is_ok, max_files, may_write, normalize_name, ok, read, remove, remove_slot, write,
  write_file, zero_data, zero_file, zero_name,
}

abbrev pub HoldsAscii : File → Type 0
HoldsAscii f = AreAscii f.contents

abbrev pub FilesAscii : FileSystem → Type 0
FilesAscii fs = All HoldsAscii fs.files

-- A call leaves such contents, if it returns.
abbrev pub Writes : Run (FileResult × FileSystem) → Type 0
Writes run = Whenever (λ r. FilesAscii (r.1)) run

zero_file-HoldsAscii : HoldsAscii zero_file
unfolding zero_data
zero_file-HoldsAscii = All-replicate (λ c. c < 0x80) file_data_size 0 (omega arith)

file_at-HoldsAscii : (fs : FileSystem) (i : ℕ) → FilesAscii fs → HoldsAscii (file_at fs i)
file_at-HoldsAscii fs i all = All-get_or HoldsAscii fs.files i zero_file all zero_file-HoldsAscii

pub init-FilesAscii : (fs : FileSystem) → FilesAscii (Vfs.init fs)
unfolding Vfs.init
init-FilesAscii fs = All-replicate HoldsAscii max_files zero_file zero_file-HoldsAscii

allocate_slot-FilesAscii : (fs : FileSystem) → FilesAscii fs → FilesAscii ((allocate_slot fs).1)
unfolding allocate_slot
allocate_slot-FilesAscii fs all = elim (Bool-cases (leb max_files fs.file_count)) [
  | inl full ↦ rw full all
  | inr room ↦ rw room all
]

fill_slot-Writes :
    (name : Bytes) (slot : Option ℕ × FileSystem)
    → FilesAscii (slot.1)
    → Writes (fill_slot name slot)
unfolding fill_slot
fill_slot-Writes name (none, fs) all = all
fill_slot-Writes name (some i, fs) all = Whenever-then _ (kstrcpy zero_name name) _ (λ named.
    Whenever-bind (All HoldsAscii) _ (store fs.files i _) _
      (All-store HoldsAscii fs.files i _ all zero_file-HoldsAscii) (λ files new. new))

pub create-Writes :
    (fs : FileSystem) (path : Option Bytes) → FilesAscii fs → Writes (create fs path)
unfolding create
create-Writes fs path all = Whenever-then _ (normalize_name path zero_name) _ (λ (r, name).
    Whenever-if _ (is_ok r) _ _
      (Whenever-then _ (find fs (some name)) _ (λ found. elim (Option-cases found) [
        | inl e ↦ rw e (fill_slot-Writes name (allocate_slot fs) (allocate_slot-FilesAscii fs all))
        | inr (i, e) ↦ rw e all
      ]))
      all)

-- The buffer of a file is replaced.
replaced-Writes :
    (fs : FileSystem) (i : ℕ) (f : File) (r : FileResult)
    → FilesAscii fs
    → HoldsAscii f
    → Writes (store fs.files i f >>= λ files. some (r, record fs { files = files }))
replaced-Writes fs i f r all new =
    Whenever-bind (All HoldsAscii) _ (store fs.files i f) _
      (All-store HoldsAscii fs.files i f all new) (λ files those. those)

pub write_file-Writes :
    (fs : FileSystem) (content : Bytes) (i : ℕ)
    → FilesAscii fs
    → AreAscii content
    → Writes (write_file fs content i)
unfolding write_file
write_file-Writes fs content i all new =
    let len = kstrlen (some content) in
    Whenever-if _ (leb file_data_size len) _ _ all (
      Whenever-bind AreAscii _ (kmemcpy (file_at fs i).contents content len) _
        (kmemcpy-AreAscii (file_at fs i).contents content len (file_at-HoldsAscii fs i all) new)
        (λ copied c.
          Whenever-bind AreAscii _ (at_offset len (poke 0) copied) _
            (at_offset-AreAscii len (poke 0) copied (λ q. poke-AreAscii 0 q (omega arith)) c)
            (λ ended e. replaced-Writes fs i _ ok all e)))

pub append_file-Writes :
    (fs : FileSystem) (content : Bytes) (i : ℕ)
    → FilesAscii fs
    → AreAscii content
    → Writes (append_file fs content i)
unfolding append_file
append_file-Writes fs content i all new =
    let f = file_at fs i in
    let add_len = kstrlen (some content) in
    let size = (f.size + add_len) % 2 ^ 32 in
    Whenever-if _ (leb file_data_size size) _ _ all (
      Whenever-bind AreAscii _ (at_offset f.size (λ p. kmemcpy p content add_len) f.contents) _
        (at_offset-AreAscii f.size (λ p. kmemcpy p content add_len) f.contents
          (λ q qs. kmemcpy-AreAscii q content add_len qs new) (file_at-HoldsAscii fs i all))
        (λ copied c.
          Whenever-bind AreAscii _ (at_offset size (poke 0) copied) _
            (at_offset-AreAscii size (poke 0) copied (λ q. poke-AreAscii 0 q (omega arith)) c)
            (λ ended e. replaced-Writes fs i _ ok all e)))

module _ (body : FileSystem → ℕ → Run (FileResult × FileSystem))
    (writes : (fs : FileSystem) (i : ℕ) → FilesAscii fs → Writes (body fs i)) where
  with_file-Writes :
      (fs : FileSystem) (found : Option ℕ) → FilesAscii fs → Writes (Vfs.with_file body fs found)
  unfolding Vfs.with_file
  with_file-Writes fs none all = all
  with_file-Writes fs (some i) all = writes fs i all

  -- The search, the file if there is one, and else a new one.
  opens-Writes :
      (go : FileResult → Bool) (fs : FileSystem) (path : Option Bytes)
      → FilesAscii fs
      → Writes (
          find fs path >>= λ found. elim found [
            | some i ↦ body fs i
            | none ↦ create fs path >>= λ r.
                if go (r.0) then Vfs.open_file body (r.1) path else some (r.0, r.1)
          ])
  unfolding Vfs.open_file
  opens-Writes go fs path all = Whenever-then _ (find fs path) _ (λ found.
      elim (Option-cases found) [
        | inl e ↦ rw e (
            Whenever-bind (λ r. FilesAscii (r.1)) _ (create fs path) _ (create-Writes fs path all)
              (λ r these.
                Whenever-if _ (go (r.0)) _ _
                  (Whenever-then _ (find (r.1) path) _ (λ o. with_file-Writes (r.1) o these))
                  these))
        | inr (i, e) ↦ rw e (writes fs i all)
      ])

pub write-Writes :
    (fs : FileSystem) (path content : Option Bytes)
    → FilesAscii fs
    → AreAscii (Option.get_or content [])
    → Writes (write fs path content)
unfolding write
write-Writes fs path content all new =
    opens-Writes (λ s. write_file s (Option.get_or content []))
      (λ s i these. write_file-Writes s (Option.get_or content []) i these new) may_write fs path
      all

pub append-Writes :
    (fs : FileSystem) (path : Option Bytes) (content : Bytes)
    → FilesAscii fs
    → AreAscii content
    → Writes (append fs path (some content))
unfolding append
append-Writes fs path content all new =
    opens-Writes (λ s. append_file s content)
      (λ s i these. append_file-Writes s content i these new) is_ok fs path all

remove_slot-Writes : (fs : FileSystem) (i : ℕ) → FilesAscii fs → Writes (remove_slot fs i)
unfolding remove_slot
remove_slot-Writes fs i all =
    let zero = zero_file-HoldsAscii in
    let last = (fs.file_count + 2 ^ 32 - 1) % 2 ^ 32 in
    Whenever-bind (All HoldsAscii) _ (store fs.files i zero_file) _
      (All-store HoldsAscii fs.files i zero_file all zero)
      (λ cleared c.
        Whenever-bind (All HoldsAscii) _ _ _
          (Whenever-if (All HoldsAscii) (i == last) _ _ c (
            Whenever-bind (All HoldsAscii) (All HoldsAscii) (store cleared i _) _
              (All-store HoldsAscii cleared i _ c
                (All-get_or HoldsAscii cleared last zero_file c zero))
              (λ moved m. All-store HoldsAscii moved last zero_file m zero)))
          (λ files f. f))

pub remove-Writes :
    (fs : FileSystem) (path : Option Bytes) → FilesAscii fs → Writes (remove fs path)
unfolding remove
remove-Writes fs path all = Whenever-then _ (normalize_name path zero_name) _ (λ (r, name).
    Whenever-if _ (is_ok r) _ _
      (Whenever-then _ (find_loop fs.files fs.file_count 0 name) _
        (λ found. with_file-Writes remove_slot remove_slot-Writes fs found all))
      all)

-- What is read.
abbrev pub ReadsAscii : Option Bytes → Type 0
ReadsAscii none = Unit
ReadsAscii (some content) = AreAscii content

pub read-ReadsAscii :
    (fs : FileSystem) (path : Option Bytes) → FilesAscii fs → Whenever ReadsAscii (read fs path)
unfolding read
read-ReadsAscii fs path all = Whenever-then _ (find fs path) _ (λ found. elim (Option-cases found) [
  | inl e ↦ rw e tt
  | inr (i, e) ↦ rw e (file_at-HoldsAscii fs i all)
])
