-- ===== src/Vfs/Search.antt =====
-- The search loop of the table, and the slot that a name leads to.
use mathlib.Core.Option
use xbt_os_misaka.Prelude.{
  if◌then◌else◌, ℕ, zero, suc, ◌+◌, ◌≤◌, ◌<◌, ◌≡◌, ◌≢◌, refl, ap, inl, inr, ◌∷◌, [], arith, length,
  Option, none, some, true, false, Bool-cases, Option-cases, sym, ◌∙◌, length-replicate, List,
  get_or,
}
use xbt_os_misaka.KString.{Bytes, text}
use xbt_os_misaka.KString.Compare.{streq_iff, text-text}
use xbt_os_misaka.Vfs.{
  File, FileSystem, file_at, zero_file, zero_name, is_named, find_loop, find, file_name_size,
  max_files, file_data_size,
}
use xbt_os_misaka.Vfs.Names.{name_of, is_name, normalize_name-ok, normalize_name-err}

-- A slot in use: its name and its contents end inside their buffers, and `size` is the length of
-- the contents.
pub record IsFile (f : File) : Type 0 where
  pub used : f.is_used ≡ true
  pub name_size : length f.name ≡ file_name_size
  pub named : is_name (text f.name) ≡ true
  pub data_size : length f.contents ≡ file_data_size
  pub sized : f.size ≡ length (text f.contents)
  pub room : f.size < file_data_size

-- The invariant of the table: the slots below `file_count` hold files of different names.
pub record IsValid (fs : FileSystem) : Type 0 where
  pub table : length fs.files ≡ max_files
  pub count : fs.file_count ≤ max_files
  pub slot : (i : ℕ) → i < fs.file_count → IsFile (file_at fs i)
  pub distinct :
      (i j : ℕ)
      → i < fs.file_count
      → j < fs.file_count
      → text (file_at fs i).name ≡ text (file_at fs j).name
      → i ≡ j

pub length-zero_name : length zero_name ≡ file_name_size
unfolding zero_name
length-zero_name = length-replicate file_name_size 0

is_named_congr : (f : File) (a b : Bytes) → text a ≡ text b → is_named f a ≡ is_named f b
unfolding is_named
is_named_congr f a b e = ground (arith, streq_iff f.name a, streq_iff f.name b)

-- The first of some slots whose file has the name.
abbrev pub first_loop : List File → ℕ → ℕ → Bytes → Option ℕ
first_loop [] rounds i name = none
first_loop (f ∷ files) zero i name = none
first_loop (f ∷ files) (suc rounds) i name =
    let rest = first_loop files rounds (i + 1) name in if is_named f name then some i else rest

-- The loop finds it, and does not leave the array.
find_loop-first :
    (files : List File) (rounds i : ℕ) (name : Bytes)
    → rounds ≤ length files
    → find_loop files rounds i name ≡ some (first_loop files rounds i name)
unfolding find_loop
find_loop-first [] zero i name le = refl
find_loop-first [] (suc rounds) i name le = absurd (omega arith)
find_loop-first (f ∷ files) zero i name le = refl
find_loop-first (f ∷ files) (suc rounds) i name le =
    let rest = find_loop-first files rounds (i + 1) name (omega arith) in
    elim (Bool-cases (is_named f name)) [
      | inl here ↦ rw here refl
      | inr later ↦ rw (later, rest) refl
    ]

first_loop_congr :
    (files : List File) (rounds i : ℕ) (a b : Bytes)
    → text a ≡ text b
    → first_loop files rounds i a ≡ first_loop files rounds i b
first_loop_congr [] rounds i a b e = refl
first_loop_congr (f ∷ files) zero i a b e = refl
first_loop_congr (f ∷ files) (suc rounds) i a b e =
    rw (is_named_congr f a b e, first_loop_congr files rounds (i + 1) a b e)

first_loop-eq_some :
    (files : List File) (rounds i : ℕ) (name : Bytes) {k : ℕ}
    → first_loop files rounds i name ≡ some k
    → (j : ℕ) × (k ≡ i + j) × (j < rounds) × (is_named (get_or files j zero_file) name ≡ true)
first_loop-eq_some [] rounds i name h = cc
first_loop-eq_some (f ∷ files) zero i name h = cc
first_loop-eq_some (f ∷ files) (suc rounds) i name {k} h = elim (Bool-cases (is_named f name)) [
  | inl e ↦ (0, ground arith, omega arith, e)
  | inr e ↦
      let (j, at, lt, same) = first_loop-eq_some files rounds (i + 1) name {k = k} (ground arith) in
      (suc j, omega arith, omega arith, same)
]

first_loop-eq_none :
    (files : List File) (rounds i : ℕ) (name : Bytes) (j : ℕ)
    → first_loop files rounds i name ≡ none
    → j < rounds
    → j < length files
    → is_named (get_or files j zero_file) name ≡ false
first_loop-eq_none [] rounds i name j h lt lt' = absurd (omega arith)
first_loop-eq_none (f ∷ files) zero i name j h lt lt' = absurd (omega arith)
first_loop-eq_none (f ∷ files) (suc rounds) i name zero h lt lt' = ground arith
first_loop-eq_none (f ∷ files) (suc rounds) i name (suc j) h lt lt' =
    first_loop-eq_none files rounds (i + 1) name j (ground arith) (omega arith) (omega arith)

-- The slot of a name.
abbrev pub slot_of : FileSystem → Bytes → Option ℕ
slot_of fs n = first_loop fs.files fs.file_count 0 n

-- What a name leads to: the contents of its file.
unfoldable pub view : FileSystem → Bytes → Option Bytes
view fs n = Option.map (λ i. text (file_at fs i).contents) (slot_of fs n)

pub slot_of_congr : (fs : FileSystem) (a b : Bytes) → text a ≡ text b → slot_of fs a ≡ slot_of fs b
slot_of_congr fs a b e = first_loop_congr fs.files fs.file_count 0 a b e

-- On a valid table the loop finds the slot of the name.
pub find_loop-slot_of :
    (fs : FileSystem) (n : Bytes)
    → IsValid fs
    → find_loop fs.files fs.file_count 0 n ≡ some (slot_of fs n)
find_loop-slot_of fs n v =
    find_loop-first fs.files fs.file_count 0 n (omega (arith, v.table, v.count))

-- `find` does not fault, and finds the slot of the path's name.
pub find-eq_slot_of :
    (fs : FileSystem) (path : Option Bytes) (n : Bytes)
    → IsValid fs
    → name_of path ≡ some n
    → find fs path ≡ some (slot_of fs n)
unfolding find
find-eq_slot_of fs path n v e =
    let (out, run, t, size) = normalize_name-ok path zero_name length-zero_name e in
    rw run (
      find_loop-slot_of fs out v
      ∙ ap some (slot_of_congr fs out n (t ∙ sym (rw (← t) (text-text out)))))

pub find-eq_none :
    (fs : FileSystem) (path : Option Bytes) → name_of path ≡ none → find fs path ≡ some none
unfolding find
find-eq_none fs path e =
    let (out, run) = normalize_name-err path zero_name length-zero_name e in rw run

-- The slot of a name is below the count, and its file has that name.
pub slot_of-some :
    (fs : FileSystem) (n : Bytes) {i : ℕ}
    → slot_of fs n ≡ some i
    → (i < fs.file_count) × (text (file_at fs i).name ≡ text n)
unfolding is_named
slot_of-some fs n {i} h =
    let (j, at, lt, same) = first_loop-eq_some fs.files fs.file_count 0 n h in
    let i≡j : i ≡ j = omega arith in rw i≡j (lt, ground (arith, streq_iff (file_at fs j).name n))

pub slot_of-none :
    {fs : FileSystem} (n : Bytes) (j : ℕ)
    → IsValid fs
    → slot_of fs n ≡ none
    → j < fs.file_count
    → text (file_at fs j).name ≢ text n
unfolding is_named
slot_of-none {fs} n j v h lt =
    let s = v.slot j lt in
    ground (
      arith,
      first_loop-eq_none fs.files fs.file_count 0 n j,
      streq_iff (file_at fs j).name n,
      s.used,
    )

-- In a valid table a file is found by its name.
pub slot_of-eq :
    {fs : FileSystem} (n : Bytes) (i : ℕ)
    → IsValid fs
    → i < fs.file_count
    → text (file_at fs i).name ≡ text n
    → slot_of fs n ≡ some i
slot_of-eq {fs} n i v lt e = elim (Option-cases (slot_of fs n)) [
  | inl none_found ↦ absurd (slot_of-none n i v none_found lt e)
  | inr (k, found) ↦
      let (k_lt, k_named) = slot_of-some fs n found in
      let k≡i : k ≡ i = v.distinct k i k_lt lt (k_named ∙ sym e) in found ∙ ap some k≡i
]
