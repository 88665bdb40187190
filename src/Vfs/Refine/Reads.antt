-- ===== src/Vfs/Refine/Reads.antt =====
-- `init`, and the operations that only read: `read`, `exists`, `stat`.
use mathlib.Core.Option
use xbt_os_misaka.Prelude.{
  ◌≤◌, ◌≡◌, refl, ap, inl, inr, arith, Option, none, some, length, [], ◌∷◌, Bool, true, false,
  Option-cases, fun_ext, Run, sym, ◌∙◌, ◌>>=◌, length-replicate,
}
use xbt_os_misaka.KString.{Bytes, text}
use xbt_os_misaka.KString.Copy.{kstrcpy_lem}
use xbt_os_misaka.Vfs.{
  FileSystem, FileStat, file_at, zero_name, zero_file, max_files, ok, err_not_found, FileResult,
  init, read, exists, stat, pwd, path_size, set_root,
}
use xbt_os_misaka.Vfs.Names.{name_of, name_of-is_name, is_name-short}
use xbt_os_misaka.Vfs.Refine.{store_of}
use xbt_os_misaka.Vfs.Search.{
  IsValid, slot_of, slot_of-some, view, find-eq_slot_of, find-eq_none, length-zero_name,
}
use xbt_os_misaka.Vfs.Slots.{view-eq_some, view-eq_none, view-none_of}
use xbt_os_misaka.Vfs.Store
use xbt_os_misaka.Vfs.Store.{Store}

text-set_root : (p : Bytes) → 2 ≤ length p → text (set_root p) ≡ b'/' ∷ []
unfolding set_root text
text-set_root [] h = absurd (omega arith)
text-set_root (a ∷ []) h = absurd (omega arith)
text-set_root (a ∷ b ∷ p) h = refl

-- `init` leaves a valid table that holds no name, whatever the table held, and the root as the path.
pub init-IsValid :
    (fs : FileSystem)
    → length fs.current_path ≡ path_size
    → IsValid (init fs) × ((n : Bytes) → view (init fs) n ≡ none) × (pwd (init fs) ≡ b'/' ∷ [])
unfolding init pwd
init-IsValid fs size = (
  record {
    table = length-replicate max_files zero_file;
    count = omega arith;
    slot = λ i lt. absurd (omega arith);
    distinct = λ i j lt. absurd (omega arith);
  },
  (λ n. view-none_of (init fs) n λ j lt. absurd (omega arith)),
  text-set_root fs.current_path (omega arith),
)

-- After `init` the store is empty.
pub init-empty : (fs : FileSystem) → store_of (init fs) ≡ Store.empty
unfolding init
init-empty fs =
    let none_held = fun_ext (λ n. view-none_of (init fs) n λ j lt. absurd (omega arith)) in
    λ i. record { lookup = none_held i; count = 0 }

-- `read` leads to the string that the store holds under the name of the path, or is null where the
-- store holds none.
pub read-eq_lookup :
    {fs : FileSystem} (path : Option Bytes)
    → IsValid fs
    → (read fs path >>= λ r. some (Option.map text r)) ≡ some (Store.read (store_of fs) path)
unfolding read Store.read
read-eq_lookup {fs} path v = elim (Option-cases (name_of path)) [
  | inl bad ↦ rw (find-eq_none fs path bad, Store.read, bad)
  | inr (n, named) ↦
      let found = find-eq_slot_of fs path n v named in
      elim (Option-cases (slot_of fs n)) [
        | inl absent ↦ rw (found, absent, Store.read, named, view-eq_none fs n absent)
        | inr (i, at) ↦ rw (found, at, Store.read, named, view-eq_some fs n i at)
      ]
]

-- Whether a name is there.
abbrev pub is_some {ℓ} : {A : Type ℓ} → Option A → Bool
is_some none = false
is_some (some _) = true

-- On a valid table `exists` says whether the store holds the name of the path.
pub exists-eq_lookup :
    (fs : FileSystem) (path : Option Bytes)
    → IsValid fs
    → exists fs path ≡ some (is_some (Store.read (store_of fs) path))
unfolding exists Store.read
exists-eq_lookup fs path v = elim (Option-cases (name_of path)) [
  | inl bad ↦ rw (find-eq_none fs path bad, Store.read, bad)
  | inr (n, named) ↦
      let found = find-eq_slot_of fs path n v named in
      elim (Option-cases (slot_of fs n)) [
        | inl absent ↦ rw (found, absent, Store.read, named, view-eq_none fs n absent)
        | inr (i, at) ↦ rw (found, at, Store.read, named, view-eq_some fs n i at)
      ]
]

-- What `stat` reports of contents `c` under the name `n`.
pub record Reports (n c : Bytes) (s : FileStat) : Type 0 where
  pub named : text s.name ≡ n
  pub sized : s.size ≡ length c
  pub file : s.is_directory ≡ false

-- `stat` reports the name and the length of what the store holds under the name of the path.
pub stat-Reports :
    {fs : FileSystem} (path : Option Bytes) (out : FileStat) {n c : Bytes}
    → IsValid fs
    → name_of path ≡ some n
    → view fs n ≡ some c
    → (s : FileStat) × (stat fs path (some out) ≡ some (ok, some s)) × Reports n c s
unfolding stat
stat-Reports {fs} path out {n} {c} v path_named held = elim (Option-cases (slot_of fs n)) [
  | inl absent ↦ let missing = view-eq_none fs n absent in cc
  | inr (i, at) ↦
      let (lt, named) = slot_of-some fs n at in
      let (_, proper) = name_of-is_name path path_named in
      let f = v.slot i lt in
      let contents = view-eq_some fs n i at in
      let same : text (file_at fs i).contents ≡ c = cc in
      let (name, copied, t, _) =
        kstrcpy_lem zero_name (file_at fs i).name
          (rw length-zero_name (is_name-short (text (file_at fs i).name) f.named)) in
      (
        record { name = name; size = (file_at fs i).size; is_directory = false },
        rw (find-eq_slot_of fs path n v path_named, at, copied),
        record { named = t ∙ named ∙ proper; sized = f.sized ∙ ap length same; file = refl },
      )
]

-- `stat` does not fault on a valid table.
pub stat-returns :
    {fs : FileSystem} (path : Option Bytes) (out : FileStat)
    → IsValid fs
    → (r : FileResult) × (s : Option FileStat) × (stat fs path (some out) ≡ some (r, s))
unfolding stat
stat-returns {fs} path out v = elim (Option-cases (name_of path)) [
  | inl bad ↦ (err_not_found, some out, rw (find-eq_none fs path bad) refl)
  | inr (n, named) ↦ elim (Option-cases (slot_of fs n)) [
    | inl absent ↦ (err_not_found, some out, rw (find-eq_slot_of fs path n v named, absent) refl)
    | inr (i, at) ↦
        let (s, run, _) = stat-Reports path out v named (view-eq_some fs n i at) in
        (ok, some s, run)
  ]
]

-- What `stat` of a path does where the store holds `held` under its name: a missing name is reported
-- and nothing is written.
abbrev pub Stats :
    Option Bytes → FileStat → Option Bytes → Run (FileResult × Option FileStat) → Type 0
Stats path out none run = run ≡ some (err_not_found, some out)
Stats path out (some c) run =
    (s : FileStat) × (run ≡ some (ok, some s))
    × (name_of path ≡ some (text s.name))
    × (s.size ≡ length c)
    × (s.is_directory ≡ false)

stat-missing :
    (fs : FileSystem) (path : Option Bytes) (out : FileStat)
    → IsValid fs
    → Store.read (store_of fs) path ≡ none
    → stat fs path (some out) ≡ some (err_not_found, some out)
unfolding stat Store.read
stat-missing fs path out v missing = elim (Option-cases (name_of path)) [
  | inl bad ↦ rw (find-eq_none fs path bad) refl
  | inr (n, named) ↦ elim (Option-cases (slot_of fs n)) [
    | inl absent ↦ rw (find-eq_slot_of fs path n v named, absent) refl
    | inr (i, at) ↦
        let held : Store.read (store_of fs) path ≡ some (text (file_at fs i).contents) =
          rw (Store.read, named) (view-eq_some fs n i at) in
        cc
  ]
]

stat-Stats :
    {fs : FileSystem} (path : Option Bytes) (out : FileStat)
    → IsValid fs
    → Stats path out (Store.read (store_of fs) path) (stat fs path (some out))
unfolding Store.read
stat-Stats {fs} path out v = elim (Option-cases (name_of path)) [
  | inl bad ↦
      let missing : Store.read (store_of fs) path ≡ none = rw (Store.read, bad) refl in
      rw missing (stat-missing fs path out v missing)
  | inr (n, named) ↦ elim (Option-cases (view fs n)) [
    | inl absent ↦
        let missing : Store.read (store_of fs) path ≡ none = rw (Store.read, named) absent in
        rw missing (stat-missing fs path out v missing)
    | inr (c, held) ↦
        let found : Store.read (store_of fs) path ≡ some c = rw (Store.read, named) held in
        let (s, run, reports) = stat-Reports path out v named held in
        let same : name_of path ≡ some (text s.name) = named ∙ ap some (sym reports.named) in
        rw found (s, run, same, reports.sized, reports.file)
  ]
]

-- On a valid table the operations that only read agree with the abstract map, on every path. `read` leads to the string
-- that the map holds under the name of the path, or is null where it holds none; `exists` says whether
-- it holds one; `stat` reports the name and the length of what it holds, or that it holds nothing.
pub reads-Agree :
    {fs : FileSystem} (path : Option Bytes) (out : FileStat)
    → IsValid fs
    → ((read fs path >>= λ r. some (Option.map text r)) ≡ some (Store.read (store_of fs) path))
      × (exists fs path ≡ some (is_some (Store.read (store_of fs) path)))
      × Stats path out (Store.read (store_of fs) path) (stat fs path (some out))
reads-Agree {fs} path out v =
    (read-eq_lookup path v, exists-eq_lookup fs path v, stat-Stats path out v)
