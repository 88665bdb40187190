-- ===== src/Shell/Steps.antt =====
-- kernel/main.cpp: what each command does on a valid kernel.
use mathlib.Core.Path.{subst}
use xbt_os_misaka.App.Registry
use xbt_os_misaka.App.Registry.{launch_lem, register_app-IsValid}
use xbt_os_misaka.Console.{Trace}
use xbt_os_misaka.I18n
use xbt_os_misaka.I18n.{MessageId}
use xbt_os_misaka.KString.{Bytes, head, text}
use xbt_os_misaka.Prelude.{
  ℕ, zero, suc, ◌≤◌, ◌≡◌, inl, inr, refl, none, some, Run, ◌>>=◌, Bool, true, false, [], ◌∷◌,
  if◌then◌else◌, arith, drop, length, ◌==◌, ◌||◌,
}
use xbt_os_misaka.Shell.{
  Kernel, demo_output, demo_app_main, do_append, do_language, do_read, do_record, do_run, do_stat,
  enter, report, skip_spaces, skip_token, no_stat,
}
use xbt_os_misaka.Shell.Arguments.{split_arguments-run}
use xbt_os_misaka.Vfs
use xbt_os_misaka.Vfs.{
  FileResult, FileSystem, append, create, file_name_size, path_size, read, remove, stat, write,
}
use xbt_os_misaka.Shell.Meaning.{
  append_store, append_store-text, create-held, record_store, record_store-text, remove-held,
}
use xbt_os_misaka.Vfs.Refine.{Refines, store_of}
use xbt_os_misaka.Vfs.Store
use xbt_os_misaka.Vfs.Refine.Stored
use xbt_os_misaka.Vfs.Refine.Contents.{append-Refines, write-Refines}
use xbt_os_misaka.Vfs.Refine.Create.{create-Refines}
use xbt_os_misaka.Vfs.Refine.Reads.{read-eq_lookup, stat-returns}
use xbt_os_misaka.Vfs.Refine.Remove.{remove-Refines}
use xbt_os_misaka.Vfs.Search
use xbt_os_misaka.Vfs.Store.{Store}

pub record IsValid (k : Kernel) : Type 0 where
  pub files : Search.IsValid k.vfs
  pub apps : Registry.IsValid k.manager

-- A step does not fault, and leaves a valid kernel, with these files.
abbrev pub Keeps : Run (Kernel × Trace) → Store → Type 0
Keeps run files =
    (k : Kernel) × (t : Trace) × (run ≡ some (k, t)) × IsValid k × (store_of k.vfs ≡ files)

pub Keeps-if :
    (b : Bool) {run run' : Run (Kernel × Trace)} {s s' : Store}
    → (b ≡ true → Keeps run s)
    → Keeps run' s'
    → Keeps (if b then run else run') (if b then s else s')
Keeps-if true kept kept' = kept refl
Keeps-if false kept kept' = kept'

-- Both ways leave these files.
pub Keeps-both :
    (b : Bool) {run run' : Run (Kernel × Trace)} {s : Store}
    → (b ≡ true → Keeps run s)
    → Keeps run' s
    → Keeps (if b then run else run') s
Keeps-both true kept kept' = kept refl
Keeps-both false kept kept' = kept'

pub with_files :
    {k : Kernel} {fs : FileSystem} → IsValid k → Search.IsValid fs → IsValid (record k { vfs = fs })
with_files v w = record { files = w; apps = v.apps }

pub report-some-Keeps :
    (k : Kernel) (done : MessageId) (r : FileResult) (fs : FileSystem)
    → IsValid (record k { vfs = fs })
    → Keeps (report k done (some (r, fs))) (store_of fs)
report-some-Keeps k done Vfs.ok fs v = (record k { vfs = fs }, _, refl, v, refl)
report-some-Keeps k done Vfs.err_not_found fs v = (record k { vfs = fs }, _, refl, v, refl)
report-some-Keeps k done Vfs.err_exists fs v = (record k { vfs = fs }, _, refl, v, refl)
report-some-Keeps k done Vfs.err_full fs v = (record k { vfs = fs }, _, refl, v, refl)
report-some-Keeps k done Vfs.err_invalid_name fs v = (record k { vfs = fs }, _, refl, v, refl)
report-some-Keeps k done Vfs.err_too_large fs v = (record k { vfs = fs }, _, refl, v, refl)

pub report-Keeps :
    {k : Kernel} (done : MessageId) (run : Run (FileResult × FileSystem))
    (spec : FileResult × Store)
    → IsValid k
    → Refines run spec
    → Keeps (report k done run) (spec.1)
report-Keeps {k} done run spec v (fs, ran, w, stored) =
    rw (← stored, ran) (report-some-Keeps k done (spec.0) fs (with_files v w))

-- A run that goes on to a result has one of its own.
pub has_result :
    {A B : Type 0} (run : Run A) (f : A → B) {b : B}
    → (run >>= λ a. some (f a)) ≡ some b
    → (a : A) × (run ≡ some a)
has_result none f ran = absurd (ground (arith, ran))
has_result (some a) f ran = (a, refl)

pub length-skip_spaces : (s : Bytes) → length (skip_spaces s) ≤ length s
unfolding skip_spaces
length-skip_spaces [] = omega arith
length-skip_spaces (c ∷ s) = ground (arith, length-skip_spaces s)

pub length-skip_token : (s : Bytes) → length (skip_token s) ≤ length s
unfolding skip_token
length-skip_token [] = omega arith
length-skip_token (c ∷ s) = ground (arith, length-skip_token s)

pub length-drop : (n : ℕ) (s : Bytes) → length (drop n s) ≤ length s
length-drop zero s = omega arith
length-drop (suc n) [] = omega arith
length-drop (suc n) (c ∷ s) = omega (arith, length-drop n s)

pub length-text : (s : Bytes) → length (text s) ≤ length s
unfolding text
length-text [] = omega arith
length-text (c ∷ s) = ground (arith, length-text s)

-- What is behind a token of a line is no longer than the line.
pub content-Fits : (args : Bytes) → length args ≤ 256 → Stored.Fits (skip_spaces (skip_token args))
content-Fits args fits = omega (
  arith,
  fits,
  length-text (skip_spaces (skip_token args)),
  length-skip_spaces (skip_token args),
  length-skip_token args,
)

pub enter-Starts : Registry.Starts enter
unfolding enter
enter-Starts demo_app_main context own named =
    (demo_output own context.sandbox.container_path, rw named refl)

module _ {k : Kernel} (v : IsValid k) where
  pub still : (t : Trace) → Keeps (some (k, t)) (store_of k.vfs)
  still t = (k, t, refl, v, refl)

  pub do_read-Keeps : (filename : Bytes) → Keeps (do_read k filename) (store_of k.vfs)
  unfolding do_read
  do_read-Keeps filename =
      let (content, run) =
        has_result (read k.vfs (some filename)) _ (read-eq_lookup (some filename) v.files) in
      rw run (still _)

  pub do_create-Keeps :
      (path : Bytes)
      → Keeps
          (report k I18n.file_created (create k.vfs (some path)))
          ((Store.create (store_of k.vfs) (some (text path))).1)
  do_create-Keeps path =
      rw (← create-held (store_of k.vfs) path refl)
        (report-Keeps I18n.file_created _ _ v (create-Refines (some path) v.files))

  pub do_remove-Keeps :
      (path : Bytes)
      → Keeps
          (report k I18n.file_deleted (remove k.vfs (some path)))
          ((Store.remove (store_of k.vfs) (some (text path))).1)
  do_remove-Keeps path =
      rw (← remove-held (store_of k.vfs) path refl)
        (report-Keeps I18n.file_deleted _ _ v (remove-Refines (some path) v.files))

  pub do_record-Keeps :
      (args : Bytes)
      → length args ≤ 256
      → Keeps (do_record k args) (record_store (text args) (store_of k.vfs))
  unfolding do_record
  do_record-Keeps args fits =
      let (filename, run, named) = split_arguments-run args in
      let content = skip_spaces (skip_token args) in
      subst (Keeps (do_record k args)) (record_store-text (store_of k.vfs) args filename named) (
        rw run (
          Keeps-if (head filename == 0 || head content == 0) (λ _. still _)
            (report-Keeps I18n.file_write_ok _ _ v
              (write-Refines (some filename) (some content) v.files (content-Fits args fits)))))

  pub do_append-Keeps :
      (args : Bytes)
      → length args ≤ 256
      → Keeps (do_append k args) (append_store (text args) (store_of k.vfs))
  unfolding do_append
  do_append-Keeps args fits =
      let (filename, run, named) = split_arguments-run args in
      let content = skip_spaces (skip_token args) in
      subst (Keeps (do_append k args)) (append_store-text (store_of k.vfs) args filename named) (
        rw run (
          report-Keeps I18n.file_write_ok _ _ v
            (append-Refines (some filename) content v.files (content-Fits args fits))))

  pub do_stat-Keeps : (filename : Bytes) → Keeps (do_stat k filename) (store_of k.vfs)
  unfolding do_stat
  do_stat-Keeps filename =
      let (r, s, run) = stat-returns (some filename) no_stat v.files in rw run (still _)

  pub do_run-Keeps : (identifier : Bytes) → Keeps (do_run k identifier) (store_of k.vfs)
  unfolding do_run
  do_run-Keeps identifier = elim (launch_lem enter identifier enter-Starts v.apps) [
    | inl absent ↦ rw (absent.0) (still _)
    | inr launched ↦ rw launched.ran (still _)
  ]

  pub do_language-Keeps : (name : Bytes) → Keeps (do_language k name) (store_of k.vfs)
  unfolding do_language
  do_language-Keeps name = (_, _, refl, record { files = v.files; apps = v.apps }, refl)
