-- ===== src/Shell/Commands.antt =====
-- kernel/main.cpp: the commands of the shell on a valid kernel.
use mathlib.Core.Path.{subst}
use xbt_os_misaka.Vfs.Listing.Lines.{list_lem}
use xbt_os_misaka.Shell.{do_list}
use xbt_os_misaka.App.Registry
use xbt_os_misaka.App.Registry.{launch_lem, register_app-IsValid}
use xbt_os_misaka.Console.{Trace, bytes}
use xbt_os_misaka.KString.{Bytes, IsText, text, streq}
use xbt_os_misaka.KString.Compare.{streq_iff}
use xbt_os_misaka.Prelude.{
  ℕ, ◌≤◌, ◌≡◌, inl, inr, refl, ap, sym, ◌∙◌, Bool-cases, some, Run, true, [], ◌∷◌, ◌++◌, All, arith,
  drop, length, ◌||◌,
}
use xbt_os_misaka.Shell.{
  Kernel, boot, command, demo, demo_app_main, do_help, do_sysinfo, execute_command, prompt,
  register_builtin_apps, starts_with,
}
use xbt_os_misaka.Vfs
use xbt_os_misaka.Vfs.{
  FileResult, FileSystem, append, create, file_name_size, path_size, read, remove, stat, write,
}
use xbt_os_misaka.Shell.Meaning.{
  argument, append_store, meaning, record_store, text-argument, starts_with-text,
}
use xbt_os_misaka.Vfs.Refine.{store_of}
use xbt_os_misaka.Vfs.Store
use xbt_os_misaka.Vfs.Refine.Reads.{read-eq_lookup, stat-returns}
use xbt_os_misaka.Vfs.Refine.Reads
use xbt_os_misaka.Vfs.Store.{Store}
pub use xbt_os_misaka.Shell.Steps.{IsValid}
use xbt_os_misaka.Shell.Steps.{
  Keeps, Keeps-if, Keeps-both, length-skip_spaces, length-drop, still, do_read-Keeps,
  do_create-Keeps, do_remove-Keeps, do_record-Keeps, do_append-Keeps, do_stat-Keeps, do_run-Keeps,
  do_language-Keeps,
}

-- A command that is named in full means nothing to the files.
named_in_full :
    (cmd name : Bytes) (files : Store)
    → meaning (text name) files ≡ files
    → streq cmd name ≡ true
    → files ≡ meaning (text cmd) files
named_in_full cmd name files idle same =
    sym (ap (λ l. meaning l files) ((streq_iff cmd name).0 same) ∙ idle)

-- The names that are commands in full, those of the first part of the code.
idles :
    (files : Store)
    → All
        (λ name. meaning (text name) files ≡ files)
        (bytes "help"
          ∷ bytes "clear"
          ∷ bytes "about"
          ∷ bytes "sysmit"
          ∷ bytes "sysinfo"
          ∷ bytes "lst"
          ∷ [])
unfolding meaning bytes text starts_with
idles files = (refl, (refl, (refl, (refl, (refl, (refl, tt))))))

words_are_texts :
    All IsText (bytes "touch " ∷ bytes "rdf " ∷ bytes "rec " ∷ bytes "append " ∷ bytes "rm " ∷ [])
unfolding bytes
words_are_texts = omega arith

-- The commands that start with a word and a space, and the lines that are no command.
module _ (cpuid : ℕ → ℕ × ℕ × ℕ × ℕ) (cmd : Bytes) {k : Kernel} (fits : length cmd ≤ 256)
    (v : IsValid k) where
  short : (n : ℕ) → length (argument n cmd) ≤ 256
  short n = omega (arith, fits, length-skip_spaces (drop n cmd), length-drop n cmd)

  -- `cmd` is the name of a command in full.
  in_full :
      (name : Bytes) (t : Trace)
      → meaning (text name) (store_of k.vfs) ≡ store_of k.vfs
      → streq cmd name ≡ true
      → Keeps (some (k, t)) (meaning (text cmd) (store_of k.vfs))
  in_full name t idle same = (k, t, refl, v, named_in_full cmd name (store_of k.vfs) idle same)

  one_of_two :
      (a b : Bytes) {run : Run (Kernel × Trace)}
      → (streq cmd a ≡ true → Keeps run (meaning (text cmd) (store_of k.vfs)))
      → (streq cmd b ≡ true → Keeps run (meaning (text cmd) (store_of k.vfs)))
      → streq cmd a || streq cmd b ≡ true
      → Keeps run (meaning (text cmd) (store_of k.vfs))
  one_of_two a b first second either = elim (Bool-cases (streq cmd a)) [
    | inl is_first ↦ first is_first
    | inr not_first ↦ second (ground (arith, either, not_first))
  ]

  do_list-Keeps :
      meaning (text (bytes "lst")) (store_of k.vfs) ≡ store_of k.vfs
      → streq cmd (bytes "lst") ≡ true
      → Keeps (do_list k) (meaning (text cmd) (store_of k.vfs))
  unfolding do_list
  do_list-Keeps idle same =
      let (t, run, _) = list_lem v.files in rw run (in_full (bytes "lst") t idle same)

  -- The line starts with the word of a command, and so does its text.
  at_word :
      (n : ℕ) (word : Bytes) {run : Run (Kernel × Trace)} (files : Bytes → Store)
      → n ≤ length word
      → IsText word
      → Keeps run (files (text (argument n cmd)))
      → starts_with cmd word ≡ true
      → Keeps run (files (argument n (text cmd)))
  at_word n word {run} files le is kept starts =
      subst (λ l. Keeps run (files l)) (text-argument n cmd word le is starts) kept

  command-Keeps : Keeps (command cpuid cmd k) (meaning (text cmd) (store_of k.vfs))
  unfolding command do_help do_sysinfo meaning bytes
  command-Keeps =
      let (help, (clear, (about, (sysmit, (sysinfo, (lst, _)))))) = idles (store_of k.vfs) in
      let (touch_word, (rdf_word, (rec_word, (append_word, (rm_word, _))))) = words_are_texts in
      Keeps-both (streq cmd (bytes "help")) (in_full (bytes "help") _ help) (
        Keeps-both (streq cmd (bytes "clear")) (in_full (bytes "clear") _ clear) (
          Keeps-both (streq cmd (bytes "about")) (in_full (bytes "about") _ about) (
            Keeps-both (streq cmd (bytes "sysmit") || streq cmd (bytes "sysinfo"))
              (one_of_two (bytes "sysmit") (bytes "sysinfo") (in_full (bytes "sysmit") _ sysmit)
                (in_full (bytes "sysinfo") _ sysinfo))
              (Keeps-both (streq cmd (bytes "lst")) (do_list-Keeps lst) (
                rw
                  (
                    starts_with-text cmd (bytes "touch ") touch_word,
                    starts_with-text cmd (bytes "rdf ") rdf_word,
                    starts_with-text cmd (bytes "rec ") rec_word,
                    starts_with-text cmd (bytes "append ") append_word,
                    starts_with-text cmd (bytes "rm ") rm_word,
                  )
                  (let files = store_of k.vfs in
                    Keeps-if (starts_with cmd (bytes "touch "))
                      (at_word 5 (bytes "touch ") (λ l. (Store.create files (some l)).1)
                        (omega arith) touch_word (do_create-Keeps v (argument 5 cmd)))
                      (Keeps-if (starts_with cmd (bytes "rdf ")) (λ _. do_read-Keeps v _)
                        (Keeps-if (starts_with cmd (bytes "rec "))
                          (at_word 3 (bytes "rec ") (λ l. record_store l files) (omega arith)
                            rec_word (do_record-Keeps v (argument 3 cmd) (short 3)))
                          (Keeps-if (starts_with cmd (bytes "append "))
                            (at_word 6 (bytes "append ") (λ l. append_store l files) (omega arith)
                              append_word (do_append-Keeps v (argument 6 cmd) (short 6)))
                            (Keeps-if (starts_with cmd (bytes "rm "))
                              (at_word 2 (bytes "rm ") (λ l. (Store.remove files (some l)).1)
                                (omega arith) rm_word (do_remove-Keeps v (argument 2 cmd)))
                              (Keeps-both (starts_with cmd (bytes "stat ")) (λ _. do_stat-Keeps v _)
                                (Keeps-both (streq cmd (bytes "dirs")) (λ _. still v _)
                                  (Keeps-both (streq cmd (bytes "apps")) (λ _. still v _)
                                    (Keeps-both (starts_with cmd (bytes "run "))
                                      (λ _. do_run-Keeps v _)
                                      (Keeps-both (starts_with cmd (bytes "lang "))
                                        (λ _. do_language-Keeps v _) (still v _))))))))))))))))

-- No line of the input buffer's size makes a command fault on a valid kernel, and the command leaves
-- a valid kernel, with the files that the text of the line makes of the files there were. The last thing
-- that it prints is the prompt, in the language that it leaves.
pub execute_command-Keeps :
    (cpuid : ℕ → ℕ × ℕ × ℕ × ℕ) (cmd : Bytes) {k : Kernel}
    → length cmd ≤ 256
    → IsValid k
    → (k' : Kernel) × (t : Trace) × (execute_command cpuid cmd k ≡ some (k', t ++ prompt k'))
      × IsValid k'
      × (store_of k'.vfs ≡ meaning (text cmd) (store_of k.vfs))
unfolding execute_command
execute_command-Keeps cpuid cmd fits v =
    let (k', t, run, v', files) = command-Keeps cpuid cmd fits v in (k', t, rw run refl, v', files)

-- What `kernel_main` sets up, whatever the statics held before, is a valid kernel.
pub boot-IsValid :
    (k : Kernel)
    → length k.vfs.current_path ≡ path_size
    → (k' : Kernel) × (boot k ≡ some k') × IsValid k'
unfolding boot register_builtin_apps
boot-IsValid k size =
    let (_, m, run, w) =
      register_app-IsValid (some demo) (some demo_app_main) (Registry.init-IsValid k.manager) in
    (
      record k { vfs = Vfs.init k.vfs; manager = m },
      rw run refl,
      record { files = (Reads.init-IsValid k.vfs size).0; apps = w },
    )
