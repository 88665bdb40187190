-- ===== src/Ascii/Shell.antt =====
-- kernel/main.cpp: what the commands print, on files and lines of such bytes.
use mathlib.Core.Path.{subst}
use xbt_os_misaka.Vfs.Listing.{list}
use xbt_os_misaka.Shell.{do_list}
use xbt_os_misaka.App
use xbt_os_misaka.App.{AppManager, AppResult, launch, launch_bundle}
use xbt_os_misaka.Ascii.{AreAscii, drop-AreAscii, skip_spaces-AreAscii, skip_token-AreAscii}
use xbt_os_misaka.Ascii.Files.{
  FilesAscii, ReadsAscii, append-Writes, create-Writes, read-ReadsAscii, remove-Writes,
  write-Writes,
}
use xbt_os_misaka.Console.{Trace, bytes, print}
use xbt_os_misaka.Decimal.{digits}
use xbt_os_misaka.I18n
use xbt_os_misaka.I18n.{Language, MessageId, message, en, zh_cn}
use xbt_os_misaka.KString.{Bytes, head, streq}
use xbt_os_misaka.Prelude.{
  ℕ, inl, inr, All-append, Bool, true, false, ◌||◌, ◌==◌, none, some, Option, Run, get_or, Whenever,
  Whenever-bind, Whenever-if, Whenever-then, if◌then◌else◌, drop, Option-cases,
}
use xbt_os_misaka.Shell.{
  EntryPoint, Kernel, command, demo_app_main, do_append, do_help, do_language, do_read, do_record,
  do_run, do_stat, do_sysinfo, enter, execute_command, print_app_result, print_language, print_stat,
  copy_token, print_uint, put_chars, prompt, prompted, say, skip_spaces, skip_token,
  split_arguments, starts_with,
}
use xbt_os_misaka.Vfs
use xbt_os_misaka.Vfs.{FileResult, FileStat, FileSystem, read, stat}
use xbt_os_misaka.Ascii.Showable.{
  IsShowable, Showable, Says, say-Showable, print_file_result-Showable, report-Says, list-Showable,
  put_chars-Showable,
}

do_help-Says : (k : Kernel) → FilesAscii k.vfs → Says (do_help k)
unfolding do_help
do_help-Says k files =
    let says = λ (id : MessageId). (say-Showable k.language id).0 in
    (
      files,
      (
        says I18n.help_header,
        (says I18n.help_core, (says I18n.help_files, (says I18n.help_lang, (tt, tt)))),
      ),
    )

do_read-Says : (k : Kernel) (filename : Bytes) → FilesAscii k.vfs → Says (do_read k filename)
unfolding do_read
do_read-Says k filename files =
    Whenever-bind ReadsAscii _ (read k.vfs (some filename)) _
      (read-ReadsAscii k.vfs (some filename) files)
      (λ content r. elim (Option-cases content) [
        | inl e ↦ rw e (files, say-Showable k.language I18n.file_not_found)
        | inr (text, e) ↦ rw e (files, (inr (subst ReadsAscii e r), (tt, tt)))
      ])

split_arguments-AreAscii :
    (args : Bytes) → AreAscii args → Whenever (λ r. AreAscii (r.1)) (split_arguments args)
unfolding split_arguments
split_arguments-AreAscii args all =
    Whenever-then _ (copy_token args _ 0 _) _
      (λ filename. skip_spaces-AreAscii (skip_token args) (skip_token-AreAscii args all))

do_record-Says :
    (k : Kernel) (args : Bytes) → FilesAscii k.vfs → AreAscii args → Says (do_record k args)
unfolding do_record
do_record-Says k args files all =
    Whenever-bind (λ r. AreAscii (r.1)) _ (split_arguments args) _
      (split_arguments-AreAscii args all)
      (λ (filename, content) ascii.
        Whenever-if _ (head filename == 0 || head content == 0) _ _
          (files, say-Showable k.language I18n.usage_write)
          (report-Says k I18n.file_write_ok _
            (write-Writes k.vfs (some filename) (some content) files ascii)))

do_append-Says :
    (k : Kernel) (args : Bytes) → FilesAscii k.vfs → AreAscii args → Says (do_append k args)
unfolding do_append
do_append-Says k args files all =
    Whenever-bind (λ r. AreAscii (r.1)) _ (split_arguments args) _
      (split_arguments-AreAscii args all)
      (λ (filename, content) ascii.
        report-Says k I18n.file_write_ok _
          (append-Writes k.vfs (some filename) content files ascii))

print_stat-Showable :
    (language : Language) (r : FileResult × Option FileStat) → Showable (print_stat language r)
unfolding print_stat print_uint
print_stat-Showable language (Vfs.ok, some s) = (
  tt,
  (
    tt,
    (
      tt,
      All-append IsShowable (put_chars (digits s.size)) (print " bytes\n")
          (put_chars-Showable (digits s.size)) (tt, tt),
    ),
  ),
)
print_stat-Showable language (Vfs.ok, none) = print_file_result-Showable language Vfs.ok
print_stat-Showable language (Vfs.err_not_found, s) =
    print_file_result-Showable language Vfs.err_not_found
print_stat-Showable language (r, _) = print_file_result-Showable language r

do_stat-Says : (k : Kernel) (filename : Bytes) → FilesAscii k.vfs → Says (do_stat k filename)
unfolding do_stat
do_stat-Says k filename files =
    Whenever-then _ (stat k.vfs (some filename) (some _)) _
      (λ r. (files, print_stat-Showable k.language r))

print_app_result-Showable : (r : AppResult × Trace) → Showable (r.1) → Showable (print_app_result r)
unfolding print_app_result
print_app_result-Showable (App.ok, t) all = all
print_app_result-Showable (_, t) all = All-append IsShowable t _ all (tt, tt)

enter-Showable :
    (entry : EntryPoint) (context : App.AppContext) → Whenever Showable (enter entry context)
unfolding enter
enter-Showable demo_app_main context =
    Whenever-then _ context.manifest.identifier _
      (λ identifier. (tt, (tt, (tt, (tt, (tt, (tt, tt)))))))

launch_bundle-Showable :
    (b : App.AppBundle EntryPoint) (identifier : Bytes)
    → Whenever (λ r. Showable (r.1)) (launch_bundle enter b identifier)
unfolding launch_bundle
launch_bundle-Showable b identifier =
    Whenever-then _ (App.app_context b.manifest identifier _) _ (λ context.
      Whenever-then _ b.entry _ (λ entry.
        Whenever-bind Showable _ (enter entry context) _ (enter-Showable entry context)
          (λ output shows. (tt, (tt, (tt, (tt, (tt, shows))))))))

launch-Showable :
    (m : AppManager EntryPoint) (identifier : Bytes)
    → Whenever (λ r. Showable (r.1)) (launch enter m identifier)
unfolding launch
launch-Showable m identifier =
    Whenever-then _ (App.find_app m.apps m.app_count 0 identifier) _ (λ found.
      elim (Option-cases found) [
        | inl e ↦ rw e tt
        | inr (i, e) ↦ rw e (launch_bundle-Showable (get_or m.apps i App.zero_bundle) identifier)
      ])

do_run-Says : (k : Kernel) (identifier : Bytes) → FilesAscii k.vfs → Says (do_run k identifier)
unfolding do_run
do_run-Says k identifier files =
    Whenever-bind (λ r. Showable (r.1)) _ (launch enter k.manager identifier) _
      (launch-Showable k.manager identifier) (λ r all. (files, print_app_result-Showable r all))

print_language-Showable : (r : Bool × Language) → Showable (print_language r)
unfolding print_language
print_language-Showable (true, zh_cn) = say-Showable zh_cn I18n.language_zh
print_language-Showable (true, en) = say-Showable en I18n.language_en
print_language-Showable (false, language) = say-Showable language I18n.help_lang

do_language-Says : (k : Kernel) (name : Bytes) → FilesAscii k.vfs → Says (do_language k name)
unfolding do_language
do_language-Says k name files =
    (files, print_language-Showable (I18n.set_language_by_name (some name) k.language))

Says-if : (b : Bool) (x y : Run (Kernel × Trace)) → Says x → Says y → Says (if b then x else y)
Says-if true x y p q = p
Says-if false x y p q = q

prompted-Says : (run : Run (Kernel × Trace)) → Says run → Says (prompted run)
prompted-Says none says = tt
prompted-Says (some (k, t)) says =
    (says.0, All-append IsShowable t (prompt k) (says.1) (say-Showable k.language I18n.msg_prompt))

do_list-Says : (k : Kernel) → FilesAscii k.vfs → Says (do_list k)
unfolding do_list
do_list-Says k files =
    Whenever-bind Showable _ (list k.vfs) _ (list-Showable k.vfs) (λ lines shows. (files, shows))

module _ (cpuid : ℕ → ℕ × ℕ × ℕ × ℕ) where
  do_sysinfo-Says : (k : Kernel) → FilesAscii k.vfs → Says (do_sysinfo cpuid k)
  unfolding do_sysinfo
  do_sysinfo-Says k files =
      (files, ((say-Showable k.language I18n.sysinfo_header).0, (tt, (tt, (tt, tt)))))

  command-Says :
      (cmd : Bytes) (k : Kernel) → FilesAscii k.vfs → AreAscii cmd → Says (command cpuid cmd k)
  unfolding command
  command-Says cmd k files all = Says-if (streq cmd (bytes "help")) _ _ (do_help-Says k files) (
      Says-if (streq cmd (bytes "clear")) _ _ (files, (tt, say-Showable k.language I18n.welcome))
        (Says-if (streq cmd (bytes "about")) _ _ (still I18n.about) (
          Says-if (streq cmd (bytes "sysmit") || streq cmd (bytes "sysinfo")) _ _
            (do_sysinfo-Says k files)
            (Says-if (streq cmd (bytes "lst")) _ _ (do_list-Says k files) (
              Says-if (starts_with cmd (bytes "touch ")) _ _
                (report-Says k I18n.file_created _ (create-Writes k.vfs _ files))
                (Says-if (starts_with cmd (bytes "rdf ")) _ _ (do_read-Says k _ files) (
                  Says-if (starts_with cmd (bytes "rec ")) _ _
                    (do_record-Says k _ files (argument 3))
                    (Says-if (starts_with cmd (bytes "append ")) _ _
                      (do_append-Says k _ files (argument 6))
                      (Says-if (starts_with cmd (bytes "rm ")) _ _
                        (report-Says k I18n.file_deleted _ (remove-Writes k.vfs _ files))
                        (Says-if (starts_with cmd (bytes "stat ")) _ _ (do_stat-Says k _ files) (
                          Says-if (streq cmd (bytes "dirs")) _ _ (still I18n.current_path) (
                            Says-if (streq cmd (bytes "apps")) _ _ (files, (tt, (tt, tt)))
                              (Says-if (starts_with cmd (bytes "run ")) _ _ (do_run-Says k _ files)
                                (Says-if (starts_with cmd (bytes "lang ")) _ _
                                  (do_language-Says k _ files)
                                  (
                                    files,
                                    (
                                      (say-Showable k.language I18n.unknown_command).0,
                                      (tt, (tt, tt)),
                                    ),
                                  )))))))))))))))
    where
      still : (id : MessageId) → FilesAscii k.vfs × Showable (say k.language id)
      still id = (files, say-Showable k.language id)

      argument : (n : ℕ) → AreAscii (skip_spaces (drop n cmd))
      argument n = skip_spaces-AreAscii (drop n cmd) (drop-AreAscii n cmd all)

  -- On files and a line of bytes below 0x80, a command leaves such files, and each text that it prints
  -- as UTF-8 is well formed.
  pub execute_command-Says :
      (cmd : Bytes) (k : Kernel)
      → FilesAscii k.vfs
      → AreAscii cmd
      → Says (execute_command cpuid cmd k)
  unfolding execute_command
  execute_command-Says cmd k files all =
      prompted-Says (command cpuid cmd k) (command-Says cmd k files all)
