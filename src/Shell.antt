-- ===== src/Shell.antt =====
-- kernel/main.cpp, lines 11 to 33, 61 to 308 and 430 to 446: the commands of the shell, and the boot
-- of the kernel that they work on. `cpuid` is the processor's instruction.
pub mod Steps
pub mod Arguments
pub mod Meaning
pub mod Commands
pub mod Files
use mathlib.Core.Option
use xbt_os_misaka.App.{
  AppManager, AppManifest, AppContext, AppPermission, AppResult, launch, permission_bits,
  register_app,
}
use xbt_os_misaka.App
use xbt_os_misaka.Console.{ConsoleOp, Trace, bytes, print, print_char, print_string, print_utf8}
use xbt_os_misaka.Decimal.{digits}
use xbt_os_misaka.I18n.{Language, MessageId, message, set_language_by_name, en, zh_cn}
use xbt_os_misaka.I18n
use xbt_os_misaka.KString.{Bytes, head, tail, keep, poke, streq}
use xbt_os_misaka.Prelude.{
  ℕ, zero, suc, ◌+◌, ◌/◌, ◌%◌, ◌^◌, Bool, true, false, ◌&&◌, ◌||◌, not, Option, none, some, List,
  [], ◌∷◌, ◌++◌, ◌==◌, ltb, if◌then◌else◌, Run, ◌>>=◌, drop, replicate, bit_or,
}
use xbt_os_misaka.Vfs.{
  FileSystem, FileResult, FileStat, err_not_found, err_exists, err_full, err_invalid_name,
  err_too_large, create, write, append, remove, read, stat, file_name_size,
}
use xbt_os_misaka.Vfs
use xbt_os_misaka.Vfs.Listing.{list}

-- The entry points of the applications that the kernel registers.
pub data EntryPoint : Type 0 where
  demo_app_main : EntryPoint

-- The statics that the commands work on.
pub record Kernel : Type 0 where
  pub vfs : FileSystem
  pub language : Language
  pub manager : AppManager EntryPoint

abbrev pub demo_output : Bytes → Bytes → Trace
demo_output identifier container_path =
    print "Hello from sandboxed app.\n"
    ++ print "App ID: "
    ++ print_string identifier
    ++ print "\nContainer: "
    ++ print_string container_path
    ++ print "\n"

unfoldable pub enter : EntryPoint → AppContext → Run Trace
enter demo_app_main context = do
  identifier ← context.manifest.identifier
  some (demo_output identifier context.sandbox.container_path)

unfoldable pub demo : AppManifest
demo = record {
  identifier = some (bytes "com.xbtos.demo");
  display_name = bytes "XBTOS Demo";
  version = bytes "1.0";
  requested_permissions =
      bit_or (permission_bits AppPermission.console) (permission_bits AppPermission.file_read);
}

unfoldable pub register_builtin_apps : AppManager EntryPoint → Run (AppManager EntryPoint)
unfolding demo
register_builtin_apps m = do (_, m') ← register_app m (some demo) (some demo_app_main); some m'

-- The part of `kernel_main` that sets these statics up, from what they held.
unfoldable pub boot : Kernel → Run Kernel
unfolding register_builtin_apps
boot k = do
  manager ← register_builtin_apps (App.init k.manager)
  some (record k { vfs = Vfs.init k.vfs; manager = manager })

-- `print_utf8` of a message.
abbrev pub say : Language → MessageId → Trace
say language id = print_utf8 (message language id)

abbrev pub prompt : Kernel → Trace
prompt k = say k.language I18n.msg_prompt

unfoldable pub starts_with : Bytes → Bytes → Bool
starts_with text [] = true
starts_with text (c ∷ prefix) =
    let rest = starts_with (tail text) prefix in
    if c == 0 then true else if head text == c then rest else false

unfoldable pub skip_spaces : Bytes → Bytes
skip_spaces [] = []
skip_spaces (c ∷ text) = if c == b' ' then skip_spaces text else c ∷ text

-- `while (*content != '\0' && *content != ' ') ++content;`
unfoldable pub skip_token : Bytes → Bytes
skip_token [] = []
skip_token (c ∷ text) = if not (c == 0) && not (c == b' ') then skip_token text else c ∷ text

-- From `start + i` to `out + i`.
unfoldable pub copy_token : Bytes → Bytes → ℕ → ℕ → Run Bytes
copy_token [] out i out_size = poke 0 out
copy_token (c ∷ start) [] i out_size = none
copy_token (c ∷ start) (o ∷ out) i out_size =
    let rest = keep c (copy_token start out (i + 1) out_size) in
    if not (c == 0) && not (c == b' ') && ltb (i + 1) out_size then rest else poke 0 (o ∷ out)

unfoldable pub print_file_result : Language → FileResult → Trace
print_file_result language err_not_found = say language I18n.file_not_found
print_file_result language err_exists = print "File already exists.\n"
print_file_result language err_full = print "File table is full.\n"
print_file_result language err_invalid_name = print "Invalid file name.\n"
print_file_result language err_too_large = print "File content is too large.\n"
print_file_result language Vfs.ok = []

abbrev pub put_chars : Bytes → Trace
put_chars [] = []
put_chars (c ∷ s) = ConsoleOp.put_char c ∷ put_chars s

unfoldable pub print_uint : ℕ → Trace
print_uint value = put_chars (digits value)

-- The bytes of a register in memory.
abbrev pub register_bytes : ℕ → Bytes
register_bytes r = r % 256 ∷ r / 256 % 256 ∷ r / 2 ^ 16 % 256 ∷ r / 2 ^ 24 % 256 ∷ []

-- What a call that changes the file system leaves of the kernel, and what is printed after it.
abbrev pub report : Kernel → MessageId → Run (FileResult × FileSystem) → Run (Kernel × Trace)
report k done none = none
report k done (some (Vfs.ok, fs)) = some (record k { vfs = fs }, say k.language done)
report k done (some (r, fs)) = some (record k { vfs = fs }, print_file_result k.language r)

unfoldable pub do_help : Kernel → Run (Kernel × Trace)
do_help k = some (
  k,
  say k.language I18n.help_header
      ++ say k.language I18n.help_core
      ++ say k.language I18n.help_files
      ++ say k.language I18n.help_lang
      ++ print " apps run <app-id>\n",
)

unfoldable pub do_read : Kernel → Bytes → Run (Kernel × Trace)
do_read k filename = do
  content ← read k.vfs (some filename)
  some (
    k,
    elim content [
      | some text ↦ print_utf8 text ++ print "\n"
      | none ↦ say k.language I18n.file_not_found
    ],
  )

-- The file name and the content of `rec` and of `append`. The buffer is not initialised; what it holds
-- does not matter.
unfoldable pub split_arguments : Bytes → Run (Bytes × Bytes)
unfolding copy_token
split_arguments args = do
  filename ← copy_token args (replicate file_name_size 0) 0 file_name_size
  some (filename, skip_spaces (skip_token args))

unfoldable pub do_record : Kernel → Bytes → Run (Kernel × Trace)
do_record k args = do
  (filename, content) ← split_arguments args
  if head filename == 0 || head content == 0
      then some (k, say k.language I18n.usage_write)
      else report k I18n.file_write_ok (write k.vfs (some filename) (some content))

unfoldable pub do_append : Kernel → Bytes → Run (Kernel × Trace)
do_append k args = do
  (filename, content) ← split_arguments args
  report k I18n.file_write_ok (append k.vfs (some filename) (some content))

abbrev no_stat : FileStat
no_stat = record { name = []; size = 0; is_directory = false }

unfoldable pub do_list : Kernel → Run (Kernel × Trace)
do_list k = do lines ← list k.vfs; some (k, lines)

-- What `stat` prints; `none` for the structure does not occur, its address is not null.
unfoldable pub print_stat : Language → FileResult × Option FileStat → Trace
print_stat language (Vfs.ok, some s) =
    print "Name: "
    ++ print_string s.name
    ++ print "\nSize: "
    ++ print_uint s.size
    ++ print " bytes\n"
print_stat language (r, _) = print_file_result language r

unfoldable pub do_stat : Kernel → Bytes → Run (Kernel × Trace)
unfolding print_stat
do_stat k filename = do
  result ← stat k.vfs (some filename) (some no_stat)
  some (k, print_stat k.language result)

-- What is printed after `launch`.
unfoldable pub print_app_result : AppResult × Trace → Trace
print_app_result (App.ok, t) = t
print_app_result (App.err_not_found, t) = t ++ print "App not found.\n"
print_app_result (_, t) = t ++ print "App launch failed.\n"

unfoldable pub do_run : Kernel → Bytes → Run (Kernel × Trace)
unfolding print_app_result
do_run k identifier = do
  result ← launch enter k.manager identifier
  some (k, print_app_result result)

-- What `lang` prints.
unfoldable pub print_language : Bool × Language → Trace
print_language (true, zh_cn) = say zh_cn I18n.language_zh
print_language (true, en) = say en I18n.language_en
print_language (false, language) = say language I18n.help_lang

unfoldable pub do_language : Kernel → Bytes → Run (Kernel × Trace)
unfolding print_language
do_language k name =
    let result = set_language_by_name (some name) k.language in
    some (record k { language = result.1 }, print_language result)

-- The end of each command.
abbrev pub prompted : Run (Kernel × Trace) → Run (Kernel × Trace)
prompted none = none
prompted (some (k, t)) = some (k, t ++ prompt k)

module _ (cpuid : ℕ → ℕ × ℕ × ℕ × ℕ) where
  unfoldable pub do_sysinfo : Kernel → Run (Kernel × Trace)
  do_sysinfo k =
      let (_, ebx, ecx, edx) = cpuid 0 in
      some (
        k,
        say k.language I18n.sysinfo_header
            ++ print "OS: XBTOS-LC Alpha 1029\nArchitecture: x86 protected mode\nCPU Vendor: "
            ++ print_string
                (register_bytes ebx ++ register_bytes edx ++ register_bytes ecx ++ 0 ∷ [])
            ++ print "\n",
      )

  -- The commands, without the prompt that ends each.
  unfoldable pub command : Bytes → Kernel → Run (Kernel × Trace)
  command cmd k =
      if streq cmd (bytes "help")
      then do_help k
      else if streq cmd (bytes "clear")
      then some (k, ConsoleOp.clear ∷ say k.language I18n.welcome)
      else if streq cmd (bytes "about")
      then some (k, say k.language I18n.about)
      else if streq cmd (bytes "sysmit") || streq cmd (bytes "sysinfo")
      then do_sysinfo k
      else if streq cmd (bytes "lst")
      then do_list k
      else if starts_with cmd (bytes "touch ")
      then report k I18n.file_created (create k.vfs (some (skip_spaces (drop 5 cmd))))
      else if starts_with cmd (bytes "rdf ")
      then do_read k (skip_spaces (drop 3 cmd))
      else if starts_with cmd (bytes "rec ")
      then do_record k (skip_spaces (drop 3 cmd))
      else if starts_with cmd (bytes "append ")
      then do_append k (skip_spaces (drop 6 cmd))
      else if starts_with cmd (bytes "rm ")
      then report k I18n.file_deleted (remove k.vfs (some (skip_spaces (drop 2 cmd))))
      else if starts_with cmd (bytes "stat ")
      then do_stat k (skip_spaces (drop 4 cmd))
      else if streq cmd (bytes "dirs")
      then some (k, say k.language I18n.current_path)
      else if streq cmd (bytes "apps")
      then some (k, print "Installed apps:\n" ++ print " - com.xbtos.demo\n")
      else if starts_with cmd (bytes "run ")
      then do_run k (skip_spaces (drop 3 cmd))
      else if starts_with cmd (bytes "lang ")
      then do_language k (skip_spaces (drop 4 cmd))
      else some (k, say k.language I18n.unknown_command ++ print_string cmd ++ print "\n")

  unfoldable pub execute_command : Bytes → Kernel → Run (Kernel × Trace)
  unfolding command
  execute_command cmd k = prompted (command cmd k)
