-- ===== src/Ascii/Showable.antt =====
-- Calls of the console whose text, where it has to be UTF-8, is.
use xbt_os_misaka.Prelude.{Whenever-bind}
use xbt_os_misaka.Ascii.{AreAscii}
use xbt_os_misaka.Ascii.Files.{FilesAscii, Writes}
use xbt_os_misaka.Console.{ConsoleOp, Trace, print}
use xbt_os_misaka.I18n
use xbt_os_misaka.I18n.{Language, MessageId, message, en, zh_cn}
use xbt_os_misaka.KString.{Bytes}
use xbt_os_misaka.Prelude.{
  ℕ, zero, suc, ◌≡◌, inl, inr, ◌⊎◌, All, All-append, List, [], ◌∷◌, none, some, Run, Whenever,
  Bool-cases,
}
use xbt_os_misaka.Shell.{Kernel, print_file_result, put_chars, report, say}
use xbt_os_misaka.Startup.Messages.{codes, literal, message-encode}
use xbt_os_misaka.Vfs
use xbt_os_misaka.Vfs.{FileResult, FileStat, FileSystem, read, stat}
use xbt_os_misaka.Vfs.Listing.{list, list_loop}
use xbt_os_misaka.Vga.Utf8.{IsScalar, encode}

-- A call of the console whose text, if it has to be UTF-8, is.
abbrev pub IsShowable : ConsoleOp → Type 0
IsShowable (ConsoleOp.write_utf8 s) =
    ((cs : List ℕ) × All IsScalar cs × (s ≡ encode cs)) ⊎ AreAscii s
IsShowable _ = Unit

abbrev pub Showable : Trace → Type 0
Showable t = All IsShowable t

-- What a command leaves and prints, if it returns.
abbrev pub Says : Run (Kernel × Trace) → Type 0
Says run = Whenever (λ r. FilesAscii (r.0).vfs × Showable (r.1)) run

pub say-Showable : (language : Language) (id : MessageId) → Showable (say language id)
say-Showable language id =
    let (same, scalars) = message-encode language id in
    (inl (codes (literal language id), scalars, same), tt)

pub print_file_result-Showable :
    (language : Language) (r : FileResult) → Showable (print_file_result language r)
unfolding print_file_result
print_file_result-Showable language Vfs.err_not_found = say-Showable language I18n.file_not_found
print_file_result-Showable language Vfs.ok = tt
print_file_result-Showable language _ = (tt, tt)

pub report-Says :
    (k : Kernel) (done : MessageId) (run : Run (FileResult × FileSystem))
    → Writes run
    → Says (report k done run)
report-Says k done none writes = tt
report-Says k done (some (Vfs.ok, fs)) writes = (writes, say-Showable k.language done)
report-Says k done (some (Vfs.err_not_found, fs)) writes =
    (writes, print_file_result-Showable k.language Vfs.err_not_found)
report-Says k done (some (Vfs.err_exists, fs)) writes =
    (writes, print_file_result-Showable k.language Vfs.err_exists)
report-Says k done (some (Vfs.err_full, fs)) writes =
    (writes, print_file_result-Showable k.language Vfs.err_full)
report-Says k done (some (Vfs.err_invalid_name, fs)) writes =
    (writes, print_file_result-Showable k.language Vfs.err_invalid_name)
report-Says k done (some (Vfs.err_too_large, fs)) writes =
    (writes, print_file_result-Showable k.language Vfs.err_too_large)

pub list_loop-Showable :
    (files : List Vfs.File) (rounds : ℕ) → Whenever (λ r. Showable (r.1)) (list_loop files rounds)
unfolding list_loop
list_loop-Showable [] zero = tt
list_loop-Showable [] (suc rounds) = tt
list_loop-Showable (f ∷ files) zero = tt
list_loop-Showable (f ∷ files) (suc rounds) =
    Whenever-bind (λ r. Showable (r.1)) (λ r. Showable (r.1)) (list_loop files rounds) _
      (list_loop-Showable files rounds)
      (λ (found, lines) rest. elim (Bool-cases f.is_used) [
        | inl used ↦ rw used (tt, (tt, (tt, (tt, (tt, rest)))))
        | inr free ↦ rw free rest
      ])

pub list-Showable : (fs : FileSystem) → Whenever Showable (list fs)
unfolding list
list-Showable fs =
    Whenever-bind (λ r. Showable (r.1)) Showable (list_loop fs.files fs.file_count) _
      (list_loop-Showable fs.files fs.file_count)
      (λ (found, lines) rest. elim (Bool-cases found) [
        | inl some_files ↦ rw some_files rest
        | inr no_files ↦
            rw no_files (All-append IsShowable lines (print " (empty)\n") rest (tt, tt))
      ])

pub put_chars-Showable : (s : Bytes) → Showable (put_chars s)
put_chars-Showable [] = tt
put_chars-Showable (c ∷ s) = (tt, put_chars-Showable s)
