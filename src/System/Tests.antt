-- ===== src/System/Tests.antt =====
-- The booted kernel at concrete inputs.
use xbt_os_misaka.Console.{Trace}
use xbt_os_misaka.Decimal.{IsDigit, digits, digits_lem, value_of}
use xbt_os_misaka.I18n.{zh_cn}
use xbt_os_misaka.Input.{Effect, Input, buffer_size, history_size}
use xbt_os_misaka.Input.Invariant
use xbt_os_misaka.Input.Lines.{IsLine}
use xbt_os_misaka.KString.{Bytes, head, streq, text}
use xbt_os_misaka.KString.Compare.{streq_iff}
use xbt_os_misaka.Prelude.{
  ℕ, ◌≡◌, ◌≢◌, ◌↔◌, refl, none, some, true, false, All, All-replicate, List, [], ◌∷◌, ◌++◌, arith,
  length, length-replicate, take, replicate,
}
use xbt_os_misaka.Shell.{Kernel, boot, execute_command, prompt, split_arguments}
use xbt_os_misaka.Shell.Arguments.{EndsToken, split_arguments_lem}
use xbt_os_misaka.Shell.Commands
use xbt_os_misaka.Shell.Commands.{boot-IsValid, execute_command-Keeps}
use xbt_os_misaka.Hal.{Hal}
use xbt_os_misaka.Console.{bytes, print, print_utf8}
use xbt_os_misaka.I18n
use xbt_os_misaka.Shell.{register_builtin_apps, say}
use xbt_os_misaka.Shell.Meaning.{meaning}
use xbt_os_misaka.Vfs.Refine.{store_of}
use xbt_os_misaka.System.Typing.{IsKey, after_enter, chars, run_keys-types, with_line}
use xbt_os_misaka.Input.{char_of, scancode_to_ascii}
use xbt_os_misaka.Prelude.{◌==◌, ◌||◌}
use xbt_os_misaka.Shell.Files.{IsWord, IsContent, rdf-rec}
use xbt_os_misaka.Vfs.Names.{is_name}
use xbt_os_misaka.Vfs
use xbt_os_misaka.Vfs.Search.{view}
use xbt_os_misaka.Prelude.{Whenever, Whenever-then, Whenever-some, ◌<◌, false}
use xbt_os_misaka.Vfs.{max_files}
use xbt_os_misaka.System.Keyboard.{keyboard_interrupts, keyboard_interrupts-idle}
use xbt_os_misaka.System.{desk_of, ends, press_keys, run_keys, run_keys-IsSafe}
use xbt_os_misaka.Vfs.{path_size}

digits_lem_example :
    (value_of 0 (digits 1029) ≡ 1029)
    × All IsDigit (digits 1029)
    × (◌≢◌ {A = ℕ} 1029 0 → head (digits 1029) ≢ b'0')
digits_lem_example = digits_lem 1029 (omega arith)

abbrev no_cpu : ℕ → ℕ × ℕ × ℕ × ℕ
no_cpu _ = (0, 0, 0, 0)

-- The statics before the kernel is booted.
abbrev statics : Kernel
statics = record {
  vfs = record { files = []; file_count = 0; current_path = replicate path_size 0 };
  language = zh_cn;
  manager = record { apps = []; app_count = 0 };
}

boot-IsValid_example : (k' : Kernel) × (boot statics ≡ some k') × Commands.IsValid k'
boot-IsValid_example = boot-IsValid statics (length-replicate path_size 0)

booted_run : (k' : Kernel) × (boot statics ≡ some k') × Commands.IsValid k'
booted_run = boot-IsValid statics (length-replicate path_size 0)

booted : Kernel
booted = booted_run.0

booted-IsValid : Commands.IsValid booted
unfolding booted
booted-IsValid = booted_run.2

execute_command-Keeps_example :
    (k' : Kernel) × (t : Trace) × (execute_command no_cpu
        (b't' ∷ b'o' ∷ b'u' ∷ b'c' ∷ b'h' ∷ b' ' ∷ b'x' ∷ 0 ∷ [])
        booted
      ≡ some (k', t ++ prompt k'))
    × Commands.IsValid k'
    × (store_of k'.vfs
        ≡ meaning
            (text (b't' ∷ b'o' ∷ b'u' ∷ b'c' ∷ b'h' ∷ b' ' ∷ b'x' ∷ 0 ∷ []))
            (store_of booted.vfs))
execute_command-Keeps_example =
    execute_command-Keeps no_cpu (b't' ∷ b'o' ∷ b'u' ∷ b'c' ∷ b'h' ∷ b' ' ∷ b'x' ∷ 0 ∷ [])
      (omega arith) booted-IsValid

abbrev empty_line : Bytes
empty_line = replicate buffer_size 0

abbrev blank : Input
blank = record {
  input_buffer = empty_line;
  buffer_index = 0;
  shift_pressed = false;
  extended_key = false;
  history = replicate history_size empty_line;
  history_count = 0;
  history_index = none;
}

empty_line-IsLine : IsLine empty_line
unfolding text replicate
empty_line-IsLine = omega arith

blank-IsValid : Invariant.IsValid blank
unfolding text replicate
blank-IsValid = record {
  width = refl;
  typed = refl;
  room = omega arith;
  slots = refl;
  filled = All-replicate IsLine history_size empty_line empty_line-IsLine;
  counted = omega arith;
  placed = tt;
}

-- `lst`, Enter, and the arrow up.
abbrev scancodes : List ℕ
scancodes = 0x26 ∷ 0x1F ∷ 0x14 ∷ 0x1C ∷ 0xE0 ∷ 0x48 ∷ []

run_keys-IsSafe_example :
    (s' : Input) × (k' : Kernel) × (effects : List Effect) × (run_keys no_cpu blank booted scancodes
      ≡ some (s', k', effects))
    × Invariant.IsValid s'
    × Commands.IsValid k'
    × (desk_of s' k' ≡ press_keys (desk_of blank booted) scancodes)
    × (ends effects ≡ length scancodes)
run_keys-IsSafe_example = run_keys-IsSafe no_cpu scancodes booted blank-IsValid booted-IsValid

-- No scancode is ready.
abbrev quiet : Hal
quiet = record {
  idt = [];
  interrupt_handlers = [];
  apic_enabled = false;
  system_ticks = 5;
  last_scancode = 0x1E;
  keyboard_ready = false;
}

keyboard_interrupts-idle_example :
    keyboard_interrupts no_cpu 100 quiet blank booted
    ≡ some (quiet, blank, booted, replicate 100 (Effect.end_of_interrupt 1))
keyboard_interrupts-idle_example = keyboard_interrupts-idle no_cpu 100 quiet blank booted refl refl

streq_iff_example :
    (streq (b'r' ∷ b'm' ∷ 0 ∷ b'x' ∷ []) (b'r' ∷ b'm' ∷ []) ≡ true)
    ↔ (text (b'r' ∷ b'm' ∷ 0 ∷ b'x' ∷ []) ≡ text (b'r' ∷ b'm' ∷ []))
streq_iff_example = streq_iff (b'r' ∷ b'm' ∷ 0 ∷ b'x' ∷ []) (b'r' ∷ b'm' ∷ [])

-- `a bc`
abbrev arguments : Bytes
arguments = b'a' ∷ b' ' ∷ b'b' ∷ b'c' ∷ []

split_arguments_lem_example :
    (filename word spaces content : Bytes) × (split_arguments arguments ≡ some (filename, content))
    × (arguments ≡ word ++ (spaces ++ content))
    × All (λ c. (c ≢ 0) × (c ≢ b' ')) word
    × EndsToken (head (spaces ++ content))
    × All (λ c. c ≡ b' ') spaces
    × (head content ≢ b' ')
    × (text filename ≡ take 31 word)
split_arguments_lem_example = split_arguments_lem arguments

boot-empty : Whenever (λ k. k.vfs.file_count ≡ 0) (boot statics)
unfolding boot Vfs.init
boot-empty = Whenever-then _ (register_builtin_apps _) _ (λ m. refl)

booted-room : booted.vfs.file_count < max_files
unfolding booted
booted-room =
    let none_there =
      Whenever-some (λ k. k.vfs.file_count ≡ 0) (boot statics) booted_run.0 booted_run.1
        boot-empty in
    omega (arith, none_there)

abbrev word : Bytes
word = b'a' ∷ b'b' ∷ []

-- `x y`
abbrev content : Bytes
content = b'x' ∷ b' ' ∷ b'y' ∷ []

word-IsWord : IsWord word
unfolding is_name Vfs.is_path_separator
word-IsWord = record { proper = refl; word = omega arith }

content-IsContent : IsContent content
unfolding text
content-IsContent = record {
  starts = omega arith;
  no_space = omega arith;
  whole = refl;
  fits = omega arith;
}

rdf-rec_example :
    (k' : Kernel) × (b : Bytes) × (execute_command no_cpu
        (bytes "rec " ++ (word ++ b' ' ∷ content))
        booted
      ≡ some (k', say booted.language I18n.file_write_ok ++ prompt k'))
    × (execute_command no_cpu (bytes "rdf " ++ word) k'
        ≡ some (k', (print_utf8 b ++ print "\n") ++ prompt k'))
    × (text b ≡ content)
    × Commands.IsValid k'
    × ((q : Bytes) → streq word q ≡ false → view k'.vfs q ≡ view booted.vfs q)
rdf-rec_example =
    rdf-rec no_cpu word content booted-IsValid word-IsWord content-IsContent booted-room

-- `touch a`
abbrev touch_a : List ℕ
touch_a = 0x14 ∷ 0x18 ∷ 0x16 ∷ 0x2E ∷ 0x23 ∷ 0x39 ∷ 0x1E ∷ []

touch_a-line : chars false touch_a ≡ bytes "touch a"
unfolding char_of scancode_to_ascii bytes
touch_a-line = refl

plain-IsKey :
    (scancode c : ℕ)
    → scancode < 59
    → (scancode == 0x2A || scancode == 0x36) ≡ false
    → char_of false scancode ≡ c
    → 31 < c
    → IsKey false scancode
plain-IsKey scancode c tabled no_shift same visible = record {
  tabled = tabled;
  no_shift = no_shift;
  shows = λ e. omega (arith, same, visible, e);
  no_enter = λ e. omega (arith, same, visible, e);
  no_rub = λ e. omega (arith, same, visible, e);
}

touch_a-keys : All (IsKey false) touch_a
unfolding char_of scancode_to_ascii
touch_a-keys = (
  plain-IsKey 0x14 b't' (omega arith) refl refl (omega arith),
  (
    plain-IsKey 0x18 b'o' (omega arith) refl refl (omega arith),
    (
      plain-IsKey 0x16 b'u' (omega arith) refl refl (omega arith),
      (
        plain-IsKey 0x2E b'c' (omega arith) refl refl (omega arith),
        (
          plain-IsKey 0x23 b'h' (omega arith) refl refl (omega arith),
          (
            plain-IsKey 0x39 b' ' (omega arith) refl refl (omega arith),
            (plain-IsKey 0x1E b'a' (omega arith) refl refl (omega arith), tt),
          ),
        ),
      ),
    ),
  ),
)

run_keys-types_example :
    (s' : Input) × (k' : Kernel) × (effects : List Effect) × (run_keys no_cpu blank booted
        (touch_a ++ 0x1C ∷ [])
      ≡ some (s', k', effects))
    × Invariant.IsValid s'
    × Commands.IsValid k'
    × (desk_of s' k'
        ≡ after_enter (
            with_line (desk_of blank booted) (text blank.input_buffer ++ chars false touch_a) none))
run_keys-types_example =
    run_keys-types no_cpu touch_a booted blank-IsValid booted-IsValid refl touch_a-keys
      (omega arith) (omega arith)
