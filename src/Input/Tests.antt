-- ===== src/Input/Tests.antt =====
-- A run of the keyboard handler over a kernel that logs the lines it executes, and its theorems at
-- concrete inputs.
use xbt_os_misaka.Prelude.{
  ◌≡◌, ap, refl, ◌∷◌, [], ◌++◌, arith, replicate, List, none, some, Run, ◌>>=◌, ℕ, store, false,
  All,
}
use xbt_os_misaka.Console.{Trace, bytes, print}
use xbt_os_misaka.Input.{
  Input, shown, end_of_interrupt, keyboard_handler, handle_enter, buffer_size, history_size,
  char_of, backspaces, clear_input_buffer, copy_line, show_history, recall_older, recall_newer,
  shift_history, save_history, backspace, type_char, press, handle_scancode,
}
use xbt_os_misaka.Input.Editor.{key, entered}
use xbt_os_misaka.Input.Handler.{keyboard_handler-Handles, handle_enter-executes}
use xbt_os_misaka.Input.Invariant.{IsValid, editor_of}
use xbt_os_misaka.Input.Lines.{IsLine}
use xbt_os_misaka.KString.{Bytes, text, kstrcpy}

-- A kernel that logs the lines.
abbrev log_line : Bytes → List Bytes → Run (List Bytes × Trace)
log_line line lines = some (text line ∷ lines, print "done\n")

abbrev log_prompt : List Bytes → Trace
log_prompt _ = print "> "

abbrev empty_line : Bytes
empty_line = replicate buffer_size 0

-- `a` typed at the boot of the kernel.
abbrev typed_a : Input
typed_a = record {
  input_buffer = b'a' ∷ replicate 255 0;
  buffer_index = 1;
  shift_pressed = false;
  extended_key = false;
  history = replicate history_size empty_line;
  history_count = 0;
  history_index = none;
}

-- What a run computes with.
computed : Unit {0}
unfolding bytes text kstrcpy replicate store char_of backspaces clear_input_buffer copy_line
    show_history recall_older recall_newer shift_history save_history backspace type_char
    handle_enter press handle_scancode keyboard_handler
computed = tt

replicate-IsLine : (n : ℕ) → All IsLine (replicate n empty_line)
unfolding text replicate
replicate-IsLine ℕ.zero = tt
replicate-IsLine (ℕ.suc n) = (omega arith, replicate-IsLine n)

typed_a-IsValid : IsValid typed_a
unfolding text replicate
typed_a-IsValid = record {
  width = refl;
  typed = refl;
  room = omega arith;
  slots = refl;
  filled = replicate-IsLine history_size;
  counted = omega arith;
  placed = tt;
}

abbrev add_line : Bytes → List Bytes → List Bytes
add_line line lines = line ∷ lines

-- The lines that act are the lines that were logged.
keyboard_handler-Handles_example :
    (s' : Input) × (w' : List Bytes) × (t : Trace) × (keyboard_handler log_line log_prompt typed_a
        [] 0x1C
      ≡ some (s', w', shown t ++ end_of_interrupt 1 ∷ []))
    × IsValid s'
    × (entered add_line (editor_of typed_a) 0x1C [] ≡ w')
    × (editor_of s' ≡ key (editor_of typed_a) 0x1C)
keyboard_handler-Handles_example =
    keyboard_handler-Handles log_line log_prompt add_line (λ a w. a ≡ w)
      (λ line w a _ same. (text line ∷ w, print "done\n", refl, ap (λ l. text line ∷ l) same)) [] []
      0x1C typed_a-IsValid refl

handle_enter-executes_example :
    (line : Bytes) × (s' : Input) × (text line ≡ text typed_a.input_buffer)
    × (handle_enter log_line log_prompt typed_a []
        ≡ (log_line line [] >>= λ r. some (s', r.0, print "\n" ++ r.1)))
handle_enter-executes_example =
    handle_enter-executes log_line log_prompt [] typed_a-IsValid (omega arith)

-- Presses of keys, one after another.
presses : List ℕ → Input → List Bytes → Run (List Bytes)
presses [] s w = some w
presses (k ∷ ks) s w = do (s', w', _) ← keyboard_handler log_line log_prompt s w k; presses ks s' w'

-- `b`, backspace, Shift and `c`, Enter, then the arrow up and Enter: the line is executed twice.
presses_log :
    presses (0x30 ∷ 0x0E ∷ 0x2A ∷ 0x2E ∷ 0xAA ∷ 0x1C ∷ 0xE0 ∷ 0x48 ∷ 0x1C ∷ []) typed_a []
    ≡ some ((b'a' ∷ b'C' ∷ []) ∷ (b'a' ∷ b'C' ∷ []) ∷ [])
unfolding computed presses bytes
presses_log = refl
