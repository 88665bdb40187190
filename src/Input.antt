-- ===== src/Input.antt =====
-- kernel/main.cpp, lines 34 to 59, 310 to 428: the keyboard handler, the line editor and its history.
-- `history_index` is -1 or an index: `none` is -1. The handler is generic in what a line does:
-- `execute` is `execute_command` on the rest of the kernel's state, `prompt` is `prompt`.
pub mod Acting
pub mod Enter
pub mod Lines
pub mod Editor
pub mod History
pub mod Invariant
pub mod Typing
pub mod Handler
mod Tests
use xbt_os_misaka.Prelude.{
  ℕ, zero, suc, ◌+◌, ◌-◌, Bool, true, false, ◌&&◌, ◌||◌, not, Option, none, some, List, [], ◌∷◌,
  ◌++◌, ◌==◌, ltb, leb, if◌then◌else◌, Run, ◌>>=◌, store, get_or, length,
}
use xbt_os_misaka.Console.{ConsoleOp, Trace, print_char, print}
use xbt_os_misaka.KString.{Bytes, head, kstrcpy, poke}

abbrev pub buffer_size : ℕ
buffer_size = 256

abbrev pub history_size : ℕ
history_size = 10

pub record Input : Type 0 where
  pub input_buffer : Bytes
  pub buffer_index : ℕ
  pub shift_pressed : Bool
  pub extended_key : Bool
  pub history : List Bytes
  pub history_count : ℕ
  pub history_index : Option ℕ

-- What the handler does outside its state. `end_of_interrupt` goes to the interrupt controller.
pub data Effect : Type 0 where
  console : ConsoleOp → Effect
  end_of_interrupt : ℕ → Effect

abbrev pub shown : Trace → List Effect
shown [] = []
shown (op ∷ ops) = console op ∷ shown ops

unfoldable pub scancode_to_ascii : Bytes
scancode_to_ascii =
    0 ∷ 27 ∷ b'1' ∷ b'2' ∷ b'3' ∷ b'4' ∷ b'5' ∷ b'6' ∷ b'7' ∷ b'8' ∷ b'9' ∷ b'0' ∷ b'-' ∷ b'=' ∷ 8
    ∷ 9 ∷ b'q' ∷ b'w' ∷ b'e' ∷ b'r' ∷ b't' ∷ b'y' ∷ b'u' ∷ b'i' ∷ b'o' ∷ b'p' ∷ b'[' ∷ b']' ∷ 10 ∷ 0
    ∷ b'a' ∷ b's' ∷ b'd' ∷ b'f' ∷ b'g' ∷ b'h' ∷ b'j' ∷ b'k' ∷ b'l' ∷ b';' ∷ 0x27 ∷ b'`' ∷ 0 ∷ 0x5c
    ∷ b'z' ∷ b'x' ∷ b'c' ∷ b'v' ∷ b'b' ∷ b'n' ∷ b'm' ∷ b',' ∷ b'.' ∷ b'/' ∷ 0 ∷ b'*' ∷ 0 ∷ b' ' ∷ 0
    ∷ []

unfoldable pub scancode_to_ascii_shift : Bytes
scancode_to_ascii_shift =
    0 ∷ 27 ∷ b'!' ∷ b'@' ∷ b'#' ∷ b'$' ∷ b'%' ∷ b'^' ∷ b'&' ∷ b'*' ∷ b'(' ∷ b')' ∷ b'_' ∷ b'+' ∷ 8
    ∷ 9 ∷ b'Q' ∷ b'W' ∷ b'E' ∷ b'R' ∷ b'T' ∷ b'Y' ∷ b'U' ∷ b'I' ∷ b'O' ∷ b'P' ∷ b'{' ∷ b'}' ∷ 10 ∷ 0
    ∷ b'A' ∷ b'S' ∷ b'D' ∷ b'F' ∷ b'G' ∷ b'H' ∷ b'J' ∷ b'K' ∷ b'L' ∷ b':' ∷ 0x22 ∷ b'~' ∷ 0 ∷ b'|'
    ∷ b'Z' ∷ b'X' ∷ b'C' ∷ b'V' ∷ b'B' ∷ b'N' ∷ b'M' ∷ b'<' ∷ b'>' ∷ b'?' ∷ 0 ∷ b'*' ∷ 0 ∷ b' ' ∷ 0
    ∷ []

-- One backspace for each byte of the line.
unfoldable pub backspaces : ℕ → Trace
backspaces zero = []
backspaces (suc n) = ConsoleOp.put_char 8 ∷ backspaces n

unfoldable pub clear_input_buffer : Input → Run (Input × Trace)
clear_input_buffer s = do
  buffer ← store s.input_buffer 0 0
  some (record s { input_buffer = buffer; buffer_index = 0 }, backspaces s.buffer_index)

-- Puts a byte before what the copying loop has written.
abbrev pub keep_copied : ℕ → Run (Bytes × ℕ × Trace) → Run (Bytes × ℕ × Trace)
keep_copied c none = none
keep_copied c (some (b, i, t)) = some (c ∷ b, i, ConsoleOp.put_char c ∷ t)

-- `input_buffer[buffer_index] = '\0';` after the loop.
end_line : Bytes → ℕ → Run (Bytes × ℕ × Trace)
end_line [] i = none
end_line (_ ∷ b) i = some (0 ∷ b, i, [])

-- The loop that copies a line of the history, from its byte at `line` to `input_buffer + index`.
unfoldable pub copy_line : Bytes → Bytes → ℕ → Run (Bytes × ℕ × Trace)
unfolding end_line
copy_line [] b index = end_line b index
copy_line (c ∷ line) [] index = none
copy_line (c ∷ line) (o ∷ b) index =
    let next = keep_copied c (copy_line line b (index + 1)) in
    if not (c == 0) && ltb index (buffer_size - 1) then next else end_line (o ∷ b) index

-- The end of `recall_history`: the line at `history_index`, if there is one.
unfoldable pub show_history : Input → Run (Input × Trace)
show_history s = elim s.history_index [
  | none ↦ some (s, [])
  | some h ↦
      if ltb h s.history_count
      then (do
        (cleared, erased) ← clear_input_buffer s
        (buffer, index, typed) ← copy_line (get_or s.history h []) cleared.input_buffer 0
        some (record cleared { input_buffer = buffer; buffer_index = index }, erased ++ typed))
      else some (s, [])
]

-- `recall_history(-1)`
unfoldable pub recall_older : Input → Run (Input × Trace)
unfolding show_history
recall_older s = if s.history_count == 0 then some (s, []) else elim s.history_index [
  | none ↦ show_history (record s { history_index = some (s.history_count - 1) })
  | some zero ↦ show_history s
  | some (suc h) ↦ show_history (record s { history_index = some h })
]

-- `recall_history(1)`
unfoldable pub recall_newer : Input → Run (Input × Trace)
unfolding show_history
recall_newer s = if s.history_count == 0 then some (s, []) else elim s.history_index [
  | none ↦ show_history s
  | some h ↦
      if leb s.history_count (h + 1)
      then clear_input_buffer (record s { history_index = none })
      else show_history (record s { history_index = some (h + 1) })
]

-- The loop that moves the lines down, and the copy of the new line into the last place.
unfoldable pub shift_history : List Bytes → Bytes → Run (List Bytes)
shift_history [] line = none
shift_history (h ∷ []) line = do copied ← kstrcpy h line; some (copied ∷ [])
shift_history (h ∷ next ∷ rest) line = do
  copied ← kstrcpy h next
  moved ← shift_history (next ∷ rest) line
  some (copied ∷ moved)

unfoldable pub save_history : Input → Run Input
save_history s =
    if s.buffer_index == 0
    then some s
    else if ltb s.history_count history_size
    then (do
      copied ← kstrcpy (get_or s.history s.history_count []) s.input_buffer
      history ← store s.history s.history_count copied
      some (record s {
        history = history;
        history_count = s.history_count + 1;
        history_index = none;
      }))
    else (do
      history ← shift_history s.history s.input_buffer
      some (record s { history = history; history_index = none }))

unfoldable pub backspace : Input → Run (Input × Trace)
backspace s = if s.buffer_index == 0 then some (s, []) else (do
  buffer ← store s.input_buffer (s.buffer_index - 1) 0
  some (
    record s { input_buffer = buffer; buffer_index = s.buffer_index - 1; history_index = none },
    print_char 8,
  ))

unfoldable pub type_char : Input → ℕ → Run (Input × Trace)
type_char s c =
    if not (c == 0) && ltb s.buffer_index (buffer_size - 1)
    then (do
      typed ← store s.input_buffer s.buffer_index c
      buffer ← store typed (s.buffer_index + 1) 0
      some (
        record s { input_buffer = buffer; buffer_index = s.buffer_index + 1; history_index = none },
        print_char c,
      ))
    else some (s, [])

-- The byte of a scancode of the tables.
unfoldable pub char_of : Bool → ℕ → ℕ
unfolding scancode_to_ascii scancode_to_ascii_shift
char_of shift scancode =
    get_or (if shift then scancode_to_ascii_shift else scancode_to_ascii) scancode 0

-- The result of a step that leaves the rest of the kernel alone.
abbrev pub beside : {W : Type 0} → W → Run (Input × Trace) → Run (Input × W × Trace)
beside w none = none
beside w (some (s, t)) = some (s, w, t)

module _ {W : Type 0} (execute : Bytes → W → Run (W × Trace)) (prompt : W → Trace) where
  unfoldable pub handle_enter : Input → W → Run (Input × W × Trace)
  handle_enter s w = do
    ended ← store s.input_buffer s.buffer_index 0
    saved ← save_history (record s { input_buffer = ended })
    (w', output) ←
        if saved.buffer_index == 0 then some (w, prompt w) else execute saved.input_buffer w
    empty ← store saved.input_buffer 0 0
    some (record saved { input_buffer = empty; buffer_index = 0 }, w', print "\n" ++ output)

  -- A key of the tables.
  unfoldable pub press : Input → W → ℕ → Run (Input × W × Trace)
  unfolding handle_enter
  press s w c =
      if c == 10
      then handle_enter s w
      else if c == 8
      then beside w (backspace s)
      else beside w (type_char s c)

  -- The handler up to the `end_of_interrupt(1)` that ends each of its branches.
  unfoldable pub handle_scancode : Input → W → ℕ → Run (Input × W × Trace)
  unfolding press
  handle_scancode s w scancode =
      if scancode == 0xE0
      then some (record s { extended_key = true }, w, [])
      else if s.extended_key
      then beside w (
          (if scancode == 0x48
            then recall_older s
            else if scancode == 0x50
            then recall_newer s
            else some (s, []))
          >>= λ r. some (record (r.0) { extended_key = false }, r.1))
      else if scancode == 0x2A || scancode == 0x36
      then some (record s { shift_pressed = true }, w, [])
      else if scancode == 0xAA || scancode == 0xB6
      then some (record s { shift_pressed = false }, w, [])
      else if ltb scancode (length scancode_to_ascii)
      then press s w (char_of s.shift_pressed scancode)
      else some (s, w, [])

  unfoldable pub keyboard_handler : Input → W → ℕ → Run (Input × W × List Effect)
  unfolding handle_scancode
  keyboard_handler s w scancode = do
    (s', w', t) ← handle_scancode s w scancode
    some (s', w', shown t ++ end_of_interrupt 1 ∷ [])
