-- ===== src/Input/Invariant.antt =====
-- The invariant of the input state, and the editor that it stands for.
use xbt_os_misaka.Prelude.{ℕ, ◌≤◌, ◌<◌, ◌≡◌, Option, none, some, All, length, Run}
use xbt_os_misaka.Console.{Trace}
use xbt_os_misaka.Input.{Input, buffer_size, history_size}
use xbt_os_misaka.Input.Editor.{Editor}
use xbt_os_misaka.Input.Lines.{IsLine, lines}
use xbt_os_misaka.KString.{text}

abbrev pub IsPlace : Option ℕ → ℕ → Type 0
IsPlace none n = Unit
IsPlace (some h) n = h < n

-- The buffer holds the line that was typed, with its NUL; the history holds lines; the place is one of
-- them.
pub record IsValid (s : Input) : Type 0 where
  pub width : length s.input_buffer ≡ buffer_size
  pub typed : length (text s.input_buffer) ≡ s.buffer_index
  pub room : s.buffer_index < buffer_size
  pub slots : length s.history ≡ history_size
  pub filled : All IsLine s.history
  pub counted : s.history_count ≤ history_size
  pub placed : IsPlace s.history_index s.history_count

abbrev pub editor_of : Input → Editor
editor_of s = record {
  line = text s.input_buffer;
  past = lines s.history s.history_count;
  place = s.history_index;
  shift = s.shift_pressed;
  extended = s.extended_key;
}

-- A step does not fault, keeps the invariant, and does to the editor what it should.
abbrev pub Edits : Run (Input × Trace) → Editor → Type 0
Edits run e = (s' : Input) × (t : Trace) × (run ≡ some (s', t)) × IsValid s' × (editor_of s' ≡ e)
