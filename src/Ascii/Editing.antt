-- ===== src/Ascii/Editing.antt =====
-- kernel/main.cpp: the bytes of the line and of its history, and what the editor prints.
use xbt_os_misaka.Ascii.{AreAscii, IsAscii, kstrcpy-AreAscii}
use xbt_os_misaka.Ascii.Showable.{IsShowable, Showable}
use xbt_os_misaka.Console.{Trace}
use xbt_os_misaka.Input.{
  Input, backspace, backspaces, buffer_size, clear_input_buffer, copy_line, history_size,
  keep_copied, recall_newer, recall_older, save_history, shift_history, show_history, type_char,
}
use xbt_os_misaka.KString.{Bytes, kstrcpy}
use xbt_os_misaka.Prelude.{
  ℕ, zero, suc, ◌+◌, ◌-◌, inl, inr, All, All-append, All-get_or, All-store, ◌&&◌, not, ◌==◌, ltb,
  leb, List, [], ◌∷◌, none, some, Run, Whenever, Whenever-bind, Whenever-if, Option-cases, arith,
  store, get_or,
}

abbrev pub InputAscii : Input → Type 0
InputAscii s = AreAscii s.input_buffer × All AreAscii s.history

-- What a step of the editor leaves and prints, if it does not fault.
abbrev pub Types : Run (Input × Trace) → Type 0
Types run = Whenever (λ r. InputAscii (r.0) × Showable (r.1)) run

pub store-AreAscii :
    (b : Bytes) (i c : ℕ) → AreAscii b → IsAscii c → Whenever AreAscii (store b i c)
store-AreAscii b i c all is = All-store IsAscii b i c all is

pub backspaces-Showable : (n : ℕ) → Showable (backspaces n)
unfolding backspaces
backspaces-Showable zero = tt
backspaces-Showable (suc n) = (tt, backspaces-Showable n)

pub clear_input_buffer-Types : (s : Input) → InputAscii s → Types (clear_input_buffer s)
unfolding clear_input_buffer
clear_input_buffer-Types s all =
    Whenever-bind AreAscii _ (store s.input_buffer 0 0) _
      (store-AreAscii s.input_buffer 0 0 (all.0) (omega arith))
      (λ buffer b. ((b, all.1), backspaces-Showable s.buffer_index))

-- What the copying loop leaves.
abbrev pub Copies : Run (Bytes × ℕ × Trace) → Type 0
Copies run = Whenever (λ r. AreAscii (r.0) × Showable (r.2)) run

pub keep_copied-Copies :
    (c : ℕ) (run : Run (Bytes × ℕ × Trace)) → IsAscii c → Copies run → Copies (keep_copied c run)
keep_copied-Copies c none is all = tt
keep_copied-Copies c (some (b, i, t)) is all = ((is, all.0), (tt, all.1))

pub copy_line-Copies :
    (line b : Bytes) (index : ℕ) → AreAscii line → AreAscii b → Copies (copy_line line b index)
unfolding copy_line
copy_line-Copies [] [] index l all = tt
copy_line-Copies [] (o ∷ b) index l all = ((omega arith, all.1), tt)
copy_line-Copies (c ∷ line) [] index l all = tt
copy_line-Copies (c ∷ line) (o ∷ b) index l all =
    Whenever-if (λ r. AreAscii (r.0) × Showable (r.2)) (not (c == 0) && ltb index (buffer_size - 1))
      _ (some (0 ∷ b, index, []))
      (keep_copied-Copies c (copy_line line b (index + 1)) (l.0)
        (copy_line-Copies line b (index + 1) l.1 all.1))
      ((omega arith, all.1), tt)

pub recalled-Types :
    (s : Input) (h : ℕ) → InputAscii s → Types (show_history (record s { history_index = some h }))
unfolding show_history
recalled-Types s h all =
    let s' : Input = record s { history_index = some h } in
    Whenever-if (λ r. InputAscii (r.0) × Showable (r.1)) (ltb h s.history_count) _ (some (s', []))
      (Whenever-bind (λ r. InputAscii (r.0) × Showable (r.1)) _ (clear_input_buffer s') _
        (clear_input_buffer-Types s' all)
        (λ (cleared, erased) (c, shows).
          Whenever-bind (λ r. AreAscii (r.0) × Showable (r.2)) _
            (copy_line (get_or s.history h []) cleared.input_buffer 0) _
            (copy_line-Copies (get_or s.history h []) cleared.input_buffer 0
              (All-get_or AreAscii s.history h [] (all.1) tt) (c.0))
            (λ (buffer, index, typed) copied.
              ((copied.0, c.1), All-append IsShowable erased typed shows (copied.1)))))
      (all, tt)

pub show_history-Types : (s : Input) → InputAscii s → Types (show_history s)
unfolding show_history
show_history-Types s all = elim (Option-cases s.history_index) [
  | inl e ↦ rw e (all, tt)
  | inr (h, e) ↦ rw e (recalled-Types s h all)
]

pub recall_older-Types : (s : Input) → InputAscii s → Types (recall_older s)
unfolding recall_older
recall_older-Types s all =
    Whenever-if _ (s.history_count == 0) _ _ (all, tt)
      (elim (Option-cases s.history_index) [
        | inl e ↦ simp e (recalled-Types s (s.history_count - 1) all)
        | inr (zero, e) ↦ simp e (show_history-Types s all)
        | inr (suc h, e) ↦ simp e (recalled-Types s h all)
      ])

pub recall_newer-Types : (s : Input) → InputAscii s → Types (recall_newer s)
unfolding recall_newer
recall_newer-Types s all =
    Whenever-if _ (s.history_count == 0) _ _ (all, tt)
      (elim (Option-cases s.history_index) [
        | inl e ↦ simp e (show_history-Types s all)
        | inr (h, e) ↦ simp e (
            Whenever-if _ (leb s.history_count (h + 1)) _ _
              (clear_input_buffer-Types (record s { history_index = none }) all)
              (recalled-Types s (h + 1) all))
      ])

pub shift_history-All :
    (history : List Bytes) (line : Bytes)
    → All AreAscii history
    → AreAscii line
    → Whenever (All AreAscii) (shift_history history line)
unfolding shift_history
shift_history-All [] line all l = tt
shift_history-All (h ∷ []) line all l =
    Whenever-bind AreAscii _ (kstrcpy h line) _ (kstrcpy-AreAscii h line (all.0) l)
      (λ copied c. (c, tt))
shift_history-All (h ∷ next ∷ rest) line all l =
    Whenever-bind AreAscii _ (kstrcpy h next) _ (kstrcpy-AreAscii h next (all.0) (all.1.0))
      (λ copied c.
        Whenever-bind (All AreAscii) _ (shift_history (next ∷ rest) line) _
          (shift_history-All (next ∷ rest) line all.1 l) (λ moved m. (c, m)))

pub save_history-InputAscii : (s : Input) → InputAscii s → Whenever InputAscii (save_history s)
unfolding save_history
save_history-InputAscii s all = Whenever-if _ (s.buffer_index == 0) _ _ all (
    Whenever-if _ (ltb s.history_count history_size) _ _
      (Whenever-bind AreAscii _ (kstrcpy (get_or s.history s.history_count []) s.input_buffer) _
        (kstrcpy-AreAscii (get_or s.history s.history_count []) s.input_buffer
          (All-get_or AreAscii s.history s.history_count [] (all.1) tt) (all.0))
        (λ copied c.
          Whenever-bind (All AreAscii) _ (store s.history s.history_count copied) _
            (All-store AreAscii s.history s.history_count copied (all.1) c)
            (λ history h. (all.0, h))))
      (Whenever-bind (All AreAscii) _ (shift_history s.history s.input_buffer) _
        (shift_history-All s.history s.input_buffer (all.1) (all.0)) (λ history h. (all.0, h))))

pub backspace-Types : (s : Input) → InputAscii s → Types (backspace s)
unfolding backspace
backspace-Types s all =
    Whenever-if _ (s.buffer_index == 0) _ _ (all, tt)
      (Whenever-bind AreAscii _ (store s.input_buffer (s.buffer_index - 1) 0) _
        (store-AreAscii s.input_buffer (s.buffer_index - 1) 0 (all.0) (omega arith))
        (λ buffer b. ((b, all.1), (tt, tt))))

pub type_char-Types : (s : Input) (c : ℕ) → InputAscii s → IsAscii c → Types (type_char s c)
unfolding type_char
type_char-Types s c all is =
    Whenever-if _ (not (c == 0) && ltb s.buffer_index (buffer_size - 1)) _ _
      (Whenever-bind AreAscii _ (store s.input_buffer s.buffer_index c) _
        (store-AreAscii s.input_buffer s.buffer_index c (all.0) is)
        (λ typed t.
          Whenever-bind AreAscii _ (store typed (s.buffer_index + 1) 0) _
            (store-AreAscii typed (s.buffer_index + 1) 0 t (omega arith))
            (λ buffer b. ((b, all.1), (tt, tt)))))
      (all, tt)
