-- ===== src/Input/History.antt =====
-- The arrow keys.
use xbt_os_misaka.Prelude.{
  ℕ, zero, suc, ◌+◌, ◌-◌, ◌<◌, ◌≡◌, refl, ap, inl, inr, [], ◌++◌, arith, length, length-set, some,
  none, Option, true, false, ◌==◌, ltb, leb, Bool-cases, set, get_or, ◌∙◌, store-eq_some,
}
use xbt_os_misaka.KString.{text}
use xbt_os_misaka.Input.{
  Input, clear_input_buffer, backspaces, show_history, recall_older, recall_newer,
}
use xbt_os_misaka.Input.Editor.{recall, older, newer}
use xbt_os_misaka.Input.Invariant.{IsValid, IsPlace, editor_of, Edits}
use xbt_os_misaka.Input.Lines.{
  text-set_zero, typed, copy_line_lem, get_or-IsLine, get_or-lines, length-lines, lines,
}

abbrev pub cleared : Input → Input
cleared s = record s { input_buffer = set s.input_buffer 0 0; buffer_index = 0 }

module _ {s : Input} (v : IsValid s) where
  pub text-cleared : text (cleared s).input_buffer ≡ []
  text-cleared = text-set_zero s.input_buffer 0 (omega arith) (omega (arith, v.width))

  pub cleared-IsValid : IsValid (cleared s)
  cleared-IsValid = record {
    width = length-set s.input_buffer 0 0 ∙ v.width;
    typed = ap length text-cleared;
    room = omega arith;
    slots = v.slots;
    filled = v.filled;
    counted = v.counted;
    placed = v.placed;
  }

  pub clear_input_buffer-run : clear_input_buffer s ≡ some (cleared s, backspaces s.buffer_index)
  unfolding clear_input_buffer
  clear_input_buffer-run = rw (store-eq_some s.input_buffer 0 0 (omega (arith, v.width)))

  pub clear_input_buffer-Edits : Edits (clear_input_buffer s) (record (editor_of s) { line = [] })
  clear_input_buffer-Edits = (
    cleared s,
    backspaces s.buffer_index,
    clear_input_buffer-run,
    cleared-IsValid,
    rw text-cleared,
  )

-- Another place in the history.
abbrev at : Input → Option ℕ → Input
at s p = record s { history_index = p }

at-IsValid : {s : Input} (p : Option ℕ) → IsValid s → IsPlace p s.history_count → IsValid (at s p)
at-IsValid p v h = record {
  width = v.width;
  typed = v.typed;
  room = v.room;
  slots = v.slots;
  filled = v.filled;
  counted = v.counted;
  placed = h;
}

-- The line at a place of the history replaces the line that was typed.
show_history-Edits :
    {s : Input} (h : ℕ)
    → IsValid s
    → h < s.history_count
    → Edits (show_history (at s (some h))) (recall (editor_of s) h)
unfolding show_history
show_history-Edits {s} h v lt =
    let found : ltb h s.history_count ≡ true = ground arith in
    let v' = at-IsValid (some h) v lt in
    let line = get_or s.history h [] in
    let (width, fits) = get_or-IsLine s.history h v.filled (omega (arith, v.slots, v.counted)) in
    let (b, copied, t, n) =
      copy_line_lem line (set s.input_buffer 0 0) 0 (omega arith)
        (omega (arith, length-set s.input_buffer 0 0, v.width)) in
    let same = get_or-lines s.history s.history_count h lt (omega (arith, v.slots, v.counted)) in
    (
      record s { input_buffer = b; buffer_index = 0 + length (text line); history_index = some h },
      backspaces s.buffer_index ++ typed (text line),
      rw (found, clear_input_buffer-run v', copied),
      record {
        width = n ∙ length-set s.input_buffer 0 0 ∙ v.width;
        typed = ap length t ∙ omega arith;
        room = omega arith;
        slots = v.slots;
        filled = v.filled;
        counted = v.counted;
        placed = lt;
      },
      rw (t, same),
    )

module _ {s : Input} (v : IsValid s) where
  len : length (lines s.history s.history_count) ≡ s.history_count
  len = length-lines s.history s.history_count (omega (arith, v.slots, v.counted))

  nothing-Edits :
      (p : Option ℕ) → IsPlace p s.history_count → Edits (some (at s p, [])) (editor_of (at s p))
  nothing-Edits p h = (at s p, [], refl, at-IsValid p v h, refl)

  older_at :
      (p : Option ℕ)
      → IsPlace p s.history_count
      → (s.history_count == 0) ≡ false
      → Edits (recall_older (at s p)) (older (editor_of (at s p)))
  unfolding recall_older older
  older_at none h more =
      rw (more, len, more) (show_history-Edits (s.history_count - 1) v (ground arith))
  older_at (some zero) h more = rw (more, len, more) (show_history-Edits 0 v h)
  older_at (some (suc i)) h more = rw (more, len, more) (show_history-Edits i v (omega arith))

  newer_at :
      (p : Option ℕ)
      → IsPlace p s.history_count
      → (s.history_count == 0) ≡ false
      → Edits (recall_newer (at s p)) (newer (editor_of (at s p)))
  unfolding recall_newer newer show_history
  newer_at none h more = rw (more, len, more) (nothing-Edits none h)
  newer_at (some i) h more = elim (Bool-cases (leb s.history_count (i + 1))) [
    | inl last ↦
        rw (more, len, more, last) (clear_input_buffer-Edits {s = at s none} (at-IsValid none v tt))
    | inr inside ↦ rw (more, len, more, inside) (show_history-Edits (i + 1) v (ground arith))
  ]

  -- The arrow up goes to the line before, and to the last line at first; it stays at the oldest.
  pub recall_older-Edits : Edits (recall_older s) (older (editor_of s))
  unfolding recall_older older
  recall_older-Edits = elim (Bool-cases (s.history_count == 0)) [
    | inl empty ↦ (s, [], rw empty, v, rw (len, empty))
    | inr more ↦ older_at s.history_index v.placed more
  ]

  -- The arrow down goes to the line behind, and to an empty line behind the last.
  pub recall_newer-Edits : Edits (recall_newer s) (newer (editor_of s))
  unfolding recall_newer newer
  recall_newer-Edits = elim (Bool-cases (s.history_count == 0)) [
    | inl empty ↦ (s, [], rw empty, v, rw (len, empty))
    | inr more ↦ newer_at s.history_index v.placed more
  ]
