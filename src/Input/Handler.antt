-- ===== src/Input/Handler.antt =====
-- The keyboard handler, for whatever a line does to the rest of the kernel.
use mathlib.Core.Path.{subst}
use xbt_os_misaka.Prelude.{
  ℕ, ◌≡◌, ◌≢◌, refl, ap, inl, inr, ◌∷◌, [], ◌++◌, arith, length, some, Bool, true, false, ◌==◌, ltb,
  if◌then◌else◌, Bool-cases, ==_iff, ◌∙◌, store-eq_some, Run, ◌>>=◌, ◌||◌,
}
use xbt_os_misaka.Console.{Trace, print}
use xbt_os_misaka.KString.{Bytes, text}
use xbt_os_misaka.Input.{
  Input, buffer_size, shown, end_of_interrupt, save_history, handle_enter, beside, press,
  handle_scancode, keyboard_handler, char_of, scancode_to_ascii, recall_older, recall_newer,
}
use xbt_os_misaka.Input.Editor.{Editor, older, newer, enter, key, rub, put, entered}
use xbt_os_misaka.Input.History.{
  cleared, text-cleared, cleared-IsValid, recall_older-Edits, recall_newer-Edits,
}
use xbt_os_misaka.Input.Invariant.{IsValid, editor_of, Edits}
use xbt_os_misaka.Input.Typing.{type_char-Edits, backspace-Edits, save_history-Saved}
use xbt_os_misaka.Input.Enter.{
  ended, text-ended, ended-IsValid, nil_of_length, after_save, after_save-IsValid, flags-IsValid,
}
use xbt_os_misaka.Input.Acting.{acting}

-- `A` is what the lines act on, by `act`, and `P` relates it to the rest of the kernel.
module _ {W A : Type 0} (execute : Bytes → W → Run (W × Trace)) (prompt : W → Trace)
    (act : Bytes → A → A) (P : A → W → Type 0)
    (total : (line : Bytes) (w : W) (a : A)
      → length line ≡ buffer_size
      → P a w
      → (w' : W) × (t : Trace) × (execute line w ≡ some (w', t)) × P (act (text line) a) w') where
  -- A step of the handler does not fault, keeps both invariants, and does to the editor what it should.
  abbrev Handles : Run (Input × W × Trace) → Editor → A → Type 0
  Handles run e a =
      (s' : Input) × (w' : W) × (t : Trace) × (run ≡ some (s', w', t))
      × IsValid s'
      × P a w'
      × (editor_of s' ≡ e)

  Handles-if :
      (b : Bool) {run run' : Run (Input × W × Trace)} {e e' : Editor} {a a' : A}
      → (b ≡ true → Handles run e a)
      → (b ≡ false → Handles run' e' a')
      → Handles (if b then run else run') (if b then e else e') (if b then a else a')
  Handles-if true then_case else_case = then_case refl
  Handles-if false then_case else_case = else_case refl

  -- What the line at Enter makes of the state.
  abbrev typed_in : Editor → A → A
  typed_in e a = if length e.line == 0 then a else act e.line a

  handle_enter-Handles :
      {s : Input} (w : W) (a : A)
      → IsValid s
      → P a w
      → Handles (handle_enter execute prompt s w) (enter (editor_of s)) (typed_in (editor_of s) a)
  unfolding handle_enter enter save_history
  handle_enter-Handles {s} w a v p =
      let at_end = store-eq_some s.input_buffer s.buffer_index 0 (omega (arith, v.width, v.room)) in
      let v₁ = ended-IsValid v in
      elim (Bool-cases (s.buffer_index == 0)) [
        | inl empty ↦
            let first = store-eq_some (ended v).input_buffer 0 0 (omega (arith, v₁.width)) in
            (
              cleared (ended v),
              w,
              print "\n" ++ prompt w,
              rw (at_end, empty, empty, first),
              cleared-IsValid v₁,
              rw (v.typed, empty) p,
              rw (
                text-cleared v₁,
                v.typed,
                empty,
                nil_of_length (text s.input_buffer) (v.typed ∙ (==_iff _ _).0 empty),
              ),
            )
        | inr more ↦
            let (history, count, saved) = save_history-Saved v₁ more in
            let (w', t, executed, p') = total (ended v).input_buffer w a v₁.width p in
            let s₁ = after_save (ended v) history count in
            let v₂ = after_save-IsValid v₁ saved in
            let first = store-eq_some (ended v).input_buffer 0 0 (omega (arith, v₁.width)) in
            (
              cleared s₁,
              w',
              print "\n" ++ t,
              rw (at_end, saved.run, more, executed, first),
              cleared-IsValid v₂,
              rw (v.typed, more) (subst (λ l. P (act l a) w') (text-ended v) p'),
              rw (text-cleared v₂, v.typed, more, saved.past, text-ended v),
            )
      ]

  beside-Handles :
      (w : W) (a : A) (run : Run (Input × Trace)) (e : Editor)
      → P a w
      → Edits run e
      → Handles (beside w run) e a
  beside-Handles w a run e p (s', t, ran, v, edits) = (s', w, t, rw ran, v, p, edits)

  press-Handles :
      {s : Input} (w : W) (a : A) (c : ℕ)
      → IsValid s
      → P a w
      → Handles
          (press execute prompt s w c)
          (if c == 10
            then enter (editor_of s)
            else if c == 8
            then rub (editor_of s)
            else put (editor_of s) c)
          (if c == 10 then typed_in (editor_of s) a else if c == 8 then a else a)
  unfolding press
  press-Handles {s} w a c v p =
      Handles-if (c == 10) (λ _. handle_enter-Handles w a v p)
        (λ _.
          Handles-if (c == 8) (λ _. beside-Handles w a _ _ p (backspace-Edits v))
            (λ _. beside-Handles w a _ _ p (type_char-Edits v c)))

  -- A step on the input state alone, with the rest of the kernel beside it.
  extended-Handles :
      (w : W) (a : A) (run : Run (Input × Trace)) (e : Editor)
      → P a w
      → Edits run e
      → Handles
          (beside w (run >>= λ r. some (record (r.0) { extended_key = false }, r.1)))
          (record e { extended = false })
          a
  extended-Handles w a run e p (s', t, ran, v, edits) = (
    record s' { extended_key = false },
    w,
    t,
    rw ran,
    flags-IsValid v s'.shift_pressed false,
    p,
    ap (λ (x : Editor). record x { extended = false }) edits,
  )

  -- The second scancode of an extended key.
  arrow-Handles :
      {s : Input} (w : W) (a : A) (scancode : ℕ)
      → IsValid s
      → P a w
      → Handles
          (beside w (
            (if scancode == 0x48
              then recall_older s
              else if scancode == 0x50
              then recall_newer s
              else some (s, []))
            >>= λ r. some (record (r.0) { extended_key = false }, r.1)))
          (record (if scancode == 0x48
            then older (editor_of s)
            else if scancode == 0x50
            then newer (editor_of s)
            else editor_of s) { extended = false })
          a
  arrow-Handles {s} w a scancode v p = elim (Bool-cases (scancode == 0x48)) [
    | inl up ↦ rw up (extended-Handles w a _ _ p (recall_older-Edits v))
    | inr no_up ↦ elim (Bool-cases (scancode == 0x50)) [
      | inl down ↦ rw (no_up, down) (extended-Handles w a _ _ p (recall_newer-Edits v))
      | inr other ↦ rw (no_up, other) (extended-Handles w a _ _ p (s, [], refl, v, refl))
    ]
  ]

  handle_scancode-Handles :
      {s : Input} (w : W) (a : A) (scancode : ℕ)
      → IsValid s
      → P a w
      → Handles
          (handle_scancode execute prompt s w scancode)
          (key (editor_of s) scancode)
          (entered act (editor_of s) scancode a)
  unfolding handle_scancode key entered
  handle_scancode-Handles {s} w a scancode v p =
      subst (Handles _ _)
        (acting (editor_of s) scancode (typed_in (editor_of s) a) a ∙ ground arith)
        (Handles-if (scancode == 0xE0)
          (λ _. still (record s { extended_key = true }) (flags-IsValid v s.shift_pressed true))
          (λ _.
            Handles-if s.extended_key (λ _. arrow-Handles w a scancode v p)
              (λ _.
                Handles-if (scancode == 0x2A || scancode == 0x36)
                  (λ _.
                    still (record s { shift_pressed = true }) (flags-IsValid v true s.extended_key))
                  (λ _.
                    Handles-if (scancode == 0xAA || scancode == 0xB6)
                      (λ _.
                        still (record s { shift_pressed = false })
                          (flags-IsValid v false s.extended_key))
                      (λ _.
                        Handles-if (ltb scancode (length scancode_to_ascii))
                          (λ _. press-Handles w a (char_of s.shift_pressed scancode) v p)
                          (λ _. still s v))))))
    where
      still : (s' : Input) → IsValid s' → Handles (some (s', w, [])) (editor_of s') a
      still s' v' = (s', w, [], refl, v', p, refl)

  -- The handler does not fault on a valid state, whatever the scancode, if `execute` does not on the lines
  -- of the buffer. It does to the line and its history what the editor does, has a line act exactly where
  -- the editor enters one that is not empty, keeps the invariants, and ends with exactly one end of
  -- interrupt, that of line 1, behind what it prints.
  pub keyboard_handler-Handles :
      {s : Input} (w : W) (a : A) (scancode : ℕ)
      → IsValid s
      → P a w
      → (s' : Input) × (w' : W) × (t : Trace) × (keyboard_handler execute prompt s w scancode
          ≡ some (s', w', shown t ++ end_of_interrupt 1 ∷ []))
        × IsValid s'
        × P (entered act (editor_of s) scancode a) w'
        × (editor_of s' ≡ key (editor_of s) scancode)
  unfolding keyboard_handler
  keyboard_handler-Handles w a scancode v p =
      let (s', w', t, run, v', p', edits) = handle_scancode-Handles w a scancode v p in
      (s', w', t, rw run, v', p', edits)

module _ {W : Type 0} (execute : Bytes → W → Run (W × Trace)) (prompt : W → Trace) where
  -- Enter on a line that is not empty executes that line, once: the state behind it and what is printed
  -- are those of `execute` on a buffer that holds the line.
  pub handle_enter-executes :
      {s : Input} (w : W)
      → IsValid s
      → s.buffer_index ≢ 0
      → (line : Bytes) × (s' : Input) × (text line ≡ text s.input_buffer)
        × (handle_enter execute prompt s w
            ≡ (execute line w >>= λ r. some (s', r.0, print "\n" ++ r.1)))
  unfolding handle_enter
  handle_enter-executes {s} w v typed =
      let v₁ = ended-IsValid v in
      let more : (s.buffer_index == 0) ≡ false = ground arith in
      let (history, count, saved) = save_history-Saved v₁ more in
      let at_end = store-eq_some s.input_buffer s.buffer_index 0 (omega (arith, v.width, v.room)) in
      let first = store-eq_some (ended v).input_buffer 0 0 (omega (arith, v₁.width)) in
      (
        (ended v).input_buffer,
        cleared (after_save (ended v) history count),
        text-ended v,
        rw (at_end, saved.run, more, first),
      )
