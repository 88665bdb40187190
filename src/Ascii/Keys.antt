-- ===== src/Ascii/Keys.antt =====
-- kernel/main.cpp: the line editor and its history hold bytes of the scancode tables only.
use mathlib.Core.Path.{subst}
use xbt_os_misaka.Ascii.{AreAscii, IsAscii}
use xbt_os_misaka.Ascii.Showable.{Showable}
use xbt_os_misaka.Console.{Trace}
use xbt_os_misaka.Input.{
  Effect, Input, backspace, beside, char_of, handle_enter, handle_scancode, keyboard_handler, press,
  recall_newer, recall_older, save_history, scancode_to_ascii, scancode_to_ascii_shift, shown,
  end_of_interrupt, type_char,
}
use xbt_os_misaka.KString.{Bytes}
use xbt_os_misaka.Prelude.{
  ℕ, ◌≡◌, refl, sym, ap, All-get_or, Bool, true, false, ◌||◌, ◌==◌, ltb, length, List, [], ◌∷◌,
  ◌++◌, none, some, Run, ◌>>=◌, Whenever, Whenever-bind, Whenever-if, if◌then◌else◌, arith, store,
}
use xbt_os_misaka.Ascii.Editing.{
  InputAscii, Types, store-AreAscii, recall_older-Types, recall_newer-Types,
  save_history-InputAscii, backspace-Types, type_char-Types,
}

char_of-IsAscii : (shift : Bool) (scancode : ℕ) → IsAscii (char_of shift scancode)
unfolding char_of scancode_to_ascii scancode_to_ascii_shift
char_of-IsAscii true scancode =
    All-get_or IsAscii scancode_to_ascii_shift scancode 0 (omega arith) (omega arith)
char_of-IsAscii false scancode =
    All-get_or IsAscii scancode_to_ascii scancode 0 (omega arith) (omega arith)

-- What is printed among some effects.
abbrev pub printed : List Effect → Trace
printed [] = []
printed (Effect.console op ∷ effects) = op ∷ printed effects
printed (Effect.end_of_interrupt _ ∷ effects) = printed effects

pub printed-append : (es fs : List Effect) → printed (es ++ fs) ≡ printed es ++ printed fs
printed-append [] fs = refl
printed-append (Effect.console op ∷ es) fs = ap (λ t. op ∷ t) (printed-append es fs)
printed-append (Effect.end_of_interrupt n ∷ es) fs = printed-append es fs

printed-handled : (t : Trace) → printed (shown t ++ end_of_interrupt 1 ∷ []) ≡ t
printed-handled [] = refl
printed-handled (op ∷ t) = ap (λ r. op ∷ r) (printed-handled t)

-- What a key leaves of the editor and of the rest of the kernel, and prints.
module _ {W : Type 0} (execute : Bytes → W → Run (W × Trace)) (prompt : W → Trace) (Q : W → Type 0)
    (says : (line : Bytes) (w : W)
      → Q w
      → AreAscii line
      → Whenever (λ r. Q (r.0) × Showable (r.1)) (execute line w))
    (prompts : (w : W) → Showable (prompt w)) where
  abbrev Handles : Run (Input × W × Trace) → Type 0
  Handles run = Whenever (λ r. InputAscii (r.0) × Q (r.1) × Showable (r.2)) run

  beside-Handles : (w : W) (run : Run (Input × Trace)) → Q w → Types run → Handles (beside w run)
  beside-Handles w none q types = tt
  beside-Handles w (some (s, t)) q types = (types.0, q, types.1)

  handle_enter-Handles :
      (s : Input) (w : W) → InputAscii s → Q w → Handles (handle_enter execute prompt s w)
  unfolding handle_enter
  handle_enter-Handles s w all q =
      Whenever-bind AreAscii _ (store s.input_buffer s.buffer_index 0) _
        (store-AreAscii s.input_buffer s.buffer_index 0 (all.0) (omega arith))
        (λ ended e.
          Whenever-bind InputAscii _ (save_history (record s { input_buffer = ended })) _
            (save_history-InputAscii (record s { input_buffer = ended }) (e, all.1))
            (λ saved v.
              Whenever-bind (λ r. Q (r.0) × Showable (r.1)) _ _ _
                (Whenever-if (λ r. Q (r.0) × Showable (r.1)) (saved.buffer_index == 0)
                  (some (w, prompt w)) (execute saved.input_buffer w) (q, prompts w)
                  (says saved.input_buffer w q (v.0)))
                (λ (w', output) (q', shows).
                  Whenever-bind AreAscii _ (store saved.input_buffer 0 0) _
                    (store-AreAscii saved.input_buffer 0 0 (v.0) (omega arith))
                    (λ empty b. ((b, v.1), q', (tt, shows))))))

  press-Handles :
      (s : Input) (w : W) (c : ℕ)
      → InputAscii s
      → Q w
      → IsAscii c
      → Handles (press execute prompt s w c)
  unfolding press
  press-Handles s w c all q is = Whenever-if _ (c == 10) _ _ (handle_enter-Handles s w all q) (
      Whenever-if _ (c == 8) _ _ (beside-Handles w (backspace s) q (backspace-Types s all))
        (beside-Handles w (type_char s c) q (type_char-Types s c all is)))

  handle_scancode-Handles :
      (s : Input) (w : W) (scancode : ℕ)
      → InputAscii s
      → Q w
      → Handles (handle_scancode execute prompt s w scancode)
  unfolding handle_scancode
  handle_scancode-Handles s w scancode all q =
      Whenever-if _ (scancode == 0xE0) _ _ (all, q, tt)
        (Whenever-if _ s.extended_key _ _ (beside-Handles w _ q arrows) (
          Whenever-if _ (scancode == 0x2A || scancode == 0x36) _ _ (all, q, tt)
            (Whenever-if _ (scancode == 0xAA || scancode == 0xB6) _ _ (all, q, tt)
              (Whenever-if _ (ltb scancode (length scancode_to_ascii)) _ _
                (press-Handles s w (char_of s.shift_pressed scancode) all q
                  (char_of-IsAscii s.shift_pressed scancode))
                (all, q, tt)))))
    where
      arrows : Types (
          (if scancode == 0x48
            then recall_older s
            else if scancode == 0x50
            then recall_newer s
            else some (s, []))
          >>= λ r. some (record (r.0) { extended_key = false }, r.1))
      arrows =
          Whenever-bind (λ r. InputAscii (r.0) × Showable (r.1)) _ _ _
            (Whenever-if (λ r. InputAscii (r.0) × Showable (r.1)) (scancode == 0x48) _ _
              (recall_older-Types s all)
              (Whenever-if (λ r. InputAscii (r.0) × Showable (r.1)) (scancode == 0x50) _
                (some (s, [])) (recall_newer-Types s all) (all, tt)))
            (λ r types. types)

  -- A scancode leaves such a line and such a history, and each text that is printed as UTF-8 is well
  -- formed.
  pub keyboard_handler-Says :
      (s : Input) (w : W) (scancode : ℕ)
      → InputAscii s
      → Q w
      → Whenever
          (λ r. InputAscii (r.0) × Q (r.1) × Showable (printed (r.2)))
          (keyboard_handler execute prompt s w scancode)
  unfolding keyboard_handler
  keyboard_handler-Says s w scancode all q =
      Whenever-bind (λ r. InputAscii (r.0) × Q (r.1) × Showable (r.2)) _
        (handle_scancode execute prompt s w scancode) _ (handle_scancode-Handles s w scancode all q)
        (λ (s', w', t) (all', q', shows).
          (all', q', subst Showable (sym (printed-handled t)) shows))
