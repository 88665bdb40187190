-- ===== src/Input/Enter.antt =====
-- Enter on the editor: the line that is executed, and the history that is saved.
use xbt_os_misaka.Prelude.{
  ℕ, ◌≡◌, refl, ap, ◌∷◌, [], arith, length, length-set, none, List, Bool, take, set, ◌∙◌,
}
use xbt_os_misaka.KString.{Bytes, text}
use xbt_os_misaka.Input.{Input}
use xbt_os_misaka.Input.Invariant.{IsValid}
use xbt_os_misaka.Input.Lines.{text-set_zero}
use xbt_os_misaka.Input.Typing.{Saved}

pub take-length : (l : Bytes) → take (length l) l ≡ l
take-length [] = refl
take-length (c ∷ l) = ap (λ r. c ∷ r) (take-length l)

-- The NUL that Enter stores behind the line leaves the line as it is.
module _ {s : Input} (v : IsValid s) where
  abbrev pub ended : Input
  ended = record s { input_buffer = set s.input_buffer s.buffer_index 0 }

  pub text-ended : text ended.input_buffer ≡ text s.input_buffer
  text-ended =
      text-set_zero s.input_buffer s.buffer_index (omega (arith, v.typed))
        (omega (arith, v.width, v.room))
      ∙ rw (← v.typed) (take-length (text s.input_buffer))

  pub ended-IsValid : IsValid ended
  ended-IsValid = record {
    width = length-set s.input_buffer s.buffer_index 0 ∙ v.width;
    typed = ap length text-ended ∙ v.typed;
    room = v.room;
    slots = v.slots;
    filled = v.filled;
    counted = v.counted;
    placed = v.placed;
  }

pub nil_of_length : (l : Bytes) → length l ≡ 0 → l ≡ []
nil_of_length [] h = refl
nil_of_length (c ∷ l) h = absurd (omega arith)

abbrev pub after_save : Input → List Bytes → ℕ → Input
after_save s history count = record s {
  history = history;
  history_count = count;
  history_index = none;
}

pub after_save-IsValid :
    {s : Input} {history : List Bytes} {count : ℕ}
    → IsValid s
    → Saved s history count
    → IsValid (after_save s history count)
after_save-IsValid v saved = record {
  width = v.width;
  typed = v.typed;
  room = v.room;
  slots = saved.slots;
  filled = saved.filled;
  counted = saved.counted;
  placed = tt;
}

pub flags-IsValid :
    {s : Input}
    → IsValid s
    → (shift extended : Bool)
    → IsValid (record s { shift_pressed = shift; extended_key = extended })
flags-IsValid v shift extended = record {
  width = v.width;
  typed = v.typed;
  room = v.room;
  slots = v.slots;
  filled = v.filled;
  counted = v.counted;
  placed = v.placed;
}
