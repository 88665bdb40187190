-- ===== src/Input/Typing.antt =====
-- The keys that change the line, and the line that is saved.
use xbt_os_misaka.Prelude.{
  ℕ, zero, suc, ◌+◌, ◌-◌, ◌≤◌, ◌<◌, ◌≡◌, ◌≢◌, refl, sym, ap, inl, inr, ◌∷◌, [], ◌++◌, arith, length,
  length-set, length-append, some, none, List, true, false, ◌==◌, ltb, Bool-cases, take, drop, set,
  get_or, ◌∙◌, store-eq_some, All, not, ◌&&◌,
}
use xbt_os_misaka.Console.{print_char}
use xbt_os_misaka.KString.{Bytes, text}
use xbt_os_misaka.KString.Copy.{kstrcpy_lem}
use xbt_os_misaka.Input.{Input, buffer_size, history_size, backspace, type_char, save_history}
use xbt_os_misaka.Input.Editor.{rub, put, remember}
use xbt_os_misaka.Input.Invariant.{IsValid, editor_of, Edits}
use xbt_os_misaka.Input.Lines.{
  text-set_zero, text-set_end, IsLine, get_or-IsLine, set-IsLine, length-lines, lines, lines-set,
  texts, take-all, shift_history_lem,
}

-- A new line in the buffer.
abbrev edited : Input → Bytes → ℕ → Input
edited s b n = record s { input_buffer = b; buffer_index = n; history_index = none }

pub edited-IsValid :
    {s : Input} (b : Bytes) (n : ℕ)
    → IsValid s
    → length b ≡ buffer_size
    → length (text b) ≡ n
    → n < buffer_size
    → IsValid (edited s b n)
edited-IsValid b n v width typed room = record {
  width = width;
  typed = typed;
  room = room;
  slots = v.slots;
  filled = v.filled;
  counted = v.counted;
  placed = tt;
}

length-take_pred : (l : Bytes) (k : ℕ) → k ≤ length l → length (take k l) ≡ k
length-take_pred l zero h = refl
length-take_pred [] (suc k) h = absurd (omega arith)
length-take_pred (c ∷ l) (suc k) h = ap suc (length-take_pred l k (omega arith))

module _ {s : Input} (v : IsValid s) where
  abbrev b : Bytes
  b = s.input_buffer

  abbrev n : ℕ
  n = s.buffer_index

  -- A byte goes to the end of a line that has room, and a NUL goes nowhere.
  pub type_char-Edits : (c : ℕ) → Edits (type_char s c) (put (editor_of s) c)
  unfolding type_char put
  type_char-Edits c = elim (Bool-cases (not (c == 0) && ltb n (buffer_size - 1))) [
    | inr ignored ↦ (s, [], rw ignored, v, rw (v.typed, ignored))
    | inl taken ↦
        let c_ne : c ≢ 0 = ground arith in
        let fits : n + 1 < buffer_size = ground arith in
        let once = length-set b n c in
        let b' = set (set b n c) (n + 1) 0 in
        let t : text b' ≡ text b ++ c ∷ [] =
          rw v.typed at (text-set_end b c (omega (arith, v.typed, v.width)) c_ne) in
        let longer : length (text b') ≡ n + 1 =
          ap length t ∙ omega (arith, length-append (text b) (c ∷ []), v.typed) in
        (
          edited s b' (n + 1),
          print_char c,
          rw (
            taken,
            store-eq_some b n c (omega (arith, v.width)),
            store-eq_some (set b n c) (n + 1) 0 (omega (arith, once, v.width)),
          ),
          edited-IsValid b' (n + 1) v (length-set (set b n c) (n + 1) 0 ∙ once ∙ v.width) longer
              fits,
          rw (v.typed, taken, t),
        )
  ]

  -- Backspace takes the last byte off the line.
  pub backspace-Edits : Edits (backspace s) (rub (editor_of s))
  unfolding backspace rub
  backspace-Edits = elim (Bool-cases (n == 0)) [
    | inl empty ↦ (s, [], rw empty, v, rw (v.typed, empty))
    | inr more ↦
        let b' = set b (n - 1) 0 in
        let t : text b' ≡ take (n - 1) (text b) =
          text-set_zero b (n - 1) (omega (arith, v.typed)) (omega (arith, v.width)) in
        let shorter : length (text b') ≡ n - 1 =
          ap length t ∙ length-take_pred (text b) (n - 1) (omega (arith, v.typed)) in
        (
          edited s b' (n - 1),
          print_char 8,
          rw (more, store-eq_some b (n - 1) 0 (omega (arith, v.width))),
          edited-IsValid b' (n - 1) v (length-set b (n - 1) 0 ∙ v.width) shorter (omega arith),
          rw (v.typed, more, t),
        )
  ]

whole : (history : List Bytes) (c : ℕ) → c ≡ length history → lines history c ≡ texts history
whole history c e = rw e (take-all history)

-- The history after a line was saved.
pub record Saved (s : Input) (history : List Bytes) (count : ℕ) : Type 0 where
  pub run :
      save_history s
      ≡ some (record s { history = history; history_count = count; history_index = none })
  pub past : lines history count ≡ remember (lines s.history s.history_count) (text s.input_buffer)
  pub slots : length history ≡ history_size
  pub filled : All IsLine history
  pub counted : count ≤ history_size

module _ {s : Input} (v : IsValid s) (more : (s.buffer_index == 0) ≡ false) where
  len : length (lines s.history s.history_count) ≡ s.history_count
  len = length-lines s.history s.history_count (omega (arith, v.slots, v.counted))

  fits : length (text s.input_buffer) < buffer_size
  fits = omega (arith, v.typed, v.room)

  save_with_room :
      ltb s.history_count history_size ≡ true
      → (history : List Bytes) × (count : ℕ) × Saved s history count
  unfolding save_history
  save_with_room room =
      let c = s.history_count in
      let inside : c < length s.history = ground (arith, v.slots) in
      let (width, _) = get_or-IsLine s.history c v.filled inside in
      let (h, copied, t, w) =
        kstrcpy_lem (get_or s.history c []) s.input_buffer (omega (arith, fits, width)) in
      (
        set s.history c h,
        c + 1,
        record {
          run = rw (more, room, copied, store-eq_some s.history c h inside);
          past = rw (len, room) (lines-set s.history c h inside ∙ rw t);
          slots = length-set s.history c h ∙ v.slots;
          filled = set-IsLine s.history c h v.filled (w ∙ width, rw t fits);
          counted = ground arith;
        },
      )

  save_when_full :
      ltb s.history_count history_size ≡ false
      → (history : List Bytes) × (count : ℕ) × Saved s history count
  unfolding save_history
  save_when_full full =
      let c = s.history_count in
      let ten : c ≡ length s.history = ground (arith, v.slots, v.counted) in
      let (h, moved, t, filled, w) =
        shift_history_lem s.history s.input_buffer (omega (arith, v.slots)) v.filled fits in
      (
        h,
        c,
        record {
          run = rw (more, full, moved);
          past =
              rw (len, full)
                (whole h c (ten ∙ sym w)
                  ∙ t
                  ∙ ap (λ (l : List Bytes). drop 1 l ++ text s.input_buffer ∷ [])
                      (sym (whole s.history c ten)));
          slots = w ∙ v.slots;
          filled = filled;
          counted = v.counted;
        },
      )

  -- The line that was entered is put behind the lines of the history; of eleven the oldest goes.
  pub save_history-Saved : (history : List Bytes) × (count : ℕ) × Saved s history count
  save_history-Saved = elim (Bool-cases (ltb s.history_count history_size)) [
    | inl room ↦ save_with_room room
    | inr full ↦ save_when_full full
  ]
