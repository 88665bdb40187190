-- ===== src/System/Typing.antt =====
-- kernel/main.cpp: a line that is typed key by key, and entered.
use mathlib.Core.List.{append-nil, append_assoc}
use xbt_os_misaka.Input.{Effect, Input, char_of, scancode_to_ascii, buffer_size}
use xbt_os_misaka.Input.Acting.{char_of-enter}
use xbt_os_misaka.Input.Editor.{Editor, enter, entered, key, put, remember}
use xbt_os_misaka.Input.Invariant
use xbt_os_misaka.Input.Invariant.{editor_of}
use xbt_os_misaka.KString.{Bytes, text}
use xbt_os_misaka.Prelude.{
  Option, length-append, none, suc, ◌-◌, ℕ, ◌+◌, ◌<◌, ◌≡◌, ◌≢◌, ◌∙◌, ap, sym, refl, All, Bool, true,
  false, ◌==◌, ◌&&◌, ◌||◌, not, ltb, List, [], ◌∷◌, ◌++◌, some, length, arith,
}
use xbt_os_misaka.Shell.{Kernel}
use xbt_os_misaka.Shell.Commands
use xbt_os_misaka.Shell.Meaning.{meaning}
use xbt_os_misaka.System.{Desk, desk_eq, desk_of, press_key, press_keys, run_keys, run_keys-IsSafe}
use xbt_os_misaka.Vfs.Store.{Store}

-- A key that puts a character on the line, with shift held or not.
pub record IsKey (shift : Bool) (scancode : ℕ) : Type 0 where
  pub tabled : scancode < 59
  pub no_shift : (scancode == 0x2A || scancode == 0x36) ≡ false
  pub shows : char_of shift scancode ≢ 0
  pub no_enter : char_of shift scancode ≢ 10
  pub no_rub : char_of shift scancode ≢ 8

-- The characters of some keys.
abbrev pub chars : Bool → List ℕ → Bytes
chars shift [] = []
chars shift (scancode ∷ scancodes) = char_of shift scancode ∷ chars shift scancodes

abbrev typed : Editor → ℕ → Editor
typed e c = record e { line = e.line ++ c ∷ []; place = none }

key-typed :
    (e : Editor) (scancode : ℕ)
    → e.extended ≡ false
    → IsKey e.shift scancode
    → length e.line < buffer_size - 1
    → key e scancode ≡ typed e (char_of e.shift scancode)
unfolding key put scancode_to_ascii
key-typed e scancode plain is room =
    let size : length scancode_to_ascii ≡ 59 = refl in
    let no_prefix : (scancode == 0xE0) ≡ false = ground (arith, is.tabled) in
    let no_release : (scancode == 0xAA || scancode == 0xB6) ≡ false = ground (arith, is.tabled) in
    let tabled : ltb scancode (length scancode_to_ascii) ≡ true = ground (arith, is.tabled, size) in
    let c = char_of e.shift scancode in
    let no_enter : (c == 10) ≡ false = ground (arith, is.no_enter) in
    let no_rub : (c == 8) ≡ false = ground (arith, is.no_rub) in
    let fits : not (c == 0) && ltb (length e.line) (buffer_size - 1) ≡ true =
      ground (arith, is.shows, room) in
    rw (no_prefix, plain, is.no_shift, no_release, tabled, no_enter, no_rub, fits) refl

entered-typed :
    (e : Editor) (scancode : ℕ) (files : Store)
    → IsKey e.shift scancode
    → entered meaning e scancode files ≡ files
unfolding entered
entered-typed e scancode files is =
    let no_enter : (scancode == 0x1C) ≡ false =
      ground (arith, char_of-enter e.shift scancode is.tabled, is.no_enter) in
    ground (arith, no_enter)

length-chars :
    (shift : Bool) (scancodes : List ℕ) → length (chars shift scancodes) ≡ length scancodes
length-chars shift [] = refl
length-chars shift (scancode ∷ scancodes) = ap suc (length-chars shift scancodes)

-- The desk with another line.
abbrev pub with_line : Desk → Bytes → Option ℕ → Desk
with_line d line place = record d { editor = record d.editor { line = line; place = place } }

press_key-typed :
    (d : Desk) (scancode : ℕ)
    → d.editor.extended ≡ false
    → IsKey d.editor.shift scancode
    → length d.editor.line < buffer_size - 1
    → press_key d scancode
      ≡ with_line d (d.editor.line ++ char_of d.editor.shift scancode ∷ []) none
press_key-typed d scancode plain is room =
    desk_eq (key-typed d.editor scancode plain is room) (entered-typed d.editor scancode d.files is)

press_keys-typed :
    (scancodes : List ℕ) (d : Desk)
    → d.editor.extended ≡ false
    → All (IsKey d.editor.shift) scancodes
    → length d.editor.line + length scancodes < buffer_size
    → (place : Option ℕ) × (press_keys d scancodes
        ≡ with_line d (d.editor.line ++ chars d.editor.shift scancodes) place)
press_keys-typed [] d plain all room =
    let place = d.editor.place in
    (place, ap (λ l. with_line d l place) (sym (append-nil d.editor.line)))
press_keys-typed (scancode ∷ scancodes) d plain all room =
    let c = char_of d.editor.shift scancode in
    let longer = d.editor.line ++ c ∷ [] in
    let first = press_key-typed d scancode plain (all.0) (omega (arith, room)) in
    let (place, rest) =
      press_keys-typed scancodes (with_line d longer none) plain (all.1)
        (omega (arith, room, length-append d.editor.line (c ∷ []))) in
    let later = chars d.editor.shift scancodes in
    (
      place,
      ap (λ e. press_keys e scancodes) first
          ∙ rest
          ∙ ap (λ l. with_line d l place) (append_assoc d.editor.line (c ∷ []) later),
    )

-- The desk after Enter, on a line that is not empty.
abbrev pub after_enter : Desk → Desk
after_enter d = record {
  editor = record d.editor { line = []; past = remember d.editor.past d.editor.line; place = none };
  files = meaning d.editor.line d.files;
}

press_key-enter :
    (d : Desk)
    → d.editor.extended ≡ false
    → length d.editor.line ≢ 0
    → press_key d 0x1C ≡ after_enter d
unfolding key enter entered scancode_to_ascii
press_key-enter d plain some_line =
    let more : (length d.editor.line == 0) ≡ false = ground (arith, some_line) in
    let is_enter = char_of-enter d.editor.shift 0x1C (omega arith) in
    desk_eq (rw (plain, is_enter, more) refl) (rw (plain, more) refl)

press_keys-append :
    (xs ys : List ℕ) (d : Desk) → press_keys d (xs ++ ys) ≡ press_keys (press_keys d xs) ys
press_keys-append [] ys d = refl
press_keys-append (x ∷ xs) ys d = press_keys-append xs ys (press_key d x)

-- A line that is typed, with shift held or not, behind what stands on the line, and entered: the kernel
-- does not fault, the line is empty again and the last of the history, and the files are what the line
-- means for them.
pub run_keys-types :
    (cpuid : ℕ → ℕ × ℕ × ℕ × ℕ) (scancodes : List ℕ) {s : Input} (k : Kernel)
    → Invariant.IsValid s
    → Commands.IsValid k
    → s.extended_key ≡ false
    → All (IsKey s.shift_pressed) scancodes
    → 0 < length scancodes
    → s.buffer_index + length scancodes < buffer_size
    → (s' : Input) × (k' : Kernel) × (effects : List Effect) × (run_keys cpuid s k
          (scancodes ++ 0x1C ∷ [])
        ≡ some (s', k', effects))
      × Invariant.IsValid s'
      × Commands.IsValid k'
      × (desk_of s' k'
          ≡ after_enter (
              with_line
                (desk_of s k)
                (text s.input_buffer ++ chars s.shift_pressed scancodes)
                none))
run_keys-types cpuid scancodes {s} k v w plain all some_key room =
    let line = text s.input_buffer ++ chars s.shift_pressed scancodes in
    let (s', k', effects, ran, v', w', desk, _) =
      run_keys-IsSafe cpuid (scancodes ++ 0x1C ∷ []) {s = s} k v w in
    let (place, typed_in) =
      press_keys-typed scancodes (desk_of s k) plain all (omega (arith, room, v.typed)) in
    let some_line : length line ≢ 0 = omega (
      arith,
      length-append (text s.input_buffer) (chars s.shift_pressed scancodes),
      length-chars s.shift_pressed scancodes,
      some_key,
    ) in
    (
      s',
      k',
      effects,
      ran,
      v',
      w',
      desk
          ∙ press_keys-append scancodes (0x1C ∷ []) (desk_of s k)
          ∙ ap (λ d. press_key d 0x1C) typed_in
          ∙ press_key-enter (with_line (desk_of s k) line place) plain some_line,
    )
