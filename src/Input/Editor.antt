-- ===== src/Input/Editor.antt =====
-- What the keyboard promises: a line of at most 255 bytes, the last ten lines that were entered, and
-- a place among them.
use xbt_os_misaka.Prelude.{
  ℕ, zero, suc, ◌+◌, ◌-◌, Bool, true, false, ◌&&◌, ◌||◌, not, Option, none, some, List, [], ◌∷◌,
  ◌++◌, ◌==◌, ltb, leb, if◌then◌else◌, get_or, length, take, drop,
}
use xbt_os_misaka.KString.{Bytes}
use xbt_os_misaka.Input.{buffer_size, history_size, char_of, scancode_to_ascii}

pub record Editor : Type 0 where
  pub line : Bytes
  pub past : List Bytes
  pub place : Option ℕ
  pub shift : Bool
  pub extended : Bool

abbrev pub recall : Editor → ℕ → Editor
recall e h = record e { line = get_or e.past h []; place = some h }

unfoldable pub older : Editor → Editor
older e = if length e.past == 0 then e else elim e.place [
  | none ↦ recall e (length e.past - 1)
  | some zero ↦ recall e 0
  | some (suc h) ↦ recall e h
]

unfoldable pub newer : Editor → Editor
newer e = if length e.past == 0 then e else elim e.place [
  | none ↦ e
  | some h ↦
      if leb (length e.past) (h + 1) then record e { line = []; place = none } else recall e (h + 1)
]

-- The last ten lines, with a new one.
abbrev pub remember : List Bytes → Bytes → List Bytes
remember past line =
    if ltb (length past) history_size then past ++ line ∷ [] else drop 1 past ++ line ∷ []

unfoldable pub enter : Editor → Editor
enter e =
    if length e.line == 0
    then e
    else record e { line = []; past = remember e.past e.line; place = none }

unfoldable pub rub : Editor → Editor
rub e =
    if length e.line == 0
    then e
    else record e { line = take (length e.line - 1) e.line; place = none }

unfoldable pub put : Editor → ℕ → Editor
put e c =
    if not (c == 0) && ltb (length e.line) (buffer_size - 1)
    then record e { line = e.line ++ c ∷ []; place = none }
    else e

-- A scancode.
unfoldable pub key : Editor → ℕ → Editor
key e scancode =
    if scancode == 0xE0
    then record e { extended = true }
    else if e.extended
    then record (if scancode == 0x48 then older e else if scancode == 0x50 then newer e else e) {
      extended = false;
    }
    else if scancode == 0x2A || scancode == 0x36
    then record e { shift = true }
    else if scancode == 0xAA || scancode == 0xB6
    then record e { shift = false }
    else if ltb scancode (length scancode_to_ascii)
    then (let c = char_of e.shift scancode in
        if c == 10 then enter e else if c == 8 then rub e else put e c)
    else e

-- A state that the lines act on, after a scancode: Enter, on a line that is not empty, has the line act.
unfoldable pub entered {ℓ} : {A : Type ℓ} → (Bytes → A → A) → Editor → ℕ → A → A
entered act e scancode a =
    if not e.extended && scancode == 0x1C && not (length e.line == 0) then act e.line a else a
