-- ===== src/Input/Acting.antt =====
-- The key of Enter: in which branch of the handler a line acts.
use xbt_os_misaka.Prelude.{
  ℕ, ◌≡◌, refl, inl, inr, arith, length, Bool, true, false, ◌==◌, ltb, if◌then◌else◌, Bool-cases,
  not, ◌&&◌, ◌<◌, all_below, all_below_lem, ◌||◌,
}
use xbt_os_misaka.Input.{char_of, scancode_to_ascii, scancode_to_ascii_shift}
use xbt_os_misaka.Input.Editor.{Editor}

abbrev pub agree : Bool → Bool → Bool
agree true b = b
agree false b = not b

pub agree_lem : (a b : Bool) → agree a b ≡ true → a ≡ b
agree_lem true true e = refl
agree_lem true false e = cc
agree_lem false true e = cc
agree_lem false false e = refl

-- The key of Enter is the one at 0x1C, with and without shift.
pub char_of-enter :
    (shift : Bool) (scancode : ℕ)
    → scancode < 59
    → (char_of shift scancode == 10) ≡ (scancode == 0x1C)
unfolding char_of scancode_to_ascii scancode_to_ascii_shift all_below
char_of-enter true scancode lt =
    agree_lem _ _
      (all_below_lem 59 (λ n. agree (char_of true n == 10) (n == 0x1C)) scancode refl lt)
char_of-enter false scancode lt =
    agree_lem _ _
      (all_below_lem 59 (λ n. agree (char_of false n == 10) (n == 0x1C)) scancode refl lt)

-- The branches of the handler in which a line acts.
pub acting :
    {A : Type 0} (e : Editor) (scancode : ℕ) (acted a : A)
    → (if scancode == 0xE0
        then a
        else if e.extended
        then a
        else if scancode == 0x2A || scancode == 0x36
        then a
        else if scancode == 0xAA || scancode == 0xB6
        then a
        else if ltb scancode (length scancode_to_ascii)
        then (if char_of e.shift scancode == 10
            then acted
            else if char_of e.shift scancode == 8
            then a
            else a)
        else a)
      ≡ (if not e.extended && scancode == 0x1C then acted else a)
unfolding scancode_to_ascii
acting e scancode acted a = elim (Bool-cases (ltb scancode 59)) [
  | inl small ↦ let key_is = char_of-enter e.shift scancode (ground arith) in ground (arith, key_is)
  | inr large ↦ let size : length scancode_to_ascii ≡ 59 = refl in ground (arith, size)
]
