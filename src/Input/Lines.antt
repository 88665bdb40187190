-- ===== src/Input/Lines.antt =====
-- Writes to the input buffer as changes of the line that it holds, and the lines of the history.
use xbt_os_misaka.Prelude.{
  ℕ, zero, suc, ◌+◌, ◌≤◌, ◌<◌, ◌≡◌, ◌≢◌, refl, ap, inl, inr, ◌∷◌, [], ◌++◌, arith, length, some,
  List, ◌==◌, Bool-cases, take, drop, set, get_or, All,
}
use xbt_os_misaka.Console.{ConsoleOp, Trace}
use xbt_os_misaka.KString.{Bytes, text}
use xbt_os_misaka.KString.Copy.{kstrcpy_lem}
use xbt_os_misaka.Input.{copy_line, shift_history, buffer_size}

-- A NUL stored in the line cuts it there.
pub text-set_zero :
    (b : Bytes) (k : ℕ) → k ≤ length (text b) → k < length b → text (set b k 0) ≡ take k (text b)
unfolding text
text-set_zero [] k h lt = absurd (omega arith)
text-set_zero (c ∷ b) zero h lt = ground arith
text-set_zero (c ∷ b) (suc k) h lt = elim (Bool-cases (c == 0)) [
  | inl e ↦ absurd (ground arith)
  | inr e ↦ rw e (ap (λ s. c ∷ s) (text-set_zero b k (ground arith) (omega arith)))
]

-- A byte stored behind the line, with a NUL behind it, is put at its end.
pub text-set_end :
    (b : Bytes) (c : ℕ)
    → length (text b) + 1 < length b
    → c ≢ 0
    → text (set (set b (length (text b)) c) (length (text b) + 1) 0) ≡ text b ++ c ∷ []
unfolding text
text-set_end [] c h ne = absurd (omega arith)
text-set_end (x ∷ []) c h ne = absurd (omega arith)
text-set_end (x ∷ y ∷ b) c h ne = elim (Bool-cases (x == 0)) [
  | inl e ↦ rw e (ground arith)
  | inr e ↦
      let one : length (x ∷ text (y ∷ b)) + 1 ≡ suc (length (text (y ∷ b)) + 1) = omega arith in
      rw (e, one, e) (ap (λ s. x ∷ s) (text-set_end (y ∷ b) c (ground arith) ne))
]

-- The trace of a line as it is typed.
abbrev pub typed : Bytes → Trace
typed [] = []
typed (c ∷ s) = ConsoleOp.put_char c ∷ typed s

-- A line of the history is copied whole into the buffer.
pub copy_line_lem :
    (line b : Bytes) (index : ℕ)
    → index + length (text line) < buffer_size
    → length (text line) < length b
    → (b' : Bytes) × (copy_line line b index
        ≡ some (b', index + length (text line), typed (text line)))
      × (text b' ≡ text line)
      × (length b' ≡ length b)
unfolding copy_line text
copy_line_lem line [] index fits room = absurd (omega arith)
copy_line_lem [] (o ∷ b) index fits room = (0 ∷ b, ground arith, ground arith, refl)
copy_line_lem (c ∷ line) (o ∷ b) index fits room = elim (Bool-cases (c == 0)) [
  | inl e ↦ (0 ∷ b, ground arith, ground arith, refl)
  | inr e ↦
      let (b', run, t, n) = copy_line_lem line b (index + 1) (ground arith) (ground arith) in
      (c ∷ b', ground arith, ground arith, omega arith)
]

-- The lines that the buffers of the history hold.
abbrev pub texts : List Bytes → List Bytes
texts [] = []
texts (h ∷ history) = text h ∷ texts history

abbrev pub lines : List Bytes → ℕ → List Bytes
lines history n = take n (texts history)

-- A buffer of the history holds a line.
abbrev pub IsLine : Bytes → Type 0
IsLine h = (length h ≡ buffer_size) × (length (text h) < buffer_size)

pub length-lines :
    (history : List Bytes) (n : ℕ) → n ≤ length history → length (lines history n) ≡ n
length-lines [] zero h = refl
length-lines [] (suc n) h = absurd (omega arith)
length-lines (l ∷ history) zero h = refl
length-lines (l ∷ history) (suc n) h = ap suc (length-lines history n (omega arith))

pub get_or-lines :
    (history : List Bytes) (n i : ℕ)
    → i < n
    → n ≤ length history
    → get_or (lines history n) i [] ≡ text (get_or history i [])
get_or-lines [] n i lt h = absurd (omega arith)
get_or-lines (l ∷ history) zero i lt h = absurd (omega arith)
get_or-lines (l ∷ history) (suc n) zero lt h = refl
get_or-lines (l ∷ history) (suc n) (suc i) lt h =
    get_or-lines history n i (omega arith) (omega arith)

pub lines-set :
    (history : List Bytes) (n : ℕ) (h : Bytes)
    → n < length history
    → lines (set history n h) (n + 1) ≡ lines history n ++ text h ∷ []
lines-set [] n h lt = absurd (omega arith)
lines-set (l ∷ history) zero h lt = refl
lines-set (l ∷ history) (suc n) h lt =
    let one : suc n + 1 ≡ suc (n + 1) = omega arith in
    rw one (ap (λ r. text l ∷ r) (lines-set history n h (omega arith)))

pub get_or-IsLine :
    (history : List Bytes) (i : ℕ)
    → All IsLine history
    → i < length history
    → IsLine (get_or history i [])
get_or-IsLine [] i all lt = absurd (omega arith)
get_or-IsLine (l ∷ history) zero all lt = all.0
get_or-IsLine (l ∷ history) (suc i) all lt = get_or-IsLine history i all.1 (omega arith)

pub set-IsLine :
    (history : List Bytes) (i : ℕ) (h : Bytes)
    → All IsLine history
    → IsLine h
    → All IsLine (set history i h)
set-IsLine [] i h all good = all
set-IsLine (l ∷ history) zero h all good = (good, all.1)
set-IsLine (l ∷ history) (suc i) h all good = (all.0, set-IsLine history i h all.1 good)

-- The full history moves down by one line, and takes the new line in.
pub shift_history_lem :
    (history : List Bytes) (line : Bytes)
    → 0 < length history
    → All IsLine history
    → length (text line) < buffer_size
    → (moved : List Bytes) × (shift_history history line ≡ some moved)
      × (texts moved ≡ drop 1 (texts history) ++ text line ∷ [])
      × All IsLine moved
      × (length moved ≡ length history)
unfolding shift_history
shift_history_lem [] line some_line all fits = absurd (omega arith)
shift_history_lem (h ∷ []) line some_line all fits =
    let (h', run, t, n) = kstrcpy_lem h line (omega (arith, all.0.0)) in
    (h' ∷ [], rw run, rw t, ((omega (arith, all.0.0), rw t fits), tt), refl)
shift_history_lem (h ∷ next ∷ rest) line some_line all fits =
    let (h', run, t, n) = kstrcpy_lem h next (omega (arith, all.0.0, all.1.0.1)) in
    let (moved, run', t', all', n') =
      shift_history_lem (next ∷ rest) line (omega arith) all.1 fits in
    (
      h' ∷ moved,
      rw (run, run'),
      rw (t, t'),
      ((omega (arith, all.0.0), rw t all.1.0.1), all'),
      omega arith,
    )

pub take-all : (history : List Bytes) → take (length history) (texts history) ≡ texts history
take-all [] = refl
take-all (l ∷ history) = ap (λ r. text l ∷ r) (take-all history)
