-- ===== src/Vfs/Names.antt =====
-- `normalize_name` against a description of the names that it accepts, whatever its output buffer
-- held: leading separators are dropped, and the rest is a name of 1 to 31 bytes with no separator
-- that does not start with a dot.
use xbt_os_misaka.Prelude.{
  ℕ, ◌+◌, ◌-◌, ◌<◌, ◌≡◌, refl, inl, inr, ◌∷◌, [], arith, length, Option, none, some, Bool, true,
  false, ◌&&◌, ◌||◌, not, ◌==◌, leb, if◌then◌else◌, Bool-cases,
}
use xbt_os_misaka.KString.{Bytes, head, text}
use xbt_os_misaka.KString.Compare.{text-text}
use xbt_os_misaka.Vfs.{
  ok, err_invalid_name, is_path_separator, skip_separators, copy_name, normalize_name,
  file_name_size,
}

unfoldable pub no_separator : Bytes → Bool
no_separator [] = true
no_separator (c ∷ s) = not (is_path_separator c) && no_separator s

unfoldable pub is_name : Bytes → Bool
unfolding no_separator
is_name n =
    not (head n == 0)
    && not (head n == b'.')
    && no_separator n
    && leb (length n) (file_name_size - 1)

-- The name that a path stands for.
unfoldable pub name_of : Option Bytes → Option Bytes
name_of none = none
name_of (some path) = let n = skip_separators (text path) in if is_name n then some n else none

pub text-skip_separators : (p : Bytes) → skip_separators (text p) ≡ text (skip_separators p)
unfolding skip_separators text is_path_separator
text-skip_separators [] = refl
text-skip_separators (c ∷ p) = ground (arith, text-skip_separators p)

copy_name-ok :
    (p out : Bytes) (len : ℕ)
    → no_separator (text p) ≡ true
    → len + length (text p) < file_name_size
    → length (text p) < length out
    → (out' : Bytes) × (copy_name p out len ≡ some (ok, out'))
      × (text out' ≡ text p)
      × (length out' ≡ length out)
unfolding copy_name text no_separator
copy_name-ok p [] len clean short room = absurd (omega arith)
copy_name-ok [] (o ∷ out) len clean short room = (0 ∷ out, ground arith, ground arith, refl)
copy_name-ok (c ∷ p) (o ∷ out) len clean short room = elim (Bool-cases (c == 0)) [
  | inl e ↦ (0 ∷ out, ground arith, ground arith, refl)
  | inr e ↦
      let (out', run, t, n) =
        copy_name-ok p out (len + 1) (ground arith) (ground arith) (ground arith) in
      (c ∷ out', ground arith, ground arith, omega arith)
]

copy_name-err :
    (p out : Bytes) (len : ℕ)
    → len + length out ≡ file_name_size
    → len < file_name_size
    → no_separator (text p) && leb (len + length (text p)) (file_name_size - 1) ≡ false
    → (out' : Bytes) × (copy_name p out len ≡ some (err_invalid_name, out'))
      × (length out' ≡ length out)
unfolding copy_name text no_separator
copy_name-err [] out len size more bad = absurd (ground arith)
copy_name-err (c ∷ p) [] len size more bad = absurd (omega arith)
copy_name-err (c ∷ p) (o ∷ out) len size more bad =
    elim (Bool-cases (is_path_separator c || leb (file_name_size - 1) len)) [
      | inl e ↦ (o ∷ out, ground arith, refl)
      | inr e ↦
          let (out', run, n) =
            copy_name-err p out (len + 1) (omega arith) (ground arith) (ground arith) in
          (c ∷ out', ground arith, omega arith)
    ]

pub head-text : (s : Bytes) → head (text s) ≡ head s
unfolding text
head-text [] = refl
head-text (c ∷ s) = ground arith

-- A path that starts with its NUL names nothing.
name_of-empty : (p : Bytes) → head p ≡ 0 → is_name (text (skip_separators p)) ≡ false
unfolding skip_separators is_name text is_path_separator
name_of-empty [] h = refl
name_of-empty (c ∷ p) h = ground arith

-- An accepted path leaves its name in the buffer.
pub normalize_name-ok :
    (path : Option Bytes) (out : Bytes) {n : Bytes}
    → length out ≡ file_name_size
    → name_of path ≡ some n
    → (out' : Bytes) × (normalize_name path out ≡ some (ok, out'))
      × (text out' ≡ n)
      × (length out' ≡ file_name_size)
unfolding name_of normalize_name is_name
normalize_name-ok none out size e = cc
normalize_name-ok (some p) out size e =
    let rest = skip_separators p in
    let (out', run, t, n) =
      copy_name-ok rest out 0 (ground (arith, text-skip_separators p))
        (ground (arith, text-skip_separators p)) (ground (arith, text-skip_separators p)) in
    (
      out',
      ground (arith, text-skip_separators p, head-text rest, name_of-empty p),
      ground (arith, text-skip_separators p),
      omega arith,
    )

-- Every other path is refused.
pub normalize_name-err :
    (path : Option Bytes) (out : Bytes)
    → length out ≡ file_name_size
    → name_of path ≡ none
    → (out' : Bytes) × (normalize_name path out ≡ some (err_invalid_name, out'))
unfolding name_of normalize_name is_name
normalize_name-err none out size e = (out, refl)
normalize_name-err (some p) out size e =
    let rest = skip_separators p in
    elim (Bool-cases (head p == 0 || (head rest == 0 || head rest == b'.'))) [
      | inl early ↦ (out, ground arith)
      | inr late ↦
          let (out', run, n) =
            copy_name-err rest out 0 (omega arith) (omega arith)
              (ground (arith, text-skip_separators p, head-text rest)) in
          (out', ground arith)
    ]

skip_separators-name : (n : Bytes) → is_name n ≡ true → skip_separators n ≡ n
unfolding is_name skip_separators
skip_separators-name [] h = refl
skip_separators-name (c ∷ n) h = ground arith

-- A name of a path is a name, and ends where the list ends.
pub name_of-is_name :
    (path : Option Bytes) {n : Bytes} → name_of path ≡ some n → (is_name n ≡ true) × (text n ≡ n)
unfolding name_of
name_of-is_name none e = cc
name_of-is_name (some p) {n} e =
    let m = skip_separators (text p) in
    (ground arith, ground (arith, text-skip_separators p, text-text (skip_separators p)))

-- A buffer that holds a name is a path to it.
pub name_of-buffer :
    (b : Bytes) {n : Bytes} → is_name n ≡ true → text b ≡ n → name_of (some b) ≡ some n
unfolding name_of
name_of-buffer b {n} good e = rw (e, skip_separators-name n good, good)

-- A name leaves room for its NUL.
pub is_name-short : (n : Bytes) → is_name n ≡ true → length n < file_name_size
unfolding is_name
is_name-short n h = ground arith
