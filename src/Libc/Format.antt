-- ===== src/Libc/Format.antt =====
-- `printf` on formats that are written piece by piece, and on a format that ends in a `%`.
use xbt_os_misaka.Console.{Trace, print, print_char, print_string}
use xbt_os_misaka.KString.{Bytes, head}
use xbt_os_misaka.Libc.Unsigned.{IsDigitIn, print_unsigned_lem, value_in}
use xbt_os_misaka.Libc.{
  Argument, printf, print_signed, print_unsigned, put_chars, string, to_signed, word,
}
use xbt_os_misaka.Prelude.{
  ℕ, ◌^◌, ◌%◌, ◌≡◌, ◌≢◌, refl, none, some, ◌==◌, ◌-◌, ◌+◌, ◌<◌, ltb, if◌then◌else◌, true, false,
  Bool-cases, inl, inr, ◌⊎◌, zero, suc, All, List, [], ◌∷◌, ◌++◌, arith,
}

-- A piece of a format: a character that is not a `%`, or a directive with its argument. `signed` is
-- `%d`, `integer` is `%i`, `null_string` is `%s` with a null pointer, and `unknown` is a `%` before a
-- character that stands for no directive.
pub data Piece : Type 0 where
  char : ℕ → Piece
  text : Bytes → Piece
  signed integer unsigned hex single unknown : ℕ → Piece
  null_string percent : Piece

-- A character that a format can hold outside its directives.
abbrev pub IsPlain : ℕ → Type 0
IsPlain c = (c ≢ 0) × (c ≢ b'%')

-- A character behind a `%` that stands for no directive and does not end the format.
abbrev pub IsUnknown : ℕ → Type 0
IsUnknown c =
    (c ≢ 0)
    × (c ≢ b's')
    × (c ≢ b'd')
    × (c ≢ b'i')
    × (c ≢ b'u')
    × (c ≢ b'x')
    × (c ≢ b'c')
    × (c ≢ b'%')

-- The least integer cannot be printed.
abbrev pub IsPiece : Piece → Type 0
IsPiece (char c) = IsPlain c
IsPiece (signed w) = (w < 2 ^ 32) × (w ≢ 2 ^ 31)
IsPiece (integer w) = (w < 2 ^ 32) × (w ≢ 2 ^ 31)
IsPiece (unsigned w) = w < 2 ^ 32
IsPiece (hex w) = w < 2 ^ 32
IsPiece (unknown c) = IsUnknown c
IsPiece _ = Unit

-- What stands for the pieces in the format, and the arguments that they take.
abbrev pub format_of : List Piece → Bytes
format_of [] = []
format_of (char c ∷ ps) = c ∷ format_of ps
format_of (text s ∷ ps) = b'%' ∷ b's' ∷ format_of ps
format_of (signed w ∷ ps) = b'%' ∷ b'd' ∷ format_of ps
format_of (integer w ∷ ps) = b'%' ∷ b'i' ∷ format_of ps
format_of (unknown c ∷ ps) = b'%' ∷ c ∷ format_of ps
format_of (null_string ∷ ps) = b'%' ∷ b's' ∷ format_of ps
format_of (unsigned w ∷ ps) = b'%' ∷ b'u' ∷ format_of ps
format_of (hex w ∷ ps) = b'%' ∷ b'x' ∷ format_of ps
format_of (single w ∷ ps) = b'%' ∷ b'c' ∷ format_of ps
format_of (percent ∷ ps) = b'%' ∷ b'%' ∷ format_of ps

abbrev pub arguments_of : List Piece → List Argument
arguments_of [] = []
arguments_of (char c ∷ ps) = arguments_of ps
arguments_of (text s ∷ ps) = string (some s) ∷ arguments_of ps
arguments_of (signed w ∷ ps) = word w ∷ arguments_of ps
arguments_of (integer w ∷ ps) = word w ∷ arguments_of ps
arguments_of (unknown c ∷ ps) = arguments_of ps
arguments_of (null_string ∷ ps) = string none ∷ arguments_of ps
arguments_of (unsigned w ∷ ps) = word w ∷ arguments_of ps
arguments_of (hex w ∷ ps) = word w ∷ arguments_of ps
arguments_of (single w ∷ ps) = word w ∷ arguments_of ps
arguments_of (percent ∷ ps) = arguments_of ps

-- The decimal form of the integer that a word stands for.
abbrev pub signed_text : ℕ → Bytes
signed_text w =
    if ltb w (2 ^ 31) then print_unsigned w 10 else b'-' ∷ print_unsigned (2 ^ 32 - w) 10

-- What is printed for them.
abbrev pub output_of : Piece → Trace
output_of (char c) = print_char c
output_of (text s) = print_string s
output_of (signed w) = put_chars (signed_text w)
output_of (integer w) = put_chars (signed_text w)
output_of (unknown c) = print_char b'%' ++ print_char c
output_of null_string = print "(null)"
output_of (unsigned w) = put_chars (print_unsigned w 10)
output_of (hex w) = put_chars (print_unsigned w 16)
output_of (single w) = print_char (w % 2 ^ 8)
output_of percent = print_char b'%'

abbrev pub output : List Piece → Trace
output [] = []
output (p ∷ ps) = output_of p ++ output ps

print_signed-signed_text :
    (w : ℕ) → w < 2 ^ 32 → w ≢ 2 ^ 31 → print_signed (to_signed w) ≡ some (signed_text w)
unfolding print_signed
print_signed-signed_text w lt ne = elim (Bool-cases (ltb w (2 ^ 31))) [
  | inl small ↦ rw small refl
  | inr large ↦
      let back : 2 ^ 32 - 1 - w + 1 ≡ 2 ^ 32 - w = omega (arith, lt) in
      let fits : ltb (2 ^ 32 - w) (2 ^ 31) ≡ true = ground (arith, large, ne) in
      rw (large, back, fits) refl
]

printf-output :
    (ps : List Piece) (more : List Argument)
    → All IsPiece ps
    → printf (some (format_of ps)) (arguments_of ps ++ more) ≡ some (output ps)
unfolding printf
printf-output [] more all = refl
printf-output (char c ∷ ps) more all =
    let ne : (c == 0) ≡ false = ground (arith, all.0) in
    let plain : (c == b'%') ≡ false = ground (arith, all.0) in
    rw (ne, plain, printf-output ps more (all.1)) refl
printf-output (text s ∷ ps) more all = rw (printf-output ps more (all.1)) refl
printf-output (signed w ∷ ps) more all =
    rw (print_signed-signed_text w (all.0.0) (all.0.1), printf-output ps more (all.1)) refl
printf-output (integer w ∷ ps) more all =
    rw (print_signed-signed_text w (all.0.0) (all.0.1), printf-output ps more (all.1)) refl
printf-output (null_string ∷ ps) more all = rw (printf-output ps more (all.1)) refl
printf-output (unknown c ∷ ps) more all =
    let (_, s, d, i, u, x, single_c, two) = all.0 in
    let no_s : (c == b's') ≡ false = ground (arith, s) in
    let no_d : (c == b'd') ≡ false = ground (arith, d) in
    let no_i : (c == b'i') ≡ false = ground (arith, i) in
    let no_u : (c == b'u') ≡ false = ground (arith, u) in
    let no_x : (c == b'x') ≡ false = ground (arith, x) in
    let no_c : (c == b'c') ≡ false = ground (arith, single_c) in
    let no_two : (c == b'%') ≡ false = ground (arith, two) in
    rw (no_s, no_d, no_i, no_u, no_x, no_c, no_two, printf-output ps more (all.1)) refl
printf-output (unsigned w ∷ ps) more all = rw (printf-output ps more (all.1)) refl
printf-output (hex w ∷ ps) more all = rw (printf-output ps more (all.1)) refl
printf-output (single w ∷ ps) more all = rw (printf-output ps more (all.1)) refl
printf-output (percent ∷ ps) more all = rw (printf-output ps more (all.1)) refl

-- The digits of a number in a base: they stand for it, without a leading zero.
abbrev pub IsNumeral : ℕ → ℕ → Bytes → Type 0
IsNumeral base n s =
    (value_in base 0 s ≡ n)
    × All (IsDigitIn base) s
    × ((s ≡ b'0' ∷ []) ⊎ ((n ≢ 0) × (head s ≢ b'0')))

-- The number whose digits are printed for the integer that a word stands for.
abbrev pub magnitude : ℕ → ℕ
magnitude w = if ltb w (2 ^ 31) then w else 2 ^ 32 - w

-- What is printed for the number of a directive is its numeral.
abbrev pub HasNumeral : Piece → Type 0
HasNumeral (signed w) = IsNumeral 10 (magnitude w) (print_unsigned (magnitude w) 10)
HasNumeral (integer w) = IsNumeral 10 (magnitude w) (print_unsigned (magnitude w) 10)
HasNumeral (unsigned w) = IsNumeral 10 w (print_unsigned w 10)
HasNumeral (hex w) = IsNumeral 16 w (print_unsigned w 16)
HasNumeral _ = Unit

first_digit :
    (base n : ℕ)
    → (n ≢ 0 → head (print_unsigned n base) ≢ b'0')
    → (print_unsigned n base ≡ b'0' ∷ []) ⊎ ((n ≢ 0) × (head (print_unsigned n base) ≢ b'0'))
unfolding print_unsigned
first_digit base zero leads = inl refl
first_digit base (suc n) leads =
    let positive : suc n ≢ 0 = omega arith in inr (positive, leads positive)

print_unsigned-IsNumeral :
    (base n : ℕ) → (base ≡ 10) ⊎ (base ≡ 16) → n < 2 ^ 32 → IsNumeral base n (print_unsigned n base)
print_unsigned-IsNumeral base n which lt =
    let (value, digits, leads) = print_unsigned_lem base n which lt in
    (value, digits, first_digit base n leads)

magnitude-lt : (w : ℕ) → magnitude w < 2 ^ 32
magnitude-lt w = ground arith

piece-HasNumeral : (p : Piece) → IsPiece p → HasNumeral p
piece-HasNumeral (char c) is = tt
piece-HasNumeral (text s) is = tt
piece-HasNumeral (signed w) is =
    print_unsigned-IsNumeral 10 (magnitude w) (inl refl) (magnitude-lt w)
piece-HasNumeral (integer w) is =
    print_unsigned-IsNumeral 10 (magnitude w) (inl refl) (magnitude-lt w)
piece-HasNumeral (unsigned w) is = print_unsigned-IsNumeral 10 w (inl refl) is
piece-HasNumeral (hex w) is = print_unsigned-IsNumeral 16 w (inr refl) is
piece-HasNumeral (single w) is = tt
piece-HasNumeral (unknown c) is = tt
piece-HasNumeral null_string is = tt
piece-HasNumeral percent is = tt

all-HasNumeral : (ps : List Piece) → All IsPiece ps → All HasNumeral ps
all-HasNumeral [] all = tt
all-HasNumeral (p ∷ ps) all = (piece-HasNumeral p (all.0), all-HasNumeral ps (all.1))

-- `printf` prints the pieces of its format in order and does not fault, whatever arguments are left over.
-- A character other than `%` is printed itself; `%s` prints its string, and `(null)` for a null pointer;
-- `%d` and `%i` print their integer, which is not the least one, in decimal; `%u` and `%x` print their
-- word in decimal and in hexadecimal; `%c` prints its character and `%%` a `%`; and a `%` before any other
-- character but NUL is printed with that character. Each number is printed as its numeral in
-- the base, without leading zeros.
pub printf_lem :
    (ps : List Piece) (more : List Argument)
    → All IsPiece ps
    → (printf (some (format_of ps)) (arguments_of ps ++ more) ≡ some (output ps))
      × All HasNumeral ps
printf_lem ps more all = (printf-output ps more all, all-HasNumeral ps all)

-- A format whose last character is a `%` that begins a directive is read past its NUL.
pub printf-overruns :
    (s : Bytes) (args : List Argument) → All IsPlain s → printf (some (s ++ b'%' ∷ [])) args ≡ none
unfolding printf
printf-overruns [] args all = refl
printf-overruns (c ∷ s) args all =
    let ne : (c == 0) ≡ false = ground (arith, all.0) in
    let plain : (c == b'%') ≡ false = ground (arith, all.0) in
    rw (ne, plain, printf-overruns s args (all.1)) refl
