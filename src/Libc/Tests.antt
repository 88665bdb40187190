-- ===== src/Libc/Tests.antt =====
-- The C library at concrete arguments.
use xbt_os_misaka.Console.{bytes}
use xbt_os_misaka.Libc.{atoi, atoi_signed, printf, word}
use xbt_os_misaka.Libc.Format.{
  HasNumeral, Piece, arguments_of, char, format_of, hex, integer, null_string, unknown, output,
  percent, printf_lem, signed, text,
}
use xbt_os_misaka.Prelude.{◌≡◌, refl, All, none, some, List, [], ◌∷◌, ◌++◌, arith}

-- The text of the least integer overflows in `atoi`.
atoi_least : atoi (bytes "-2147483648") ≡ none
unfolding atoi bytes atoi_signed
atoi_least = refl

-- `n=%d%i,%s%s%x%%%q`, a null pointer for the second string, and one argument too many.
abbrev pieces : List Piece
pieces =
    char b'n'
    ∷ char b'='
    ∷ signed 0xFFFF_FFFF
    ∷ integer 7
    ∷ char b','
    ∷ text (b'a' ∷ b'b' ∷ [])
    ∷ null_string
    ∷ hex 255
    ∷ percent
    ∷ unknown b'q'
    ∷ []

printf_lem_example :
    (printf (some (format_of pieces)) (arguments_of pieces ++ word 1 ∷ []) ≡ some (output pieces))
    × All HasNumeral pieces
printf_lem_example = printf_lem pieces (word 1 ∷ []) (omega arith)
