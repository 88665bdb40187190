-- ===== src/Libc.antt =====
-- kernel/memory/libc.cpp: the C library of the kernel, without `abort`.
-- An `int` is an integer, or the word of its 32 bits. A `char` is a byte. Signed arithmetic that leaves
-- the 32 bits is undefined: it is a fault, like a read that has no object.
pub mod Unsigned
pub mod Atoi
pub mod Format
mod Tests
use xbt_os_misaka.Console.{print, ConsoleOp, Trace, print_char, print_string}
use xbt_os_misaka.KString.{Bytes}
use xbt_os_misaka.Vga.{null_text}
use xbt_os_misaka.Prelude.{
  ℕ, zero, suc, ◌+◌, ◌-◌, ◌*◌, ◌/◌, ◌%◌, ◌^◌, ◌==◌, ltb, leb, if◌then◌else◌, Bool, true, false,
  ◌&&◌, ◌||◌, not, Option, none, some, List, [], ◌∷◌, ◌++◌, Run, ◌>>=◌, ℤ, pos, negsuc, sub_ℕ,
}

-- `(char)(digit < 10 ? ('0' + digit) : ('a' + digit - 10))`
abbrev pub digit_char : ℕ → ℕ
digit_char digit = if ltb digit 10 then b'0' + digit else b'a' + digit - 10

-- `while (value > 0 && pos < sizeof(buffer))`, with the places that are left in the buffer. The buffer
-- is filled from one end and emptied from the same: it is a list.
unfoldable pub unsigned_loop : ℕ → ℕ → ℕ → Bytes → Bytes
unsigned_loop base zero value buffer = buffer
unsigned_loop base (suc room) value buffer =
    let rest = unsigned_loop base room (value / base) (digit_char (value % base) ∷ buffer) in
    if value == 0 then buffer else rest

-- The bytes that `print_unsigned` prints.
unfoldable pub print_unsigned : ℕ → ℕ → Bytes
print_unsigned value base = if value == 0 then b'0' ∷ [] else unsigned_loop base 32 value []

-- The bytes that `print_signed` prints. `-value` overflows for the least integer.
unfoldable pub print_signed : ℤ → Run Bytes
print_signed (pos n) = some (print_unsigned n 10)
print_signed (negsuc n) =
    if ltb (n + 1) (2 ^ 31) then some (b'-' ∷ print_unsigned (n + 1) 10) else none

-- The integer that a word stands for.
abbrev pub to_signed : ℕ → ℤ
to_signed w = if ltb w (2 ^ 31) then pos w else negsuc (2 ^ 32 - 1 - w)

abbrev pub put_chars : Bytes → Trace
put_chars [] = []
put_chars (c ∷ s) = ConsoleOp.put_char c ∷ put_chars s

unfoldable pub putchar : ℕ → Trace
putchar c = print_char (c % 2 ^ 8)

-- `print_string` of a pointer: the console prints `(null)` for a null pointer.
abbrev pub print_pointer : Option Bytes → Trace
print_pointer none = print_string null_text
print_pointer (some text) = print_string text

unfoldable pub puts : Option Bytes → Trace
puts text = print_pointer text ++ print_char 10

-- An argument of `printf`: a string, which may be null, or a word.
pub data Argument : Type 0 where
  string : Option Bytes → Argument
  word : ℕ → Argument

-- `va_arg(args, const char*)`. An argument that is not there, or of another type, is a fault.
abbrev pub next_string : List Argument → Run (Option Bytes × List Argument)
next_string (string s ∷ args) = some (s, args)
next_string _ = none

-- `va_arg(args, int)`
abbrev pub next_word : List Argument → Run (ℕ × List Argument)
next_word (word w ∷ args) = some (w, args)
next_word _ = none

-- The character behind a `%`: what is printed, and the arguments that are left.
unfoldable pub directive : ℕ → List Argument → Run (Trace × List Argument)
directive c args =
    if c == b's'
    then (do (s, rest) ← next_string args; some (print_pointer s, rest))
    else if c == b'd' || c == b'i'
    then (do (w, rest) ← next_word args; s ← print_signed (to_signed w); some (put_chars s, rest))
    else if c == b'u'
    then (do (w, rest) ← next_word args; some (put_chars (print_unsigned w 10), rest))
    else if c == b'x'
    then (do (w, rest) ← next_word args; some (put_chars (print_unsigned w 16), rest))
    else if c == b'c'
    then (do (w, rest) ← next_word args; some (print_char (w % 2 ^ 8), rest))
    else if c == b'%'
    then some (print_char b'%', args)
    else some (print_char b'%' ++ print_char c, args)

-- The loop from `format + i` on. `after_percent`: the character before was a `%` that begins a
-- directive. At the NUL it is printed like any other, and what is read behind it is not the format's.
unfoldable pub printf_loop : Bool → Bytes → List Argument → Run Trace
unfolding directive
printf_loop false [] args = some []
printf_loop true [] args = none
printf_loop false (c ∷ format) args = if c == 0 then some [] else (do
  rest ← printf_loop (c == b'%') format args
  some ((if c == b'%' then [] else print_char c) ++ rest))
printf_loop true (c ∷ format) args = do
  (printed, left) ← directive c args
  rest ← printf_loop false format left
  some (printed ++ rest)

-- A null format prints nothing.
unfoldable pub printf : Option Bytes → List Argument → Run Trace
unfolding printf_loop
printf none args = some []
printf (some format) args = printf_loop false format args

abbrev pub isdigit : ℕ → Bool
isdigit c = leb b'0' c && leb c b'9'

abbrev pub isalpha : ℕ → Bool
isalpha c = (leb b'a' c && leb c b'z') || (leb b'A' c && leb c b'Z')

abbrev pub isspace : ℕ → Bool
isspace c = c == b' ' || c == 10 || c == 13 || c == 9 || c == 11 || c == 12

abbrev pub tolower : ℕ → ℕ
tolower c = if leb b'A' c && leb c b'Z' then c + 32 else c

abbrev pub toupper : ℕ → ℕ
toupper c = if leb b'a' c && leb c b'z' then c - 32 else c

-- `while (isspace(*text)) ++text;`
unfoldable pub skip_space : Bytes → Bytes
skip_space [] = []
skip_space (c ∷ text) = if isspace c then skip_space text else c ∷ text

-- `while (isdigit(*text))`: the integer `value`, which is not negative. The product and the sum overflow
-- if and only if the sum does.
unfoldable pub atoi_loop : Bytes → ℕ → Run ℕ
atoi_loop [] value = some value
atoi_loop (c ∷ text) value =
    let next = value * 10 + (c - b'0') in
    let rest = atoi_loop text next in
    if isdigit c then (if ltb next (2 ^ 31) then rest else none) else some value

-- `value * sign`, from the sign on.
unfoldable pub atoi_signed : Bytes → Run ℤ
unfolding atoi_loop
atoi_signed [] = some (pos 0)
atoi_signed (c ∷ text) =
    if c == b'-'
    then (do value ← atoi_loop text 0; some (sub_ℕ 0 value))
    else (do value ← atoi_loop (c ∷ text) 0; some (pos value))

unfoldable pub atoi : Bytes → Run ℤ
unfolding skip_space
atoi text = atoi_signed (skip_space text)

-- What `abort` prints before it halts the processor for good.
abbrev pub abort_output : Trace
abort_output = print "abort()\n"
