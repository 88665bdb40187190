-- ===== src/Console.antt =====
-- kernel/hal/console.h: what the kernel asks of the console device, as the trace of the calls of
-- the four functions of `ConsoleDevice`.
use Prim.Native.Char.{code}
use Prim.Native.String.{String}
use xbt_os_misaka.Prelude.{ℕ, ◌+◌, ◌/◌, ◌%◌, List, [], ◌∷◌, ◌++◌, ltb, if◌then◌else◌}
use xbt_os_misaka.KString.{Bytes}

pub data ConsoleOp : Type 0 where
  clear : ConsoleOp
  put_char : ℕ → ConsoleOp
  write : Bytes → ConsoleOp
  write_utf8 : Bytes → ConsoleOp

abbrev pub Trace : Type 0
Trace = List ConsoleOp

-- The UTF-8 bytes of a code point: what the compiler puts in a string literal.
unfoldable pub utf8 : ℕ → Bytes
utf8 c =
    if ltb c 0x80
    then c ∷ []
    else if ltb c 0x800
    then (0xc0 + c / 0x40) ∷ (0x80 + c % 0x40) ∷ []
    else if ltb c 0x10000
    then (0xe0 + c / 0x1000) ∷ (0x80 + c / 0x40 % 0x40) ∷ (0x80 + c % 0x40) ∷ []
    else (0xf0 + c / 0x40000)
      ∷ (0x80 + c / 0x1000 % 0x40)
      ∷ (0x80 + c / 0x40 % 0x40)
      ∷ (0x80 + c % 0x40)
      ∷ []

-- The bytes of a string literal.
unfoldable pub bytes : String → Bytes
unfolding utf8
bytes String.[] = []
bytes (String.◌∷◌ c s) = utf8 (code c) ++ bytes s

abbrev pub clear_screen : Trace
clear_screen = clear ∷ []

abbrev pub print_char : ℕ → Trace
print_char c = put_char c ∷ []

abbrev pub print_string : Bytes → Trace
print_string s = write s ∷ []

abbrev pub print_utf8 : Bytes → Trace
print_utf8 s = write_utf8 s ∷ []

-- `print_string` of a literal.
abbrev pub print : String → Trace
print s = print_string (bytes s)
