-- ===== src/KString.antt =====
-- kernel/include/string.h: the kernel's own string and memory functions.
-- A `const char*` is the list of the bytes from the pointer on; where the list ends stands the
-- terminating NUL. A buffer that is written is a list of its size: `none` is a write past its end.
pub mod Compare
pub mod Copy
use xbt_os_misaka.Prelude.{
  ℕ, zero, suc, ◌+◌, ◌%◌, ◌^◌, ◌<◌, ◌≡◌, ◌≢◌, Bool, ◌&&◌, not, Option, none, some, List, [], ◌∷◌,
  ◌==◌, if◌then◌else◌, ℤ, sub_ℕ, is_zero, All, length,
}

abbrev pub Bytes : Type 0
Bytes = List ℕ

-- `*p`
abbrev pub head : Bytes → ℕ
head [] = 0
head (c ∷ _) = c

-- `++p`
abbrev pub tail : Bytes → Bytes
tail [] = []
tail (_ ∷ s) = s

-- Puts a byte before a buffer that was written without a fault.
abbrev pub keep : ℕ → Option Bytes → Option Bytes
keep c none = none
keep c (some b) = some (c ∷ b)

-- `num` bytes are set; the byte is `(unsigned char)value`.
unfoldable pub kmemset : Bytes → ℕ → ℕ → Option Bytes
kmemset p value zero = some p
kmemset [] value (suc num) = none
kmemset (_ ∷ p) value (suc num) = keep (value % 2 ^ 8) (kmemset p value num)

unfoldable pub kmemcpy : Bytes → Bytes → ℕ → Option Bytes
kmemcpy dest src zero = some dest
kmemcpy [] src (suc num) = none
kmemcpy (_ ∷ dest) src (suc num) = keep (head src) (kmemcpy dest (tail src) num)

unfoldable pub kstrcmp : Bytes → Bytes → ℤ
kstrcmp [] str2 = sub_ℕ 0 (head str2)
kstrcmp (a ∷ str1) str2 =
    let rest = kstrcmp str1 (tail str2) in
    if not (a == 0) && a == head str2 then rest else sub_ℕ a (head str2)

-- `kstrcmp(a, b) == 0`
abbrev pub streq : Bytes → Bytes → Bool
streq a b = is_zero (kstrcmp a b)

-- `size_t` has 32 bits.
unfoldable pub kstrlen_loop : Bytes → ℕ → ℕ
kstrlen_loop [] len = len
kstrlen_loop (c ∷ str) len = if c == 0 then len else kstrlen_loop str ((len + 1) % 2 ^ 32)

-- A null pointer has length 0.
unfoldable pub kstrlen : Option Bytes → ℕ
unfolding kstrlen_loop
kstrlen none = 0
kstrlen (some str) = kstrlen_loop str 0

unfoldable pub kstrcpy : Bytes → Bytes → Option Bytes
kstrcpy [] src = none
kstrcpy (_ ∷ dest) [] = some (0 ∷ dest)
kstrcpy (_ ∷ dest) (c ∷ src) = if c == 0 then some (0 ∷ dest) else keep c (kstrcpy dest src)

-- The loop of `kstrncpy` with the rounds that the bound leaves, and the NUL behind it.
unfoldable pub kstrncpy_loop : ℕ → Bytes → Bytes → Option Bytes
kstrncpy_loop rounds [] src = none
kstrncpy_loop zero (_ ∷ dest) src = some (0 ∷ dest)
kstrncpy_loop (suc rounds) (_ ∷ dest) src =
    let rest = kstrncpy_loop rounds dest (tail src) in
    if head src == 0 then some (0 ∷ dest) else keep (head src) rest

unfoldable pub kstrncpy : Bytes → Bytes → ℕ → Option Bytes
unfolding kstrncpy_loop
kstrncpy dest src zero = some dest
kstrncpy dest src (suc max_len) = kstrncpy_loop max_len dest src

-- `*p = c`
abbrev pub poke : ℕ → Bytes → Option Bytes
poke c [] = none
poke c (_ ∷ p) = some (c ∷ p)

-- A write through `p + n`.
unfoldable pub at_offset : ℕ → (Bytes → Option Bytes) → Bytes → Option Bytes
at_offset zero f p = f p
at_offset (suc n) f [] = none
at_offset (suc n) f (c ∷ p) = keep c (at_offset n f p)

-- The string that a pointer stands for: the bytes before the first NUL.
unfoldable pub text : Bytes → Bytes
text [] = []
text (c ∷ s) = if c == 0 then [] else c ∷ text s

-- The bytes of a string proper: no NUL among them.
abbrev pub IsText : Bytes → Type 0
IsText s = All (λ c. c ≢ 0) s

-- A buffer that holds a string with its NUL inside it.
abbrev pub IsTerminated : Bytes → Type 0
IsTerminated b = length (text b) < length b
