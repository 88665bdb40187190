-- ===== src/Ascii.antt =====
-- Bytes below 0x80: what the keyboard types, and what the string functions make of them.
pub mod Editing
pub mod Showable
pub mod Files
pub mod Screen
pub mod Keys
pub mod Shell
use xbt_os_misaka.KString.{Bytes, at_offset, head, keep, kmemcpy, kstrcpy, poke, tail}
use xbt_os_misaka.Prelude.{
  ℕ, zero, suc, ◌<◌, ◌≡◌, refl, All, All-replicate, List, [], ◌∷◌, ◌==◌, none, some, arith, drop,
  if◌then◌else◌, Bool-cases, inl, inr, Whenever, Whenever-if, Option, Run, true, false, Bool,
}
use xbt_os_misaka.Shell.{skip_spaces, skip_token}

abbrev pub IsAscii : ℕ → Type 0
IsAscii c = c < 0x80

abbrev pub AreAscii : Bytes → Type 0
AreAscii s = All IsAscii s

All-if : (b : Bool) (x y : Bytes) → AreAscii x → AreAscii y → AreAscii (if b then x else y)
All-if true x y p q = p
All-if false x y p q = q

pub head-IsAscii : (s : Bytes) → AreAscii s → IsAscii (head s)
head-IsAscii [] all = omega arith
head-IsAscii (c ∷ s) all = all.0

pub tail-AreAscii : (s : Bytes) → AreAscii s → AreAscii (tail s)
tail-AreAscii [] all = tt
tail-AreAscii (c ∷ s) all = all.1

pub drop-AreAscii : (n : ℕ) (s : Bytes) → AreAscii s → AreAscii (drop n s)
drop-AreAscii zero s all = all
drop-AreAscii (suc n) [] all = tt
drop-AreAscii (suc n) (c ∷ s) all = drop-AreAscii n s all.1

pub skip_spaces-AreAscii : (s : Bytes) → AreAscii s → AreAscii (skip_spaces s)
unfolding skip_spaces
skip_spaces-AreAscii [] all = tt
skip_spaces-AreAscii (c ∷ s) all =
    All-if (c == b' ') (skip_spaces s) (c ∷ s) (skip_spaces-AreAscii s all.1) all

pub skip_token-AreAscii : (s : Bytes) → AreAscii s → AreAscii (skip_token s)
unfolding skip_token
skip_token-AreAscii [] all = tt
skip_token-AreAscii (c ∷ s) all = All-if _ (skip_token s) (c ∷ s) (skip_token-AreAscii s all.1) all

keep-AreAscii :
    (c : ℕ) (run : Run Bytes) → IsAscii c → Whenever AreAscii run → Whenever AreAscii (keep c run)
keep-AreAscii c none p all = tt
keep-AreAscii c (some b) p all = (p, all)

pub kmemcpy-AreAscii :
    (dest src : Bytes) (num : ℕ)
    → AreAscii dest
    → AreAscii src
    → Whenever AreAscii (kmemcpy dest src num)
unfolding kmemcpy
kmemcpy-AreAscii dest src zero d s = d
kmemcpy-AreAscii [] src (suc num) d s = tt
kmemcpy-AreAscii (x ∷ dest) src (suc num) d s =
    keep-AreAscii (head src) (kmemcpy dest (tail src) num) (head-IsAscii src s)
      (kmemcpy-AreAscii dest (tail src) num d.1 (tail-AreAscii src s))

pub kstrcpy-AreAscii :
    (dest src : Bytes) → AreAscii dest → AreAscii src → Whenever AreAscii (kstrcpy dest src)
unfolding kstrcpy
kstrcpy-AreAscii [] src d s = tt
kstrcpy-AreAscii (x ∷ dest) [] d s = (omega arith, d.1)
kstrcpy-AreAscii (x ∷ dest) (c ∷ src) d s =
    Whenever-if AreAscii (c == 0) (some (0 ∷ dest)) (keep c (kstrcpy dest src)) (omega arith, d.1)
      (keep-AreAscii c (kstrcpy dest src) (s.0) (kstrcpy-AreAscii dest src d.1 s.1))

pub poke-AreAscii : (c : ℕ) (p : Bytes) → IsAscii c → AreAscii p → Whenever AreAscii (poke c p)
poke-AreAscii c [] is all = tt
poke-AreAscii c (x ∷ p) is all = (is, all.1)

pub at_offset-AreAscii :
    (n : ℕ) (f : Bytes → Run Bytes) (p : Bytes)
    → ((q : Bytes) → AreAscii q → Whenever AreAscii (f q))
    → AreAscii p
    → Whenever AreAscii (at_offset n f p)
unfolding at_offset
at_offset-AreAscii zero f p writes all = writes p all
at_offset-AreAscii (suc n) f [] writes all = tt
at_offset-AreAscii (suc n) f (c ∷ p) writes all =
    keep-AreAscii c (at_offset n f p) (all.0) (at_offset-AreAscii n f p writes all.1)
