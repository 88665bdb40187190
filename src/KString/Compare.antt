-- ===== src/KString/Compare.antt =====
-- `kstrcmp` and `kstrlen` against the strings that their arguments stand for.
use xbt_os_misaka.Prelude.{ℕ, ◌+◌, ◌%◌, ◌^◌, ◌<◌, ◌≡◌, refl, ◌↔◌, ◌∷◌, [], true, arith, length}
use xbt_os_misaka.KString.{Bytes, kstrcmp, streq, kstrlen, kstrlen_loop, text, IsText}
use xbt_os_misaka.Prelude.{some}

-- `kstrcmp` returns 0 exactly on equal strings.
pub streq_iff : (a b : Bytes) → (streq a b ≡ true) ↔ (text a ≡ text b)
unfolding kstrcmp text
streq_iff [] [] = ground arith
streq_iff [] (y ∷ b) = ground arith
streq_iff (x ∷ a) [] = ground arith
streq_iff (x ∷ a) (y ∷ b) = ground (arith, streq_iff a b)

pub streq_refl : (a : Bytes) → streq a a ≡ true
streq_refl a = (streq_iff a a).1 refl

kstrlen_loop-eq :
    (s : Bytes) (n : ℕ) → n + length (text s) < 2 ^ 32 → kstrlen_loop s n ≡ n + length (text s)
unfolding kstrlen_loop text
kstrlen_loop-eq [] n h = omega arith
kstrlen_loop-eq (c ∷ s) n h = ground (arith, kstrlen_loop-eq s ((n + 1) % 2 ^ 32))

-- A string that fits the address space is measured without a wrap.
pub kstrlen-eq-length : (s : Bytes) → length (text s) < 2 ^ 32 → kstrlen (some s) ≡ length (text s)
unfolding kstrlen
kstrlen-eq-length s h = ground (arith, kstrlen_loop-eq s 0)

pub text-IsText : (s : Bytes) → IsText (text s)
unfolding text
text-IsText [] = tt
text-IsText (c ∷ s) = ground (arith, text-IsText s)

pub text-eq_self : (s : Bytes) → IsText s → text s ≡ s
unfolding text
text-eq_self [] h = refl
text-eq_self (c ∷ s) h = ground (arith, text-eq_self s h.1)

pub text-text : (s : Bytes) → text (text s) ≡ text s
text-text s = text-eq_self (text s) (text-IsText s)
