-- ===== src/KString/Copy.antt =====
-- kernel/include/string.h: the writing functions, within the buffer.
use xbt_os_misaka.Prelude.{
  ℕ, zero, suc, ◌-◌, ◌≤◌, take, ◌+◌, ◌<◌, ◌≡◌, refl, some, ◌++◌, ◌∷◌, [], arith, length, ◌==◌,
  Bool-cases, inl, inr,
}
use native.Mathlib.Nat.{zero-add}
use xbt_os_misaka.KString.{Bytes, text, kmemcpy, kstrcpy, at_offset, poke, kstrncpy, kstrncpy_loop}

-- `kstrcpy` into a buffer with room for the string and its NUL.
pub kstrcpy_lem :
    (d s : Bytes)
    → length (text s) < length d
    → (d' : Bytes) × (kstrcpy d s ≡ some d') × (text d' ≡ text s) × (length d' ≡ length d)
unfolding kstrcpy text
kstrcpy_lem [] s h = absurd (omega arith)
kstrcpy_lem (x ∷ d) [] h = (0 ∷ d, ground arith, ground arith, refl)
kstrcpy_lem (x ∷ d) (c ∷ s) h = elim (Bool-cases (c == 0)) [
  | inl e ↦ (0 ∷ d, ground arith, ground arith, refl)
  | inr e ↦
      let (d', run, t, n) = kstrcpy_lem d s (ground arith) in
      (c ∷ d', ground arith, ground arith, omega arith)
]

-- `kmemcpy` of a string's bytes, and the NUL stored behind them.
pub kmemcpy-poke :
    (d s : Bytes)
    → length (text s) < length d
    → (d₁ d₂ : Bytes) × (kmemcpy d s (length (text s)) ≡ some d₁)
      × (at_offset (length (text s)) (poke 0) d₁ ≡ some d₂)
      × (text d₂ ≡ text s)
      × (length d₂ ≡ length d)
unfolding kmemcpy at_offset text
kmemcpy-poke [] s h = absurd (omega arith)
kmemcpy-poke (x ∷ d) [] h = (x ∷ d, 0 ∷ d, refl, refl, ground arith, refl)
kmemcpy-poke (x ∷ d) (c ∷ s) h = elim (Bool-cases (c == 0)) [
  | inl e ↦ (x ∷ d, 0 ∷ d, ground arith, ground arith, ground arith, refl)
  | inr e ↦
      let (d₁, d₂, copied, ended, t, n) = kmemcpy-poke d s (ground arith) in
      (c ∷ d₁, c ∷ d₂, ground arith, ground arith, ground arith, omega arith)
]

-- The same behind the string that the buffer holds.
pub kmemcpy-poke_behind :
    (d s : Bytes)
    → length (text d) + length (text s) < length d
    → (d₁ d₂ : Bytes) × (at_offset (length (text d)) (λ p. kmemcpy p s (length (text s))) d
        ≡ some d₁)
      × (at_offset (length (text d) + length (text s)) (poke 0) d₁ ≡ some d₂)
      × (text d₂ ≡ text d ++ text s)
      × (length d₂ ≡ length d)
unfolding at_offset text
kmemcpy-poke_behind [] s h = absurd (omega arith)
kmemcpy-poke_behind (x ∷ d) s h = elim (Bool-cases (x == 0)) [
  | inl e ↦
      let (d₁, d₂, copied, ended, t, n) = kmemcpy-poke (x ∷ d) s (ground arith) in
      (d₁, d₂, rw e copied, rw (e, zero-add) ended, rw e t, n)
  | inr e ↦
      let (d₁, d₂, copied, ended, t, n) = kmemcpy-poke_behind d s (ground arith) in
      (x ∷ d₁, x ∷ d₂, ground arith, ground arith, ground arith, omega arith)
]

kstrncpy_loop_lem :
    (n : ℕ) (d s : Bytes)
    → n < length d
    → (d' : Bytes) × (kstrncpy_loop n d s ≡ some d')
      × (text d' ≡ take n (text s))
      × (length d' ≡ length d)
unfolding kstrncpy_loop text
kstrncpy_loop_lem n [] s fits = absurd (omega arith)
kstrncpy_loop_lem zero (x ∷ d) s fits = (0 ∷ d, refl, refl, refl)
kstrncpy_loop_lem (suc n) (x ∷ d) [] fits = (0 ∷ d, refl, refl, refl)
kstrncpy_loop_lem (suc n) (x ∷ d) (c ∷ s) fits =
    let (d', run, same, size) = kstrncpy_loop_lem n d s (omega arith) in
    elim (Bool-cases (c == 0)) [
      | inl e ↦ (0 ∷ d, rw e refl, rw e refl, refl)
      | inr e ↦ (c ∷ d', rw (e, run) refl, rw (e, same) refl, omega (arith, size))
    ]

-- `kstrncpy` into a buffer of at least `max_len` bytes stays inside it, and leaves the string cut to
-- `max_len - 1` bytes.
pub kstrncpy_lem :
    (max_len : ℕ) (d s : Bytes)
    → 0 < max_len
    → max_len ≤ length d
    → (d' : Bytes) × (kstrncpy d s max_len ≡ some d')
      × (text d' ≡ take (max_len - 1) (text s))
      × (length d' ≡ length d)
unfolding kstrncpy
kstrncpy_lem zero d s positive fits = absurd (omega arith)
kstrncpy_lem (suc n) d s positive fits =
    let pred : suc n - 1 ≡ n = omega arith in rw pred (kstrncpy_loop_lem n d s (omega arith))
