-- ===== src/Decimal.antt =====
-- The decimal numbers that the kernel prints: the loops of `print_uint` in kernel/main.cpp and of
-- `FileSystem::list` in kernel/fs/vfs.cpp. A buffer that is filled from one end and emptied from the
-- same is a list.
use xbt_os_misaka.Prelude.{
  ℕ, zero, suc, ◌+◌, ◌*◌, ◌-◌, ◌/◌, ◌%◌, ◌^◌, ◌<◌, ◌≤◌, ◌≡◌, ◌≢◌, ◌⊎◌, ap, ◌∙◌, [], ◌∷◌, ◌==◌,
  if◌then◌else◌, arith, All, Bool-cases, inl, inr,
}
use xbt_os_misaka.KString.{Bytes, head}
use native.Mathlib.Nat.{pow-suc}

-- `while (value > 0 && pos < sizeof(buffer))`, with the places that are left in the buffer.
unfoldable pub digits_loop : ℕ → ℕ → Bytes → Bytes
digits_loop zero value buffer = buffer
digits_loop (suc room) value buffer =
    let rest = digits_loop room (value / 10) ((b'0' + value % 10) ∷ buffer) in
    if value == 0 then buffer else rest

unfoldable pub digits : ℕ → Bytes
digits value = if value == 0 then b'0' ∷ [] else digits_loop 12 value []

-- The number that a text of digits stands for, behind the digits already read.
abbrev pub value_of : ℕ → Bytes → ℕ
value_of n [] = n
value_of n (c ∷ s) = value_of (n * 10 + (c - b'0')) s

abbrev pub IsDigit : ℕ → Type 0
IsDigit c = (b'0' ≤ c) × (c ≤ b'9')

value_of-digits_loop :
    (room value : ℕ) (buffer : Bytes)
    → value < 10 ^ room
    → value_of 0 (digits_loop room value buffer) ≡ value_of value buffer
unfolding digits_loop
value_of-digits_loop zero value buffer lt = ap (λ n. value_of n buffer) (omega arith)
value_of-digits_loop (suc room) value buffer lt = elim (Bool-cases (value == 0)) [
  | inl e ↦ rw e (ap (λ n. value_of n buffer) (ground arith))
  | inr e ↦ rw e (
      value_of-digits_loop room (value / 10) ((b'0' + value % 10) ∷ buffer)
        (omega (arith, pow-suc 10 room))
      ∙ ap (λ n. value_of n buffer) (omega arith))
]

digits_loop-IsDigit :
    (room value : ℕ) (buffer : Bytes)
    → All IsDigit buffer
    → All IsDigit (digits_loop room value buffer)
unfolding digits_loop
digits_loop-IsDigit zero value buffer all = all
digits_loop-IsDigit (suc room) value buffer all = elim (Bool-cases (value == 0)) [
  | inl e ↦ rw e all
  | inr e ↦ rw e (
      digits_loop-IsDigit room (value / 10) ((b'0' + value % 10) ∷ buffer)
        ((omega arith, omega arith), all))
]

head-digits_loop :
    (room value : ℕ) (buffer : Bytes)
    → value < 10 ^ room
    → value ≢ 0 ⊎ head buffer ≢ b'0'
    → head (digits_loop room value buffer) ≢ b'0'
unfolding digits_loop
head-digits_loop zero value buffer lt start = ground arith
head-digits_loop (suc room) value buffer lt start = elim (Bool-cases (value == 0)) [
  | inl e ↦ rw e (ground arith)
  | inr e ↦ rw e (
      head-digits_loop room (value / 10) ((b'0' + value % 10) ∷ buffer)
        (omega (arith, pow-suc 10 room)) (ground arith))
]

-- What is printed for a number of 32 bits is its decimal form: digits only, which stand for the
-- number, and without a leading zero unless the number is 0. The buffer of 12 bytes is large enough.
pub digits_lem :
    (value : ℕ)
    → value < 2 ^ 32
    → (value_of 0 (digits value) ≡ value)
      × All IsDigit (digits value)
      × (value ≢ 0 → head (digits value) ≢ b'0')
unfolding digits
digits_lem value lt = elim (Bool-cases (value == 0)) [
  | inl e ↦ rw e (ground arith, (omega arith, omega arith), ground arith)
  | inr e ↦
      let fits : value < 10 ^ 12 = omega arith in
      rw e (
        value_of-digits_loop 12 value [] fits,
        digits_loop-IsDigit 12 value [] tt,
        λ more. head-digits_loop 12 value [] fits (inl more),
      )
]
