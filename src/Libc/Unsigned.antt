-- ===== src/Libc/Unsigned.antt =====
-- kernel/memory/libc.cpp: the digits that `print_unsigned` prints.
use mathlib.Core.Path.{subst}
use native.Mathlib.Nat.{pow-suc}
use xbt_os_misaka.KString.{Bytes, head}
use xbt_os_misaka.Libc.{digit_char, print_unsigned, unsigned_loop}
use xbt_os_misaka.Prelude.{
  sym, ℕ, zero, suc, ◌+◌, ◌-◌, ◌*◌, ◌/◌, ◌%◌, ◌^◌, ◌≤◌, ◌<◌, ◌≡◌, ◌≢◌, ◌⊎◌, ◌∙◌, inl, inr, refl, ap,
  ◌==◌, leb, if◌then◌else◌, true, false, Bool-cases, All, [], ◌∷◌, arith,
}

-- What a digit stands for.
abbrev pub digit_value : ℕ → ℕ
digit_value c = if leb c b'9' then c - b'0' else c + 10 - b'a'

-- The number that a text of digits stands for, behind the digits already read.
abbrev pub value_in : ℕ → ℕ → Bytes → ℕ
value_in base n [] = n
value_in base n (c ∷ s) = value_in base (n * base + digit_value c) s

-- A digit of the base, in lower case.
abbrev pub IsDigitIn : ℕ → ℕ → Type 0
IsDigitIn base c = (d : ℕ) × (d < base) × (c ≡ digit_char d)

-- What the loop needs of a base.
pub record IsBase (base : ℕ) : Type 0 where
  pub small : base ≤ 16
  pub whole : (n : ℕ) → n / base * base + n % base ≡ n
  pub halves : (n : ℕ) → n / base ≤ n / 2
  pub digit : (n : ℕ) → n % base < base
  pub more : (n : ℕ) → n ≢ 0 → n / base ≡ 0 → n % base ≢ 0

ten : IsBase 10
ten = record {
  small = omega arith;
  whole = λ n. omega arith;
  halves = λ n. omega arith;
  digit = λ n. omega arith;
  more = λ n ne none_above e. absurd (omega (arith, ne, none_above, e));
}

sixteen : IsBase 16
sixteen = record {
  small = omega arith;
  whole = λ n. omega arith;
  halves = λ n. omega arith;
  digit = λ n. omega arith;
  more = λ n ne none_above e. absurd (omega (arith, ne, none_above, e));
}

digit_value-digit_char : (d : ℕ) → d < 16 → digit_value (digit_char d) ≡ d
digit_value-digit_char d lt = ground arith

module _ (base : ℕ) (b : IsBase base) where
  value_in-loop :
      (room value : ℕ) (buffer : Bytes)
      → value < 2 ^ room
      → value_in base 0 (unsigned_loop base room value buffer) ≡ value_in base value buffer
  unfolding unsigned_loop
  value_in-loop zero value buffer lt = ap (λ n. value_in base n buffer) (omega arith)
  value_in-loop (suc room) value buffer lt = elim (Bool-cases (value == 0)) [
    | inl e ↦ rw e (ap (λ n. value_in base n buffer) (ground arith))
    | inr e ↦
        let d = value % base in
        let read : digit_value (digit_char d) ≡ d =
          digit_value-digit_char d (omega (arith, b.digit value, b.small)) in
        rw e (
          value_in-loop room (value / base) (digit_char d ∷ buffer)
            (omega (arith, pow-suc 2 room, b.halves value))
          ∙ ap (λ n. value_in base n buffer)
              (ap (λ m. value / base * base + m) read ∙ b.whole value))
  ]

  loop-IsDigitIn :
      (room value : ℕ) (buffer : Bytes)
      → All (IsDigitIn base) buffer
      → All (IsDigitIn base) (unsigned_loop base room value buffer)
  unfolding unsigned_loop
  loop-IsDigitIn zero value buffer all = all
  loop-IsDigitIn (suc room) value buffer all = elim (Bool-cases (value == 0)) [
    | inl e ↦ rw e all
    | inr e ↦ rw e (
        loop-IsDigitIn room (value / base) (digit_char (value % base) ∷ buffer)
          ((value % base, b.digit value, refl), all))
  ]

  head-loop :
      (room value : ℕ) (buffer : Bytes)
      → value < 2 ^ room
      → value ≢ 0 ⊎ head buffer ≢ b'0'
      → head (unsigned_loop base room value buffer) ≢ b'0'
  unfolding unsigned_loop
  head-loop zero value buffer lt start = ground arith
  head-loop (suc room) value buffer lt start = elim (Bool-cases (value == 0)) [
    | inl e ↦ rw e (ground arith)
    | inr e ↦ rw e (
        head-loop room (value / base) (digit_char (value % base) ∷ buffer)
          (omega (arith, pow-suc 2 room, b.halves value))
          (next (Bool-cases (value / base == 0)) (ground (arith, e))))
  ]
    where
      next :
          ((value / base == 0) ≡ true) ⊎ ((value / base == 0) ≡ false)
          → value ≢ 0
          → value / base ≢ 0 ⊎ digit_char (value % base) ≢ b'0'
      next (inl last) ne = inr (ground (arith, last, b.more value ne, b.digit value, b.small))
      next (inr more) ne = inl (ground (arith, more))

  base_lem :
      (value : ℕ)
      → value < 2 ^ 32
      → (value_in base 0 (print_unsigned value base) ≡ value)
        × All (IsDigitIn base) (print_unsigned value base)
        × (value ≢ 0 → head (print_unsigned value base) ≢ b'0')
  unfolding print_unsigned
  base_lem value lt = elim (Bool-cases (value == 0)) [
    | inl e ↦ rw e (ground arith, ((0, omega (arith, b.digit 0), refl), tt), ground arith)
    | inr e ↦ rw e (
      value_in-loop 32 value [] lt,
      loop-IsDigitIn 32 value [] tt,
      λ more. head-loop 32 value [] lt (inl more),
    )
  ]

is_base : (base : ℕ) → (base ≡ 10) ⊎ (base ≡ 16) → IsBase base
is_base base (inl e) = subst IsBase (sym e) ten
is_base base (inr e) = subst IsBase (sym e) sixteen

-- What `print_unsigned` prints of a word in base 10 or 16 stands for the word, in digits of the base,
-- and does not begin with a zero unless the word is 0. The buffer of 32 bytes is large enough.
pub print_unsigned_lem :
    (base value : ℕ)
    → (base ≡ 10) ⊎ (base ≡ 16)
    → value < 2 ^ 32
    → (value_in base 0 (print_unsigned value base) ≡ value)
      × All (IsDigitIn base) (print_unsigned value base)
      × (value ≢ 0 → head (print_unsigned value base) ≢ b'0')
print_unsigned_lem base value which lt = base_lem base (is_base base which) value lt
