-- ===== src/Prelude/Bits.antt =====
-- Bits of a word: `|`, `&` and `~` act bit by bit.
use Prim.Native.Nat.{
  ℕ, zero, suc, ◌+◌, ◌-◌, ◌*◌, ◌/◌, ◌%◌, ◌^◌, ◌≤◌, ◌<◌, min, max, bit_and, bit_or, digits,
  bit_and-bitwise, bit_or-bitwise,
}
use mathlib.Core.Path.{◌≡◌, ◌∙◌, ap, refl}
use native.Mathlib.Nat.{
  div-add-mod, mod-eq_of_lt, mod-lt, mul-add-mod_self_left, mul_assoc, mul_comm, pow-suc,
  one-le-pow,
}
use native.Mathlib.Omega.{arith}
use xbt_os_misaka.Prelude.Tests.{◌==◌, if◌then◌else◌}

-- Bit `k` of a number.
unfoldable pub bit : ℕ → ℕ → ℕ
bit w zero = w % 2
bit w (suc k) = bit (w / 2) k

-- `1 << k`
abbrev pub mask : ℕ → ℕ
mask k = 2 ^ k

-- `~x` on `w` bits.
abbrev pub complement : ℕ → ℕ → ℕ
complement w x = 2 ^ w - 1 - x

-- The fuel of the digit recursion does not matter once it covers the first operand.
digits_enough :
    (z : ℕ → ℕ) (f : ℕ → ℕ → ℕ) (m n a b : ℕ) → a ≤ m → a ≤ n → digits z f m a b ≡ digits z f n a b
digits_enough z f zero zero a b p q = refl
digits_enough z f zero (suc n) zero b p q = refl
digits_enough z f (suc m) zero zero b p q = refl
digits_enough z f (suc m) (suc n) zero b p q = refl
digits_enough z f zero n (suc a) b p q = absurd (omega arith)
digits_enough z f (suc m) zero (suc a) b p q = absurd (omega arith)
digits_enough z f (suc m) (suc n) (suc a) b p q =
    rw (digits_enough z f m n (suc a / 2) (b / 2) (omega arith) (omega arith))

bit_or_digit : (a b : ℕ) → bit_or a b ≡ bit_or (a / 2) (b / 2) * 2 + max (a % 2) (b % 2)
bit_or_digit zero b = omega (arith, bit_or-bitwise 0 b, bit_or-bitwise 0 (b / 2))
bit_or_digit (suc a) b = omega (
  arith,
  bit_or-bitwise (suc a) b,
  bit_or-bitwise (suc a / 2) (b / 2),
  digits_enough (λ y. y) max a (suc a / 2) (suc a / 2) (b / 2) (omega arith) (omega arith),
)

bit_and_digit : (a b : ℕ) → bit_and a b ≡ bit_and (a / 2) (b / 2) * 2 + min (a % 2) (b % 2)
bit_and_digit zero b = omega (arith, bit_and-bitwise 0 b, bit_and-bitwise 0 (b / 2))
bit_and_digit (suc a) b = omega (
  arith,
  bit_and-bitwise (suc a) b,
  bit_and-bitwise (suc a / 2) (b / 2),
  digits_enough (λ y. 0) min a (suc a / 2) (suc a / 2) (b / 2) (omega arith) (omega arith),
)

pub bit-bit_or : (k a b : ℕ) → bit (bit_or a b) k ≡ max (bit a k) (bit b k)
unfolding bit
bit-bit_or zero a b = omega (arith, bit_or_digit a b)
bit-bit_or (suc k) a b =
    let half : bit_or a b / 2 ≡ bit_or (a / 2) (b / 2) = omega (arith, bit_or_digit a b) in
    rw half (bit-bit_or k (a / 2) (b / 2))

pub bit-bit_and : (k a b : ℕ) → bit (bit_and a b) k ≡ min (bit a k) (bit b k)
unfolding bit
bit-bit_and zero a b = omega (arith, bit_and_digit a b)
bit-bit_and (suc k) a b =
    let half : bit_and a b / 2 ≡ bit_and (a / 2) (b / 2) = omega (arith, bit_and_digit a b) in
    rw half (bit-bit_and k (a / 2) (b / 2))

pub bit-lt : (w k : ℕ) → bit w k < 2
unfolding bit
bit-lt w zero = omega arith
bit-lt w (suc k) = bit-lt (w / 2) k

pub bit_of_zero : (k : ℕ) → bit 0 k ≡ 0
unfolding bit
bit_of_zero zero = refl
bit_of_zero (suc k) = bit_of_zero k

pub bit-mask : (j k : ℕ) → bit (mask j) k ≡ (if j == k then 1 else 0)
unfolding bit
bit-mask zero zero = refl
bit-mask zero (suc k) = ground (arith, bit_of_zero k)
bit-mask (suc j) zero = ground (arith, pow-suc 2 j)
bit-mask (suc j) (suc k) =
    let half : mask (suc j) / 2 ≡ mask j = omega (arith, pow-suc 2 j) in
    rw half (ground (arith, bit-mask j k))

pub bit_of_ones : (w k : ℕ) → k < w → bit (2 ^ w - 1) k ≡ 1
unfolding bit
bit_of_ones zero k h = absurd (omega arith)
bit_of_ones (suc w) zero h = omega (arith, pow-suc 2 w, one-le-pow w 2 (omega arith))
bit_of_ones (suc w) (suc k) h =
    let half : (2 ^ suc w - 1) / 2 ≡ 2 ^ w - 1 =
      omega (arith, pow-suc 2 w, one-le-pow w 2 (omega arith)) in
    rw half (bit_of_ones w k (omega arith))

pub mask-lt : (w j : ℕ) → j < w → mask j < 2 ^ w
mask-lt zero j h = absurd (omega arith)
mask-lt (suc w) zero h = omega (arith, pow-suc 2 w, one-le-pow w 2 (omega arith))
mask-lt (suc w) (suc j) h = omega (arith, pow-suc 2 w, pow-suc 2 j, mask-lt w j (omega arith))

pub bit-complement : (w x k : ℕ) → x < 2 ^ w → k < w → bit (complement w x) k ≡ 1 - bit x k
unfolding bit
bit-complement zero x k lt h = absurd (omega arith)
bit-complement (suc w) x zero lt h = omega (arith, pow-suc 2 w)
bit-complement (suc w) x (suc k) lt h =
    let half : complement (suc w) x / 2 ≡ complement w (x / 2) = omega (arith, pow-suc 2 w) in
    rw half (bit-complement w (x / 2) k (omega (arith, pow-suc 2 w)) (omega arith))

pub bit_or-lt : (w a b : ℕ) → a < 2 ^ w → b < 2 ^ w → bit_or a b < 2 ^ w
bit_or-lt zero zero zero p q = omega arith
bit_or-lt zero zero (suc b) p q = absurd (omega arith)
bit_or-lt zero (suc a) b p q = absurd (omega arith)
bit_or-lt (suc w) a b p q = omega (
  arith,
  pow-suc 2 w,
  bit_or_digit a b,
  bit_or-lt w (a / 2) (b / 2) (omega (arith, pow-suc 2 w)) (omega (arith, pow-suc 2 w)),
)

pub bit_and-le : (w a b : ℕ) → a < 2 ^ w → bit_and a b ≤ a
bit_and-le zero zero b p = omega (arith, bit_and-bitwise 0 b)
bit_and-le zero (suc a) b p = absurd (omega arith)
bit_and-le (suc w) a b p =
    omega (arith, bit_and_digit a b, bit_and-le w (a / 2) (b / 2) (omega (arith, pow-suc 2 w)))

-- A word whose bits are all set is the largest.
pub eq_ones : (w x : ℕ) → x < 2 ^ w → ((k : ℕ) → k < w → bit x k ≡ 1) → x ≡ 2 ^ w - 1
unfolding bit
eq_ones zero x lt h = omega arith
eq_ones (suc w) x lt h = omega (
  arith,
  pow-suc 2 w,
  h 0 (omega arith),
  eq_ones w (x / 2) (omega (arith, pow-suc 2 w)) (λ k k_lt. h (suc k) (omega arith)),
)

-- Words with the same bits are equal.
pub bit-injective :
    (w x y : ℕ) → x < 2 ^ w → y < 2 ^ w → ((k : ℕ) → k < w → bit x k ≡ bit y k) → x ≡ y
unfolding bit
bit-injective zero x y x_lt y_lt h = omega arith
bit-injective (suc w) x y x_lt y_lt h = omega (
  arith,
  h 0 (omega arith),
  bit-injective w (x / 2) (y / 2) (omega (arith, pow-suc 2 w)) (omega (arith, pow-suc 2 w))
      (λ k k_lt. h (suc k) (omega arith)),
)

-- The remainder by twice a number, from that of the half by the number.
mod-double : (m x : ℕ) → 0 < m → x % (2 * m) ≡ x / 2 % m * 2 + x % 2
mod-double m x positive =
    let low = x / 2 % m * 2 + x % 2 in
    let same : x ≡ 2 * m * (x / 2 / m) + low =
      omega (arith, div-add-mod (x / 2) m, mul_assoc 2 m (x / 2 / m)) in
    let small : low < 2 * m = omega (arith, mod-lt (x / 2) positive) in
    ap (λ y. y % (2 * m)) same ∙ mul-add-mod_self_left (2 * m) (x / 2 / m) low ∙ mod-eq_of_lt small

lt-pow : (x : ℕ) → x < 2 ^ x
lt-pow zero = omega arith
lt-pow (suc x) = omega (arith, pow-suc 2 x, lt-pow x)

bit_and_zero : (w x : ℕ) → x < 2 ^ w → bit_and x 0 ≡ 0
bit_and_zero zero zero lt = refl
bit_and_zero zero (suc x) lt = absurd (omega arith)
bit_and_zero (suc w) x lt =
    omega (arith, bit_and_digit x 0, bit_and_zero w (x / 2) (omega (arith, pow-suc 2 w)))

-- `x & (2 ^ w - 1)`
pub bit_and_ones : (w x : ℕ) → bit_and x (2 ^ w - 1) ≡ x % 2 ^ w
bit_and_ones zero x = bit_and_zero x x (lt-pow x) ∙ omega arith
bit_and_ones (suc w) x =
    let half : (2 ^ suc w - 1) / 2 ≡ 2 ^ w - 1 = omega (arith, pow-suc 2 w) in
    let odd : (2 ^ suc w - 1) % 2 ≡ 1 = omega (arith, pow-suc 2 w, one-le-pow w 2 (omega arith)) in
    let twice : x % 2 ^ suc w ≡ x / 2 % 2 ^ w * 2 + x % 2 =
      rw (pow-suc 2 w, mul_comm (2 ^ w) 2) (mod-double (2 ^ w) x (one-le-pow w 2 (omega arith))) in
    let step : bit_and x (2 ^ suc w - 1) ≡ bit_and (x / 2) (2 ^ w - 1) * 2 + min (x % 2) 1 =
      bit_and_digit x (2 ^ suc w - 1)
      ∙ ap (λ h. bit_and (x / 2) h * 2 + min (x % 2) ((2 ^ suc w - 1) % 2)) half
      ∙ ap (λ b. bit_and (x / 2) (2 ^ w - 1) * 2 + min (x % 2) b) odd in
    omega (arith, twice, step, bit_and_ones w (x / 2))
