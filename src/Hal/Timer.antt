-- ===== src/Hal/Timer.antt =====
-- The clock: the loop of `msleep`.
use xbt_os_misaka.Hal.Devices.{msleep_loop}
use xbt_os_misaka.Prelude.{
  ℕ, zero, suc, ap, Bool-cases, inl, inr, ◌+◌, ◌-◌, ◌%◌, ◌^◌, ◌≤◌, ◌<◌, ◌≡◌, refl, ltb, true, false,
  some, List, [], ◌∷◌, arith, length, get_or,
}

-- The clock goes on from `at`, never back, and its readings have 64 bits.
abbrev pub Rises : ℕ → List ℕ → Type 0
Rises at [] = Unit
Rises at (t ∷ ts) = (at ≤ t) × (t < 2 ^ 64) × Rises t ts

-- The first reading from the start on that is `ms` ticks after it.
abbrev pub IsFirst : ℕ → ℕ → List ℕ → ℕ → Type 0
IsFirst start ms ts n =
    (n < length ts) × (start + ms ≤ get_or ts n 0) × ((i : ℕ) → i < n → get_or ts i 0 < start + ms)

IsFirst-now : (start ms t : ℕ) (ts : List ℕ) → start + ms ≤ t → IsFirst start ms (t ∷ ts) 0
IsFirst-now start ms t ts late = (omega arith, late, λ i i_lt. absurd (omega (arith, i_lt)))

earlier :
    (start ms t n : ℕ) (ts : List ℕ)
    → t < start + ms
    → ((i : ℕ) → i < n → get_or ts i 0 < start + ms)
    → (i : ℕ) → i < suc n
    → get_or (t ∷ ts) i 0 < start + ms
earlier start ms t n ts early before zero i_lt = early
earlier start ms t n ts early before (suc i) i_lt = before i (omega (arith, i_lt))

IsFirst-later :
    (start ms t n : ℕ) (ts : List ℕ)
    → t < start + ms
    → IsFirst start ms ts n
    → IsFirst start ms (t ∷ ts) (suc n)
IsFirst-later start ms t n ts early (lt, late, before) =
    (omega (arith, lt), late, earlier start ms t n ts early before)

-- `msleep` returns at the first test at which `ms` ticks have passed, and halts the processor once for
-- each test before it, if the clock never goes back and some reading comes to that time.
pub msleep_loop_lem :
    (ts : List ℕ) (start ms at last : ℕ)
    → start ≤ at
    → Rises at ts
    → last < length ts
    → start + ms ≤ get_or ts last 0
    → (n : ℕ) × (msleep_loop start ms ts ≡ some n) × (n ≤ last) × IsFirst start ms ts n
unfolding msleep_loop
msleep_loop_lem [] start ms at last le rises lt late = absurd (omega arith)
msleep_loop_lem (t ∷ ts) start ms at zero le (after, small, rises) lt late =
    let over : ltb ((t + 2 ^ 64 - start) % 2 ^ 64) ms ≡ false =
      ground (arith, late, after, small, le) in
    (0, rw over refl, omega arith, IsFirst-now start ms t ts late)
msleep_loop_lem (t ∷ ts) start ms at (suc last) le (after, small, rises) lt late =
    elim (Bool-cases (ltb t (start + ms))) [
      | inl early ↦
          let waits : ltb ((t + 2 ^ 64 - start) % 2 ^ 64) ms ≡ true =
            ground (arith, early, after, small, le) in
          let (n, run, n_le, first) =
            msleep_loop_lem ts start ms t last (omega (arith, after, le)) rises (omega (arith, lt))
              late in
          (
            suc n,
            rw (waits, run) (ap some (omega arith)),
            omega (arith, n_le),
            IsFirst-later start ms t n ts (ground (arith, early)) first,
          )
      | inr passed ↦
          let over : ltb ((t + 2 ^ 64 - start) % 2 ^ 64) ms ≡ false =
            ground (arith, passed, after, small, le) in
          (0, rw over refl, omega arith, IsFirst-now start ms t ts (ground (arith, passed)))
    ]
