-- ===== src/Hal/Sleep.antt =====
-- kernel/hal/hal.cpp: `msleep` over the dispatcher and the handler of the clock.
use mathlib.Core.Path.{subst}
use xbt_os_misaka.Hal.{Hal, Registers, hal_interrupt_dispatcher, returned}
use xbt_os_misaka.Hal.Devices.{msleep, msleep_from}
use xbt_os_misaka.Hal.Interrupt.{IsBooted, ends, hal_interrupt_dispatcher_lem, reacts}
use xbt_os_misaka.Prelude.{
  ℕ, ◌+◌, ◌-◌, ◌%◌, ◌^◌, ◌≤◌, ◌<◌, ◌≡◌, ◌∙◌, ◌==◌, ◌&&◌, refl, inl, inr, Bool-cases, Option-cases,
  none, some, Option, All, false, ltb, if◌then◌else◌, List, [], ◌∷◌, arith,
}

-- An interrupt of a device.
abbrev pub IsDevice : Registers → Type 0
IsDevice r = (32 ≤ r.int_no) × (r.int_no < 256)

-- How many of the interrupts are the clock's.
abbrev pub clocks : List Registers → ℕ
clocks [] = 0
clocks (r ∷ rs) = (if r.int_no == 32 then 1 else 0) + clocks rs

reacts-IsBooted :
    (inb : ℕ → ℕ) (stubs : List ℕ) (s : Hal) (n : ℕ)
    → IsBooted stubs s
    → IsBooted stubs (reacts inb s n)
reacts-IsBooted inb stubs s n booted = elim (Bool-cases (n == 32)) [
  | inl clock ↦ rw clock booted
  | inr other ↦ elim (Bool-cases (n == 33 && inb 0x64 % 2 == 1)) [
    | inl key ↦ rw (other, key) booted
    | inr no_key ↦ rw (other, no_key) booted
  ]
]

reacts-ticks :
    (inb : ℕ → ℕ) (s : Hal) (n : ℕ)
    → (reacts inb s n).system_ticks
      ≡ (if n == 32 then (s.system_ticks + 1) % 2 ^ 64 else s.system_ticks)
reacts-ticks inb s n = ground arith

-- While `d` of the `ms` ticks have passed.
module _ (inb : ℕ → ℕ) (stubs : List ℕ) (start ms : ℕ) (small : ms < 2 ^ 32)
    (is_start : start < 2 ^ 64) where
  abbrev At : Hal → ℕ → Type 0
  At s d = IsBooted stubs s × (s.system_ticks ≡ (start + d) % 2 ^ 64)

  test :
      (s : Hal) (d : ℕ)
      → d ≤ ms
      → At s d
      → ltb ((s.system_ticks + 2 ^ 64 - start) % 2 ^ 64) ms ≡ ltb d ms
  test s d le at =
      let passed : (s.system_ticks + 2 ^ 64 - start) % 2 ^ 64 ≡ d =
        omega (arith, at.1, le, small, is_start) in
      rw passed refl

  -- What the sleep comes to.
  abbrev Slept : ℕ → List Registers → Option Hal → Type 0
  Slept d rs none = d + clocks rs < ms
  Slept d rs (some s) = (ms ≤ d + clocks rs) × At s ms

  Slept-eq :
      (d d' : ℕ) (rs rs' : List Registers) (r : Option Hal)
      → d + clocks rs ≡ d' + clocks rs'
      → Slept d rs r
      → Slept d' rs' r
  Slept-eq d d' rs rs' none same slept = omega (arith, same, slept)
  Slept-eq d d' rs rs' (some s) same (le, at) = (omega (arith, same, le), at)

  tick :
      (s : Hal) (d : ℕ) (r : Registers)
      → At s d
      → At (reacts inb s r.int_no) (if r.int_no == 32 then d + 1 else d)
  tick s d r (booted, at) = (
    reacts-IsBooted inb stubs s r.int_no booted,
    reacts-ticks inb s r.int_no ∙ ground (arith, at),
  )

  sleeps :
      (rs : List Registers) (s : Hal) (d : ℕ)
      → d ≤ ms
      → At s d
      → All IsDevice rs
      → Slept d rs (msleep_from inb start ms s rs)
  unfolding msleep_from
  sleeps [] s d le at all = elim (Bool-cases (ltb d ms)) [
    | inl early ↦ rw (test s d le at, early) (ground (arith, early))
    | inr passed ↦
        let same : d ≡ ms = ground (arith, passed, le) in
        rw (test s d le at, passed) (omega (arith, same), rw same at at)
  ]
  sleeps (r ∷ rs) s d le at all = elim (Bool-cases (ltb d ms)) [
    | inr passed ↦
        let same : d ≡ ms = ground (arith, passed, le) in
        rw (test s d le at, passed) (omega (arith, same), rw same at at)
    | inl early ↦
        let device : ltb r.int_no 32 ≡ false = ground (arith, all.0.0) in
        let next = if r.int_no == 32 then d + 1 else d in
        let woken : hal_interrupt_dispatcher inb s r
            ≡ returned (reacts inb s r.int_no) (ends s r.int_no) =
          hal_interrupt_dispatcher_lem inb stubs s r (at.0) (all.0.1) ∙ rw device refl in
        let later =
          sleeps rs (reacts inb s r.int_no) next (ground (arith, early)) (tick s d r at) (all.1) in
        rw (test s d le at, early, woken)
          (Slept-eq next d rs (r ∷ rs) (msleep_from inb start ms (reacts inb s r.int_no) rs)
            (ground arith) later)
  ]

-- On a state in which `init` filled the tables, with device interrupts to wake the processor: `msleep`
-- returns when exactly `ms` interrupts of the clock have come, whatever others come between them, also
-- where the count of the ticks wraps around; while fewer have come it has not returned.
pub msleep_lem :
    (inb : ℕ → ℕ) (stubs : List ℕ) (ms : ℕ) (s : Hal) (rs : List Registers)
    → IsBooted stubs s
    → ms < 2 ^ 32
    → s.system_ticks < 2 ^ 64
    → All IsDevice rs
    → (ms ≤ clocks rs
        → (s' : Hal) × (msleep inb ms s rs ≡ some s')
          × (s'.system_ticks ≡ (s.system_ticks + ms) % 2 ^ 64)
          × IsBooted stubs s')
      × (clocks rs < ms → msleep inb ms s rs ≡ none)
unfolding msleep
msleep_lem inb stubs ms s rs booted small is_start all =
    let slept =
      sleeps inb stubs s.system_ticks ms small is_start rs s 0 (omega arith)
        (booted, omega (arith, is_start)) all in
    let at_once = Slept inb stubs s.system_ticks ms small is_start 0 rs in
    elim (Option-cases (msleep inb ms s rs)) [
      | inl asleep ↦
          let few = subst at_once asleep slept in
          (λ le. absurd (omega (arith, few, le)), λ _. asleep)
      | inr (s', woke) ↦
          let (enough, (booted', at)) = subst at_once woke slept in
          (λ _. (s', woke, at, booted'), λ lt. absurd (omega (arith, lt, enough)))
    ]
