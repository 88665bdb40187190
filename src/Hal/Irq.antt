-- ===== src/Hal/Irq.antt =====
-- The mask of the interrupt lines: `irq_enable` and `irq_disable`.
use mathlib.Core.Path.{subst}
use xbt_os_misaka.Hal.{Effect, Hal, outb, pic1_data, pic2_data}
use xbt_os_misaka.Hal.Devices.{irq_bit, irq_disable, irq_enable}
use xbt_os_misaka.Prelude.{
  ℕ, ◌%◌, ◌^◌, ◌<◌, ◌≡◌, ◌==◌, leb, if◌then◌else◌, true, false, Bool, Bool-cases, inl, inr, refl,
  sym, List, [], ◌∷◌, arith, bit, bit-bit_and, bit-bit_or, bit-complement, bit-lt, bit-mask,
  bit_and, bit_and-le, bit_or, bit_or-lt, complement, mask, mask-lt,
}

-- The effects are one write of the mask of the controller that the line is on. It sets the bit of the
-- line to `b` and leaves the others.
abbrev pub SetsBit : List Effect → ℕ → ℕ → ℕ → Type 0
SetsBit effects irq old b =
    (v : ℕ) × (effects ≡ outb (if leb 8 irq then pic2_data else pic1_data) v ∷ [])
    × (v < 2 ^ 8)
    × ((k : ℕ) → k < 8 → bit v k ≡ (if irq % 8 == k then b else bit old k))

irq_bit-eq_mod : (irq : ℕ) → irq < 16 → irq_bit irq ≡ irq % 8
irq_bit-eq_mod irq lt = ground arith

cleared-bit :
    (old j k : ℕ)
    → j < 8
    → k < 8
    → bit (bit_and old (complement 32 (mask j))) k ≡ (if j == k then 0 else bit old k)
cleared-bit old j k j_lt k_lt = ground (
  arith,
  bit-bit_and k old (complement 32 (mask j)),
  bit-complement 32 (mask j) k (mask-lt 32 j (omega arith)) (omega arith),
  bit-mask j k,
  bit-lt old k,
)

set-bit : (old j k : ℕ) → bit (bit_or old (mask j)) k ≡ (if j == k then 1 else bit old k)
set-bit old j k = ground (arith, bit-bit_or k old (mask j), bit-mask j k, bit-lt old k)

-- What the effects are with the APIC on and off: with it on, nothing is written.
abbrev pub Acts : Bool → List Effect → ℕ → ℕ → ℕ → Type 0
Acts true effects irq old b = effects ≡ []
Acts false effects irq old b = SetsBit effects irq old b

controllers :
    (s : Hal) (irq old : ℕ)
    → s.apic_enabled ≡ false
    → irq < 16
    → old < 2 ^ 8
    → SetsBit (irq_enable s irq old) irq old 0 × SetsBit (irq_disable s irq old) irq old 1
unfolding irq_enable irq_disable
controllers s irq old off irq_lt old_lt =
    let j = irq % 8 in
    let cleared = bit_and old (complement 32 (mask j)) in
    let set = bit_or old (mask j) in
    let cleared_lt : cleared < 2 ^ 8 =
      omega (arith, bit_and-le 8 old (complement 32 (mask j)) old_lt, old_lt) in
    let set_lt : set < 2 ^ 8 = bit_or-lt 8 old (mask j) old_lt (mask-lt 8 j (omega arith)) in
    let same = irq_bit-eq_mod irq irq_lt in
    (
      (
        cleared,
        rw (off, same) (ground (arith, cleared_lt)),
        cleared_lt,
        λ k k_lt. cleared-bit old j k (omega arith) k_lt,
      ),
      (set, rw (off, same) (ground (arith, set_lt)), set_lt, λ k k_lt. set-bit old j k),
    )

-- For a line below 16 and a mask of 8 bits: with the APIC off, `irq_enable` clears the bit of the line
-- in the mask of the line's controller, `irq_disable` sets it, and neither changes another bit; with the
-- APIC on, neither writes anything.
pub irq_enable-irq_disable :
    (s : Hal) (irq old : ℕ)
    → irq < 16
    → old < 2 ^ 8
    → Acts s.apic_enabled (irq_enable s irq old) irq old 0
      × Acts s.apic_enabled (irq_disable s irq old) irq old 1
unfolding irq_enable irq_disable
irq_enable-irq_disable s irq old irq_lt old_lt = elim (Bool-cases s.apic_enabled) [
  | inl on ↦ rw on (refl, refl)
  | inr off ↦
      let both = controllers s irq old off irq_lt old_lt in
      subst
        (λ b. Acts b (irq_enable s irq old) irq old 0 × Acts b (irq_disable s irq old) irq old 1)
        (sym off) both
]
