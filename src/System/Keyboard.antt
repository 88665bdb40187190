-- ===== src/System/Keyboard.antt =====
-- kernel/main.cpp, lines 377 and 378, with kernel/hal/hal.cpp and the stub of boot/boot.asm: where the
-- scancode of a keyboard interrupt comes from. `kernel_main` sets the gate 0x21 to the stub
-- `keyboard_handler_asm`, which calls `keyboard_handler` and no other function.
use xbt_os_misaka.Hal.{Hal}
use xbt_os_misaka.Hal.Devices.{keyboard_read_scancode}
use xbt_os_misaka.Input.{
  Effect, Input, beside, char_of, end_of_interrupt, handle_scancode, press, scancode_to_ascii,
  scancode_to_ascii_shift, shown, type_char,
}
use xbt_os_misaka.Input
use xbt_os_misaka.Prelude.{
  ℕ, zero, suc, ◌≡◌, refl, Bool-cases, false, inl, inr, some, Run, ◌>>=◌, List, [], ◌∷◌, ◌++◌,
  replicate,
}
use xbt_os_misaka.Shell.{Kernel, execute_command, prompt}

module _ (cpuid : ℕ → ℕ × ℕ × ℕ × ℕ) where
  -- `keyboard_handler`, with the scancode that it reads of the hardware layer.
  unfoldable pub keyboard_interrupt :
      Hal → Input → Kernel → Run (Hal × Input × Kernel × List Effect)
  keyboard_interrupt h s k = do
    let (scancode, h') = keyboard_read_scancode h
    (s', k', effects) ← Input.keyboard_handler (execute_command cpuid) prompt s k scancode
    some (h', s', k', effects)

  -- Some interrupts, one after another.
  unfoldable pub keyboard_interrupts :
      ℕ → Hal → Input → Kernel → Run (Hal × Input × Kernel × List Effect)
  unfolding keyboard_interrupt
  keyboard_interrupts zero h s k = some (h, s, k, [])
  keyboard_interrupts (suc n) h s k = do
    (h₁, s₁, k₁, effects) ← keyboard_interrupt h s k
    (h₂, s₂, k₂, rest) ← keyboard_interrupts n h₁ s₁ k₁
    some (h₂, s₂, k₂, effects ++ rest)

  -- The scancode 0 stands for no key: the handler ends the interrupt and does nothing else.
  keyboard_handler-zero :
      (s : Input) (k : Kernel)
      → s.extended_key ≡ false
      → Input.keyboard_handler (execute_command cpuid) prompt s k 0
        ≡ some (s, k, end_of_interrupt 1 ∷ [])
  unfolding Input.keyboard_handler handle_scancode press char_of type_char scancode_to_ascii
      scancode_to_ascii_shift
  keyboard_handler-zero s k plain = elim (Bool-cases s.shift_pressed) [
    | inl shift ↦ rw (plain, shift) refl
    | inr no_shift ↦ rw (plain, no_shift) refl
  ]

  keyboard_interrupt-idle :
      (h : Hal) (s : Input) (k : Kernel)
      → h.keyboard_ready ≡ false
      → s.extended_key ≡ false
      → keyboard_interrupt h s k ≡ some (h, s, k, end_of_interrupt 1 ∷ [])
  unfolding keyboard_interrupt keyboard_read_scancode
  keyboard_interrupt-idle h s k idle plain = rw (idle, keyboard_handler-zero s k plain) refl

  -- Through the gate that `kernel_main` sets, no keyboard interrupt reads the keyboard: while no scancode
  -- is ready and no prefix was seen, any number of interrupts changes nothing in the kernel, and prints
  -- nothing, whatever keys are pressed.
  pub keyboard_interrupts-idle :
      (n : ℕ) (h : Hal) (s : Input) (k : Kernel)
      → h.keyboard_ready ≡ false
      → s.extended_key ≡ false
      → keyboard_interrupts n h s k ≡ some (h, s, k, replicate n (end_of_interrupt 1))
  unfolding keyboard_interrupts replicate
  keyboard_interrupts-idle zero h s k idle plain = refl
  keyboard_interrupts-idle (suc n) h s k idle plain =
      rw (keyboard_interrupt-idle h s k idle plain, keyboard_interrupts-idle n h s k idle plain)
        refl
