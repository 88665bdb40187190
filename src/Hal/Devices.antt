-- ===== src/Hal/Devices.antt =====
-- kernel/hal/hal.cpp: the registration of handlers, the interrupt lines, the timer, the keyboard port and
-- the initialisation. `old` is what the port of an interrupt controller reads.
use xbt_os_misaka.Hal.{
  Effect, Registers, hal_interrupt_dispatcher, returned, halted, fault, Hal, Handler, IdtEntry,
  apic_init_internal, console_init, default_exception_handler, idt_set_gate, keyboard_handler,
  load_idt, outb, pic1_data, pic2_data, pic_init, pit_handler, sti,
}
use xbt_os_misaka.Prelude.{
  Bool, ℕ, zero, suc, ◌+◌, ◌-◌, ◌/◌, ◌%◌, ◌^◌, ◌==◌, ltb, if◌then◌else◌, false, Option, none, some,
  List, [], ◌∷◌, ◌++◌, Run, ◌>>=◌, load, store, bit_and, bit_or, mask, complement,
}

unfoldable pub register_interrupt_handler : Hal → ℕ → Option Handler → Run Hal
register_interrupt_handler s n handler = do
  handlers ← store s.interrupt_handlers n handler
  some (record s { interrupt_handlers = handlers })

unfoldable pub unregister_interrupt_handler : Hal → ℕ → Run Hal
unfolding register_interrupt_handler
unregister_interrupt_handler s n = register_interrupt_handler s n none

abbrev pub enable_interrupts : List Effect
enable_interrupts = sti ∷ []

abbrev pub is_apic_available : Hal → Bool
is_apic_available s = s.apic_enabled

abbrev pub apic_init : ℕ → ℕ → ℕ → ℕ → Hal → Hal × List Effect
apic_init = apic_init_internal

abbrev pub irq_port : ℕ → ℕ
irq_port irq = if ltb irq 8 then pic1_data else pic2_data

abbrev pub irq_bit : ℕ → ℕ
irq_bit irq = if ltb irq 8 then irq else irq - 8

-- `old` is what the port reads.
unfoldable pub irq_enable : Hal → ℕ → ℕ → List Effect
irq_enable s irq old =
    if s.apic_enabled
    then []
    else outb (irq_port irq) (bit_and old (complement 32 (mask (irq_bit irq))) % 2 ^ 8) ∷ []

unfoldable pub irq_disable : Hal → ℕ → ℕ → List Effect
irq_disable s irq old =
    if s.apic_enabled
    then []
    else outb (irq_port irq) (bit_or old (mask (irq_bit irq)) % 2 ^ 8) ∷ []

-- `old` is what the port of the interrupt controller reads.
unfoldable pub init_timer : Hal → ℕ → ℕ → Run (Hal × List Effect)
unfolding irq_enable register_interrupt_handler
init_timer s frequency old =
    let divisor = 1193180 / frequency in
    if frequency == 0 then some (s, []) else (do
      s' ← register_interrupt_handler s 32 (some pit_handler)
      some (
        s',
        outb 0x43 0x36
            ∷ outb 0x40 (bit_and divisor 0xFF)
            ∷ outb 0x40 (bit_and (divisor / 2 ^ 8) 0xFF)
            ∷ irq_enable s' 0 old,
      ))

abbrev pub get_ticks : Hal → ℕ
get_ticks s = s.system_ticks

-- The loop of `msleep`, with what `system_ticks` holds at each of its tests: how often it halts. Where
-- the list ends the processor sleeps.
unfoldable pub msleep_loop : ℕ → ℕ → List ℕ → Option ℕ
msleep_loop start ms [] = none
msleep_loop start ms (ticks ∷ later) =
    if ltb ((ticks + 2 ^ 64 - start) % 2 ^ 64) ms
    then (do halts ← msleep_loop start ms later; some (halts + 1))
    else some 0

-- The loop of `msleep` from its test on, with the interrupts that wake the processor, one for each
-- `hlt`: the state in which it returns, or `none` if it still sleeps, or an interrupt does not return.
-- That an interrupt comes at a `hlt` and not between it and the test is assumed: one that comes earlier
-- is served, and the `hlt` then waits for the next.
unfoldable pub msleep_from : (ℕ → ℕ) → ℕ → ℕ → Hal → List Registers → Option Hal
msleep_from inb start ms s [] =
    if ltb ((s.system_ticks + 2 ^ 64 - start) % 2 ^ 64) ms then none else some s
msleep_from inb start ms s (r ∷ later) =
    let woken : Option Hal = elim (hal_interrupt_dispatcher inb s r) [
      | returned s' effects ↦ msleep_from inb start ms s' later
      | halted effects ↦ none
      | fault ↦ none
    ] in
    if ltb ((s.system_ticks + 2 ^ 64 - start) % 2 ^ 64) ms then woken else some s

unfoldable pub msleep : (ℕ → ℕ) → ℕ → Hal → List Registers → Option Hal
unfolding msleep_from
msleep inb ms s later = let start = s.system_ticks in msleep_from inb start ms s later

unfoldable pub keyboard_init : Hal → ℕ → Run (Hal × List Effect)
unfolding irq_enable register_interrupt_handler
keyboard_init s old = do
  s' ← register_interrupt_handler s 33 (some keyboard_handler)
  some (s', irq_enable s' 1 old)

unfoldable pub keyboard_read_scancode : Hal → ℕ × Hal
keyboard_read_scancode s =
    if s.keyboard_ready then (s.last_scancode, record s { keyboard_ready = false }) else (0, s)

-- `for (; i < end; i++) idt_set_gate(i, isr_stub_table[i], 0x08, IDT_DEFAULT_INT_GATE);` with the rounds
-- that are left.
unfoldable pub set_gates : List ℕ → ℕ → ℕ → List IdtEntry → Run (List IdtEntry)
set_gates stubs zero i idt = some idt
set_gates stubs (suc rounds) i idt = do
  stub ← load stubs i
  next ← idt_set_gate idt i stub 0x08 0x8E
  set_gates stubs rounds (i + 1) next

-- `for (; i < end; i++) register_interrupt_handler(i, default_exception_handler);`
unfoldable pub register_exceptions : ℕ → ℕ → Hal → Run Hal
unfolding register_interrupt_handler
register_exceptions zero i s = some s
register_exceptions (suc rounds) i s = do
  next ← register_interrupt_handler s i (some default_exception_handler)
  register_exceptions rounds (i + 1) next

-- What `init` reads of the machine: of `cpuid`, of the register 0x1B, of the APIC, and of the ports of
-- the interrupt controllers at each of the three times.
pub record Machine : Type 0 where
  pub features : ℕ
  pub msr_low : ℕ
  pub msr_high : ℕ
  pub spurious : ℕ
  pub old_cascade : ℕ
  pub old_timer : ℕ
  pub old_keyboard : ℕ

unfoldable pub init : List ℕ → Machine → Hal → Run (Hal × List Effect)
unfolding set_gates register_exceptions init_timer keyboard_init irq_enable
init stubs m s = do
  let (s₁, apic) = apic_init_internal m.features m.msr_low m.msr_high m.spurious s
  idt ← set_gates stubs 256 0 s₁.idt
  s₂ ← register_exceptions 32 0 (record s₁ { idt = idt })
  (s₃, timer) ← init_timer s₂ 1000 m.old_timer
  (s₄, keyboard) ← keyboard_init s₃ m.old_keyboard
  some (
    s₄,
    console_init ∷ pic_init
        ++ apic
        ++ load_idt ∷ (if s₂.apic_enabled then [] else irq_enable s₂ 2 m.old_cascade)
        ++ timer
        ++ keyboard
        ++ enable_interrupts,
  )

-- `cr2` is what the register holds.
abbrev pub get_cr2 : ℕ → ℕ
get_cr2 cr2 = cr2

-- `old_regs` and `new_regs` are addresses: the memory and the stack pointer after the switch.
unfoldable pub switch_context : (ℕ → ℕ) → ℕ → ℕ → ℕ → (ℕ → ℕ) × ℕ
switch_context memory esp old_regs new_regs =
    let current = esp in (λ a. if a == old_regs then current else memory a, new_regs)
