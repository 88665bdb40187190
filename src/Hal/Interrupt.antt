-- ===== src/Hal/Interrupt.antt =====
-- `init`, and what the dispatcher then does with each interrupt.
use xbt_os_misaka.Hal.{
  dispatch, Effect, Hal, Handler, IdtEntry, Registers, acknowledge, apic_init_internal,
  call_handler, default_exception_handler, hal_interrupt_dispatcher, halted, handle_interrupt,
  keyboard_handler, outb, apic_write, pic1_cmd, pic2_cmd, pic_send_eoi, pit_handler,
  report_exception, returned, then_acknowledge,
}
use xbt_os_misaka.Hal.Devices.{Machine, init, init_timer, keyboard_init, register_interrupt_handler}
use xbt_os_misaka.Prelude.{
  ℕ, ◌+◌, ◌%◌, ◌^◌, ◌<◌, ◌≡◌, ◌∙◌, refl, ap, inl, inr, Bool-cases, Option, none, some, Bool, true,
  false, ◌&&◌, ◌==◌, ltb, if◌then◌else◌, List, [], ◌∷◌, load, load-eq_some, store-eq_some, length,
  length-set, get_or, get_or-set, set, arith, bit_and, bit_and_ones, mask,
}
use xbt_os_misaka.Hal.Tables.{
  IsGate, gate_for, gate_for-IsGate, handler_of, in_range, register_exceptions_lem, set_gates_lem,
  with_handlers,
}

-- The handlers after `init`, on a table that was empty.
abbrev pub booted : ℕ → Option Handler
booted n =
    if ltb n 32
    then some default_exception_handler
    else if n == 32
    then some pit_handler
    else if n == 33
    then some keyboard_handler
    else none

abbrev pub blank : IdtEntry
blank = record { offset_low = 0; selector = 0; always_zero = 0; type_attr = 0; offset_high = 0 }

-- A state in which the tables are filled.
abbrev pub IsBooted : List ℕ → Hal → Type 0
IsBooted stubs s =
    (length s.interrupt_handlers ≡ 256)
    × ((n : ℕ) → handler_of s n ≡ booted n)
    × ((n : ℕ) → n < 256 → IsGate (get_or s.idt n blank) (get_or stubs n 0))

apic_init_internal-frame :
    (features low high spurious : ℕ) (s : Hal)
    → (on : Bool) × (effects : List Effect) × (apic_init_internal features low high spurious s
        ≡ (record s { apic_enabled = on }, effects))
unfolding apic_init_internal
apic_init_internal-frame features low high spurious s =
    elim (Bool-cases (bit_and features (mask 9) == 0)) [
      | inl lacks ↦ (false, (apic_init_internal features low high spurious s).1, rw lacks refl)
      | inr has ↦ (true, (apic_init_internal features low high spurious s).1, rw has refl)
    ]

-- The tables after the handlers of the exceptions, the clock and the keyboard.
booted_handlers :
    (table : List (Option Handler))
    → length table ≡ 256
    → ((n : ℕ)
        → get_or table n none ≡ (if in_range 0 32 n then some default_exception_handler else none))
    → (n : ℕ)
    → get_or (set (set table 32 (some pit_handler)) 33 (some keyboard_handler)) n none ≡ booted n
booted_handlers table size at n = ground (
  arith,
  at n,
  get_or-set table 32 n (some pit_handler) none (omega (arith, size)),
  get_or-set (set table 32 (some pit_handler)) 33 n (some keyboard_handler) none
      (omega (arith, size, length-set table 32 (some pit_handler))),
)

-- `init` fills both tables: the gate of each interrupt leads to its stub, the exceptions have the
-- default handler, 32 the clock's and 33 the keyboard's.
init-IsBooted :
    (stubs : List ℕ) (m : Machine) (s : Hal)
    → length stubs ≡ 256
    → length s.idt ≡ 256
    → length s.interrupt_handlers ≡ 256
    → ((n : ℕ) → get_or stubs n 0 < 2 ^ 32)
    → ((n : ℕ) → handler_of s n ≡ none)
    → (s' : Hal) × (effects : List Effect) × (init stubs m s ≡ some (s', effects))
      × IsBooted stubs s'
unfolding init init_timer keyboard_init register_interrupt_handler
init-IsBooted stubs m s stubs_size idt_size size small empty =
    let (on, apic, apic_run) =
      apic_init_internal-frame m.features m.msr_low m.msr_high m.spurious s in
    let (gates, gates_run, gates_at) =
      set_gates_lem stubs 256 0 s.idt blank (omega (arith, idt_size))
        (omega (arith, idt_size, stubs_size)) in
    let s₂ : Hal = record s { apic_enabled = on; idt = gates } in
    let (table, table_run, table_size, table_at) =
      register_exceptions_lem 32 0 s₂ (omega (arith, size)) in
    let table₁ = set table 32 (some pit_handler) in
    let timer = store-eq_some table 32 (some pit_handler) (omega (arith, table_size, size)) in
    let size₁ : length table₁ ≡ 256 = length-set table 32 (some pit_handler) ∙ table_size ∙ size in
    let keyboard = store-eq_some table₁ 33 (some keyboard_handler) (omega (arith, size₁)) in
    let booted_at =
      booted_handlers table (table_size ∙ size) (λ n. ground (arith, table_at n, empty n)) in
    rw (apic_run, gates_run, table_run, timer, keyboard)
      (
        with_handlers s₂ (set table₁ 33 (some keyboard_handler)),
        _,
        refl,
        (
          length-set table₁ 33 (some keyboard_handler) ∙ size₁,
          booted_at,
          λ n n_lt.
              let gate : get_or gates n blank ≡ gate_for (get_or stubs n 0) =
                ground (arith, gates_at n) in
              rw gate (gate_for-IsGate (get_or stubs n 0) (small n)),
        ),
      )

-- What a device interrupt changes: 32 is the clock's, and 33 the keyboard's.
abbrev pub reacts : (ℕ → ℕ) → Hal → ℕ → Hal
reacts inb s n =
    if n == 32
    then record s { system_ticks = (s.system_ticks + 1) % 2 ^ 64 }
    else if n == 33 && inb 0x64 % 2 == 1
    then record s { last_scancode = inb 0x60; keyboard_ready = true }
    else s

-- The end of interrupt: to the APIC, or to the controllers that took part.
abbrev pub ends : Hal → ℕ → List Effect
ends s n =
    if s.apic_enabled
    then apic_write 0x0B0 0 ∷ []
    else if ltb n 40
    then outb pic1_cmd 0x20 ∷ []
    else if ltb n 48
    then outb pic2_cmd 0x20 ∷ outb pic1_cmd 0x20 ∷ []
    else []

acknowledge-ends :
    (s : Hal) (r : Registers) → ltb r.int_no 32 ≡ false → acknowledge s r ≡ ends s r.int_no
unfolding acknowledge pic_send_eoi
acknowledge-ends s r device = ground arith

handle_interrupt-reacts :
    (inb : ℕ → ℕ) (s : Hal) (r : Registers)
    → ltb r.int_no 32 ≡ false
    → handle_interrupt inb s r (booted r.int_no) ≡ returned (reacts inb s r.int_no) []
unfolding handle_interrupt call_handler
handle_interrupt-reacts inb s r device = elim (Bool-cases (r.int_no == 32)) [
  | inl clock ↦ rw (device, clock) refl
  | inr other ↦ elim (Bool-cases (r.int_no == 33)) [
    | inl keyboard ↦ rw (device, other, keyboard) (ground (arith, bit_and_ones 1 (inb 0x64)))
    | inr neither ↦ rw (device, other, neither) (rw device refl)
  ]
]

-- On a state in which `init` filled the tables, each interrupt is dispatched: an exception is reported
-- and halts the processor without an end of interrupt; any other returns, with the change and the end
-- of interrupt that are its own, and no other effect.
pub hal_interrupt_dispatcher_lem :
    (inb : ℕ → ℕ) (stubs : List ℕ) (s : Hal) (r : Registers)
    → IsBooted stubs s
    → r.int_no < 256
    → hal_interrupt_dispatcher inb s r ≡ (
        if ltb r.int_no 32
        then halted (report_exception r)
        else returned (reacts inb s r.int_no) (ends s r.int_no))
unfolding hal_interrupt_dispatcher handle_interrupt call_handler
hal_interrupt_dispatcher_lem inb stubs s r (size, table, gates) lt =
    let found : load s.interrupt_handlers r.int_no ≡ some (booted r.int_no) =
      load-eq_some s.interrupt_handlers r.int_no none (omega (arith, size, lt))
      ∙ ap some (table r.int_no) in
    let dispatched = ap (dispatch inb s r) found in
    elim (Bool-cases (ltb r.int_no 32)) [
      | inl exception ↦ dispatched ∙ rw exception refl
      | inr device ↦
          let same : ends (reacts inb s r.int_no) r.int_no ≡ ends s r.int_no = ground arith in
          dispatched
          ∙ ap (then_acknowledge r) (handle_interrupt-reacts inb s r device)
          ∙ rw (device, acknowledge-ends (reacts inb s r.int_no) r device, same) refl
    ]

-- `init` on empty tables does not fault, and fills both tables: the gate of each interrupt leads to its
-- stub, the exceptions have the default handler, 32 the clock's and 33 the keyboard's. Each interrupt is
-- then dispatched without a fault: an exception is reported and halts the processor without an end of
-- interrupt; any other returns, with the change and the end of interrupt that are its own, and no other
-- effect.
pub hal_interrupt_dispatcher-init :
    (stubs : List ℕ) (m : Machine) (s : Hal) (inb : ℕ → ℕ) (r : Registers)
    → length stubs ≡ 256
    → length s.idt ≡ 256
    → length s.interrupt_handlers ≡ 256
    → ((n : ℕ) → get_or stubs n 0 < 2 ^ 32)
    → ((n : ℕ) → handler_of s n ≡ none)
    → r.int_no < 256
    → (s' : Hal) × (effects : List Effect) × (init stubs m s ≡ some (s', effects))
      × IsBooted stubs s'
      × (hal_interrupt_dispatcher inb s' r ≡ (
          if ltb r.int_no 32
          then halted (report_exception r)
          else returned (reacts inb s' r.int_no) (ends s' r.int_no)))
hal_interrupt_dispatcher-init stubs m s inb r stubs_size idt_size size small empty lt =
    let (s', effects, run, booted_s) =
      init-IsBooted stubs m s stubs_size idt_size size small empty in
    (s', effects, run, booted_s, hal_interrupt_dispatcher_lem inb stubs s' r booted_s lt)
