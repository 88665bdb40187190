-- ===== src/Hal/Tests.antt =====
-- The controllers, the clock and the dispatcher at concrete states.
use xbt_os_misaka.Hal.{Effect, Hal, Registers, hal_interrupt_dispatcher, returned}
use xbt_os_misaka.Hal.Devices.{Machine, init, msleep, irq_disable, irq_enable, msleep_loop}
use xbt_os_misaka.Hal.Interrupt.{IsBooted, blank, hal_interrupt_dispatcher-init, reacts, ends}
use xbt_os_misaka.Hal.Irq.{Acts, irq_enable-irq_disable}
use xbt_os_misaka.Hal.Timer.{IsFirst, msleep_loop_lem}
use xbt_os_misaka.Hal.Sleep.{clocks, msleep_lem}
use xbt_os_misaka.Prelude.{
  ◌%◌, ◌+◌, ◌-◌, ℕ, ◌≡◌, ◌≤◌, ◌<◌, ◌==◌, refl, get_or, zero, suc, ◌^◌, if◌then◌else◌, none, some,
  List, [], ◌∷◌, false, replicate, length-replicate, get_or-replicate, arith,
}

-- The state at power on.
abbrev cold : Hal
cold = record {
  idt = replicate 256 blank;
  interrupt_handlers = replicate 256 none;
  apic_enabled = false;
  system_ticks = 0;
  last_scancode = 0;
  keyboard_ready = false;
}

abbrev stubs : List ℕ
stubs = replicate 256 0x0010_2030

small_stubs : (k n : ℕ) → get_or (replicate k 0x0010_2030) n 0 < 2 ^ 32
unfolding replicate
small_stubs zero n = omega arith
small_stubs (suc k) zero = omega arith
small_stubs (suc k) (suc n) = small_stubs k n

-- A processor without an APIC, and controllers that mask every line.
abbrev machine : Machine
machine = record {
  features = 0x1FF;
  msr_low = 0;
  msr_high = 0;
  spurious = 0;
  old_cascade = 0xFF;
  old_timer = 0xFB;
  old_keyboard = 0xFA;
}

abbrev interrupt : ℕ → Registers
interrupt n = record {
  gs = 0;
  fs = 0;
  es = 0;
  ds = 0;
  edi = 0;
  esi = 0;
  ebp = 0;
  esp = 0;
  ebx = 0;
  edx = 0;
  ecx = 0;
  eax = 0;
  int_no = n;
  err_code = 0;
  eip = 0x1000;
  cs = 8;
  eflags = 0x202;
  useresp = 0;
  ss = 0x10;
}

-- The status port says that a byte is there, and the data port holds it.
abbrev ports : ℕ → ℕ
ports port = if port == 0x64 then 0x1D else 0x1E

-- A byte of the keyboard on the machine that was just started.
hal_interrupt_dispatcher-init_example :
    (s' : Hal) × (effects : List Effect) × (init stubs machine cold ≡ some (s', effects))
    × IsBooted stubs s'
    × (hal_interrupt_dispatcher ports s' (interrupt 33)
        ≡ returned (reacts ports s' 33) (ends s' 33))
hal_interrupt_dispatcher-init_example =
    hal_interrupt_dispatcher-init stubs machine cold ports (interrupt 33)
      (length-replicate 256 0x0010_2030) (length-replicate 256 blank) (length-replicate 256 none)
      (small_stubs 256) (λ n. get_or-replicate 256 n none) (omega arith)

irq_enable-irq_disable_example :
    Acts cold.apic_enabled (irq_enable cold 12 0xB8) 12 0xB8 0
    × Acts cold.apic_enabled (irq_disable cold 12 0xB8) 12 0xB8 1
irq_enable-irq_disable_example = irq_enable-irq_disable cold 12 0xB8 (omega arith) (omega arith)

abbrev readings : List ℕ
readings = 100 ∷ 100 ∷ 104 ∷ 109 ∷ 111 ∷ 120 ∷ []

msleep_loop_lem_example :
    (n : ℕ) × (msleep_loop 100 10 readings ≡ some n) × (n ≤ 5) × IsFirst 100 10 readings n
msleep_loop_lem_example =
    msleep_loop_lem readings 100 10 100 5 (omega arith) (omega arith) (omega arith) (omega arith)

msleep_10 : msleep_loop 100 10 readings ≡ some 4
unfolding msleep_loop
msleep_10 = refl

started_run :
    (s' : Hal) × (effects : List Effect) × (init stubs machine cold ≡ some (s', effects))
    × IsBooted stubs s'
    × (hal_interrupt_dispatcher ports s' (interrupt 33)
        ≡ returned (reacts ports s' 33) (ends s' 33))
started_run =
    hal_interrupt_dispatcher-init stubs machine cold ports (interrupt 33)
      (length-replicate 256 0x0010_2030) (length-replicate 256 blank) (length-replicate 256 none)
      (small_stubs 256) (λ n. get_or-replicate 256 n none) (omega arith)

-- The machine after `init`, one tick before the count of the ticks wraps around.
late : Hal
late = record started_run.0 { system_ticks = 2 ^ 64 - 1 }

late-IsBooted : IsBooted stubs late
unfolding late
late-IsBooted = started_run.3

late-ticks : late.system_ticks ≡ 2 ^ 64 - 1
unfolding late
late-ticks = refl

-- The clock, the keyboard, and the clock twice.
abbrev wakings : List Registers
wakings = interrupt 32 ∷ interrupt 33 ∷ interrupt 32 ∷ interrupt 32 ∷ []

msleep_lem_example :
    (2 ≤ clocks wakings
      → (s' : Hal) × (msleep ports 2 late wakings ≡ some s')
        × (s'.system_ticks ≡ (late.system_ticks + 2) % 2 ^ 64)
        × IsBooted stubs s')
    × (clocks wakings < 2 → msleep ports 2 late wakings ≡ none)
msleep_lem_example =
    msleep_lem ports stubs 2 late wakings late-IsBooted (omega arith) (omega (arith, late-ticks))
      (omega arith)
