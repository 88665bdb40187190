-- ===== src/Hal.antt =====
-- kernel/hal/hal.h and kernel/hal/hal.cpp: interrupts and the two interrupt controllers.
-- What a function does to the machine is a list of effects, in order. What it reads from a port, from a
-- register of the processor or from the APIC is an argument. `console_write` and its kin are called but
-- not defined in the repository: a call of one is an effect.
pub mod Devices
pub mod Tables
pub mod Interrupt
pub mod Irq
pub mod Timer
pub mod Sleep
mod Tests
use xbt_os_misaka.Console.{bytes}
use xbt_os_misaka.KString.{Bytes}
use xbt_os_misaka.Prelude.{
  ℕ, zero, suc, ◌+◌, ◌-◌, ◌*◌, ◌/◌, ◌%◌, ◌^◌, ◌==◌, ◌&&◌, ltb, leb, if◌then◌else◌, Bool, true,
  false, Option, none, some, List, [], ◌∷◌, ◌++◌, Run, ◌>>=◌, load, store, bit_and, bit_or, mask,
  complement,
}

-- `struct Registers`
pub record Registers : Type 0 where
  pub gs : ℕ
  pub fs : ℕ
  pub es : ℕ
  pub ds : ℕ
  pub edi : ℕ
  pub esi : ℕ
  pub ebp : ℕ
  pub esp : ℕ
  pub ebx : ℕ
  pub edx : ℕ
  pub ecx : ℕ
  pub eax : ℕ
  pub int_no : ℕ
  pub err_code : ℕ
  pub eip : ℕ
  pub cs : ℕ
  pub eflags : ℕ
  pub useresp : ℕ
  pub ss : ℕ

pub data Effect : Type 0 where
  outb apic_write : ℕ → ℕ → Effect
  write_msr : ℕ → ℕ → ℕ → Effect
  load_idt sti cli : Effect
  console_init : Effect
  console_write : Bytes → Effect
  console_write_dec console_write_hex : ℕ → Effect

-- The functions that the program registers.
pub data Handler : Type 0 where
  pit_handler keyboard_handler default_exception_handler : Handler

pub record IdtEntry : Type 0 where
  pub offset_low : ℕ
  pub selector : ℕ
  pub always_zero : ℕ
  pub type_attr : ℕ
  pub offset_high : ℕ

pub record Hal : Type 0 where
  pub idt : List IdtEntry
  pub interrupt_handlers : List (Option Handler)
  pub apic_enabled : Bool
  pub system_ticks : ℕ
  pub last_scancode : ℕ
  pub keyboard_ready : Bool

abbrev pub pic1_cmd : ℕ
pic1_cmd = 0x20

abbrev pub pic1_data : ℕ
pic1_data = 0x21

abbrev pub pic2_cmd : ℕ
pic2_cmd = 0xA0

abbrev pub pic2_data : ℕ
pic2_data = 0xA1

abbrev pub pic_eoi : ℕ
pic_eoi = 0x20

unfoldable pub idt_set_gate : List IdtEntry → ℕ → ℕ → ℕ → ℕ → Run (List IdtEntry)
idt_set_gate idt vector handler_addr selector flags = store idt vector (record {
  offset_low = bit_and handler_addr 0xFFFF;
  selector = selector;
  always_zero = 0;
  type_attr = flags;
  offset_high = bit_and (handler_addr / 2 ^ 16) 0xFFFF;
})

unfoldable pub pic_init : List Effect
pic_init =
    outb pic1_cmd 0x11
    ∷ outb pic2_cmd 0x11
    ∷ outb pic1_data 0x20
    ∷ outb pic2_data 0x28
    ∷ outb pic1_data 0x04
    ∷ outb pic2_data 0x02
    ∷ outb pic1_data 0x01
    ∷ outb pic2_data 0x01
    ∷ outb pic1_data 0xFF
    ∷ outb pic2_data 0xFF
    ∷ []

unfoldable pub pic_send_eoi : ℕ → List Effect
pic_send_eoi irq =
    if leb 8 irq
    then outb pic2_cmd pic_eoi ∷ outb pic1_cmd pic_eoi ∷ []
    else outb pic1_cmd pic_eoi ∷ []

-- `features` is `edx` after `cpuid` of 1, `low` and `high` the register 0x1B, and `spurious` the register
-- 0x0F0 of the APIC.
unfoldable pub apic_init_internal : ℕ → ℕ → ℕ → ℕ → Hal → Hal × List Effect
apic_init_internal features low high spurious s =
    if bit_and features (mask 9) == 0 then (record s { apic_enabled = false }, []) else (
      record s { apic_enabled = true },
      write_msr 0x1B (bit_or low (mask 11)) high
          ∷ apic_write 0x0F0 (bit_or (bit_or spurious 0x100) 0xFF)
          ∷ apic_write 0x320 (bit_or 0x20 0x20000)
          ∷ [],
    )

abbrev show : Bytes → ℕ → List Effect
show text n = console_write text ∷ console_write_hex n ∷ []

unfoldable pub dump_registers : Registers → List Effect
dump_registers r =
    show (bytes "EAX: ") r.eax
    ++ show (bytes "  EBX: ") r.ebx
    ++ show (bytes "  ECX: ") r.ecx
    ++ show (bytes "  EDX: ") r.edx
    ++ console_write (bytes "\n") ∷ show (bytes "ESI: ") r.esi
    ++ show (bytes "  EDI: ") r.edi
    ++ show (bytes "  EBP: ") r.ebp
    ++ show (bytes "  ESP: ") r.esp
    ++ console_write (bytes "\n") ∷ []

abbrev pub disable_interrupts : List Effect
disable_interrupts = cli ∷ []

-- What the default handler does before it halts the processor for good.
unfoldable pub report_exception : Registers → List Effect
unfolding dump_registers
report_exception r =
    console_write (bytes "*** CPU EXCEPTION ***\n")
      ∷ console_write (bytes "Vector: ")
      ∷ console_write_dec r.int_no
      ∷ show (bytes "  Error code: 0x") r.err_code
    ++ show (bytes "\nEIP: 0x") r.eip
    ++ show (bytes "  CS: 0x") r.cs
    ++ show (bytes "  EFLAGS: 0x") r.eflags
    ++ console_write (bytes "\n") ∷ dump_registers r
    ++ disable_interrupts

-- How a call ends: it returns, or it halts the processor in a loop that has no end, or it reads behind
-- the table of handlers.
pub data Outcome : Type 0 where
  returned : Hal → List Effect → Outcome
  halted : List Effect → Outcome
  fault : Outcome

-- A handler, with what it would read from the ports.
unfoldable pub call_handler : (ℕ → ℕ) → Hal → Registers → Handler → Outcome
call_handler inb s r pit_handler =
    returned (record s { system_ticks = (s.system_ticks + 1) % 2 ^ 64 }) []
call_handler inb s r keyboard_handler =
    if bit_and (inb 0x64) 0x01 == 0
    then returned s []
    else returned (record s { last_scancode = inb 0x60; keyboard_ready = true }) []
call_handler inb s r default_exception_handler = halted (report_exception r)

-- The first part of the dispatcher, with the entry of the table.
unfoldable pub handle_interrupt : (ℕ → ℕ) → Hal → Registers → Option Handler → Outcome
unfolding call_handler
handle_interrupt inb s r (some h) = call_handler inb s r h
handle_interrupt inb s r none =
    if ltb r.int_no 32 then call_handler inb s r default_exception_handler else returned s []

unfoldable pub acknowledge : Hal → Registers → List Effect
unfolding pic_send_eoi
acknowledge s r =
    if s.apic_enabled
    then apic_write 0x0B0 0 ∷ []
    else if leb 32 r.int_no && leb r.int_no 47
    then pic_send_eoi (r.int_no - 32)
    else []

abbrev pub then_acknowledge : Registers → Outcome → Outcome
then_acknowledge r (returned s t) = returned s (t ++ acknowledge s r)
then_acknowledge r other = other

-- The dispatcher, with what the read of the table comes to.
abbrev pub dispatch : (ℕ → ℕ) → Hal → Registers → Run (Option Handler) → Outcome
dispatch inb s r none = fault
dispatch inb s r (some h) = then_acknowledge r (handle_interrupt inb s r h)

unfoldable pub hal_interrupt_dispatcher : (ℕ → ℕ) → Hal → Registers → Outcome
unfolding handle_interrupt acknowledge
hal_interrupt_dispatcher inb s r = dispatch inb s r (load s.interrupt_handlers r.int_no)
