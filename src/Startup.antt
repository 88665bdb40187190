-- ===== src/Startup.antt =====
-- kernel/main.cpp, `kernel_main`: the kernel from power on until it waits for the first interrupt.
-- `hal::hal_init` and `hal::idt_set_gate`, which the repository calls but does not define,
-- `hal::enable_interrupts`, which it defines as an instruction, and the assembler's
-- `keyboard_handler_asm` are parameters: they return, and act on a state of the hardware of their own.
pub mod Messages
pub mod Session
pub mod Ready
mod Tests
use xbt_os_misaka.Console.{Trace, clear_screen, print}
use xbt_os_misaka.Heap.{Heap, heap_init}
use xbt_os_misaka.I18n.{welcome}
use xbt_os_misaka.Physmem.{Physmem, pm_init}
use xbt_os_misaka.Prelude.{ℕ, ◌*◌, List, ◌∷◌, ◌++◌, Run, ◌>>=◌, some}
use xbt_os_misaka.Shell.{Kernel, boot, prompt, say}
use xbt_os_misaka.Vfs.{init_output}

-- What the statics and the memory behind the bitmap hold at first.
pub record Cold : Type 0 where
  pub words : List ℕ
  pub heap : Heap
  pub kernel : Kernel

pub record Started : Type 0 where
  pub pages : Physmem
  pub heap : Heap
  pub kernel : Kernel

-- The hardware calls of `kernel_main` on a state of the hardware. `idt_set_gate` takes the vector, the
-- address of the handler, the selector and the flags.
pub record Hardware (W : Type 0) : Type 0 where
  pub hal_init : W → W
  pub idt_set_gate : ℕ → ℕ → ℕ → ℕ → W → W
  pub enable_interrupts : W → W
  pub keyboard_handler_asm : ℕ

abbrev pub memory_size : ℕ
memory_size = 128 * 1024 * 1024

-- What is printed once everything is set up.
abbrev pub banner : Kernel → Trace
banner k =
    clear_screen
    ++ print "128/128MB --- MEM  OK\n"
    ++ print "i386-X86  --- Heap OK\n"
    ++ print "HAL       --- Ready\n"
    ++ print "VFS       --- Ready\n"
    ++ say k.language welcome
    ++ prompt k

-- `boot` is `vfs.init`, `app::manager().init` and `register_builtin_apps`.
unfoldable pub kernel_main : {W : Type 0} → Hardware W → Cold → W → Run (Started × W × Trace)
unfolding boot
kernel_main hal s w = do
  pages ← pm_init memory_size s.words
  let heap = heap_init s.heap
  let w₁ = hal.hal_init w
  let w₂ = hal.idt_set_gate 0x21 hal.keyboard_handler_asm 0x08 0x8E w₁
  kernel ← boot s.kernel
  let w₃ = hal.enable_interrupts w₂
  some (record { pages = pages; heap = heap; kernel = kernel }, w₃, init_output ++ banner kernel)
