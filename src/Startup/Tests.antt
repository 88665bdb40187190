-- ===== src/Startup/Tests.antt =====
-- `kernel_main` on a machine that was just switched on.
use xbt_os_misaka.Console.{Trace}
use xbt_os_misaka.Heap.{heap_size, heap_start}
use xbt_os_misaka.Heap.Chain.{Chain}
use xbt_os_misaka.Ascii.{IsAscii, AreAscii}
use xbt_os_misaka.Ascii.Editing.{InputAscii}
use xbt_os_misaka.Ascii.Screen.{drawn_all}
use xbt_os_misaka.I18n.{zh_cn}
use xbt_os_misaka.Input.{Input, buffer_size, history_size}
use xbt_os_misaka.Input.Invariant
use xbt_os_misaka.Input.Invariant.{editor_of}
use xbt_os_misaka.Input.Lines.{IsLine}
use xbt_os_misaka.KString.{Bytes, text}
use xbt_os_misaka.Physmem.{page_size}
use xbt_os_misaka.Physmem.Bitmap
use xbt_os_misaka.Physmem.Bitmap.{AreWords, used}
use xbt_os_misaka.Prelude.{
  ℕ, zero, suc, ◌+◌, ◌*◌, ◌^◌, ◌/◌, ◌<◌, ◌≡◌, refl, true, false, [], ◌∷◌, some, if◌then◌else◌, ltb,
  arith, replicate, length-replicate, get_or, none, All-replicate, List,
}
use xbt_os_misaka.Shell.Commands
use xbt_os_misaka.Startup.{Cold, Hardware, Started, kernel_main, memory_size}
use xbt_os_misaka.Startup.Session.{session, session-Refines}
use xbt_os_misaka.Startup.Ready.{boot_text, kernel_main-Ready}
use xbt_os_misaka.Shell.{Kernel}
use xbt_os_misaka.System.{desk_of, press_keys}
use xbt_os_misaka.Vfs.{path_size}
use xbt_os_misaka.Vfs.Store
use xbt_os_misaka.Vga.{Vga, render, vga_width}
use xbt_os_misaka.Vga.Refine.{Holds, screen_of}
use xbt_os_misaka.Vga.Render.{ShowsAs}
use xbt_os_misaka.Vga.Screen

abbrev letter : ℕ
letter = 0x0741

abbrev dirt : ℕ
dirt = 0xDEAD

abbrev cold : Cold
cold = record {
  words = replicate 1024 dirt;
  heap = record { header = λ p. record { size = 0; is_free = false; next = 0 }; free_list = 0 };
  kernel = record {
    vfs = record { files = []; file_count = 0; current_path = replicate path_size 0 };
    language = zh_cn;
    manager = record { apps = []; app_count = 0 };
  };
}

abbrev console : Vga
console = record { cells = replicate 2000 letter; cursor_x = 3; cursor_y = 7; color = 0x0F }

abbrev letters : ℕ → ℕ → ℕ
letters r q = letter

get_or-letters : (k n : ℕ) → n < k → get_or (replicate k letter) n 0 ≡ letter
unfolding replicate
get_or-letters zero n lt = absurd (omega arith)
get_or-letters (suc k) zero lt = refl
get_or-letters (suc k) (suc n) lt = get_or-letters k n (omega arith)

console-Holds : Holds console letters
console-Holds = record {
  size = length-replicate 2000 letter;
  grid = λ r q r_lt q_lt. get_or-letters 2000 (r * vga_width + q) (omega (arith, r_lt, q_lt));
}

dirty_words : (k : ℕ) → AreWords (replicate k dirt)
dirty_words k = All-replicate (λ w. w < 2 ^ 32) k dirt (omega arith)

-- The hardware as the calls that it got.
data Call : Type 0 where
  initialised enabled : Call
  gate : ℕ → ℕ → ℕ → ℕ → Call

abbrev recorder : Hardware (List Call)
recorder = record {
  hal_init = λ calls. initialised ∷ calls;
  idt_set_gate = λ vector handler selector flags calls. gate vector handler selector flags ∷ calls;
  enable_interrupts = λ calls. enabled ∷ calls;
  keyboard_handler_asm = 0x10_1000;
}

kernel_main-Ready_example :
    (started : Started) × (calls : List Call) × (t : Trace) × (kernel_main recorder cold []
      ≡ some (started, calls, t))
    × Bitmap.IsValid started.pages
    × ((g : ℕ) → g < memory_size / page_size → used started.pages g ≡ (if ltb g 256 then 1 else 0))
    × (started.heap.free_list ≡ heap_start)
    × (started.heap.header heap_start ≡ record { size = heap_size; is_free = true; next = 0 })
    × Chain started.heap.header heap_start started.heap.free_list (heap_start ∷ [])
    × (calls ≡ enabled ∷ gate 0x21 0x10_1000 0x08 0x8E ∷ initialised ∷ [])
    × Commands.IsValid started.kernel
    × ShowsAs (render console t) (
        Screen.put_all
          (Screen.cleared (screen_of console letters))
          (boot_text started.kernel.language))
kernel_main-Ready_example =
    kernel_main-Ready recorder cold [] console letters (dirty_words 1024)
      (omega (arith, length-replicate 1024 dirt)) (length-replicate path_size 0) console-Holds
      (record { column = omega arith; line = omega arith })

abbrev empty_line : Bytes
empty_line = replicate buffer_size 0

abbrev blank : Input
blank = record {
  input_buffer = empty_line;
  buffer_index = 0;
  shift_pressed = false;
  extended_key = false;
  history = replicate history_size empty_line;
  history_count = 0;
  history_index = none;
}

empty_line-IsLine : IsLine empty_line
unfolding text replicate
empty_line-IsLine = omega arith

blank-IsValid : Invariant.IsValid blank
unfolding text replicate
blank-IsValid = record {
  width = refl;
  typed = refl;
  room = omega arith;
  slots = refl;
  filled = All-replicate IsLine history_size empty_line empty_line-IsLine;
  counted = omega arith;
  placed = tt;
}

empty_line-AreAscii : AreAscii empty_line
empty_line-AreAscii = All-replicate IsAscii buffer_size 0 (omega arith)

blank-InputAscii : InputAscii blank
blank-InputAscii =
    (empty_line-AreAscii, All-replicate AreAscii history_size empty_line empty_line-AreAscii)

abbrev no_cpu : ℕ → ℕ × ℕ × ℕ × ℕ
no_cpu _ = (0, 0, 0, 0)

-- `lst`, Enter, and the arrow up.
abbrev typed_keys : List ℕ
typed_keys = 0x26 ∷ 0x1F ∷ 0x14 ∷ 0x1C ∷ 0xE0 ∷ 0x48 ∷ []

session-Refines_example :
    (s' : Input) × (k' : Kernel) × (t : Trace) × (session no_cpu recorder [] cold blank typed_keys
      ≡ some (s', k', t))
    × Invariant.IsValid s'
    × Commands.IsValid k'
    × (desk_of s' k'
        ≡ press_keys (record { editor = editor_of blank; files = Store.empty }) typed_keys)
    × ShowsAs (render console t) (drawn_all (screen_of console letters) t)
session-Refines_example =
    session-Refines no_cpu recorder [] typed_keys cold blank console letters (dirty_words 1024)
      (omega (arith, length-replicate 1024 dirt)) (length-replicate path_size 0) blank-IsValid
      blank-InputAscii console-Holds (record { column = omega arith; line = omega arith })
