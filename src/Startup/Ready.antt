-- ===== src/Startup/Ready.antt =====
-- What `kernel_main` sets up, and what the screen shows then.
use mathlib.Core.Path.{subst}
use xbt_os_misaka.Console.{Trace, bytes}
use xbt_os_misaka.Heap.{heap_init, heap_size, heap_start}
use xbt_os_misaka.Heap.Chain.{Chain}
use xbt_os_misaka.I18n.{Language, msg_prompt, welcome}
use xbt_os_misaka.KString.{Bytes, text}
use xbt_os_misaka.Physmem.{page_size}
use xbt_os_misaka.Physmem.Bitmap
use xbt_os_misaka.Physmem.Bitmap.{used, AreWords}
use xbt_os_misaka.Physmem.Boot.{pm_init-marks}
use xbt_os_misaka.Prelude.{
  ℕ, ◌/◌, ◌≡◌, ◌≤◌, ◌<◌, ◌∙◌, ap, refl, sym, All, List, [], ◌∷◌, ◌++◌, some, length, arith,
  if◌then◌else◌, ltb, true,
}
use xbt_os_misaka.Shell.{Kernel}
use xbt_os_misaka.Shell.Commands
use xbt_os_misaka.Shell.Commands.{boot-IsValid}
use xbt_os_misaka.Startup.{Cold, Hardware, Started, banner, kernel_main, memory_size}
use xbt_os_misaka.Startup.Messages.{codes, literal, message-encode}
use xbt_os_misaka.Vfs.{init_output, path_size}
use xbt_os_misaka.Vga.{Vga, render}
use xbt_os_misaka.Vga.Refine.{Holds, OnScreen, screen_of}
use xbt_os_misaka.Vga.Render.{
  Call, IsCall, ShowsAs, plain, render-ShowsAs, scalars, shown_all, trace_of, wipe,
}
use xbt_os_misaka.Vga.Screen
use xbt_os_misaka.Vga.Screen.{Screen}
use xbt_os_misaka.Vga.Utf8.{glyphs}

-- What `kernel_main` asks of the console.
abbrev calls : Language → List Call
calls language =
    plain (bytes "VFS Initialized.\n")
    ∷ wipe
    ∷ plain (bytes "128/128MB --- MEM  OK\n")
    ∷ plain (bytes "i386-X86  --- Heap OK\n")
    ∷ plain (bytes "HAL       --- Ready\n")
    ∷ plain (bytes "VFS       --- Ready\n")
    ∷ scalars (codes (literal language welcome))
    ∷ scalars (codes (literal language msg_prompt))
    ∷ []

-- What is then on the screen, on a blank one.
abbrev pub boot_text : Language → Bytes
boot_text language =
    bytes "128/128MB --- MEM  OK\ni386-X86  --- Heap OK\nHAL       --- Ready\nVFS       --- Ready\n"
    ++ glyphs (codes (literal language welcome))
    ++ glyphs (codes (literal language msg_prompt))

color-place : (s : Screen) (c : ℕ) → (Screen.place s c).color ≡ s.color
color-place s c = ground arith

color-wrap : (s : Screen) → (Screen.wrap s).color ≡ s.color
color-wrap s = ground arith

color-scroll : (s : Screen) → (Screen.scroll s).color ≡ s.color
color-scroll s = ground arith

color-put : (s : Screen) (c : ℕ) → (Screen.put s c).color ≡ s.color
unfolding Screen.put
color-put s c =
    color-scroll (Screen.wrap (Screen.place s c)) ∙ color-wrap (Screen.place s c) ∙ color-place s c

color-put_all : (s : Screen) (t : Bytes) → (Screen.put_all s t).color ≡ s.color
unfolding Screen.put_all
color-put_all s [] = refl
color-put_all s (c ∷ t) = color-put_all (Screen.put s c) t ∙ color-put s c

put_all-append :
    (s : Screen) (t t' : Bytes)
    → Screen.put_all s (t ++ t') ≡ Screen.put_all (Screen.put_all s t) t'
unfolding Screen.put_all
put_all-append s [] t' = refl
put_all-append s (c ∷ t) t' = put_all-append (Screen.put s c) t t'

cleared-put_all : (s : Screen) (t : Bytes) → Screen.cleared (Screen.put_all s t) ≡ Screen.cleared s
cleared-put_all s t =
    let same : (Screen.put_all s t).color ≡ s.color = color-put_all s t in rw same refl

shown_all-calls :
    (language : Language) (s : Screen)
    → shown_all s (calls language) ≡ Screen.put_all (Screen.cleared s) (boot_text language)
unfolding text bytes Screen.put_all
shown_all-calls language s =
    let blank = Screen.cleared s in
    let lines =
      bytes
        "128/128MB --- MEM  OK\ni386-X86  --- Heap OK\nHAL       --- Ready\nVFS       --- Ready\n" in
    let hello = glyphs (codes (literal language welcome)) in
    let prompt = glyphs (codes (literal language msg_prompt)) in
    let wiped = cleared-put_all s (bytes "VFS Initialized.\n") in
    ap (λ (w : Screen). Screen.put_all (Screen.put_all (Screen.put_all w lines) hello) prompt) wiped
    ∙ sym (
        put_all-append blank lines (hello ++ prompt)
        ∙ put_all-append (Screen.put_all blank lines) hello prompt)

-- The trace of `kernel_main` is these calls.
banner-calls : (k : Kernel) → init_output ++ banner k ≡ trace_of (calls k.language)
banner-calls k =
    rw ((message-encode k.language welcome).0, (message-encode k.language msg_prompt).0) refl

calls-AllCalls : (language : Language) → All IsCall (calls language)
calls-AllCalls language = (
  tt,
  (
    tt,
    (
      tt,
      (
        tt,
        (
          tt,
          (tt, ((message-encode language welcome).1, ((message-encode language msg_prompt).1, tt))),
        ),
      ),
    ),
  ),
)

-- The console carries the trace out.
banner-ShowsAs :
    (k : Kernel) {v : Vga} {at : ℕ → ℕ → ℕ}
    → Holds v at
    → OnScreen (screen_of v at)
    → ShowsAs
        (render v (init_output ++ banner k))
        (Screen.put_all (Screen.cleared (screen_of v at)) (boot_text k.language))
banner-ShowsAs k {v} {at} h on =
    let screen = screen_of v at in
    subst
      (λ t. ShowsAs (render v t) (Screen.put_all (Screen.cleared screen) (boot_text k.language)))
      (sym (banner-calls k))
      (subst (λ s. ShowsAs (render v (trace_of (calls k.language))) s)
        (shown_all-calls k.language screen)
        (render-ShowsAs (calls k.language) (calls-AllCalls k.language) h on))

-- `kernel_main` does not fault, whatever the statics held before. It leaves a bitmap of the whole memory
-- in which the first megabyte and no other page is marked, a list of the heap with one block, which is
-- free, has the size of the whole heap and begins where the heap does, a file table and an application
-- table that are valid, and, on any valid console, a screen with the lines of the boot, the welcome and
-- the prompt, and nothing else. The hardware is initialised, then gets the gate of the keyboard, and
-- then its interrupts. The pages of the heap are not marked. The hardware's calls are parameters.
pub kernel_main-Ready :
    {W : Type 0} (hal : Hardware W) (s : Cold) (w : W) (v : Vga) (at : ℕ → ℕ → ℕ)
    → AreWords s.words
    → 1024 ≤ length s.words
    → length s.kernel.vfs.current_path ≡ path_size
    → Holds v at
    → OnScreen (screen_of v at)
    → (started : Started) × (w' : W) × (t : Trace) × (kernel_main hal s w ≡ some (started, w', t))
      × Bitmap.IsValid started.pages
      × ((g : ℕ)
          → g < memory_size / page_size
          → used started.pages g ≡ (if ltb g 256 then 1 else 0))
      × (started.heap.free_list ≡ heap_start)
      × (started.heap.header heap_start ≡ record { size = heap_size; is_free = true; next = 0 })
      × Chain started.heap.header heap_start started.heap.free_list (heap_start ∷ [])
      × (w'
          ≡ hal.enable_interrupts
              (hal.idt_set_gate 0x21 hal.keyboard_handler_asm 0x08 0x8E (hal.hal_init w)))
      × Commands.IsValid started.kernel
      × ShowsAs
          (render v t)
          (Screen.put_all (Screen.cleared (screen_of v at)) (boot_text started.kernel.language))
unfolding kernel_main heap_init
kernel_main-Ready hal s w v at are enough size h on =
    let (pages, paged, pages_valid, n, marks) =
      pm_init-marks memory_size s.words (omega arith) are (omega (arith, enough))
        (omega (arith, enough)) in
    let (k, booted, valid) = boot-IsValid s.kernel size in
    (
      record { pages = pages; heap = heap_init s.heap; kernel = k },
      hal.enable_interrupts
          (hal.idt_set_gate 0x21 hal.keyboard_handler_asm 0x08 0x8E (hal.hal_init w)),
      init_output ++ banner k,
      rw (paged, booted) refl,
      pages_valid,
      λ g g_lt. marks g (omega (arith, g_lt)),
      refl,
      refl,
      (refl, omega arith, omega arith, omega arith, refl),
      refl,
      valid,
      banner-ShowsAs k h on,
    )
