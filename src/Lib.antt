-- ===== src/Lib.antt =====
-- XBTOS: a 32-bit kernel with a flat in-memory file system, a shell on a keyboard-driven line editor,
-- sandboxed applications, messages in two languages and a page allocator.
--
-- How the parts interact. `keyboard_handler` is called for each scancode: it edits the line and its
-- history and, on Enter, runs `execute_command` on the line. The commands call the file system, the
-- application manager and the messages, and print on the console device. The page allocator is set up at
-- boot and is not called by the shell. What the kernel prints is a trace of console calls, and the VGA
-- driver carries it out. The interrupts, the clock, the heap and the C library stand beside these.
--
-- Which file models what:
--   Prelude     lists, bits, faults and tests that the others share;
--   KString     kernel/include/string.h: strings are byte lists, `text` is the string before the NUL;
--   Console     kernel/hal/console.h: the calls of the console device, as a trace;
--   Vfs         kernel/fs/vfs.cpp and vfs.h: `FileSystem` and its methods under their names; Vfs/Store is
--               the abstract map that they implement;
--   Physmem     kernel/memory/physmem.cpp: `pm_init`, `pm_alloc_page`, `pm_free_page`;
--   Input       kernel/main.cpp: the statics of the line editor as the record `Input`, the handler and its
--               helpers under their names; Input/Editor is the abstract editor;
--   I18n        kernel/i18n/i18n.cpp: the message tables, `set_language_by_name`; `message` is `text`;
--   App         kernel/app/app.cpp and app.h: `AppManager` and its methods;
--   Decimal     the decimal numbers that main.cpp and vfs.cpp print;
--   Shell       kernel/main.cpp: `execute_command` and its helpers, the demo application; Shell/Meaning is what
--               the text of a line does to the abstract map of files;
--   Vga         kernel/hal/console.cpp: the VGA driver behind the console device, its functions under their
--               names; Vga/Screen is the abstract screen, and `render` carries out a trace;
--   Heap        kernel/memory/heap.cpp and stdlib.cpp: the list of blocks, `kmalloc` and `kfree`;
--   Libc        kernel/memory/libc.cpp: `printf`, `atoi` and the character tests;
--   Hal         kernel/hal/hal.cpp and hal.h: the dispatcher and its handlers; Hal/Devices has the
--               registration, the interrupt lines, the clock, the keyboard port and `init`;
--   Ascii       bytes below 0x80 on their way through the file table, the line editor and the commands to the
--               console, whose decoder of UTF-8 needs whole characters;
--   Boot        boot/uefi/bootx64.c: `efi_main`, which prints through the firmware;
--   System      the handler over the shell, one scancode after another; a `Desk` is the abstract editor with
--               the abstract map; System/Keyboard has the interrupt that reads the scancode of the
--               hardware layer;
--   Startup     kernel/main.cpp: `kernel_main`, over the page allocator, the heap, the shell and the console;
--               Startup/Session is `kernel_main` and then the handler, with all that is printed.
--
-- Conventions. Code that may touch memory outside its arrays, or whose signed arithmetic may
-- overflow, has a `Run`: `none` is that fault, so a result `some` is the absence of one. A null pointer that the code tests for is `none` of an Option. A
-- 32-bit operation that may wrap has its `% 2 ^ 32`. Loops are recursion on the list or on the rounds that
-- the code's own bound gives, so no fuel is chosen: 12 rounds for a decimal number are the size of the
-- code's buffer, and a number of 32 bits has at most 10 digits. `kmalloc` has fuel, for its
-- list can lead back to itself: one more than the blocks of the list is enough where it does not.
-- `msleep` takes the readings of the clock at its tests, or the interrupts that wake it.
--
-- Parameters. The result of the `cpuid` instruction, the hardware calls of `kernel_main` (`hal_init`,
-- `idt_set_gate`, `enable_interrupts`) on a state of their own, what `execute_command` does (for the handler alone),
-- what an application's entry point does (for the application manager alone), what the hardware
-- layer reads from ports, processor registers and the APIC, and the firmware's output of a text.
--
-- Not modelled: what only halts the processor (__cxa_pure_virtual, halt_cpu), the enumeration of the
-- exceptions, which nothing uses, the assembly stubs of the interrupts and of the boot, the declarations for
-- third-party applications, and the copy of kernel/hal in hal, which is not built.
pub mod Prelude
pub mod KString
pub mod Console
pub mod Vfs
pub mod Physmem
pub mod Vga
pub mod Heap
pub mod Libc
pub mod Hal
pub mod Input
pub mod I18n
pub mod App
pub mod Decimal
pub mod Shell
pub mod Ascii
pub mod Boot
pub mod System
pub mod Startup
