-- ===== src/Startup/Session.antt =====
-- The kernel from power on under its keyboard, with all that it prints on the console.
use mathlib.Core.Path.{subst}
use xbt_os_misaka.Ascii.Files.{FilesAscii, init-FilesAscii}
use xbt_os_misaka.Ascii.Editing.{InputAscii}
use xbt_os_misaka.Ascii.Keys.{keyboard_handler-Says, printed, printed-append}
use xbt_os_misaka.Ascii.Screen.{drawn_all, render-drawn}
use xbt_os_misaka.Ascii.Showable.{IsShowable, Showable, say-Showable}
use xbt_os_misaka.Ascii.Shell.{execute_command-Says}
use xbt_os_misaka.Console.{Trace}
use xbt_os_misaka.I18n.{msg_prompt, welcome}
use xbt_os_misaka.Input.{Input, keyboard_handler}
use xbt_os_misaka.Input.Invariant
use xbt_os_misaka.Input.Invariant.{editor_of}
use xbt_os_misaka.Physmem.{pm_init}
use xbt_os_misaka.Physmem.Bitmap.{AreWords}
use xbt_os_misaka.Prelude.{
  ℕ, ◌≡◌, ◌≤◌, refl, sym, All-append, ◌∙◌, ap, List, [], ◌∷◌, ◌++◌, some, Run, ◌>>=◌, Whenever,
  Whenever-bind, Whenever-then, Whenever-some, length,
}
use xbt_os_misaka.Shell.{Kernel, boot, execute_command, prompt, register_builtin_apps}
use xbt_os_misaka.Shell.Commands
use xbt_os_misaka.Startup.{Cold, Hardware, banner, kernel_main, memory_size}
use xbt_os_misaka.Startup.Ready.{kernel_main-Ready}
use xbt_os_misaka.System.{desk_eq, desk_of, press_keys, run_keys, run_keys-IsSafe}
use xbt_os_misaka.Vfs.{init_output, path_size}
use xbt_os_misaka.Vfs.Refine.{store_of}
use xbt_os_misaka.Vfs.Refine.Reads.{init-empty}
use xbt_os_misaka.Vfs.Store
use xbt_os_misaka.Vga.{Vga, render}
use xbt_os_misaka.Vga.Render.{ShowsAs}
use xbt_os_misaka.Vga.Refine.{Holds, OnScreen, screen_of}

-- The file table right after the boot.
abbrev NoFiles : Kernel → Type 0
NoFiles k = FilesAscii k.vfs × (store_of k.vfs ≡ Store.empty)

boot-NoFiles : (k : Kernel) → Whenever NoFiles (boot k)
unfolding boot
boot-NoFiles k =
    Whenever-then NoFiles (register_builtin_apps _) _
      (λ m. (init-FilesAscii k.vfs, init-empty k.vfs))

banner-Showable : (k : Kernel) → Showable (init_output ++ banner k)
banner-Showable k =
    let says = λ (id : _). (say-Showable k.language id).0 in
    (tt, (tt, (tt, (tt, (tt, (tt, (says welcome, (says msg_prompt, tt))))))))

kernel_main-Says :
    {W : Type 0} (hal : Hardware W) (s : Cold) (w : W)
    → Whenever (λ r. NoFiles (r.0).kernel × Showable (r.2)) (kernel_main hal s w)
unfolding kernel_main
kernel_main-Says hal s w = Whenever-then _ (pm_init memory_size s.words) _ (λ pages.
    Whenever-bind NoFiles _ (boot s.kernel) _ (boot-NoFiles s.kernel)
      (λ k files. (files, banner-Showable k)))

module _ (cpuid : ℕ → ℕ × ℕ × ℕ × ℕ) where
  run_keys-Says :
      (scancodes : List ℕ) (s : Input) (k : Kernel)
      → InputAscii s
      → FilesAscii k.vfs
      → Whenever (λ r. Showable (printed (r.2))) (run_keys cpuid s k scancodes)
  unfolding run_keys
  run_keys-Says [] s k all files = tt
  run_keys-Says (scancode ∷ scancodes) s k all files =
      Whenever-bind (λ r. InputAscii (r.0) × FilesAscii (r.1).vfs × Showable (printed (r.2))) _
        (keyboard_handler (execute_command cpuid) prompt s k scancode) _
        (keyboard_handler-Says (execute_command cpuid) prompt (λ w. FilesAscii w.vfs)
          (execute_command-Says cpuid) (λ w. say-Showable w.language msg_prompt) s k scancode all
          files)
        (λ (s₁, k₁, effects) (all₁, files₁, shows).
          Whenever-bind (λ r. Showable (printed (r.2))) _ (run_keys cpuid s₁ k₁ scancodes) _
            (run_keys-Says scancodes s₁ k₁ all₁ files₁)
            (λ (s₂, k₂, rest) later.
              subst Showable (sym (printed-append effects rest))
                (All-append IsShowable (printed effects) (printed rest) shows later)))

  -- `kernel_main`, and then one call of the keyboard handler for each scancode.
  unfoldable pub session :
      {W : Type 0} → Hardware W → W → Cold → Input → List ℕ → Run (Input × Kernel × Trace)
  session hal w cold s scancodes = do
    (started, w', t) ← kernel_main hal cold w
    (s', k', effects) ← run_keys cpuid s started.kernel scancodes
    some (s', k', t ++ printed effects)

  -- From power on, with a line editor that is valid and holds bytes below 0x80 only, on a console that shows
  -- a screen, whatever the file table, the application table, the heap and the memory behind the bitmap
  -- held: no sequence of scancodes makes the kernel fault, nor the console on which it prints. The line
  -- editor, the file table and the application table are valid in the end; the line, its history and the
  -- files are what the keys make of the line and of no files; and the screen is what the calls of the
  -- console draw on it. The hardware's calls are parameters.
  pub session-Refines :
      {W : Type 0} (hal : Hardware W) (w : W) (scancodes : List ℕ) (cold : Cold) (s : Input)
      (v : Vga) (at : ℕ → ℕ → ℕ)
      → AreWords cold.words
      → 1024 ≤ length cold.words
      → length cold.kernel.vfs.current_path ≡ path_size
      → Invariant.IsValid s
      → InputAscii s
      → Holds v at
      → OnScreen (screen_of v at)
      → (s' : Input) × (k' : Kernel) × (t : Trace) × (session hal w cold s scancodes
          ≡ some (s', k', t))
        × Invariant.IsValid s'
        × Commands.IsValid k'
        × (desk_of s' k'
            ≡ press_keys (record { editor = editor_of s; files = Store.empty }) scancodes)
        × ShowsAs (render v t) (drawn_all (screen_of v at) t)
  unfolding session
  session-Refines hal w scancodes cold s v at are enough size valid all h on =
      let (started, w', t, ran, _, _, _, _, _, _, kernel, _) =
        kernel_main-Ready hal cold w v at are enough size h on in
      let ((files, blank), boots) =
        Whenever-some (λ r. NoFiles (r.0).kernel × Showable (r.2)) (kernel_main hal cold w)
          (started, w', t) ran (kernel_main-Says hal cold w) in
      let (s', k', effects, run, valid', kernel', desk, _) =
        run_keys-IsSafe cpuid scancodes started.kernel valid kernel in
      let shows =
        Whenever-some (λ r. Showable (printed (r.2))) (run_keys cpuid s started.kernel scancodes)
          (s', k', effects) run (run_keys-Says scancodes s started.kernel all files) in
      (
        s',
        k',
        t ++ printed effects,
        rw (ran, run) refl,
        valid',
        kernel',
        desk ∙ ap (λ d. press_keys d scancodes) (desk_eq refl blank),
        render-drawn (t ++ printed effects) (All-append IsShowable t (printed effects) boots shows)
            h on,
      )
