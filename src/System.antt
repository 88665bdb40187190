-- ===== src/System.antt =====
-- The booted kernel under its keyboard: kernel/main.cpp, with `keyboard_handler` over
-- `execute_command` and `prompt`, one call for each scancode.
pub mod Keyboard
pub mod Typing
mod Tests
use xbt_os_misaka.Input.{Effect, Input, keyboard_handler, shown, end_of_interrupt, buffer_size}
use xbt_os_misaka.Input.Editor.{Editor, key, entered}
use xbt_os_misaka.Input.Handler.{keyboard_handler-Handles}
use xbt_os_misaka.Input.Invariant
use xbt_os_misaka.Input.Invariant.{editor_of}
use xbt_os_misaka.KString.{Bytes, text}
use xbt_os_misaka.Console.{Trace}
use xbt_os_misaka.Prelude.{
  ℕ, ◌≡◌, refl, ap, ◌∙◌, some, Run, ◌>>=◌, List, [], ◌∷◌, ◌++◌, length, arith, ◌+◌,
}
use xbt_os_misaka.Shell.{Kernel, execute_command, prompt}
use xbt_os_misaka.Shell.Commands
use xbt_os_misaka.Shell.Meaning.{meaning}
use xbt_os_misaka.Vfs.Refine.{store_of}
use xbt_os_misaka.Vfs.Store.{Store}
use xbt_os_misaka.Shell.Commands.{execute_command-Keeps}

-- What the user has before him: the line editor and the files.
pub record Desk : Type 0 where
  pub editor : Editor
  pub files : Store

-- The desk that a state of the kernel stands for.
abbrev pub desk_of : Input → Kernel → Desk
desk_of s k = record { editor = editor_of s; files = store_of k.vfs }

-- A scancode edits the line, and Enter has the line change the files.
abbrev pub press_key : Desk → ℕ → Desk
press_key d scancode = record {
  editor = key d.editor scancode;
  files = entered meaning d.editor scancode d.files;
}

-- The desk after some scancodes.
abbrev pub press_keys : Desk → List ℕ → Desk
press_keys d [] = d
press_keys d (scancode ∷ scancodes) = press_keys (press_key d scancode) scancodes

-- The interrupts that were ended.
abbrev pub ends : List Effect → ℕ
ends [] = 0
ends (Effect.console _ ∷ effects) = ends effects
ends (Effect.end_of_interrupt _ ∷ effects) = ends effects + 1

pub desk_eq :
    {e e' : Editor} {f f' : Store}
    → e ≡ e'
    → f ≡ f'
    → ◌≡◌ {A = Desk} (record { editor = e; files = f }) (record { editor = e'; files = f' })
desk_eq edits stored = λ i. record { editor = edits i; files = stored i }

module _ (cpuid : ℕ → ℕ × ℕ × ℕ × ℕ) where
  -- The handler, once for each scancode that arrives.
  unfoldable pub run_keys : Input → Kernel → List ℕ → Run (Input × Kernel × List Effect)
  run_keys s k [] = some (s, k, [])
  run_keys s k (scancode ∷ scancodes) = do
    (s₁, k₁, effects) ← keyboard_handler (execute_command cpuid) prompt s k scancode
    (s₂, k₂, rest) ← run_keys s₁ k₁ scancodes
    some (s₂, k₂, effects ++ rest)

  ends-shown :
      (t : Trace) (rest : List Effect)
      → ends ((shown t ++ end_of_interrupt 1 ∷ []) ++ rest) ≡ ends rest + 1
  ends-shown [] rest = refl
  ends-shown (op ∷ t) rest = ends-shown t rest

  -- A valid kernel that holds these files.
  abbrev Serves : Store → Kernel → Type 0
  Serves files k = Commands.IsValid k × (store_of k.vfs ≡ files)

  executes :
      (line : Bytes) (k : Kernel) (files : Store)
      → length line ≡ buffer_size
      → Serves files k
      → (k' : Kernel) × (t : Trace) × (execute_command cpuid line k ≡ some (k', t))
        × Serves (meaning (text line) files) k'
  executes line k files size (v, held) =
      let (k', t, run, v', stored) = execute_command-Keeps cpuid line (omega (arith, size)) v in
      (k', t ++ prompt k', run, (v', stored ∙ ap (meaning (text line)) held))

  -- No sequence of scancodes makes the kernel fault from a valid state. It leaves valid states, does to
  -- the line, its history and the files what the keys do, and ends one interrupt for each scancode.
  pub run_keys-IsSafe :
      (scancodes : List ℕ) {s : Input} (k : Kernel)
      → Invariant.IsValid s
      → Commands.IsValid k
      → (s' : Input) × (k' : Kernel) × (effects : List Effect) × (run_keys s k scancodes
          ≡ some (s', k', effects))
        × Invariant.IsValid s'
        × Commands.IsValid k'
        × (desk_of s' k' ≡ press_keys (desk_of s k) scancodes)
        × (ends effects ≡ length scancodes)
  unfolding run_keys
  run_keys-IsSafe [] {s} k v w = (s, k, [], refl, v, w, refl, refl)
  run_keys-IsSafe (scancode ∷ scancodes) {s} k v w =
      let (s₁, k₁, t, first, v₁, (w₁, stored), edits) =
        keyboard_handler-Handles (execute_command cpuid) prompt meaning Serves executes k
          (store_of k.vfs) scancode v (w, refl) in
      let (s₂, k₂, rest, run, v₂, w₂, desk, count) = run_keys-IsSafe scancodes {s = s₁} k₁ v₁ w₁ in
      (
        s₂,
        k₂,
        (shown t ++ end_of_interrupt 1 ∷ []) ++ rest,
        rw (first, run) refl,
        v₂,
        w₂,
        desk ∙ ap (λ d. press_keys d scancodes) (desk_eq edits stored),
        omega (arith, count, ends-shown t rest),
      )
