-- ===== src/Vga/Render.antt =====
-- What the rest of the kernel asks of the console, carried out on the device.
use mathlib.Core.Path.{subst}
use xbt_os_misaka.Console.{ConsoleOp, Trace, clear, put_char, write, write_utf8}
use xbt_os_misaka.KString.{Bytes, text}
use xbt_os_misaka.Prelude.{sym, ℕ, ◌≡◌, ◌∙◌, ap, refl, All, List, [], ◌∷◌, ◌++◌, some, Run}
use xbt_os_misaka.Vga.{Ports, Vga, render, vga_clear, vga_console, vga_put_char, vga_write}
use xbt_os_misaka.Vga.Device.{vga_clear-Shows, vga_write_utf8_lem}
use xbt_os_misaka.Vga.Refine.{Holds, OnScreen, Shows, screen_of, vga_put_char-Shows}
use xbt_os_misaka.Vga.Screen
use xbt_os_misaka.Vga.Screen.{Screen}
use xbt_os_misaka.Vga.Utf8.{IsScalar, encode, glyphs, write_chars_lem}

-- A call of the console, with the code points of a text that is to be UTF-8.
pub data Call : Type 0 where
  wipe : Call
  single : ℕ → Call
  plain : Bytes → Call
  scalars : List ℕ → Call

abbrev pub IsCall : Call → Type 0
IsCall (scalars cs) = All IsScalar cs
IsCall _ = Unit

abbrev pub op_of : Call → ConsoleOp
op_of wipe = clear
op_of (single c) = put_char c
op_of (plain s) = write s
op_of (scalars cs) = write_utf8 (encode cs)

abbrev pub trace_of : List Call → Trace
trace_of [] = []
trace_of (c ∷ calls) = op_of c ∷ trace_of calls

-- What a call does to the screen.
abbrev pub shown : Screen → Call → Screen
shown s wipe = Screen.cleared s
shown s (single c) = Screen.put s c
shown s (plain t) = Screen.put_all s (text t)
shown s (scalars cs) = Screen.put_all s (glyphs cs)

abbrev pub shown_all : Screen → List Call → Screen
shown_all s [] = s
shown_all s (c ∷ calls) = shown_all (shown s c) calls

abbrev pub ShowsAs : Run (Vga × Ports) → Screen → Type 0
ShowsAs run s =
    (v : Vga) × (at : ℕ → ℕ → ℕ) × (out : Ports) × (run ≡ some (v, out))
    × Holds v at
    × (screen_of v at ≡ s)
    × OnScreen (screen_of v at)

as_shown : (run : Run (Vga × Ports)) (s : Screen) → Shows run s × OnScreen s → ShowsAs run s
as_shown run s ((v, at, ran, h, same), on) =
    (v, at, Screen.cursor_at s, ran, h, same, subst OnScreen (sym same) on)

module _ {v : Vga} {at : ℕ → ℕ → ℕ} (h : Holds v at) (on : OnScreen (screen_of v at)) where
  pub vga_console-ShowsAs :
      (c : Call) → IsCall c → ShowsAs (vga_console v (op_of c)) (shown (screen_of v at) c)
  unfolding vga_console vga_write
  vga_console-ShowsAs wipe is =
      as_shown (vga_clear v) (Screen.cleared (screen_of v at)) (vga_clear-Shows v at h.size)
  vga_console-ShowsAs (single c) is =
      as_shown (vga_put_char v c) (Screen.put (screen_of v at) c) (vga_put_char-Shows c h on)
  vga_console-ShowsAs (plain s) is = write_chars_lem s h on
  vga_console-ShowsAs (scalars cs) is = vga_write_utf8_lem cs is h on

-- On a valid console, any sequence of calls whose UTF-8 is well formed is carried out without a fault,
-- and the screen is then what the calls make of it, one after another.
pub render-ShowsAs :
    (calls : List Call) {v : Vga} {at : ℕ → ℕ → ℕ}
    → All IsCall calls
    → Holds v at
    → OnScreen (screen_of v at)
    → ShowsAs (render v (trace_of calls)) (shown_all (screen_of v at) calls)
unfolding render
render-ShowsAs [] {v} {at} all h on = (v, at, [], refl, h, refl, on)
render-ShowsAs (c ∷ calls) {v} {at} all h on =
    let (v₁, at₁, out, run, h₁, same, on₁) = vga_console-ShowsAs h on c (all.0) in
    let (v₂, at₂, rest, runs, h₂, sames, on₂) = render-ShowsAs calls (all.1) h₁ on₁ in
    (v₂, at₂, out ++ rest, rw (run, runs) refl, h₂, sames ∙ ap (λ s. shown_all s calls) same, on₂)
