-- ===== src/Ascii/Screen.antt =====
-- kernel/hal/console.cpp: such calls on the console.
use xbt_os_misaka.Ascii.{AreAscii}
use xbt_os_misaka.Ascii.Showable.{IsShowable, Showable}
use xbt_os_misaka.Console.{utf8, ConsoleOp, Trace}
use xbt_os_misaka.KString.{Bytes, text}
use xbt_os_misaka.Prelude.{
  ℕ, ◌≡◌, ◌∙◌, refl, inl, inr, ◌==◌, ltb, true, [], ◌∷◌, ◌++◌, Bool-cases, Option-cases, arith, ap,
  sym, All, List, ◌≢◌, ◌≤◌, ◌<◌, ◌+◌, ◌/◌, ◌%◌, if◌then◌else◌,
}
use xbt_os_misaka.Vga.{
  Vga, render, utf8_loop, vga_console, vga_put_char, vga_write_utf8, write_chars,
}
use xbt_os_misaka.Vga.Screen
use xbt_os_misaka.Vga.Screen.{Screen}
use xbt_os_misaka.Vga.Refine.{Holds, OnScreen, screen_of}
use xbt_os_misaka.Vga.Render.{ShowsAs, plain, scalars, single, vga_console-ShowsAs, wipe}
use xbt_os_misaka.Vga.Utf8.{IsScalar, encode, glyphs, write_chars_lem}

-- Bytes below 0x80 are shown as they are.
utf8_loop-ascii : (s : Bytes) (v : Vga) → AreAscii s → utf8_loop v 0 s ≡ write_chars v s
unfolding utf8_loop write_chars
utf8_loop-ascii [] v all = refl
utf8_loop-ascii (c ∷ s) v all = elim (Bool-cases (c == 0)) [
  | inl nul ↦ rw nul refl
  | inr more ↦
      let ascii : ltb c 0x80 ≡ true = ground (arith, all.0) in
      elim (Option-cases (vga_put_char v c)) [
        | inl fault ↦ rw (more, ascii, fault) refl
        | inr ((v₁, out), put) ↦ rw (more, ascii, put, utf8_loop-ascii s v₁ (all.1)) refl
      ]
]

-- What a text shows: its ASCII bytes, and a question mark for each first byte of a longer character.
abbrev pub visible : Bytes → Bytes
visible [] = []
visible (c ∷ s) =
    if c == 0
    then []
    else if ltb c 0x80
    then c ∷ visible s
    else if ltb c 0xC0
    then visible s
    else b'?' ∷ visible s

visible-ascii : (s : Bytes) → AreAscii s → visible s ≡ text s
unfolding text
visible-ascii [] all = refl
visible-ascii (c ∷ s) all = let later = visible-ascii s (all.1) in ground (arith, later, all.0)

visible-single : (c : ℕ) (s : Bytes) → c ≢ 0 → c < 0x80 → visible (c ∷ s) ≡ c ∷ visible s
visible-single c s ne lt = ground (arith, ne, lt)

abbrev question : Bytes → Bytes
question s = b'?' ∷ s

visible-first : (b : ℕ) (s : Bytes) → 0xC0 ≤ b → visible (b ∷ s) ≡ b'?' ∷ visible s
visible-first b s le = ground (arith, le)

visible-behind : (b : ℕ) (s : Bytes) → b < 0x40 → visible ((0x80 + b) ∷ s) ≡ visible s
visible-behind b s lt = ground (arith, lt)

visible-encode : (cs : List ℕ) → All IsScalar cs → visible (encode cs) ≡ glyphs cs
unfolding utf8
visible-encode [] all = refl
visible-encode (c ∷ cs) all =
    let (ne, lt) = all.0 in
    let later = visible-encode cs (all.1) in
    let last = encode cs in
    let end₁ = (0x80 + c % 0x40) ∷ last in
    let end₂ = (0x80 + c / 0x40 % 0x40) ∷ end₁ in
    let end₃ = (0x80 + c / 0x1000 % 0x40) ∷ end₂ in
    elim (Bool-cases (ltb c 0x80)) [
      | inl ascii ↦
          rw ascii (visible-single c (encode cs) ne (ground (arith, ascii)) ∙ ap (λ s. c ∷ s) later)
      | inr high ↦ elim (Bool-cases (ltb c 0x800)) [
        | inl two ↦
            rw (high, two)
              (visible-first (0xc0 + c / 0x40) end₁ (omega arith)
                ∙ ap question (visible-behind (c % 0x40) last (omega arith) ∙ later))
        | inr more ↦ elim (Bool-cases (ltb c 0x10000)) [
          | inl three ↦
              rw (high, more, three)
                (visible-first (0xe0 + c / 0x1000) end₂ (omega arith)
                  ∙ ap question (
                      visible-behind (c / 0x40 % 0x40) end₁ (omega arith)
                      ∙ visible-behind (c % 0x40) last (omega arith)
                      ∙ later))
          | inr four ↦
              rw (high, more, four)
                (visible-first (0xf0 + c / 0x40000) end₃ (omega arith)
                  ∙ ap question (
                      visible-behind (c / 0x1000 % 0x40) end₂ (omega arith)
                      ∙ visible-behind (c / 0x40 % 0x40) end₁ (omega arith)
                      ∙ visible-behind (c % 0x40) last (omega arith)
                      ∙ later))
        ]
      ]
    ]

-- What a call of the console does to the screen.
abbrev pub drawn : Screen → ConsoleOp → Screen
drawn s ConsoleOp.clear = Screen.cleared s
drawn s (ConsoleOp.put_char c) = Screen.put s c
drawn s (ConsoleOp.write t) = Screen.put_all s (text t)
drawn s (ConsoleOp.write_utf8 t) = Screen.put_all s (visible t)

abbrev pub drawn_all : Screen → Trace → Screen
drawn_all s [] = s
drawn_all s (op ∷ t) = drawn_all (drawn s op) t

module _ {v : Vga} {at : ℕ → ℕ → ℕ} (h : Holds v at) (on : OnScreen (screen_of v at)) where
  vga_console-drawn :
      (op : ConsoleOp) → IsShowable op → ShowsAs (vga_console v op) (drawn (screen_of v at) op)
  unfolding vga_console vga_write_utf8
  vga_console-drawn ConsoleOp.clear is = vga_console-ShowsAs h on wipe tt
  vga_console-drawn (ConsoleOp.put_char c) is = vga_console-ShowsAs h on (single c) tt
  vga_console-drawn (ConsoleOp.write s) is = vga_console-ShowsAs h on (plain s) tt
  vga_console-drawn (ConsoleOp.write_utf8 s) (inl (cs, all, same)) =
      rw (same, visible-encode cs all) (vga_console-ShowsAs h on (scalars cs) all)
  vga_console-drawn (ConsoleOp.write_utf8 s) (inr ascii) =
      let (v', at', out, run, h', shows, on') = write_chars_lem s h on in
      (
        v',
        at',
        out,
        utf8_loop-ascii s v ascii ∙ run,
        h',
        shows ∙ ap (Screen.put_all (screen_of v at)) (sym (visible-ascii s ascii)),
        on',
      )

-- Such a trace is carried out without a fault, and leaves the screen that its calls draw.
pub render-drawn :
    (t : Trace) {v : Vga} {at : ℕ → ℕ → ℕ}
    → Showable t
    → Holds v at
    → OnScreen (screen_of v at)
    → ShowsAs (render v t) (drawn_all (screen_of v at) t)
unfolding render
render-drawn [] {v} {at} all h on = (v, at, [], refl, h, refl, on)
render-drawn (op ∷ t) {v} {at} all h on =
    let (v₁, at₁, out, run, h₁, shows, on₁) = vga_console-drawn h on op (all.0) in
    let (v₂, at₂, rest, runs, h₂, later, on₂) = render-drawn t (all.1) h₁ on₁ in
    (v₂, at₂, out ++ rest, rw (run, runs) refl, h₂, later ∙ ap (λ s. drawn_all s t) shows, on₂)
