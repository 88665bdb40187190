-- ===== src/Vga/Utf8.antt =====
-- Texts on the console: `vga_write`, and `vga_write_utf8` on well-formed UTF-8.
use xbt_os_misaka.Console.{utf8}
use xbt_os_misaka.KString.{Bytes, text}
use xbt_os_misaka.Prelude.{
  ℕ, suc, ◌+◌, ◌/◌, ◌≤◌, ◌<◌, ◌≡◌, ◌≢◌, ◌∙◌, refl, ap, inl, inr, some, ◌==◌, ==_iff, ltb,
  if◌then◌else◌, arith, All, all_below, all_below_lem, true, false, Bool-cases, List, [], ◌∷◌, ◌++◌,
  Option-cases,
}
use xbt_os_misaka.Vga.{Ports, Vga, skipped, utf8_loop, vga_put_char, write_chars}
use xbt_os_misaka.Vga.Refine.{Holds, OnScreen, screen_of, vga_put_char-Shows}
use xbt_os_misaka.Vga.Screen
use xbt_os_misaka.Vga.Screen.{Screen}

-- A text puts its bytes on the screen, up to its NUL, without a fault.
pub write_chars_lem :
    (s : Bytes) {v : Vga} {at : ℕ → ℕ → ℕ}
    → Holds v at
    → OnScreen (screen_of v at)
    → (v' : Vga) × (at' : ℕ → ℕ → ℕ) × (out : Ports) × (write_chars v s ≡ some (v', out))
      × Holds v' at'
      × (screen_of v' at' ≡ Screen.put_all (screen_of v at) (text s))
      × OnScreen (screen_of v' at')
unfolding write_chars text Screen.put_all
write_chars_lem [] {v} {at} h on = (v, at, [], refl, h, refl, on)
write_chars_lem (c ∷ s) {v} {at} h on = elim (Bool-cases (c == 0)) [
  | inl nul ↦ (v, at, [], rw nul refl, h, rw nul refl, on)
  | inr more ↦
      let ((v₁, at₁, put, h₁, e₁), on_put) = vga_put_char-Shows c h on in
      let (v₂, at₂, out, rest, h₂, e₂, on₂) =
        write_chars_lem s {v = v₁} {at = at₁} h₁ (rw e₁ on_put) in
      (
        v₂,
        at₂,
        Screen.cursor_at (Screen.put (screen_of v at) c) ++ out,
        rw (more, put, rest) refl,
        h₂,
        rw more (e₂ ∙ ap (λ t. Screen.put_all t (text s)) e₁),
        on₂,
      )
]

-- A code point that a text can hold.
abbrev pub IsScalar : ℕ → Type 0
IsScalar c = (c ≢ 0) × (c < 0x110000)

abbrev pub encode : List ℕ → Bytes
encode [] = []
encode (c ∷ cs) = utf8 c ++ encode cs

-- What the console shows for a code point.
abbrev pub glyph : ℕ → ℕ
glyph c = if ltb c 0x80 then c else b'?'

abbrev pub glyphs : List ℕ → Bytes
glyphs [] = []
glyphs (c ∷ cs) = glyph c ∷ glyphs cs

skipped_two : (k : ℕ) → k < 32 → skipped (0xc0 + k) ≡ 1
unfolding skipped all_below
skipped_two k lt = (==_iff _ _).0 (all_below_lem 32 (λ n. skipped (0xc0 + n) == 1) k refl lt)

skipped_three : (k : ℕ) → k < 16 → skipped (0xe0 + k) ≡ 2
unfolding skipped all_below
skipped_three k lt = (==_iff _ _).0 (all_below_lem 16 (λ n. skipped (0xe0 + n) == 2) k refl lt)

skipped_four : (k : ℕ) → k < 8 → skipped (0xf0 + k) ≡ 3
unfolding skipped all_below
skipped_four k lt = (==_iff _ _).0 (all_below_lem 8 (λ n. skipped (0xf0 + n) == 3) k refl lt)

-- A byte that is not ASCII: `n` bytes behind it are passed over.
lead :
    (v : Vga) (b n : ℕ) (rest next : Bytes)
    → 0x80 ≤ b
    → skipped b ≡ n
    → ((v₁ : Vga) → utf8_loop v₁ n next ≡ write_chars v₁ rest)
    → utf8_loop v 0 (b ∷ next) ≡ write_chars v (b'?' ∷ rest)
unfolding utf8_loop write_chars
lead v b n rest next high skip later =
    let b_ne : (b == 0) ≡ false = ground (arith, high) in
    let b_high : ltb b 0x80 ≡ false = ground (arith, high) in
    elim (Option-cases (vga_put_char v b'?')) [
      | inl fault ↦ rw (b_ne, b_high, fault) refl
      | inr ((v₁, out), put) ↦ rw (b_ne, b_high, skip, put, later v₁) refl
    ]

single :
    (v : Vga) (c : ℕ) (rest next : Bytes)
    → c ≢ 0
    → ltb c 0x80 ≡ true
    → ((v₁ : Vga) → utf8_loop v₁ 0 next ≡ write_chars v₁ rest)
    → utf8_loop v 0 (c ∷ next) ≡ write_chars v (c ∷ rest)
unfolding utf8_loop write_chars
single v c rest next ne ascii later =
    let c_ne : (c == 0) ≡ false = ground (arith, ne) in
    elim (Option-cases (vga_put_char v c)) [
      | inl fault ↦ rw (c_ne, ascii, fault) refl
      | inr ((v₁, out), put) ↦ rw (c_ne, ascii, put, later v₁) refl
    ]

pass_over : (v : Vga) (n b : ℕ) (next : Bytes) → utf8_loop v (suc n) (b ∷ next) ≡ utf8_loop v n next
unfolding utf8_loop
pass_over v n b next = refl

both_end : (v : Vga) → utf8_loop v 0 [] ≡ write_chars v []
unfolding utf8_loop write_chars
both_end v = refl

-- On well-formed UTF-8 the console shows one character for each code point: itself if it is ASCII, and
-- a question mark otherwise.
pub utf8_loop-encode :
    (cs : List ℕ) (v : Vga)
    → All IsScalar cs
    → utf8_loop v 0 (encode cs) ≡ write_chars v (glyphs cs)
unfolding utf8
utf8_loop-encode [] v all = both_end v
utf8_loop-encode (c ∷ cs) v all =
    let (ne, lt) = all.0 in
    let later = λ (v₁ : Vga). utf8_loop-encode cs v₁ (all.1) in
    elim (Bool-cases (ltb c 0x80)) [
      | inl ascii ↦ rw ascii (single v c (glyphs cs) (encode cs) ne ascii later)
      | inr high ↦ elim (Bool-cases (ltb c 0x800)) [
        | inl two ↦
            let below : c < 0x800 = ground (arith, two) in
            rw (high, two)
              (lead v (0xc0 + c / 0x40) 1 (glyphs cs) _ (omega arith)
                (skipped_two (c / 0x40) (omega (arith, below)))
                (λ v₁. pass_over v₁ 0 _ _ ∙ later v₁))
        | inr more ↦ elim (Bool-cases (ltb c 0x10000)) [
          | inl three ↦
              let below : c < 0x10000 = ground (arith, three) in
              rw (high, more, three)
                (lead v (0xe0 + c / 0x1000) 2 (glyphs cs) _ (omega arith)
                  (skipped_three (c / 0x1000) (omega (arith, below)))
                  (λ v₁. pass_over v₁ 1 _ _ ∙ pass_over v₁ 0 _ _ ∙ later v₁))
          | inr four ↦
              rw (high, more, four)
                (lead v (0xf0 + c / 0x40000) 3 (glyphs cs) _ (omega arith)
                  (skipped_four (c / 0x40000) (omega (arith, lt)))
                  (λ v₁. pass_over v₁ 2 _ _ ∙ pass_over v₁ 1 _ _ ∙ pass_over v₁ 0 _ _ ∙ later v₁))
        ]
      ]
    ]
