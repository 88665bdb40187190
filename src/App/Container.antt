-- ===== src/App/Container.antt =====
-- The path of an application's container: `build_container_path` does not write past its buffer.
use xbt_os_misaka.App.{
  applications, build_container_path, container_path_size, copy_identifier, copy_prefix, end_path,
  path_byte,
}
use native.Mathlib.Nat.{zero-add}
use xbt_os_misaka.KString.{Bytes, IsText, keep, text}
use xbt_os_misaka.Prelude.{
  ℕ, zero, suc, ◌+◌, ◌≤◌, ◌≡◌, ◌≢◌, refl, ap, inl, inr, some, [], ◌∷◌, ◌++◌, ◌==◌, ltb, leb,
  if◌then◌else◌, Run, arith, length, take, Bool-cases, true, false,
}

abbrev pub slashes : Bytes → Bytes
slashes [] = []
slashes (c ∷ s) = path_byte c ∷ slashes s

-- `.app`, if it fits behind `n` bytes of `room`.
abbrev pub extension : ℕ → ℕ → Bytes
extension n room = if leb (n + 5) room then b'.' ∷ b'a' ∷ b'p' ∷ b'p' ∷ [] else []

-- The buffer of `suc room` bytes is written without a fault, and holds the text.
abbrev Holds : Run Bytes → ℕ → Bytes → Type 0
Holds run room s = (out : Bytes) × (run ≡ some out) × (text out ≡ s) × (length out ≡ suc room)

end_path-Holds :
    (out : Bytes) (pos room : ℕ)
    → length out ≡ suc room
    → pos + room ≡ 63
    → Holds (end_path out pos container_path_size) room (extension 0 room)
unfolding end_path text
end_path-Holds [] pos room n at = absurd (omega arith)
end_path-Holds (a ∷ []) pos room n at = (0 ∷ [], ground arith, ground arith, n)
end_path-Holds (a ∷ b ∷ []) pos room n at = (0 ∷ b ∷ [], ground arith, ground arith, n)
end_path-Holds (a ∷ b ∷ c ∷ []) pos room n at = (0 ∷ b ∷ c ∷ [], ground arith, ground arith, n)
end_path-Holds (a ∷ b ∷ c ∷ d ∷ []) pos room n at =
    (0 ∷ b ∷ c ∷ d ∷ [], ground arith, ground arith, n)
end_path-Holds (a ∷ b ∷ c ∷ d ∷ e ∷ []) pos room n at =
    (0 ∷ b ∷ c ∷ d ∷ e ∷ [], ground arith, ground arith, n)
end_path-Holds (a ∷ b ∷ c ∷ d ∷ e ∷ f ∷ out) pos room n at =
    (b'.' ∷ b'a' ∷ b'p' ∷ b'p' ∷ 0 ∷ f ∷ out, ground arith, ground arith, n)

path_byte-ne_zero : (c : ℕ) → c ≢ 0 → path_byte c ≢ 0
path_byte-ne_zero c more = ground arith

keep-Holds :
    (c room : ℕ) {run : Run Bytes} {s : Bytes}
    → c ≢ 0
    → Holds run room s
    → Holds (keep c run) (suc room) (c ∷ s)
unfolding text
keep-Holds c room more (out, ran, t, n) = (c ∷ out, rw ran refl, ground (arith, t), ap suc n)

copy_identifier-Holds :
    (identifier out : Bytes) (pos room : ℕ)
    → length out ≡ suc room
    → pos + room ≡ 63
    → Holds
        (copy_identifier identifier out pos container_path_size)
        room
        (take room (slashes (text identifier)) ++ extension (length (text identifier)) room)
unfolding copy_identifier text
copy_identifier-Holds [] out pos zero n at = end_path-Holds out pos zero n at
copy_identifier-Holds [] out pos (suc room) n at = end_path-Holds out pos (suc room) n at
copy_identifier-Holds (c ∷ identifier) [] pos room n at = absurd (omega arith)
copy_identifier-Holds (c ∷ identifier) (o ∷ out) pos zero n at =
    let last : ltb (pos + 1) container_path_size ≡ false = ground arith in
    elim (Bool-cases (c == 0)) [
      | inl e ↦ rw e (end_path-Holds (o ∷ out) pos zero n at)
      | inr e ↦
          let short : extension (length (c ∷ text identifier)) 0 ≡ extension 0 0 = ground arith in
          rw (e, last, short) (end_path-Holds (o ∷ out) pos zero n at)
    ]
copy_identifier-Holds (c ∷ identifier) (o ∷ out) pos (suc room) n at =
    let more : ltb (pos + 1) container_path_size ≡ true = ground arith in
    elim (Bool-cases (c == 0)) [
      | inl e ↦ rw e (end_path-Holds (o ∷ out) pos (suc room) n at)
      | inr e ↦
          let shift : extension (length (c ∷ text identifier)) (suc room)
              ≡ extension (length (text identifier)) room =
            ground arith in
          rw (e, more, shift)
            (keep-Holds (path_byte c) room (path_byte-ne_zero c (ground arith))
              (copy_identifier-Holds identifier out (pos + 1) room (omega arith) (omega arith)))
    ]

copy_prefix-Holds :
    (prefix identifier out : Bytes) (pos room : ℕ)
    → IsText prefix
    → length prefix ≤ room
    → length out ≡ suc room
    → pos + room ≡ 63
    → Holds (copy_prefix prefix identifier out pos container_path_size) room (
        take room (prefix ++ slashes (text identifier))
        ++ extension (length prefix + length (text identifier)) room)
unfolding copy_prefix
copy_prefix-Holds [] identifier out pos room all fits n at =
    rw zero-add (copy_identifier-Holds identifier out pos room n at)
copy_prefix-Holds (c ∷ prefix) identifier [] pos room all fits n at = absurd (omega arith)
copy_prefix-Holds (c ∷ prefix) identifier (o ∷ out) pos zero all fits n at = absurd (omega arith)
copy_prefix-Holds (c ∷ prefix) identifier (o ∷ out) pos (suc room) all fits n at =
    let more : ltb (pos + 1) container_path_size ≡ true = ground arith in
    let shift : extension (length (c ∷ prefix) + length (text identifier)) (suc room)
        ≡ extension (length prefix + length (text identifier)) room =
      ground arith in
    rw (more, shift)
      (keep-Holds c room all.0 (
        copy_prefix-Holds prefix identifier out (pos + 1) room all.1 (omega arith) (omega arith)
          (omega arith)))

-- The path is written without a fault into a buffer of its size, whatever the identifier. It is the
-- prefix and the identifier with its dots turned into slashes, cut to 63 bytes, and `.app` behind them
-- exactly when they leave room for it and a NUL.
pub build_container_path_lem :
    (identifier out_path : Bytes)
    → length out_path ≡ container_path_size
    → (path : Bytes) × (build_container_path (some identifier) out_path container_path_size
        ≡ some path)
      × (text path
          ≡ take 63 (applications ++ slashes (text identifier))
            ++ extension (14 + length (text identifier)) 63)
      × (length path ≡ container_path_size)
unfolding build_container_path
build_container_path_lem identifier out_path n =
    copy_prefix-Holds applications identifier out_path 0 63 (ground arith) (omega arith) n
      (omega arith)
