-- ===== src/Shell/Arguments.antt =====
-- The file name and the content of `rec` and `append`: kernel/main.cpp, `copy_token` and what follows it.
use mathlib.Core.Path.{subst}
use xbt_os_misaka.KString.{Bytes, head, text}
use xbt_os_misaka.Prelude.{
  zero, suc, ◌+◌, ◌≡◌, inl, inr, refl, some, Bool-cases, [], ◌∷◌, arith, length, length-replicate,
  replicate, take, ◌==◌, ◌||◌, ltb, if◌then◌else◌, true, false, ℕ, ap, ◌++◌, ◌≢◌, ◌⊎◌, ◌∙◌, All,
  ==_iff,
}
use xbt_os_misaka.Shell.{copy_token, skip_spaces, skip_token, split_arguments}
use xbt_os_misaka.Vfs.{file_name_size}

-- The bytes before the first space or NUL.
abbrev pub token : Bytes → Bytes
token [] = []
token (c ∷ s) = if c == 0 || c == b' ' then [] else c ∷ token s

copy_token_lem :
    (start out : Bytes) (i room : ℕ)
    → length out ≡ suc room
    → i + suc room ≡ file_name_size
    → (out' : Bytes) × (copy_token start out i file_name_size ≡ some out')
      × (text out' ≡ take room (token start))
      × (length out' ≡ suc room)
unfolding copy_token text
copy_token_lem start [] i room n at = absurd (omega arith)
copy_token_lem [] (o ∷ out) i zero n at = (0 ∷ out, refl, refl, n)
copy_token_lem [] (o ∷ out) i (suc room) n at = (0 ∷ out, refl, refl, n)
copy_token_lem (c ∷ start) (o ∷ out) i zero n at =
    let last : ltb (i + 1) file_name_size ≡ false = ground arith in
    elim (Bool-cases (c == 0)) [
      | inl nul ↦ (0 ∷ out, rw nul refl, refl, n)
      | inr no_nul ↦ elim (Bool-cases (c == b' ')) [
        | inl space ↦ (0 ∷ out, rw (no_nul, space) refl, refl, n)
        | inr no_space ↦ (0 ∷ out, rw (no_nul, no_space, last) refl, refl, n)
      ]
    ]
copy_token_lem (c ∷ start) (o ∷ out) i (suc room) n at =
    let more : ltb (i + 1) file_name_size ≡ true = ground arith in
    elim (Bool-cases (c == 0)) [
      | inl nul ↦ (0 ∷ out, rw nul refl, rw nul refl, n)
      | inr no_nul ↦ elim (Bool-cases (c == b' ')) [
        | inl space ↦ (0 ∷ out, rw (no_nul, space) refl, rw (no_nul, space) refl, n)
        | inr no_space ↦
            let (out', run, t, size) =
              copy_token_lem start out (i + 1) room (omega arith) (omega arith) in
            (
              c ∷ out',
              rw (no_nul, no_space, more, run) refl,
              rw (no_nul, no_space) (ap (λ s. c ∷ s) t),
              ap suc size,
            )
      ]
    ]

pub split_arguments-run :
    (args : Bytes)
    → (filename : Bytes) × (split_arguments args ≡ some (filename, skip_spaces (skip_token args)))
      × (text filename ≡ take 31 (token args))
unfolding split_arguments
split_arguments-run args =
    let (filename, run, t, _) =
      copy_token_lem args (replicate file_name_size 0) 0 31 (length-replicate file_name_size 0)
        refl in
    (filename, rw run refl, t)

-- The bytes that end a token.
abbrev pub EndsToken : ℕ → Type 0
EndsToken c = (c ≡ 0) ⊎ (c ≡ b' ')

token-plain : (args : Bytes) → All (λ c. (c ≢ 0) × (c ≢ b' ')) (token args)
token-plain [] = tt
token-plain (c ∷ args) = elim (Bool-cases (c == 0)) [
  | inl nul ↦ rw nul tt
  | inr no_nul ↦ elim (Bool-cases (c == b' ')) [
    | inl space ↦ rw (no_nul, space) tt
    | inr no_space ↦
        rw (no_nul, no_space) ((ground (arith, no_nul), ground (arith, no_space)), token-plain args)
  ]
]

skip_token_lem :
    (args : Bytes) → (args ≡ token args ++ skip_token args) × EndsToken (head (skip_token args))
unfolding skip_token
skip_token_lem [] = (refl, inl refl)
skip_token_lem (c ∷ args) =
    let (split, ends) = skip_token_lem args in
    elim (Bool-cases (c == 0)) [
      | inl nul ↦ rw nul (refl, inl ((==_iff c 0).0 nul))
      | inr no_nul ↦ elim (Bool-cases (c == b' ')) [
        | inl space ↦ rw (no_nul, space) (refl, inr ((==_iff c b' ').0 space))
        | inr no_space ↦ rw (no_nul, no_space) (ap (λ s. c ∷ s) split, ends)
      ]
    ]

-- How a text splits behind its leading spaces.
skip_spaces_lem :
    (s : Bytes)
    → (spaces : Bytes) × (s ≡ spaces ++ skip_spaces s)
      × All (λ c. c ≡ b' ') spaces
      × (head (skip_spaces s) ≢ b' ')
unfolding skip_spaces
skip_spaces_lem [] = ([], refl, tt, omega arith)
skip_spaces_lem (c ∷ s) =
    let (spaces, split, all, stops) = skip_spaces_lem s in
    elim (Bool-cases (c == b' ')) [
      | inl space ↦
          rw space (c ∷ spaces, ap (λ s. c ∷ s) split, ((==_iff c b' ').0 space, all), stops)
      | inr no_space ↦ rw no_space ([], refl, tt, ground (arith, no_space))
    ]

-- The arguments of `rec` and `append` are split without a fault into a token, spaces and the content:
-- they are these three in this order. The token holds neither a space nor a NUL and ends before one of
-- them or at the end; the file name is the token, cut to the 31 bytes that leave room for its NUL; and
-- the content does not begin with a space.
pub split_arguments_lem :
    (args : Bytes)
    → (filename word spaces content : Bytes) × (split_arguments args ≡ some (filename, content))
      × (args ≡ word ++ (spaces ++ content))
      × All (λ c. (c ≢ 0) × (c ≢ b' ')) word
      × EndsToken (head (spaces ++ content))
      × All (λ c. c ≡ b' ') spaces
      × (head content ≢ b' ')
      × (text filename ≡ take 31 word)
split_arguments_lem args =
    let (filename, run, named) = split_arguments-run args in
    let (split, ends) = skip_token_lem args in
    let (spaces, rest, all, stops) = skip_spaces_lem (skip_token args) in
    (
      filename,
      token args,
      spaces,
      skip_spaces (skip_token args),
      run,
      split ∙ ap (λ s. token args ++ s) rest,
      token-plain args,
      subst (λ s. EndsToken (head s)) rest ends,
      all,
      stops,
      named,
    )
