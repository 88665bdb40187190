-- ===== src/Shell/Meaning.antt =====
-- What a command line does to the files, as a function of its text and of the abstract store.
use xbt_os_misaka.Console.{bytes}
use xbt_os_misaka.KString.{Bytes, IsText, head, text}
use xbt_os_misaka.KString.Compare.{text-text}
use xbt_os_misaka.Prelude.{
  ℕ, zero, suc, ◌≤◌, ◌≡◌, ◌∙◌, ap, sym, refl, some, true, false, [], ◌∷◌, if◌then◌else◌, arith,
  drop, length, take, ◌==◌, ◌||◌,
}
use xbt_os_misaka.Shell.{skip_spaces, skip_token, starts_with}
use xbt_os_misaka.Shell.Arguments.{token}
use xbt_os_misaka.Vfs.Names.{head-text, name_of}
use xbt_os_misaka.Vfs.Store
use xbt_os_misaka.Vfs.Store.{Store}

-- What stands behind the first `n` bytes of a line, and the spaces there.
abbrev pub argument : ℕ → Bytes → Bytes
argument n line = skip_spaces (drop n line)

-- The file name and the content in an argument.
abbrev pub name_in : Bytes → Bytes
name_in args = take 31 (token args)

abbrev pub content_in : Bytes → Bytes
content_in args = skip_spaces (skip_token args)

unfoldable pub record_store : Bytes → Store → Store
record_store args s =
    if head (name_in args) == 0 || head (content_in args) == 0
    then s
    else (Store.write s (some (name_in args)) (content_in args)).1

unfoldable pub append_store : Bytes → Store → Store
append_store args s = (Store.append s (some (name_in args)) (content_in args)).1

-- `touch`, `rec`, `append` and `rm` change the store; no other line does.
unfoldable pub meaning : Bytes → Store → Store
meaning line s =
    if starts_with line (bytes "touch ")
    then (Store.create s (some (argument 5 line))).1
    else if starts_with line (bytes "rdf ")
    then s
    else if starts_with line (bytes "rec ")
    then record_store (argument 3 line) s
    else if starts_with line (bytes "append ")
    then append_store (argument 6 line) s
    else if starts_with line (bytes "rm ")
    then (Store.remove s (some (argument 2 line))).1
    else s

pub starts_with-text : (l p : Bytes) → IsText p → starts_with (text l) p ≡ starts_with l p
unfolding starts_with text
starts_with-text l [] all = refl
starts_with-text [] (c ∷ p) all = refl
starts_with-text (d ∷ l) (c ∷ p) all =
    let later = starts_with-text l p (all.1) in ground (arith, later, all.0)

pub text-skip_spaces : (l : Bytes) → text (skip_spaces l) ≡ skip_spaces (text l)
unfolding skip_spaces text
text-skip_spaces [] = refl
text-skip_spaces (c ∷ l) = ground (arith, text-skip_spaces l)

pub text-skip_token : (l : Bytes) → text (skip_token l) ≡ skip_token (text l)
unfolding skip_token text
text-skip_token [] = refl
text-skip_token (c ∷ l) = ground (arith, text-skip_token l)

pub token-text : (l : Bytes) → token (text l) ≡ token l
unfolding text
token-text [] = refl
token-text (c ∷ l) = ground (arith, token-text l)

-- The bytes of a prefix are dropped from the text of a line as from the line.
pub text-drop :
    (n : ℕ) (l p : Bytes)
    → n ≤ length p
    → IsText p
    → starts_with l p ≡ true
    → text (drop n l) ≡ drop n (text l)
unfolding starts_with text
text-drop zero l p le all starts = refl
text-drop (suc n) l [] le all starts = absurd (omega arith)
text-drop (suc n) [] (c ∷ p) le all starts = absurd (ground (arith, all.0))
text-drop (suc n) (d ∷ l) (c ∷ p) le all starts =
    let later = text-drop n l p (omega arith) (all.1) (ground (arith, all.0)) in
    let some_byte : (d == 0) ≡ false = ground (arith, all.0) in rw some_byte later

-- The argument in the text of a line is the text of the argument.
pub text-argument :
    (n : ℕ) (l p : Bytes)
    → n ≤ length p
    → IsText p
    → starts_with l p ≡ true
    → text (argument n l) ≡ argument n (text l)
text-argument n l p le all starts =
    text-skip_spaces (drop n l) ∙ ap skip_spaces (text-drop n l p le all starts)

pub text-content_in : (args : Bytes) → text (content_in args) ≡ content_in (text args)
text-content_in args = text-skip_spaces (skip_token args) ∙ ap skip_spaces (text-skip_token args)

-- Two paths of one text have one name.
pub name_of-text : (p q : Bytes) → text p ≡ text q → name_of (some p) ≡ name_of (some q)
unfolding name_of
name_of-text p q e = rw e refl

-- A buffer that holds a name is as good a path as the name.
name_of-held : (p : Bytes) {n : Bytes} → text p ≡ n → name_of (some p) ≡ name_of (some n)
name_of-held p {n} e = name_of-text p n (sym (text-text p) ∙ ap text e)

module _ (s : Store) (p : Bytes) {n : Bytes} (e : text p ≡ n) where
  pub create-held : Store.create s (some p) ≡ Store.create s (some n)
  unfolding Store.create
  create-held = rw (Store.create, name_of-held p e) refl

  pub write-held : (c : Bytes) → Store.write s (some p) c ≡ Store.write s (some n) c
  unfolding Store.write
  write-held c = rw (Store.write, name_of-held p e) refl

  pub append-held : (c : Bytes) → Store.append s (some p) c ≡ Store.append s (some n) c
  unfolding Store.append
  append-held c = rw (Store.append, name_of-held p e) refl

  pub remove-held : Store.remove s (some p) ≡ Store.remove s (some n)
  unfolding Store.remove
  remove-held = rw (Store.remove, name_of-held p e) refl

-- The meaning of `rec` and `append` in the buffers of a line whose file name was copied out.
module _ (s : Store) (args filename : Bytes) (named : text filename ≡ name_in args) where
  held : text filename ≡ name_in (text args)
  held = named ∙ ap (take 31) (sym (token-text args))

  pub record_store-text :
      (if head filename == 0 || head (content_in args) == 0
        then s
        else (Store.write s (some filename) (text (content_in args))).1)
      ≡ record_store (text args) s
  unfolding record_store
  record_store-text =
      rw
        (
          ← held,
          ← text-content_in args,
          head-text filename,
          head-text (content_in args),
          write-held s filename refl (text (content_in args)),
        )
        refl

  pub append_store-text :
      (Store.append s (some filename) (text (content_in args))).1 ≡ append_store (text args) s
  unfolding append_store
  append_store-text = rw (append-held s filename held _, text-content_in args) refl
