-- ===== src/Shell/Files.antt =====
-- kernel/main.cpp: `rec` and `rdf`, from the command line to the file table and back.
use mathlib.Core.Option
use mathlib.Core.Option.{some-injective}
use mathlib.Core.Path.{subst}
use xbt_os_misaka.Console.{bytes, print, print_utf8}
use xbt_os_misaka.I18n
use xbt_os_misaka.KString.{Bytes, head, text, streq, kstrcmp}
use xbt_os_misaka.KString.Compare.{streq_refl}
use xbt_os_misaka.Prelude.{
  ℕ, zero, suc, ◌+◌, ◌<◌, ◌≤◌, ◌≢◌, ◌≡◌, ◌∙◌, ap, inl, inr, refl, none, some, Option, Option-cases,
  Run, ◌>>=◌, true, false, [], ◌∷◌, ◌++◌, arith, length, All, ◌==◌, take, leb,
}
use xbt_os_misaka.Shell.{
  split_arguments, Kernel, command, do_read, do_record, execute_command, prompt, prompted, say,
  skip_spaces, skip_token, starts_with,
}
use xbt_os_misaka.Shell.Arguments.{split_arguments-run, token}
use xbt_os_misaka.Shell.Commands.{IsValid}
use xbt_os_misaka.Vfs
use xbt_os_misaka.Vfs.{FileResult, file_data_size, max_files, read, write}
use xbt_os_misaka.Vfs.Names.{head-text, is_name, is_name-short, name_of, name_of-buffer}
use xbt_os_misaka.Vfs.Refine.{Refines, store_of}
use xbt_os_misaka.Vfs.Refine.Stored.{Fits}
use xbt_os_misaka.Vfs.Refine.Contents.{write-Refines}
use xbt_os_misaka.Vfs.Refine.Reads.{read-eq_lookup}
use xbt_os_misaka.Vfs.Search.{view}
use xbt_os_misaka.Vfs.Store
use xbt_os_misaka.Vfs.Store.{Store, assign, update}

-- A byte of a word of a command line.
abbrev pub IsWordByte : ℕ → Type 0
IsWordByte c = (c ≢ 0) × (c ≢ b' ')

-- A name of a file that a command line can hold as one word.
pub record IsWord (n : Bytes) : Type 0 where
  pub proper : is_name n ≡ true
  pub word : All IsWordByte n

-- What a line can end with as the content of a file.
pub record IsContent (content : Bytes) : Type 0 where
  pub starts : head content ≢ 0
  pub no_space : head content ≢ b' '
  pub whole : text content ≡ content
  pub fits : length content < file_data_size

token-word : (s rest : Bytes) → All IsWordByte s → token (s ++ b' ' ∷ rest) ≡ s
token-word [] rest all = refl
token-word (c ∷ s) rest all = let later = token-word s rest (all.1) in ground (arith, all.0, later)

skip_token-word : (s rest : Bytes) → All IsWordByte s → skip_token (s ++ b' ' ∷ rest) ≡ b' ' ∷ rest
unfolding skip_token
skip_token-word [] rest all = refl
skip_token-word (c ∷ s) rest all =
    let later = skip_token-word s rest (all.1) in ground (arith, all.0, later)

skip_spaces-head : (s : Bytes) → head s ≢ b' ' → skip_spaces s ≡ s
unfolding skip_spaces
skip_spaces-head [] ne = refl
skip_spaces-head (c ∷ s) ne = ground (arith, ne)

take-short : (n : ℕ) (s : Bytes) → length s ≤ n → take n s ≡ s
take-short zero [] le = refl
take-short (suc n) [] le = refl
take-short zero (c ∷ s) le = absurd (omega arith)
take-short (suc n) (c ∷ s) le = ap (λ r. c ∷ r) (take-short n s (omega arith))

-- A name of the store, and contents that fit, where there is room for one more name.
Store-write :
    (s : Store) (path : Option Bytes) {n : Bytes} (c : Bytes)
    → name_of path ≡ some n
    → s.count < max_files
    → length c < file_data_size
    → (s' : Store) × (Store.write s path c ≡ (Vfs.ok, s'))
      × (s'.lookup n ≡ some c)
      × ((q : Bytes) → streq n q ≡ false → s'.lookup q ≡ s.lookup q)
unfolding Store.write Store.put Store.add
Store-write s path {n} c named room fits =
    let small : leb file_data_size (length c) ≡ false = ground arith in
    let added : Store =
      assign (record { lookup = update s.lookup n (some []); count = s.count + 1 }) n (some c) in
    let few : leb max_files s.count ≡ false = ground arith in
    elim (Option-cases (s.lookup n)) [
      | inl absent ↦ (
        added,
        rw (Store.write, named, absent, few, small) refl,
        rw (streq_refl n) refl,
        λ q other. rw other refl,
      )
      | inr (old, held) ↦ (
        assign s n (some c),
        rw (Store.write, named, held, small) refl,
        rw (streq_refl n) refl,
        λ q other. rw other refl,
      )
    ]

-- The arguments of `rec` for a word and a content.
split_arguments-word :
    (n content : Bytes)
    → IsWord n
    → IsContent content
    → (filename : Bytes) × (split_arguments (n ++ b' ' ∷ content) ≡ some (filename, content))
      × (text filename ≡ n)
unfolding skip_spaces
split_arguments-word n content is holds =
    let (filename, ran, t) = split_arguments-run (n ++ b' ' ∷ content) in
    let behind : skip_spaces (skip_token (n ++ b' ' ∷ content)) ≡ content =
      rw (skip_token-word n content is.word) (skip_spaces-head content holds.no_space) in
    let first = token-word n content is.word in
    let short = take-short 31 n (omega (arith, is_name-short n is.proper)) in
    (filename, rw behind at ran, t ∙ rw first short)

command-rec :
    (cpuid : ℕ → ℕ × ℕ × ℕ × ℕ) (k : Kernel) (args : Bytes)
    → command cpuid (bytes "rec " ++ args) k ≡ do_record k (skip_spaces args)
unfolding command bytes starts_with kstrcmp skip_spaces
command-rec cpuid k args = refl

command-rdf :
    (cpuid : ℕ → ℕ × ℕ × ℕ × ℕ) (k : Kernel) (args : Bytes)
    → command cpuid (bytes "rdf " ++ args) k ≡ do_read k (skip_spaces args)
unfolding command bytes starts_with kstrcmp skip_spaces
command-rdf cpuid k args = refl

-- A word neither ends a line nor starts with a space.
word-head : (n rest : Bytes) → IsWord n → (head (n ++ rest) ≢ b' ') × (head n ≢ b' ') × (head n ≢ 0)
unfolding is_name
word-head [] rest is = absurd (ground (arith, is.proper))
word-head (c ∷ n) rest is = (is.word.0.1, is.word.0.1, is.word.0.0)

-- `rec` with a word and a content writes the content under the word.
rec-writes :
    {k : Kernel} (n content : Bytes)
    → IsValid k
    → IsWord n
    → IsContent content
    → k.vfs.file_count < max_files
    → (k' : Kernel) × (do_record k (skip_spaces (n ++ b' ' ∷ content))
        ≡ some (k', say k.language I18n.file_write_ok))
      × IsValid k'
      × (view k'.vfs n ≡ some content)
      × ((q : Bytes) → streq n q ≡ false → view k'.vfs q ≡ view k.vfs q)
unfolding do_record
rec-writes {k} n content v is holds room =
    let (filename, split, t) = split_arguments-word n content is holds in
    let (starts, _, ends) = word-head n (b' ' ∷ content) is in
    let begun : (head filename == 0) ≡ false = ground (arith, head-text filename, t, ends) in
    let more : (head content == 0) ≡ false = ground (arith, holds.starts) in
    let (s', wrote, has, keeps) =
      Store-write (store_of k.vfs) (some filename) content (name_of-buffer filename is.proper t)
        room holds.fits in
    let done : Store.write (store_of k.vfs) (some filename) (text content) ≡ (Vfs.ok, s') =
      rw holds.whole wrote in
    let fits : Fits content = omega (arith, holds.fits, ap length holds.whole) in
    let (fs', ran, valid, stored) =
      subst (Refines (write k.vfs (some filename) (some content))) done
        (write-Refines (some filename) (some content) v.files fits) in
    (
      record k { vfs = fs' },
      rw (skip_spaces-head (n ++ b' ' ∷ content) starts, split, begun, more, ran) refl,
      record { files = valid; apps = v.apps },
      ap (λ (t : Store). t.lookup n) stored ∙ has,
      λ q other. ap (λ (t : Store). t.lookup q) stored ∙ keeps q other,
    )

-- A read that finds contents leads to a buffer that holds them.
read-found :
    (run : Run (Option Bytes)) {c : Bytes}
    → (run >>= λ r. some (Option.map text r)) ≡ some (some c)
    → (b : Bytes) × (run ≡ some (some b)) × (text b ≡ c)
read-found none e = absurd (ground (arith, e))
read-found (some none) e = cc
read-found (some (some b)) {c} e =
    (b, refl, some-injective (text b) c (some-injective (some (text b)) (some c) e))

word-text : (s : Bytes) → All IsWordByte s → text s ≡ s
unfolding text
word-text [] all = refl
word-text (c ∷ s) all = let later = word-text s (all.1) in ground (arith, all.0, later)

-- `rdf` with a word prints what the file holds.
rdf-reads :
    {k : Kernel} (n : Bytes) {content : Bytes}
    → IsValid k
    → IsWord n
    → view k.vfs n ≡ some content
    → (b : Bytes) × (do_read k (skip_spaces n) ≡ some (k, print_utf8 b ++ print "\n"))
      × (text b ≡ content)
unfolding do_read Store.read
rdf-reads {k} n {content} v is held =
    let named = name_of-buffer n is.proper (word-text n is.word) in
    let found : Store.read (store_of k.vfs) (some n) ≡ some content = rw (Store.read, named) held in
    let (b, ran, t) =
      read-found (read k.vfs (some n)) (read-eq_lookup (some n) v.files ∙ ap some found) in
    (b, rw (skip_spaces-head n (word-head n [] is).1, ran) refl, t)

-- While the table has room, `rec` with a word and a content, and then `rdf` with the word, print the
-- message of success and the content, each with the prompt behind it. No other file is changed.
pub rdf-rec :
    (cpuid : ℕ → ℕ × ℕ × ℕ × ℕ) {k : Kernel} (n content : Bytes)
    → IsValid k
    → IsWord n
    → IsContent content
    → k.vfs.file_count < max_files
    → (k' : Kernel) × (b : Bytes) × (execute_command cpuid (bytes "rec " ++ (n ++ b' ' ∷ content)) k
        ≡ some (k', say k.language I18n.file_write_ok ++ prompt k'))
      × (execute_command cpuid (bytes "rdf " ++ n) k'
          ≡ some (k', (print_utf8 b ++ print "\n") ++ prompt k'))
      × (text b ≡ content)
      × IsValid k'
      × ((q : Bytes) → streq n q ≡ false → view k'.vfs q ≡ view k.vfs q)
unfolding execute_command
rdf-rec cpuid {k} n content v is holds room =
    let (k', wrote, v', held, keeps) = rec-writes n content v is holds room in
    let (b, reads, t) = rdf-reads n v' is held in
    (
      k',
      b,
      ap prompted (command-rec cpuid k (n ++ b' ' ∷ content) ∙ wrote),
      ap prompted (command-rdf cpuid k' n ∙ reads),
      t,
      v',
      keeps,
    )
