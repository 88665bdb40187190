-- ===== src/Vfs/Listing/Lines.antt =====
-- What `list` prints: a line for each file of the table.
use mathlib.Core.List.{append_assoc}
use mathlib.Core.Path.{subst}
use xbt_os_misaka.Console.{Trace, bytes, clear, print, put_char, write, write_utf8}
use xbt_os_misaka.Decimal.{IsDigit, digits, digits_lem, value_of}
use xbt_os_misaka.KString.{Bytes, IsText, head, text}
use xbt_os_misaka.KString.Compare.{text-eq_self}
use xbt_os_misaka.Prelude.{
  ℕ, some, zero, suc, ◌⊎◌, ◌^◌, ◌≤◌, ◌<◌, ◌≡◌, ◌≢◌, inl, inr, refl, ap, true, not, All, List, [],
  ◌∷◌, ◌++◌, ◌==◌, if◌then◌else◌, arith, get_or, length, take,
}
use xbt_os_misaka.Vfs.{File, FileSystem, zero_file}
use xbt_os_misaka.Vfs.Listing.{list, list_file, list_loop}
use xbt_os_misaka.Vfs.Search.{IsFile, IsValid}

-- The bytes that a trace prints, one after another.
abbrev pub printed : Trace → Bytes
printed [] = []
printed (clear ∷ t) = printed t
printed (put_char c ∷ t) = c ∷ printed t
printed (write s ∷ t) = text s ++ printed t
printed (write_utf8 s ∷ t) = text s ++ printed t

-- The text is the decimal form of the number: its digits, without a leading zero.
abbrev pub IsDecimal : ℕ → Bytes → Type 0
IsDecimal n d = (value_of 0 d ≡ n) × All IsDigit d × ((d ≡ b'0' ∷ []) ⊎ ((n ≢ 0) × (head d ≢ b'0')))

-- The bytes are one line for each file, with its name and the length of its content.
abbrev pub AreLines : List File → Bytes → Type 0
AreLines [] out = out ≡ []
AreLines (f ∷ files) out =
    (size rest : Bytes) × (out
      ≡ bytes " - " ++ (text f.name ++ (bytes "  " ++ (size ++ (bytes " bytes\n" ++ rest)))))
    × IsDecimal (length (text f.contents)) size
    × AreLines files rest

-- The same, and a line of its own where there is no file.
abbrev pub IsListing : List File → Bytes → Type 0
IsListing [] out = out ≡ bytes " (empty)\n"
IsListing (f ∷ files) out = AreLines (f ∷ files) out

digit-ne_zero : (s : Bytes) → All IsDigit s → IsText s
digit-ne_zero [] all = tt
digit-ne_zero (c ∷ s) all = (omega (arith, all.0), digit-ne_zero s (all.1))

digits-leads : (n : ℕ) → n < 2 ^ 32 → (digits n ≡ b'0' ∷ []) ⊎ ((n ≢ 0) × (head (digits n) ≢ b'0'))
unfolding digits
digits-leads zero lt = inl refl
digits-leads (suc n) lt =
    let positive : suc n ≢ 0 = omega arith in inr (positive, (digits_lem (suc n) lt).2 positive)

digits-IsDecimal : (n : ℕ) → n < 2 ^ 32 → IsDecimal n (digits n)
digits-IsDecimal n lt = let (value, all, _) = digits_lem n lt in (value, all, digits-leads n lt)

text-digits : (n : ℕ) → n < 2 ^ 32 → text (digits n) ≡ digits n
text-digits n lt =
    let (_, all, _) = digits_lem n lt in text-eq_self (digits n) (digit-ne_zero (digits n) all)

printed-append : (t t' : Trace) → printed (t ++ t') ≡ printed t ++ printed t'
printed-append [] t' = refl
printed-append (clear ∷ t) t' = printed-append t t'
printed-append (put_char c ∷ t) t' = ap (λ s. c ∷ s) (printed-append t t')
printed-append (write s ∷ t) t' =
    rw (printed-append t t', append_assoc (text s) (printed t) (printed t')) refl
printed-append (write_utf8 s ∷ t) t' =
    rw (printed-append t t', append_assoc (text s) (printed t) (printed t')) refl

list_loop_lem :
    (files : List File) (rounds : ℕ)
    → rounds ≤ length files
    → ((i : ℕ) → i < rounds → IsFile (get_or files i zero_file))
    → (t : Trace) × (list_loop files rounds ≡ some (not (rounds == 0), t))
      × AreLines (take rounds files) (printed t)
unfolding list_loop list_file text bytes
list_loop_lem [] zero le used = ([], refl, refl)
list_loop_lem [] (suc rounds) le used = absurd (omega arith)
list_loop_lem (f ∷ files) zero le used = ([], refl, refl)
list_loop_lem (f ∷ files) (suc rounds) le used =
    let (t, run, lines) =
      list_loop_lem files rounds (omega arith) (λ i lt. used (suc i) (omega arith)) in
    let first = used 0 (omega arith) in
    let small : f.size < 2 ^ 32 = omega (arith, first.room) in
    let some_files : not (suc rounds == 0) ≡ true = ground arith in
    (
      list_file f ++ t,
      rw (run, first.used, some_files) refl,
      (
        digits f.size,
        printed t,
        ap
            (λ s.
              bytes " - "
              ++ (text f.name ++ (bytes "  " ++ (s ++ (bytes " bytes\n" ++ printed t)))))
            (text-digits f.size small),
        subst (λ n. IsDecimal n (digits f.size)) first.sized (digits-IsDecimal f.size small),
        lines,
      ),
    )

AreLines-IsListing :
    (files : List File) (rounds : ℕ) (t : Trace)
    → rounds ≤ length files
    → AreLines (take rounds files) (printed t)
    → IsListing
        (take rounds files)
        (printed (if not (rounds == 0) then t else t ++ print " (empty)\n"))
unfolding text bytes
AreLines-IsListing [] zero t le lines = rw (printed-append t (print " (empty)\n"), lines) refl
AreLines-IsListing [] (suc rounds) t le lines = absurd (omega arith)
AreLines-IsListing (f ∷ files) zero t le lines =
    rw (printed-append t (print " (empty)\n"), lines) refl
AreLines-IsListing (f ∷ files) (suc rounds) t le lines =
    let some_files : not (suc rounds == 0) ≡ true = ground arith in rw some_files lines

-- On a valid table `list` does not fault. It prints, for the files in the order of their slots, one line
-- for each: ` - `, the name, two spaces, the length of the content in decimal without leading zeros,
-- ` bytes` and the end of the line. On an empty table it prints a line that says so. It prints nothing
-- else.
pub list_lem :
    {fs : FileSystem}
    → IsValid fs
    → (t : Trace) × (list fs ≡ some t) × IsListing (take fs.file_count fs.files) (printed t)
unfolding list
list_lem {fs} v =
    let fits : fs.file_count ≤ length fs.files = omega (arith, v.table, v.count) in
    let (t, run, lines) = list_loop_lem fs.files fs.file_count fits v.slot in
    (
      if not (fs.file_count == 0) then t else t ++ print " (empty)\n",
      rw run refl,
      AreLines-IsListing fs.files fs.file_count t fits lines,
    )
