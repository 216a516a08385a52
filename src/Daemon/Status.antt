-- ===== src/Daemon/Status.antt =====
-- The daemon reads the user of a process out of a status file in the kernel's layout.
use zygisk_magisk_module.Prelude.{
  ℕ, suc, ℤ, pos, minus_one, ◌+◌, ◌-◌, ◌*◌, ◌/◌, ◌%◌, ◌^◌, ◌<◌, ◌≡◌, ◌≢◌, refl, ap, ◌∙◌, false,
  none, some, List, [], ◌∷◌, ◌++◌, ltb, get_elem?, map, All, All-append, arith, Bool-cases, inl,
  inr,
}
use zygisk_magisk_module.Prelude.Decimal.{
  decimal, digits, value, AreDigits, value-digits, digits-AreDigits,
}
use zygisk_magisk_module.World.{Text, text}
use zygisk_magisk_module.Daemon.Process.{
  Files, process_info, push, lines, starts_with, find_line, is_whitespace, split_whitespace,
  parse_digits, parse_i32, status_path, uid_in, and_then, or_minus_one,
}

-- A line without an end of line in it.
abbrev pub IsLine : Text → Type 0
IsLine = All (λ c. (c ≢ b'\n') × (c ≢ b'\r'))

-- Lines, each with its end.
abbrev pub unlines : List Text → Text → Text
unlines [] s = s
unlines (l ∷ ls) s = l ++ b'\n' ∷ unlines ls s

lines-line : (l s : Text) → IsLine l → lines (l ++ b'\n' ∷ s) ≡ l ∷ lines s
unfolding lines
lines-line [] s plain = refl
lines-line (c ∷ l) s ((not_n, not_r), plain) = ground (arith, lines-line l s plain)

-- The first line with the prefix is found.
find_line-unlines :
    (prefix : Text) (ls : List Text) (s : Text)
    → All (λ l. IsLine l × (starts_with prefix l ≡ false)) ls
    → find_line prefix (lines (unlines ls s)) ≡ find_line prefix (lines s)
unfolding find_line
find_line-unlines prefix [] s all = refl
find_line-unlines prefix (l ∷ ls) s ((plain, other), all) =
    ap (find_line prefix) (lines-line l (unlines ls s) plain)
    ∙ rw other (find_line-unlines prefix ls s all)

abbrev IsWord : Text → Type 0
IsWord = All (λ c. is_whitespace c ≡ false)

split_whitespace-push :
    (c d : ℕ) (s : Text)
    → is_whitespace c ≡ false
    → is_whitespace d ≡ false
    → split_whitespace (c ∷ d ∷ s) ≡ push c (split_whitespace (d ∷ s))
unfolding split_whitespace
split_whitespace-push c d s solid solid' = rw solid (rw solid' refl)

split_whitespace-word :
    (c : ℕ) (word s : Text)
    → IsWord (c ∷ word)
    → split_whitespace (c ∷ word ++ b'\t' ∷ s) ≡ (c ∷ word) ∷ split_whitespace s
unfolding split_whitespace is_whitespace
split_whitespace-word c [] s (solid, all) = rw solid refl
split_whitespace-word c (d ∷ word) s (solid, (solid', all)) =
    split_whitespace-push c d (word ++ b'\t' ∷ s) solid solid'
    ∙ ap (push c) (split_whitespace-word d word s (solid', all))

-- The line of the status file, with the four users.
abbrev pub uid_line : ℕ → Text → Text
uid_line n others = text "Uid:\t" ++ decimal n ++ b'\t' ∷ others

digit-IsWord : (d : ℕ) → d < 10 → is_whitespace (d + 48) ≡ false
unfolding is_whitespace
digit-IsWord d h = ground arith

parse_digits-value :
    (v : ℕ) (ds : List ℕ) → AreDigits ds → parse_digits v (map (λ d. d + 48) ds) ≡ some (value v ds)
unfolding parse_digits
parse_digits-value v [] are = refl
parse_digits-value v (d ∷ ds) (small, are) =
    let e : v * 10 + (d + 48 - 48) ≡ v * 10 + d = omega arith in
    ground (arith, e, parse_digits-value (v * 10 + d) ds are)

parse_i32-digits :
    (ds : List ℕ)
    → ds ≢ []
    → AreDigits ds
    → value 0 ds < 2 ^ 31
    → parse_i32 (map (λ d. d + 48) ds) ≡ some (pos (value 0 ds))
unfolding parse_i32
parse_i32-digits [] given are h = absurd (given refl)
parse_i32-digits (d ∷ ds) given (small, are) h =
    ground (arith, parse_digits-value 0 (d ∷ ds) (small, are))

digits-given : (fuel n : ℕ) → digits (suc fuel) n ≢ []
unfolding digits
digits-given fuel n = elim (Bool-cases (ltb n 10)) [
  | inl one ↦ rw one (λ e. cc)
  | inr more ↦ rw more (append-given (digits fuel (n / 10)) (n % 10))
]
  where
    append-given : (xs : List ℕ) (d : ℕ) → xs ++ d ∷ [] ≢ []
    append-given [] d e = cc
    append-given (x ∷ xs) d e = cc

pub parse_i32-decimal : (n : ℕ) → n < 2 ^ 31 → parse_i32 (decimal n) ≡ some (pos n)
unfolding decimal
parse_i32-decimal n h =
    let read = value-digits 11 n (omega arith) in
    parse_i32-digits (digits 11 n) (digits-given 10 n) (digits-AreDigits 11 n) (rw read h)
    ∙ ap (λ v. some (pos v)) read

digits-IsWord : (ds : List ℕ) → AreDigits ds → IsWord (map (λ d. d + 48) ds)
digits-IsWord [] are = tt
digits-IsWord (d ∷ ds) (small, are) = (digit-IsWord d small, digits-IsWord ds are)

split_whitespace-digits :
    (ds : List ℕ) (s : Text)
    → ds ≢ []
    → AreDigits ds
    → split_whitespace (map (λ d. d + 48) ds ++ b'\t' ∷ s)
      ≡ map (λ d. d + 48) ds ∷ split_whitespace s
split_whitespace-digits [] s given are = absurd (given refl)
split_whitespace-digits (d ∷ ds) s given are =
    split_whitespace-word (d + 48) (map (λ d. d + 48) ds) s (digits-IsWord (d ∷ ds) are)

split_whitespace-uid_line :
    (n : ℕ) (others : Text)
    → split_whitespace (uid_line n others) ≡ text "Uid:" ∷ decimal n ∷ split_whitespace others
unfolding split_whitespace is_whitespace decimal
split_whitespace-uid_line n others =
    ap (λ ws. text "Uid:" ∷ ws)
      (split_whitespace-digits (digits 11 n) others (digits-given 10 n) (digits-AreDigits 11 n))

digits-IsLine : (ds : List ℕ) → AreDigits ds → IsLine (map (λ d. d + 48) ds)
digits-IsLine [] are = tt
digits-IsLine (d ∷ ds) (small, are) = ((omega arith, omega arith), digits-IsLine ds are)

uid_line-IsLine : (n : ℕ) (others : Text) → IsLine others → IsLine (uid_line n others)
unfolding decimal
uid_line-IsLine n others plain =
    All-append _ (text "Uid:\t" ++ decimal n) (b'\t' ∷ others)
      (All-append _ (text "Uid:\t") (decimal n)
        (
          (omega arith, omega arith),
          (
            (omega arith, omega arith),
            (
              (omega arith, omega arith),
              ((omega arith, omega arith), ((omega arith, omega arith), tt)),
            ),
          ),
        )
        (digits-IsLine (digits 11 n) (digits-AreDigits 11 n)))
      ((omega arith, omega arith), plain)

find_line-uid_line :
    (n : ℕ) (others : Text) (ls : List Text)
    → find_line (text "Uid:") (uid_line n others ∷ ls) ≡ some (uid_line n others)
unfolding find_line starts_with
find_line-uid_line n others ls = refl

uid_in-uid_line :
    (before : List Text) (n : ℕ) (others after : Text)
    → All (λ l. IsLine l × (starts_with (text "Uid:") l ≡ false)) before
    → n < 2 ^ 31
    → IsLine others
    → uid_in (unlines before (uid_line n others ++ b'\n' ∷ after)) ≡ some (pos n)
unfolding uid_in
uid_in-uid_line before n others after all small plain =
    let found : find_line (text "Uid:")
          (lines (unlines before (uid_line n others ++ b'\n' ∷ after)))
        ≡ some (uid_line n others) =
      find_line-unlines (text "Uid:") before _ all
      ∙ ap (find_line (text "Uid:"))
          (lines-line (uid_line n others) after (uid_line-IsLine n others plain))
      ∙ find_line-uid_line n others (lines after) in
    ap (λ o. and_then o (λ l. and_then (get_elem? (split_whitespace l) 1) parse_i32)) found
    ∙ ap (λ ws. and_then (get_elem? ws 1) parse_i32) (split_whitespace-uid_line n others)
    ∙ parse_i32-decimal n small

-- From a status file as the kernel writes it, the daemon reads the process's real user: the number
-- after "Uid:" in the first line that starts with it. Without the file it gives -1.
pub process_info-uid :
    (files : Files) (pid : ℤ) (before : List Text) (n : ℕ) (others after : Text)
    → All (λ l. IsLine l × (starts_with (text "Uid:") l ≡ false)) before
    → n < 2 ^ 31
    → IsLine others
    → (files (status_path pid) ≡ some (unlines before (uid_line n others ++ b'\n' ∷ after))
        → (process_info files pid).uid ≡ pos n)
      × (files (status_path pid) ≡ none → (process_info files pid).uid ≡ minus_one)
unfolding process_info
process_info-uid files pid before n others after all small plain = (
  λ there.
      ap (λ o. or_minus_one (and_then o uid_in)) there
      ∙ ap or_minus_one (uid_in-uid_line before n others after all small plain),
  λ lacking. ap (λ o. or_minus_one (and_then o uid_in)) lacking,
)
