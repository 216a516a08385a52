-- ===== src/Daemon/Process.antt =====
-- src/zygiskd/src/process.rs: what the daemon finds out about a process. A string is the list of its
-- characters, and a file is what `read_to_string` gives of it. The command line is only logged, and
-- left out.
use zygisk_magisk_module.Prelude.{
  ℕ, zero, suc, ℤ, pos, negsuc, minus_one, ◌+◌, ◌-◌, ◌*◌, ◌^◌, Bool, true, false, ◌&&◌, ◌||◌,
  Option, none, some, List, [], ◌∷◌, ◌++◌, ◌==◌, leb, get_elem?, if◌then◌else◌,
}
use zygisk_magisk_module.Prelude.Decimal.{decimal}
use zygisk_magisk_module.World.{Text, text}

-- What `fs::read_to_string` gives of the file with a path.
abbrev pub Files : Type 0
Files = Text → Option Text

pub record ProcessInfo : Type 0 where
  pub uid : ℤ
  pub flags : ℕ

-- A character in front of the first of some pieces.
abbrev pub push : ℕ → List Text → List Text
push c [] = (c ∷ []) ∷ []
push c (l ∷ ls) = (c ∷ l) ∷ ls

abbrev starts_newline : Text → Bool
starts_newline [] = false
starts_newline (c ∷ s) = c == b'\n'

-- `str::lines`: an end of line is "\n" or "\r\n".
unfoldable pub lines : Text → List Text
lines [] = []
lines (c ∷ s) =
    let rest = lines s in
    if c == b'\n' then [] ∷ rest else if (c == b'\r') && starts_newline s then rest else push c rest

-- `str::starts_with`
unfoldable pub starts_with : Text → Text → Bool
starts_with [] s = true
starts_with (b ∷ prefix) [] = false
starts_with (b ∷ prefix) (c ∷ s) = (b == c) && starts_with prefix s

-- `Iterator::find`, with `starts_with`.
unfoldable pub find_line : Text → List Text → Option Text
find_line prefix [] = none
find_line prefix (l ∷ ls) =
    let rest = find_line prefix ls in if starts_with prefix l then some l else rest

-- `char::is_whitespace`
unfoldable pub is_whitespace : ℕ → Bool
is_whitespace c =
    (leb 9 c && leb c 13)
    || (c == 32)
    || (c == 0x85)
    || (c == 0xA0)
    || (c == 0x1680)
    || (leb 0x2000 c && leb c 0x200A)
    || (c == 0x2028)
    || (c == 0x2029)
    || (c == 0x202F)
    || (c == 0x205F)
    || (c == 0x3000)

-- Whether a word ends here.
abbrev ends_word : Text → Bool
ends_word [] = true
ends_word (c ∷ s) = is_whitespace c

-- `str::split_whitespace`
unfoldable pub split_whitespace : Text → List Text
split_whitespace [] = []
split_whitespace (c ∷ s) =
    let rest = split_whitespace s in
    if is_whitespace c then rest else if ends_word s then (c ∷ []) ∷ rest else push c rest

unfoldable pub parse_digits : ℕ → Text → Option ℕ
parse_digits v [] = some v
parse_digits v (c ∷ s) =
    let rest = parse_digits (v * 10 + (c - 48)) s in if leb 48 c && leb c 57 then rest else none

-- `str::parse::<i32>`: a sign may stand before the digits, of which there is one at least; a number
-- that is out of range is an error.
abbrev negative : ℕ → ℤ
negative zero = pos 0
negative (suc n) = negsuc n

abbrev in_range : Option ℕ → ℕ → (ℕ → ℤ) → Option ℤ
in_range none bound number = none
in_range (some n) bound number = if leb n bound then some (number n) else none

-- The digits after a sign, if there are any.
abbrev parse_unsigned : Text → Option ℕ
parse_unsigned [] = none
parse_unsigned (c ∷ s) = parse_digits 0 (c ∷ s)

unfoldable pub parse_i32 : Text → Option ℤ
parse_i32 [] = none
parse_i32 (c ∷ s) =
    if c == b'-'
    then in_range (parse_unsigned s) (2 ^ 31) negative
    else if c == b'+'
    then in_range (parse_unsigned s) (2 ^ 31 - 1) pos
    else in_range (parse_unsigned (c ∷ s)) (2 ^ 31 - 1) pos

-- `{}` of an i32.
abbrev pub show_i32 : ℤ → Text
show_i32 (pos n) = decimal n
show_i32 (negsuc n) = b'-' ∷ decimal (suc n)

abbrev pub status_path : ℤ → Text
status_path pid = text "/proc/" ++ show_i32 pid ++ text "/status"

-- `and_then`
abbrev pub and_then {ℓ κ} : {A : Type ℓ} {B : Type κ} → Option A → (A → Option B) → Option B
and_then none f = none
and_then (some a) f = f a

abbrev pub or_minus_one : Option ℤ → ℤ
or_minus_one none = minus_one
or_minus_one (some n) = n

-- The number in the line "Uid:" of a status file.
unfoldable pub uid_in : Text → Option ℤ
uid_in status =
    and_then (find_line (text "Uid:") (lines status))
      (λ l. and_then (get_elem? (split_whitespace l) 1) parse_i32)

-- `ProcessInfo::new`
unfoldable pub process_info : Files → ℤ → ProcessInfo
process_info files pid = record {
  uid = or_minus_one (and_then (files (status_path pid)) uid_in);
  flags = 0;
}
