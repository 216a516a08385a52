-- ===== src/Fds/Parse.antt =====
-- `parse_int` reads back the decimal names that the kernel gives the entries of /proc/self/fd.
use zygisk_magisk_module.Prelude.{
  ℕ, pos, ◌+◌, ◌*◌, ◌%◌, ◌^◌, ◌<◌, ◌-◌, ◌≡◌, refl, List, [], ◌∷◌, map, arith, lt→ltb,
}
use zygisk_magisk_module.Prelude.Decimal.{
  digits, decimal, value, AreDigits, le-value, value-digits, digits-AreDigits,
}
use zygisk_magisk_module.World.{Text}
use zygisk_magisk_module.Fds.{parse_loop, parse_int}

parse_loop-value :
    (v : ℕ) (ds : List ℕ)
    → AreDigits ds
    → value v ds < 2 ^ 31
    → parse_loop v (map (λ d. d + 48) ds) ≡ value v ds
unfolding parse_loop
parse_loop-value v [] a h = refl
parse_loop-value v (d ∷ ds) a h =
    let e : (v * 10 + (d + 48 - 48)) % 2 ^ 32 ≡ v * 10 + d =
      omega (arith, le-value (v * 10 + d) ds) in
    ground (arith, e, parse_loop-value (v * 10 + d) ds a.1 h)

-- A descriptor number that an `int` can hold is read back from its decimal name.
pub parse_int-decimal : (n : ℕ) → n < 2 ^ 31 → parse_int (decimal n) ≡ pos n
unfolding parse_int decimal
parse_int-decimal n h =
    let read = value-digits 11 n (omega arith) in
    let small : value 0 (digits 11 n) < 2 ^ 31 = rw read h in
    rw (parse_loop-value 0 (digits 11 n) (digits-AreDigits 11 n) small, read) (rw (lt→ltb n _ h))

-- A name without a digit in front, such as the entry "." of every directory, is read as 0.
pub parse_int-dot : (rest : Text) → parse_int (b'.' ∷ rest) ≡ pos 0
unfolding parse_int
parse_int-dot rest = refl
