-- ===== src/Prelude/Decimal.antt =====
-- Numbers written in decimal, as in the names of /proc.
use Prim.Native.Nat.{ℕ, zero, suc, ◌+◌, ◌*◌, ◌/◌, ◌%◌, ◌≤◌, ◌<◌}
use mathlib.Core.Path.{◌≡◌, refl}
use mathlib.Core.List.{List, [], ◌∷◌, ◌++◌, map}
use native.Mathlib.Omega.{arith}
use zygisk_magisk_module.Prelude.Tests.{ltb, if◌then◌else◌}
use zygisk_magisk_module.Prelude.Predicates.{All, All-append}

-- The decimal digits of a number, the highest first; the fuel is for the number of digits.
unfoldable pub digits : ℕ → ℕ → List ℕ
digits zero n = []
digits (suc fuel) n =
    let rest = digits fuel (n / 10) in if ltb n 10 then n ∷ [] else rest ++ n % 10 ∷ []

-- The decimal name of a number below ten to the eleventh, such as a 32-bit number.
unfoldable pub decimal : ℕ → List ℕ
unfolding digits
decimal n = map (λ d. d + 48) (digits 11 n)

-- The number that digits stand for, after a number read before them.
abbrev pub value : ℕ → List ℕ → ℕ
value v [] = v
value v (d ∷ ds) = value (v * 10 + d) ds

abbrev pub AreDigits : List ℕ → Type 0
AreDigits = All (λ d. d < 10)

value-append : (v : ℕ) (xs : List ℕ) (d : ℕ) → value v (xs ++ d ∷ []) ≡ value v xs * 10 + d
value-append v [] d = refl
value-append v (x ∷ xs) d = value-append (v * 10 + x) xs d

pub le-value : (v : ℕ) (ds : List ℕ) → v ≤ value v ds
le-value v [] = omega arith
le-value v (d ∷ ds) = omega (arith, le-value (v * 10 + d) ds)

-- `2 ^ 33` is below ten to the tenth.
abbrev pub ten_power : ℕ → ℕ
ten_power zero = 1
ten_power (suc k) = ten_power k * 10

pub value-digits : (fuel n : ℕ) → n < ten_power fuel → value 0 (digits fuel n) ≡ n
unfolding digits
value-digits zero n h = omega arith
value-digits (suc fuel) n h = ground (
  arith,
  value-digits fuel (n / 10) (omega arith),
  value-append 0 (digits fuel (n / 10)) (n % 10),
)

pub digits-AreDigits : (fuel n : ℕ) → AreDigits (digits fuel n)
unfolding digits
digits-AreDigits zero n = tt
digits-AreDigits (suc fuel) n = ground (
  arith,
  All-append (λ d. d < 10) (digits fuel (n / 10)) (n % 10 ∷ []) (digits-AreDigits fuel (n / 10)),
)
