-- ===== src/Prelude/Bits.antt =====
-- `bit_and` and `bit_or` at variables, from the recursion on binary digits that they stand for.
use Prim.Native.Nat.{
  ℕ, zero, suc, ◌+◌, ◌*◌, ◌/◌, ◌%◌, ◌≤◌, ◌<◌, min, max, bit_and, bit_or, digits, bit_and-bitwise,
  bit_or-bitwise,
}
use mathlib.Core.Path.{◌≡◌, refl, ap}
use native.Mathlib.Omega.{arith}

-- More fuel than the number itself changes nothing, for every operation on digits.
module _ (rest : ℕ → ℕ) (op : ℕ → ℕ → ℕ) where
  enough_digits :
      (x y more less : ℕ)
      → x ≤ less
      → less ≤ more
      → digits rest op more x y ≡ digits rest op less x y
  enough_digits zero y zero zero fits fewer = refl
  enough_digits zero y zero (suc less) fits fewer = absurd (omega arith)
  enough_digits zero y (suc more) zero fits fewer = refl
  enough_digits zero y (suc more) (suc less) fits fewer = refl
  enough_digits (suc x) y more zero fits fewer = absurd (omega arith)
  enough_digits (suc x) y zero (suc less) fits fewer = absurd (omega arith)
  enough_digits (suc x) y (suc more) (suc less) fits fewer =
      let halves = enough_digits (suc x / 2) (y / 2) more less (omega arith) (omega arith) in
      omega (arith, halves)

-- The lowest digit apart from the others.
pub bit_and_lowest : (x y : ℕ) → bit_and x y ≡ min (x % 2) (y % 2) + 2 * bit_and (x / 2) (y / 2)
bit_and_lowest zero y = omega (arith, bit_and-bitwise 0 (y / 2), bit_and-bitwise 0 y)
bit_and_lowest (suc x) y =
    let halves =
      enough_digits (λ y. zero) min (suc x / 2) (y / 2) x (suc x / 2) (omega arith) (omega arith) in
    omega (arith, halves, bit_and-bitwise (suc x / 2) (y / 2), bit_and-bitwise (suc x) y)

pub bit_or_lowest : (x y : ℕ) → bit_or x y ≡ max (x % 2) (y % 2) + 2 * bit_or (x / 2) (y / 2)
bit_or_lowest zero y = omega (arith, bit_or-bitwise 0 (y / 2), bit_or-bitwise 0 y)
bit_or_lowest (suc x) y =
    let halves =
      enough_digits (λ y. y) max (suc x / 2) (y / 2) x (suc x / 2) (omega arith) (omega arith) in
    omega (arith, halves, bit_or-bitwise (suc x / 2) (y / 2), bit_or-bitwise (suc x) y)

-- Zero as the second argument.
and_nothing : (bound x : ℕ) → x ≤ bound → bit_and x 0 ≡ 0
and_nothing zero zero fits = refl
and_nothing zero (suc x) fits = absurd (omega arith)
and_nothing (suc bound) x fits =
    omega (arith, and_nothing bound (x / 2) (omega arith), bit_and_lowest x 0)

or_nothing : (bound x : ℕ) → x ≤ bound → bit_or x 0 ≡ x
or_nothing zero zero fits = refl
or_nothing zero (suc x) fits = absurd (omega arith)
or_nothing (suc bound) x fits =
    omega (arith, or_nothing bound (x / 2) (omega arith), bit_or_lowest x 0)

pub bit_and-zero : (x : ℕ) → bit_and x 0 ≡ 0
bit_and-zero x = and_nothing x x (omega arith)

pub bit_or-zero : (x : ℕ) → bit_or x 0 ≡ x
bit_or-zero x = or_nothing x x (omega arith)

-- `2 ^ k`, and the mask below it, by recursion.
abbrev pub power : ℕ → ℕ
power zero = 1
power (suc k) = 2 * power k

abbrev pub mask_below : ℕ → ℕ
mask_below zero = 0
mask_below (suc k) = 1 + 2 * mask_below k

-- The mask keeps a number that is below the power.
pub bit_and-mask_below : (k x : ℕ) → x < power k → bit_and x (mask_below k) ≡ x
bit_and-mask_below zero x below = omega (arith, bit_and-zero x)
bit_and-mask_below (suc k) x below =
    let same : (1 + 2 * mask_below k) / 2 ≡ mask_below k = omega arith in
    let halved = ap (λ m. bit_and (x / 2) m) same in
    omega (
      arith,
      halved,
      bit_and_lowest x (1 + 2 * mask_below k),
      bit_and-mask_below k (x / 2) (omega arith),
    )
