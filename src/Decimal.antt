-- ===== src/Decimal.antt =====
-- Python's `decimal.Decimal`, finite values only: (-1)^neg * coeff * 10^exp, with the arithmetic of
-- the default context (28 digits, half-even). Exponents beyond the context's range of 999999 do
-- not occur: the model has no overflow and no subnormal numbers.
pub mod Arith
pub mod Digits
pub mod Order
use snap_cook.Common.{
  ℕ, zero, suc, ◌+◌, ◌-◌, ◌*◌, ◌/◌, ◌%◌, ◌^◌, ltb, ◌==◌, Bool, true, false, ◌&&◌, ◌||◌, not,
  if◌then◌else◌,
}
use snap_cook.Common.Int.{ℤ, pos, pos_part, neg_part, ◌+ℤ◌}

pub record Decimal : Type 0 where
  pub neg : Bool
  pub coeff : ℕ
  pub exp : ℤ

abbrev pub precision : ℕ
precision = 28

-- The number of decimal digits; the number itself is fuel enough.
unfoldable pub digits_on : ℕ → ℕ → ℕ
digits_on zero n = 1
digits_on (suc fuel) n = elim (ltb n 10) [ true ↦ 1 | false ↦ suc (digits_on fuel (n / 10)) ]

abbrev pub digits : ℕ → ℕ
digits n = digits_on n n

-- n / 10^k, rounded half to even
unfoldable pub half_even : ℕ → ℕ → ℕ
half_even n k =
    let unit = 10 ^ k in
    let quotient = n / unit in
    let twice = 2 * (n % unit) in
    if ltb unit twice || ((twice == unit) && (quotient % 2 == 1)) then quotient + 1 else quotient

-- The context rounds a coefficient that is too long; a carry out of the last digit shortens it.
unfoldable pub finish : Bool → ℕ → ℤ → Decimal
unfolding half_even
finish neg coeff exp =
    let excess = digits coeff - precision in
    let rounded = half_even coeff excess in
    if ltb precision (digits coeff)
    then (if rounded == 10 ^ precision
        then record { neg = neg; coeff = 10 ^ (precision - 1); exp = exp +ℤ pos (excess + 1) }
        else record { neg = neg; coeff = rounded; exp = exp +ℤ pos excess })
    else record { neg = neg; coeff = coeff; exp = exp }

abbrev pub xor : Bool → Bool → Bool
xor true b = not b
xor false b = b

-- `a * b`
unfoldable pub mul : Decimal → Decimal → Decimal
unfolding finish
mul a b = finish (xor a.neg b.neg) (a.coeff * b.coeff) (a.exp +ℤ b.exp)

-- The coefficient of `a`, brought to the smaller of the two exponents (up to a common factor).
abbrev pub aligned : Decimal → Decimal → ℕ
aligned a b = a.coeff * 10 ^ (pos_part a.exp + neg_part b.exp)

-- `a < b`
unfoldable pub less : Decimal → Decimal → Bool
less a b =
    if a.neg
    then (if b.neg then ltb (aligned b a) (aligned a b) else not ((a.coeff == 0) && (b.coeff == 0)))
    else (if b.neg then false else ltb (aligned a b) (aligned b a))

-- `a == b`
unfoldable pub equal : Decimal → Decimal → Bool
equal a b = if xor a.neg b.neg then (a.coeff == 0) && (b.coeff == 0) else aligned a b == aligned b a

abbrev pub of_nat : ℕ → Decimal
of_nat n = record { neg = false; coeff = n; exp = pos 0 }
