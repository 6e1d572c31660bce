-- ===== src/Decimal/Arith.antt =====
-- Python's `decimal.Decimal`: sums, quotients and roundings, as the default context computes them.
use snap_cook.Common.{
  ℕ, zero, suc, ◌+◌, ◌-◌, ◌*◌, ◌/◌, ◌%◌, ◌^◌, ltb, leb, ◌==◌, Bool, false, not, if◌then◌else◌,
}
use snap_cook.Common.Int.{ℤ, pos, pos_part, neg_part, ltb_ℤ, ◌+ℤ◌, ◌-ℤ◌}
use snap_cook.Errors.{Result, ok, ◌>>◌, raise_if, invalid_operation}
use snap_cook.Decimal.{Decimal, precision, digits, finish, xor}

-- `abs`
abbrev pub abs : Decimal → Decimal
abs d = finish false d.coeff d.exp

-- `int`, of a number that is not negative
abbrev pub truncate : Decimal → ℕ
truncate d = (d.coeff * 10 ^ pos_part d.exp) / 10 ^ neg_part d.exp

-- The sum of two coefficients with their signs, at one exponent.
unfoldable pub signed_sum : (neg : Bool) (coeff : ℕ) (neg' : Bool) (coeff' : ℕ) (exp : ℤ) → Decimal
signed_sum neg coeff neg' coeff' exp =
    if not (xor neg neg')
    then finish neg (coeff + coeff') exp
    else if ltb coeff coeff'
    then finish neg' (coeff' - coeff) exp
    else if ltb coeff' coeff
    then finish neg (coeff - coeff') exp
    else finish false 0 exp

-- `a + b`
unfoldable pub sum : Decimal → Decimal → Decimal
sum a b =
    signed_sum a.neg (a.coeff * 10 ^ pos_part (a.exp -ℤ b.exp)) b.neg
      (b.coeff * 10 ^ pos_part (b.exp -ℤ a.exp)) (if ltb_ℤ a.exp b.exp then a.exp else b.exp)

-- `a - b`
abbrev pub sub : Decimal → Decimal → Decimal
sub a b = sum a (record b { neg = not b.neg })

-- An exact quotient loses the zeros at its end while its exponent is below the ideal one, by `k`.
unfoldable pub reduce : (k : ℕ) → Bool → ℕ → (ideal : ℤ) → Decimal
reduce zero neg q ideal = record { neg = neg; coeff = q; exp = ideal }
reduce (suc k) neg q ideal =
    let rest = reduce k neg (q / 10) ideal in
    if q % 10 == 0 then rest else record { neg = neg; coeff = q; exp = ideal -ℤ pos (suc k) }

-- The digits of a quotient, with a last one that keeps the rounding right if it is not exact.
unfoldable pub quotient : Bool → (num den : ℕ) (shift ideal : ℤ) → Decimal
quotient neg num den shift ideal =
    let q = num / den in
    if num % den == 0
    then reduce (pos_part shift) neg q (ideal +ℤ pos (neg_part shift))
    else record { neg = neg; coeff = if q % 5 == 0 then q + 1 else q; exp = ideal -ℤ shift }

-- `a / b`, for `b` that is not zero
unfoldable pub div : Decimal → Decimal → Decimal
div a b =
    let neg = xor a.neg b.neg in
    let ideal = a.exp -ℤ b.exp in
    let shift = pos (digits b.coeff + precision + 1) -ℤ pos (digits a.coeff) in
    let raw =
      quotient neg (a.coeff * 10 ^ pos_part shift) (b.coeff * 10 ^ neg_part shift) shift ideal in
    if a.coeff == 0 then finish neg 0 ideal else finish neg raw.coeff raw.exp

-- n / 10^k, rounded half up
unfoldable pub half_up : ℕ → ℕ → ℕ
half_up n k = let unit = 10 ^ k in if leb unit (2 * (n % unit)) then n / unit + 1 else n / unit

-- `value.quantize(Decimal(1).scaleb(exp), …)`, with the rounding of a coefficient as an argument
unfoldable pub quantize : (rounding : ℕ → ℕ → ℕ) → Decimal → ℤ → Result Decimal
quantize rounding value exp = do
  let coeff : ℕ =
      rounding (value.coeff * 10 ^ pos_part (value.exp -ℤ exp)) (pos_part (exp -ℤ value.exp))
  raise_if (ltb precision (digits coeff)) invalid_operation
  ok (record { neg = value.neg; coeff = coeff; exp = exp })

-- `adjusted`: the exponent of the first digit
abbrev pub adjusted : Decimal → ℤ
adjusted d = d.exp +ℤ pos (digits d.coeff - 1)
