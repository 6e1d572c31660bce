-- ===== src/Canonical/Numbers.antt =====
-- `encode_decimal` of canonical/encode.py.
use snap_cook.Common.{
  Str, codes, ℕ, zero, suc, ◌+◌, ◌*◌, ◌/◌, ◌%◌, ◌^◌, ◌==◌, Bool, true, false, [], ◌∷◌, ◌++◌,
  if◌then◌else◌,
}
use snap_cook.Common.Int.{ℤ, pos, negsuc, ◌+ℤ◌}
use snap_cook.Errors.{Result, ok, err, canonicalization_error}
use snap_cook.Decimal.{Decimal, finish, digits}

-- The last `k` decimal digits of a number, the leading zeros included.
unfoldable pub last_digits : ℕ → ℕ → Str
last_digits zero n = []
last_digits (suc k) n = last_digits k (n / 10) ++ (48 + n % 10) ∷ []

unfoldable pub text_of : ℕ → Str
unfolding last_digits
text_of n = last_digits (digits n) n

-- `normalize` takes the zeros at the end off; a coefficient has fewer of them than its digits.
unfoldable pub strip_zeros : ℕ → Decimal → Decimal
strip_zeros zero d = d
strip_zeros (suc fuel) d =
    let rest = strip_zeros fuel (record d { coeff = d.coeff / 10; exp = d.exp +ℤ pos 1 }) in
    if d.coeff % 10 == 0 then rest else d

unfoldable pub normalize : Decimal → Decimal
unfolding strip_zeros finish
normalize d = let rounded = finish d.neg d.coeff d.exp in strip_zeros (digits rounded.coeff) rounded

abbrev pub sign_of : Bool → Str
sign_of true = codes "-"
sign_of false = []

-- The digits without an exponent, as `format(value, "f")` writes them.
abbrev pub plain : ℕ → ℤ → Str
plain coeff (pos k) = text_of (coeff * 10 ^ k)
plain coeff (negsuc k) =
    text_of (coeff / 10 ^ suc k) ++ codes "." ++ last_digits (suc k) (coeff % 10 ^ suc k)

-- `encode_decimal` of a finite number
unfoldable pub encode_finite : Decimal → Str
unfolding normalize text_of
encode_finite d =
    if d.coeff == 0 then codes "0" else sign_of d.neg ++ plain (normalize d).coeff (normalize d).exp

-- A Decimal may be an infinity or NaN.
pub data AnyDecimal : Type 0 where
  finite : Decimal → AnyDecimal
  non_finite : AnyDecimal

-- `encode_decimal`
unfoldable pub encode_decimal : AnyDecimal → Result Str
encode_decimal (finite d) = ok (encode_finite d)
encode_decimal non_finite = err canonicalization_error
