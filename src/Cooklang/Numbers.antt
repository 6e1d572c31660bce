-- ===== src/Cooklang/Numbers.antt =====
-- `Decimal(text)`, as cooklang/parse.py calls it. Digits outside ASCII are not read.
pub mod Digits
pub mod Plain
pub mod RoundTrip
use snap_cook.Common.{
  Str, codes, str_eq, ℕ, zero, suc, ◌+◌, ◌-◌, ◌*◌, ltb, leb, ◌==◌, Bool, true, false, ◌&&◌, ◌||◌,
  not, Option, none, some, List, [], ◌∷◌, ◌++◌, map, length, if◌then◌else◌,
}
use snap_cook.Common.Int.{ℤ, pos, negsuc, neg_part, pos_part, ◌-ℤ◌}
use snap_cook.Errors.{Result, ok, err, ◌>>=◌, value_error, invalid_operation}
use snap_cook.Decimal.{Decimal}
use snap_cook.Units.Registry.{lower_char, strip_left, strip_right}

-- What a text is read as: a number, an infinity or NaN, or nothing.
pub data Reading : Type 0 where
  finite : Decimal → Reading
  special unreadable : Reading

abbrev pub is_digit : ℕ → Bool
is_digit c = leb 48 c && leb c 57

-- The value of a run of digits behind `n`; anything else is no number.
unfoldable pub digits_value : ℕ → Str → Option ℕ
digits_value n [] = some n
digits_value n (c ∷ s) = if is_digit c then digits_value (n * 10 + (c - 48)) s else none

-- `partition`: the text before and behind the first such character, if there is one
unfoldable pub break_at : ℕ → Str → Option (Str × Str)
break_at mark [] = none
break_at mark (c ∷ s) =
    if c == mark
    then some ([], s)
    else elim (break_at mark s) [ none ↦ none | some p ↦ some (c ∷ p.0, p.1) ]

abbrev pub without_underscores : Str → Str
without_underscores [] = []
without_underscores (c ∷ s) = let rest = without_underscores s in if c == 95 then rest else c ∷ rest

-- An optional sign, and the rest.
abbrev pub signed : Str → Bool × Str
signed [] = (false, [])
signed (c ∷ s) = if c == 45 then (true, s) else if c == 43 then (false, s) else (false, c ∷ s)

-- The digits of an exponent, of which there is at least one.
unfoldable pub exponent : Str → Option ℤ
exponent s = elim (signed s).1 [
  | [] ↦ none
  | c ∷ rest ↦ elim (digits_value 0 (c ∷ rest)) [
    | none ↦ none
    | some n ↦ some (if (signed s).0 then pos 0 -ℤ pos n else pos n)
  ]
]

-- The digits before and behind the point.
abbrev pub coefficient : Bool → (whole fraction : Str) → (exp : ℤ) → Option Decimal
coefficient neg whole fraction exp = elim (whole ++ fraction) [
  | [] ↦ none
  | c ∷ rest ↦ elim (digits_value 0 (c ∷ rest)) [
    | none ↦ none
    | some n ↦ some (record { neg = neg; coeff = n; exp = exp -ℤ pos (length fraction) })
  ]
]

-- Digits with an optional point.
unfoldable pub mantissa : Bool → Str → (exp : ℤ) → Option Decimal
mantissa neg s exp = elim (break_at 46 s) [
  | none ↦ coefficient neg s [] exp
  | some p ↦ coefficient neg p.0 p.1 exp
]

-- A number with an optional exponent, in lower case.
unfoldable pub unsigned : Bool → Str → Option Decimal
unsigned neg s = elim (break_at 101 s) [
  | none ↦ mantissa neg s (pos 0)
  | some p ↦ elim (exponent p.1) [ none ↦ none | some e ↦ mantissa neg p.0 e ]
]

-- `nan` or `snan` and a run of digits
abbrev pub is_nan_tail : Str → Bool
is_nan_tail s = elim (digits_value 0 s) [ none ↦ false | some n ↦ true ]

-- The text behind a prefix.
unfoldable pub drop_prefix : (prefix s : Str) → Option Str
drop_prefix [] s = some s
drop_prefix (c ∷ prefix) [] = none
drop_prefix (c ∷ prefix) (d ∷ s) = if c == d then drop_prefix prefix s else none

abbrev pub is_nan : (prefix s : Str) → Bool
is_nan prefix s = elim (drop_prefix prefix s) [ none ↦ false | some t ↦ is_nan_tail t ]

unfoldable pub is_special : Str → Bool
is_special s =
    str_eq s (codes "inf")
    || str_eq s (codes "infinity")
    || is_nan (codes "nan") s
    || is_nan (codes "snan") s

unfoldable pub read : Str → Reading
read text =
    let p = signed (map lower_char (without_underscores (strip_right (strip_left text)))) in
    if is_special p.1
    then special
    else elim (unsigned p.0 p.1) [ none ↦ unreadable | some d ↦ finite d ]

-- `_is_number`
unfoldable pub is_number : Str → Bool
is_number text = elim (read text) [ unreadable ↦ false | _ ↦ true ]

-- `Decimal(text)` for a field of a schema object, which refuses what is not finite
unfoldable pub field_value : Reading → Result Decimal
field_value (finite d) = ok d
field_value special = err value_error
field_value unreadable = err invalid_operation

-- Two such fields; both texts are read before the object is built.
unfoldable pub field_values : (low high : Reading) → Result (Decimal × Decimal)
field_values unreadable high = err invalid_operation
field_values special unreadable = err invalid_operation
field_values special high = err value_error
field_values (finite low) high = field_value high >>= λ h. ok (low, h)
