-- ===== src/Cooklang/Quantities.antt =====
-- cooklang/parse.py and cooklang/print_.py: the amount in the braces of a token. `str.lower` is a
-- parameter.
pub mod Places
pub mod Printed
pub mod RoundTrip
use snap_cook.Common.{
  Str, codes, str_eq, Bool, true, false, ◌&&◌, ◌||◌, not, Option, none, some, [], ◌∷◌, ◌++◌,
  if◌then◌else◌,
}
use snap_cook.Errors.{Result, ok, err, ◌>>=◌, ◌>>◌, raise_if, value_error}
use snap_cook.Dict.{Dict, get}
use snap_cook.Decimal.{Decimal}
use snap_cook.Canonical.Numbers.{encode_finite}
use snap_cook.Schema.Quantity.{
  Quantity, QuantitySpec, ScalingPolicy, linear, invariant, scalar, range, count, approx, Range,
  Count, SizeGrade, tiny, small, medium, large, xlarge, ApproxToken, pinch, dash, splash, handful,
  knob, to_taste, as_needed, for_garnish, for_frying, to_cover, UnitRef, range_ordered,
  count_ordered, approx_spec,
}
use snap_cook.Schema.Ingredient.{grade_value}
use snap_cook.Units.Registry.{resolve_unit, strip_left, strip_right}
use snap_cook.Cooklang.Numbers.{break_at, read, is_number, field_value, field_values}

abbrev pub stripped : Str → Str
stripped s = strip_right (strip_left s)

-- `SizeGrade(text)`, if it is one of `_SIZE_VALUES`
unfoldable pub size_of : Str → Option SizeGrade
size_of s =
    if str_eq s (codes "tiny")
    then some tiny
    else if str_eq s (codes "small")
    then some small
    else if str_eq s (codes "medium")
    then some medium
    else if str_eq s (codes "large")
    then some large
    else if str_eq s (codes "xlarge")
    then some xlarge
    else none

-- `_APPROX_TOKENS`
unfoldable pub approx_tokens : Dict ApproxToken
approx_tokens =
    (codes "a pinch", pinch)
    ∷ (codes "eine prise", pinch)
    ∷ (codes "a dash", dash)
    ∷ (codes "ein spritzer", dash)
    ∷ (codes "a splash", splash)
    ∷ (codes "ein schuss", splash)
    ∷ (codes "a handful", handful)
    ∷ (codes "eine handvoll", handful)
    ∷ (codes "a knob", knob)
    ∷ (codes "ein stück", knob)
    ∷ (codes "to taste", to_taste)
    ∷ (codes "nach geschmack", to_taste)
    ∷ (codes "as needed", as_needed)
    ∷ (codes "nach bedarf", as_needed)
    ∷ (codes "for garnish", for_garnish)
    ∷ (codes "zum garnieren", for_garnish)
    ∷ (codes "for frying", for_frying)
    ∷ (codes "zum braten", for_frying)
    ∷ (codes "to cover", to_cover)
    ∷ (codes "zum bedecken", to_cover)
    ∷ []

abbrev pub policy : (is_invariant : Bool) → ScalingPolicy
policy true = invariant
policy false = linear

-- The quantity before a unit.
unfoldable pub parse_with_unit : (number unit_part : Str) → Result Quantity
parse_with_unit number unit_part =
    let unit : Option UnitRef =
      some (record { unit_id = resolve_unit unit_part none; surface = unit_part; locale = none }) in
    elim (break_at 45 number) [
      | some p ↦ (do
        (low, high) ← field_values (read p.0) (read p.1)
        raise_if (not (range_ordered (record { low = low; high = high; unit = unit }))) value_error
        ok (range (record { low = low; high = high; unit = unit })))
      | none ↦ (do
        value ← field_value (read number)
        ok (scalar (record { value = value; unit = unit })))
    ]

abbrev pub single : Decimal → Option Decimal → Option SizeGrade → Quantity
single value high size = count (record { value = value; high = high; size = size })

-- A count between two numbers.
unfoldable pub parse_counts : (low high : Str) → Result QuantitySpec
parse_counts low high = do
  (value, value') ← field_values (read low) (read high)
  raise_if (not (count_ordered (record { value = value; high = some value'; size = none })))
      value_error
  ok (record { quantity = single value (some value') none; scaling = linear })

module _ (lower : Str → Str) where
  -- The words of an approximation; others mean "as needed".
  unfoldable pub token_of : Str → ApproxToken
  token_of body = elim (get approx_tokens (lower body)) [ none ↦ as_needed | some t ↦ t ]

  -- Without a unit: a count, or else the words of an approximation.
  unfoldable pub parse_bare : (body number : Str) → (is_invariant : Bool) → Result QuantitySpec
  parse_bare body number is_invariant =
      let single_or_words : Result QuantitySpec =
        if is_number number
        then (field_value (read number) >>= λ value.
            ok (record { quantity = single value none none; scaling = policy is_invariant }))
        else ok (approx_spec (token_of body) body none) in
      elim (break_at 45 number) [
        | none ↦ single_or_words
        | some p ↦ if is_number p.0 then parse_counts p.0 p.1 else single_or_words
      ]

  -- `_parse_quantity`, of a body that is not blank
  unfoldable pub parse_body : Str → (is_invariant : Bool) → Result QuantitySpec
  parse_body body is_invariant = elim (break_at 37 body) [
    | none ↦ parse_bare body body is_invariant
    | some p ↦ elim (size_of (stripped p.1)) [
      | some size ↦ (do
        value ← field_value (read (stripped p.0))
        ok (record { quantity = single value none (some size); scaling = linear }))
      | none ↦ (do
        quantity ← parse_with_unit (stripped p.0) (stripped p.1)
        ok (record { quantity = quantity; scaling = policy is_invariant }))
    ]
  ]

  -- `_parse_quantity`
  unfoldable pub parse_quantity : Str → (is_invariant : Bool) → Result (Option QuantitySpec)
  parse_quantity body is_invariant = elim (stripped body) [
    | [] ↦ ok none
    | c ∷ rest ↦ (do spec ← parse_body (c ∷ rest) is_invariant; ok (some spec))
  ]

abbrev pub behind_mark : Str → Option UnitRef → Str
behind_mark number none = number
behind_mark number (some unit) = number ++ codes "%" ++ unit.surface

-- `_bare_quantity_body`
unfoldable pub bare_quantity_body : Quantity → Str
bare_quantity_body (scalar s) = behind_mark (encode_finite s.value) s.unit
bare_quantity_body (range r) =
    behind_mark (encode_finite r.low ++ codes "-" ++ encode_finite r.high) r.unit
bare_quantity_body (count c) = elim c.size [
  | some size ↦ encode_finite c.value ++ codes "%" ++ grade_value size
  | none ↦ elim c.high [
    | some high ↦ encode_finite c.value ++ codes "-" ++ encode_finite high
    | none ↦ encode_finite c.value
  ]
]
bare_quantity_body (approx a) = a.surface

-- `_quantity_body`
unfoldable pub quantity_body : Option QuantitySpec → Str
quantity_body none = []
quantity_body (some spec) = bare_quantity_body spec.quantity
