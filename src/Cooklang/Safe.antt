-- ===== src/Cooklang/Safe.antt =====
-- cooklang/parse.py: what its calls raise, and what they give otherwise.
use snap_cook.Common.{
  Str, ◌≡◌, refl, Bool, true, false, Option, none, some, [], ◌∷◌, if◌then◌else◌, Bool-cases, ◌⊎◌,
  inl, inr, ◌==◌, Option-cases,
}
use snap_cook.Errors.{Result, ok, err, ◌>>=◌, ◌>>◌, raise_if, value_error, invalid_operation}
use snap_cook.Schema.Quantity.{Quantity, QuantitySpec, scalar, range, count, approx, approx_spec}
use snap_cook.Cooklang.Numbers.{
  Reading, finite, special, unreadable, break_at, read, is_number, field_value, field_values,
}
use snap_cook.Cooklang.Quantities.{
  stripped, size_of, single, policy, token_of, parse_with_unit, parse_counts, parse_bare,
  parse_body, parse_quantity,
}
use snap_cook.Cooklang.Scanner.{timer_quantity_of, temperature_unit, amount_of}

-- A ValidationError or an InvalidOperation, or else a value with this property.
unfoldable pub Safe : {A : Type 0} → (A → Type 0) → Result A → Type 0
Safe P (err raised) = (raised ≡ value_error) ⊎ (raised ≡ invalid_operation)
Safe P (ok value) = P value

abbrev pub Any : {A : Type 0} → A → Type 0
Any a = Unit

pub ok-Safe : {A : Type 0} (P : A → Type 0) (a : A) → P a → Safe P (ok a)
unfolding Safe
ok-Safe P a h = h

pub value_error-Safe : {A : Type 0} (P : A → Type 0) → Safe P (err value_error)
unfolding Safe
value_error-Safe P = inl refl

pub >>=-Safe :
    {A B : Type 0} (P : A → Type 0) (Q : B → Type 0) (call : Result A) (next : A → Result B)
    → Safe P call
    → ((a : A) → P a → Safe Q (next a))
    → Safe Q (call >>= next)
unfolding Safe
>>=-Safe P Q (err raised) next h k = h
>>=-Safe P Q (ok value) next h k = k value h

pub if-Safe :
    {A : Type 0} (P : A → Type 0) (c : Bool) (x y : Result A)
    → Safe P x
    → Safe P y
    → Safe P (if c then x else y)
if-Safe P true x y h k = h
if-Safe P false x y h k = k

pub field_value-Safe : (r : Reading) → Safe Any (field_value r)
unfolding Safe field_value
field_value-Safe (finite d) = tt
field_value-Safe special = inl refl
field_value-Safe unreadable = inr refl

field_values-Safe : (low high : Reading) → Safe Any (field_values low high)
unfolding Safe field_value field_values
field_values-Safe unreadable high = inr refl
field_values-Safe special unreadable = inr refl
field_values-Safe special (finite d) = inl refl
field_values-Safe special special = inl refl
field_values-Safe (finite low) (finite high) = tt
field_values-Safe (finite low) special = inl refl
field_values-Safe (finite low) unreadable = inr refl

-- Behind a call, and behind a check at the end.
pub then-Safe :
    {A B : Type 0} (call : Result A) (next : A → Result B)
    → Safe Any call
    → ((a : A) → Safe Any (next a))
    → Safe Any (call >>= next)
then-Safe call next h k = >>=-Safe Any Any call next h (λ a any. k a)

checked-Safe : {A : Type 0} (c : Bool) (a : A) → Safe Any (raise_if c value_error >> ok a)
unfolding Safe
checked-Safe true a = inl refl
checked-Safe false a = tt

parse_with_unit-Safe : (number unit_part : Str) → Safe Any (parse_with_unit number unit_part)
unfolding parse_with_unit
parse_with_unit-Safe number unit_part = elim (Option-cases (break_at 45 number)) [
  | inl e ↦
      rw (e, parse_with_unit)
        (then-Safe _ _ (field_value-Safe (read number)) (λ d. ok-Safe Any _ tt))
  | inr (p, e) ↦
      rw (e, parse_with_unit)
        (then-Safe _ _ (field_values-Safe (read p.0) (read p.1)) (λ r. checked-Safe _ _))
]

parse_counts-Safe : (low high : Str) → Safe Any (parse_counts low high)
unfolding parse_counts
parse_counts-Safe low high =
    then-Safe _ _ (field_values-Safe (read low) (read high)) (λ r. checked-Safe _ _)

module _ (lower : Str → Str) where
  number_or_words-Safe :
      (body number : Str) (inv : Bool)
      → Safe Any (
          if is_number number
          then (field_value (read number) >>= λ value.
              ok (record { quantity = single value none none; scaling = policy inv }))
          else ok (approx_spec (token_of lower body) body none))
  number_or_words-Safe body number inv = elim (Bool-cases (is_number number)) [
    | inl e ↦ rw e (then-Safe _ _ (field_value-Safe (read number)) (λ d. ok-Safe Any _ tt))
    | inr e ↦ rw e (ok-Safe Any _ tt)
  ]

  parse_bare-Safe : (body number : Str) (inv : Bool) → Safe Any (parse_bare lower body number inv)
  unfolding parse_bare
  parse_bare-Safe body number inv = elim (Option-cases (break_at 45 number)) [
    | inl e ↦ rw (e, parse_bare) (number_or_words-Safe body number inv)
    | inr (p, e) ↦ elim (Bool-cases (is_number p.0)) [
      | inl h ↦ rw (e, h, parse_bare) (parse_counts-Safe p.0 p.1)
      | inr h ↦ rw (e, h, parse_bare) (number_or_words-Safe body number inv)
    ]
  ]

  parse_body-Safe : (body : Str) (inv : Bool) → Safe Any (parse_body lower body inv)
  unfolding parse_body
  parse_body-Safe body inv = elim (Option-cases (break_at 37 body)) [
    | inl e ↦ rw (e, parse_body) (parse_bare-Safe body body inv)
    | inr (p, e) ↦ elim (Option-cases (size_of (stripped p.1))) [
      | inl h ↦
          rw (e, h, parse_body)
            (then-Safe _ _ (parse_with_unit-Safe (stripped p.0) (stripped p.1))
              (λ q. ok-Safe Any _ tt))
      | inr (size, h) ↦
          rw (e, h, parse_body)
            (then-Safe _ _ (field_value-Safe (read (stripped p.0))) (λ d. ok-Safe Any _ tt))
    ]
  ]

  stripped-Safe :
      (body s : Str) (inv : Bool) → stripped body ≡ s → Safe Any (parse_quantity lower body inv)
  unfolding parse_quantity
  stripped-Safe body [] inv e = rw (e, parse_quantity) (ok-Safe Any none tt)
  stripped-Safe body (c ∷ s) inv e =
      rw (e, parse_quantity)
        (then-Safe _ _ (parse_body-Safe (c ∷ s) inv) (λ spec. ok-Safe Any (some spec) tt))

  pub parse_quantity-Safe : (body : Str) (inv : Bool) → Safe Any (parse_quantity lower body inv)
  parse_quantity-Safe body inv = stripped-Safe body (stripped body) inv refl

pub timer_quantity_of-Safe : (spec : Option QuantitySpec) → Safe Any (timer_quantity_of spec)
unfolding timer_quantity_of
timer_quantity_of-Safe none = ok-Safe Any _ tt
timer_quantity_of-Safe (some spec) = of_quantity spec.quantity refl
  where
    of_quantity : (q : Quantity) → spec.quantity ≡ q → Safe Any (timer_quantity_of (some spec))
    of_quantity (scalar x) e = rw (e, timer_quantity_of) (ok-Safe Any _ tt)
    of_quantity (range x) e = rw (e, timer_quantity_of) (ok-Safe Any _ tt)
    of_quantity (count x) e = rw (e, timer_quantity_of) (value_error-Safe Any)
    of_quantity (approx x) e = rw (e, timer_quantity_of) (value_error-Safe Any)

pub temperature_unit-Safe : (s : Str) → Safe Any (temperature_unit s)
unfolding temperature_unit
temperature_unit-Safe [] = ok-Safe Any _ tt
temperature_unit-Safe (c ∷ []) = elim (Bool-cases (c == 67)) [
  | inl e ↦ rw e (ok-Safe Any _ tt)
  | inr e ↦ elim (Bool-cases (c == 70)) [
    | inl h ↦ rw (e, h) (ok-Safe Any _ tt)
    | inr h ↦ rw (e, h) (value_error-Safe Any)
  ]
]
temperature_unit-Safe (c ∷ (d ∷ s)) = value_error-Safe Any

pub amount_of-Safe : (body : Str) → Safe Any (amount_of body)
amount_of-Safe body = at_body (stripped body) refl
  where
    at_body : (s : Str) → stripped body ≡ s → Safe Any (amount_of body)
    at_body [] e = rw (e, amount_of) (ok-Safe Any _ tt)
    at_body (c ∷ s) e =
        rw (e, amount_of) (then-Safe _ _ (field_value-Safe (read body)) (λ d. ok-Safe Any _ tt))
