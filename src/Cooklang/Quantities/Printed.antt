-- ===== src/Cooklang/Quantities/Printed.antt =====
-- cooklang/parse.py reads the amounts that cooklang/print_.py writes: each amount that has a
-- place in the notation.
use mathlib.Core.Path.{ap₂}
use snap_cook.Common.{
  Str, codes, ◌<◌, ◌≡◌, refl, sym, ap, ◌∙◌, subst, Bool, true, false, Option, none, some, [], ◌∷◌,
  ◌++◌, length, arith,
}
use snap_cook.Errors.{ok, >>=-ok}
use snap_cook.Decimal.{Decimal}
use snap_cook.Canonical.Numbers.{encode_finite}
use snap_cook.Schema.Quantity.{
  Quantity, QuantitySpec, ScalingPolicy, linear, invariant, scalar, range, count, approx, Scalar,
  SizeGrade, ApproxToken, UnitRef, range_ordered, count_ordered, approx_spec,
}
use snap_cook.Schema.Ingredient.{grade_value}
use snap_cook.Cooklang.Numbers.{break_at, is_number}
use snap_cook.Cooklang.Numbers.Digits.{All, All-append, All-map, break_at-All}
use snap_cook.Cooklang.Numbers.Plain.{canonical, is_numeric}
use snap_cook.Cooklang.Numbers.RoundTrip.{encode_finite-All, encode_finite-some}
use snap_cook.Cooklang.Quantities.{
  stripped, policy, single, token_of, parse_bare, parse_body, parse_quantity, bare_quantity_body,
  quantity_body,
}
use snap_cook.Cooklang.Quantities.RoundTrip.{
  PlainUnit, Marked, numeric-percent, stripped-All, field_value-again, dash_in, no_dash,
  is_number-again, parse_with_unit-scalar, parse_with_unit-range, parse_counts-again,
  parse_body-size, size_stripped,
}
use snap_cook.Cooklang.Printer.{is_invariant}
use snap_cook.Cooklang.Quantities.Places.{
  again, WordsAt, Words, PrintedCount, Printed, policy_again, Reads, stripped-unit, some_append3,
  Reads-unit,
}

parse_body-bare :
    (lower : Str → Str) (s : Str) (inv : Bool)
    → break_at 37 s ≡ none
    → parse_body lower s inv ≡ parse_bare lower s s inv
unfolding parse_body
parse_body-bare lower s inv h = rw (h, parse_body) refl

numbers-All :
    (low high : Decimal) → All is_numeric (encode_finite low ++ codes "-" ++ encode_finite high)
numbers-All low high =
    All-append _ (encode_finite low ++ codes "-") _
      (All-append _ (encode_finite low) _ (encode_finite-All low) (refl, tt))
      (encode_finite-All high)

no_percent : (s : Str) → All is_numeric s → break_at 37 s ≡ none
no_percent s all = break_at-All 37 s (All-map s numeric-percent all)

parse_bare-number :
    (lower : Str → Str) (d : Decimal) (inv : Bool)
    → d.neg ≡ false
    → parse_bare lower (encode_finite d) (encode_finite d) inv
      ≡ ok (record { quantity = single (canonical d) none none; scaling = policy inv })
unfolding parse_bare
parse_bare-number lower d inv h =
    rw (no_dash d h, is_number-again d, parse_bare) (>>=-ok _ (field_value-again d))

parse_bare-numbers :
    (lower : Str → Str) (low high : Decimal) (s : Str) (inv : Bool)
    → low.neg ≡ false
    → count_ordered (record { value = canonical low; high = some (canonical high); size = none })
      ≡ true
    → parse_bare lower s (encode_finite low ++ codes "-" ++ encode_finite high) inv
      ≡ ok (record {
        quantity = single (canonical low) (some (canonical high)) none;
        scaling = linear;
      })
unfolding parse_bare
parse_bare-numbers lower low high s inv h o =
    rw (dash_in low high h, is_number-again low, parse_bare) (parse_counts-again low high o)

with_dash :
    (lower : Str → Str) (s : Str) (inv : Bool) (o : Option (Str × Str))
    → is_number s ≡ false
    → break_at 45 s ≡ o
    → WordsAt o
    → parse_bare lower s s inv ≡ ok (approx_spec (token_of lower s) s none)
unfolding parse_bare
with_dash lower s inv none h e w = rw (e, h, parse_bare) refl
with_dash lower s inv (some p) h e w = rw (e, w, h, parse_bare) refl

-- The mark that is written for a quantity.
abbrev marked : Quantity → ScalingPolicy → Bool
marked q p = is_invariant (some (record { quantity = q; scaling = p }))

-- A quantity is read from what is written for it.
abbrev ReadAgain : (Str → Str) → Quantity → ScalingPolicy → Type 0
ReadAgain lower q p =
    Reads lower (bare_quantity_body q) (marked q p) (record { quantity = again q; scaling = p })

scalar_again :
    (lower : Str → Str) (value : Decimal) (unit : Option UnitRef) (p : ScalingPolicy)
    → value.neg ≡ false
    → PlainUnit unit
    → Marked p
    → ReadAgain lower (scalar (record { value = value; unit = unit })) p
unfolding again bare_quantity_body
scalar_again lower value none p n u m = absurd u
scalar_again lower value (some u) p n plain m =
    Reads-unit lower (encode_finite value) u
      (λ u. scalar (record { value = canonical value; unit = some u })) p _
      (encode_finite-All value) (encode_finite-some value) plain
      (policy_again (scalar (record { value = value; unit = some u })) p m)
      (parse_with_unit-scalar value u.surface n)

range_again :
    (lower : Str → Str) (low high : Decimal) (unit : Option UnitRef) (p : ScalingPolicy)
    → low.neg ≡ false
    → PlainUnit unit
    → range_ordered (record { low = canonical low; high = canonical high; unit = unit }) ≡ true
    → Marked p
    → ReadAgain lower (range (record { low = low; high = high; unit = unit })) p
unfolding again bare_quantity_body
range_again lower low high none p n u o m = absurd u
range_again lower low high (some u) p n plain o m =
    Reads-unit lower (encode_finite low ++ codes "-" ++ encode_finite high) u
      (λ u. range (record { low = canonical low; high = canonical high; unit = some u })) p _
      (numbers-All low high)
      (some_append3 (encode_finite low) (codes "-") (encode_finite high) (encode_finite-some low))
      plain (policy_again (range (record { low = low; high = high; unit = some u })) p m)
      (parse_with_unit-range low high u.surface n (
        subst
          (λ v.
            range_ordered (record { low = canonical low; high = canonical high; unit = some v })
            ≡ true)
          plain.2 o))

count_again :
    (lower : Str → Str) (value : Decimal) (high : Option Decimal) (size : Option SizeGrade)
    (p : ScalingPolicy)
    → PrintedCount value high size p
    → ReadAgain lower (count (record { value = value; high = high; size = size })) p
unfolding again bare_quantity_body
count_again lower value none (some size) p h = (
  stripped-unit (encode_finite value) (grade_value size) (encode_finite-All value)
      (encode_finite-some value) (size_stripped size),
  some_append3 (encode_finite value) (codes "%") (grade_value size) (encode_finite-some value),
  parse_body-size lower value size _
      ∙ ap (λ p. ok (record { quantity = single (canonical value) none (some size); scaling = p }))
          (sym h),
)
count_again lower value (some high) (some size) p h = absurd h
count_again lower value none none p (n, m) = (
  stripped-All (encode_finite value) (encode_finite-All value),
  encode_finite-some value,
  parse_body-bare lower (encode_finite value) _ (no_percent _ (encode_finite-All value))
      ∙ parse_bare-number lower value _ n
      ∙ ap (λ p. ok (record { quantity = single (canonical value) none none; scaling = p }))
          (policy_again (single value none none) p m),
)
count_again lower value (some high) none p (n, o, h) = (
  stripped-All _ (numbers-All value high),
  some_append3 (encode_finite value) (codes "-") (encode_finite high) (encode_finite-some value),
  parse_body-bare lower _ _ (no_percent _ (numbers-All value high))
      ∙ parse_bare-numbers lower value high _ _ n o
      ∙ ap
          (λ p. ok (record {
            quantity = single (canonical value) (some (canonical high)) none;
            scaling = p;
          }))
          (sym h),
)

approx_again :
    (lower : Str → Str) (token : ApproxToken) (surface : Str) (nominal : Option Scalar)
    (p : ScalingPolicy)
    → stripped surface ≡ surface
    → 0 < length surface
    → break_at 37 surface ≡ none
    → is_number surface ≡ false
    → Words surface
    → token ≡ token_of lower surface
    → nominal ≡ none
    → p ≡ invariant
    → ReadAgain lower (approx (record { token = token; surface = surface; nominal = nominal })) p
unfolding again bare_quantity_body approx_spec
approx_again lower token surface nominal p h some_char percent number words ht hn hp = (
  h,
  some_char,
  parse_body-bare lower surface _ percent
      ∙ with_dash lower surface _ (break_at 45 surface) number refl words
      ∙ ap₂
          (λ t n. ok (record {
            quantity = approx (record { token = t; surface = surface; nominal = n });
            scaling = invariant;
          }))
          (sym ht) (sym hn)
      ∙ ap
          (λ p. ok (record {
            quantity = approx (record { token = token; surface = surface; nominal = nominal });
            scaling = p;
          }))
          (sym hp),
)

all_again :
    (lower : Str → Str) (q : Quantity) (p : ScalingPolicy) → Printed lower q p → ReadAgain lower q p
unfolding Printed
all_again lower (scalar s) p (n, u, m) = scalar_again lower s.value s.unit p n u m
all_again lower (range r) p (n, u, o, m) = range_again lower r.low r.high r.unit p n u o m
all_again lower (count c) p h = count_again lower c.value c.high c.size p h
all_again lower (approx a) p (h, some_char, percent, number, words, ht, hn, hp) =
    approx_again lower a.token a.surface a.nominal p h some_char percent number words ht hn hp

not_blank-Reads :
    (lower : Str → Str) (s : Str) (inv : Bool) (spec : QuantitySpec)
    → Reads lower s inv spec
    → parse_quantity lower s inv ≡ ok (some spec)
unfolding parse_quantity
not_blank-Reads lower [] inv spec (h, p, reads) = absurd (omega (arith, p))
not_blank-Reads lower (c ∷ s) inv spec (h, p, reads) = rw (h, parse_quantity) (>>=-ok _ reads)

-- A quantity that the notation has a place for is read from its text and its mark as the same
-- quantity, with the numbers as they are read.
pub parse_quantity-quantity_body :
    (lower : Str → Str) (spec : QuantitySpec)
    → Printed lower spec.quantity spec.scaling
    → parse_quantity lower (quantity_body (some spec)) (is_invariant (some spec))
      ≡ ok (some (record { quantity = again spec.quantity; scaling = spec.scaling }))
unfolding quantity_body
parse_quantity-quantity_body lower spec h =
    not_blank-Reads lower (bare_quantity_body spec.quantity) (is_invariant (some spec)) _
      (all_again lower spec.quantity spec.scaling h)
