-- ===== src/Cooklang/Quantities/RoundTrip.antt =====
-- cooklang/parse.py reads the amounts that cooklang/print_.py writes.
use snap_cook.Common.{
  str_eq, Str, codes, ℕ, ◌==◌, ◌<◌, ◌≡◌, refl, sym, ap, ◌∙◌, Bool, true, false, ◌||◌, Option, none,
  some, [], ◌∷◌, ◌++◌, length, length-append, if◌then◌else◌, if_false, arith, Bool-cases, inl, inr,
}
use mathlib.Core.Path.{ap₂}
use snap_cook.Errors.{ok, >>=-ok}
use snap_cook.Decimal.{Decimal}
use snap_cook.Canonical.Numbers.{encode_finite}
use snap_cook.Schema.Quantity.{
  Quantity, ScalingPolicy, linear, invariant, manual, nonlinear, scalar, range, SizeGrade, tiny,
  small, medium, large, xlarge, UnitRef, range_ordered, count_ordered,
}
use snap_cook.Schema.Ingredient.{grade_value}
use snap_cook.Units.Registry.{resolve_unit, strip_left, strip_right, is_space}
use snap_cook.Cooklang.Numbers.{break_at, read, is_number, field_value, field_values, is_digit}
use snap_cook.Cooklang.Numbers.Digits.{All, All-map, break_at-All, break_at-behind, differs}
use snap_cook.Cooklang.Numbers.Plain.{canonical, is_numeric, append_mark}
use snap_cook.Cooklang.Numbers.RoundTrip.{
  encode_finite-All, encode_finite-dotted, strip_left-All, strip_right-All, numeric-space,
  read-encode_finite,
}
use snap_cook.Cooklang.Quantities.{
  stripped, size_of, policy, parse_with_unit, single, parse_counts, parse_body,
}

-- The unit that a surface is read as.
abbrev pub unit_of : Str → UnitRef
unit_of surface = record { unit_id = resolve_unit surface none; surface = surface; locale = none }

-- A unit that is written as it is read: no white space around it, and no size word.
abbrev pub PlainUnit : Option UnitRef → Type 0
PlainUnit none = ⊥
PlainUnit (some u) =
    (stripped u.surface ≡ u.surface) × (size_of u.surface ≡ none) × (u ≡ unit_of u.surface)

-- The policies that a mark can write.
abbrev pub Marked : ScalingPolicy → Type 0
Marked linear = Unit
Marked invariant = Unit
Marked manual = ⊥
Marked nonlinear = ⊥

pub numeric-percent : (c : ℕ) → is_numeric c ≡ true → differs 37 c ≡ true
numeric-percent c h = ground arith

dotted-dash : (c : ℕ) → (is_digit c || (c == 46)) ≡ true → differs 45 c ≡ true
dotted-dash c h = ground arith

pub stripped-All : (s : Str) → All is_numeric s → stripped s ≡ s
stripped-All s h = ap strip_right (strip_left-All s h) ∙ strip_right-All s h

strip_step : ℕ → Str → Str
strip_step c [] = if is_space c then [] else c ∷ []
strip_step c (d ∷ r) = c ∷ d ∷ r

kept : (c : ℕ) (r : Str) → strip_right r ≡ r → strip_right (strip_step c r) ≡ strip_step c r
unfolding strip_right strip_step
kept c [] h = elim (Bool-cases (is_space c)) [ inl e ↦ rw e refl | inr e ↦ rw e (if_false _ _ e) ]
kept c (d ∷ r) h = ap (strip_step c) h

strip_right-twice : (s : Str) → strip_right (strip_right s) ≡ strip_right s
unfolding strip_right strip_step
strip_right-twice [] = refl
strip_right-twice (c ∷ s) = kept c (strip_right s) (strip_right-twice s)

strip_right-stripped : (s : Str) → stripped s ≡ s → strip_right s ≡ s
strip_right-stripped s h = ap strip_right (sym h) ∙ strip_right-twice (strip_left s) ∙ h

kept_some : (c : ℕ) (r : Str) → strip_right r ≡ r → 0 < length r → strip_right (c ∷ r) ≡ c ∷ r
unfolding strip_right strip_step
kept_some c [] h p = absurd (omega (arith, p))
kept_some c (d ∷ r) h p = ap (strip_step c) h

pub strip_right-append :
    (s t : Str) → strip_right t ≡ t → 0 < length t → strip_right (s ++ t) ≡ s ++ t
strip_right-append [] t h p = h
strip_right-append (c ∷ s) t h p =
    kept_some c (s ++ t) (strip_right-append s t h p) (omega (arith, length-append s t, p))

pub strip_left-append : (s t : Str) → All is_numeric s → 0 < length s → strip_left (s ++ t) ≡ s ++ t
unfolding strip_left
strip_left-append [] t h p = absurd (omega (arith, p))
strip_left-append (c ∷ s) t h p = if_false _ _ (numeric-space c h.0)

pub marked_end :
    (surface : Str) → stripped surface ≡ surface → strip_right (37 ∷ surface) ≡ 37 ∷ surface
unfolding strip_right
marked_end [] h = refl
marked_end (c ∷ s) h = kept_some 37 (c ∷ s) (strip_right-stripped (c ∷ s) h) (omega arith)

pub field_value-again : (d : Decimal) → field_value (read (encode_finite d)) ≡ ok (canonical d)
unfolding field_value
field_value-again d = rw (read-encode_finite d, field_value) refl

field_values-again :
    (d e : Decimal)
    → field_values (read (encode_finite d)) (read (encode_finite e)) ≡ ok (canonical d, canonical e)
unfolding field_value field_values
field_values-again d e = ap₂ field_values (read-encode_finite d) (read-encode_finite e)

pub dash_in :
    (low high : Decimal)
    → low.neg ≡ false
    → break_at 45 (encode_finite low ++ codes "-" ++ encode_finite high)
      ≡ some (encode_finite low, encode_finite high)
dash_in low high h =
    ap (break_at 45) (append_mark (encode_finite low) (encode_finite high) 45)
    ∙ break_at-behind 45 (encode_finite low) (encode_finite high)
        (All-map (encode_finite low) dotted-dash (encode_finite-dotted low h))

pub no_dash : (d : Decimal) → d.neg ≡ false → break_at 45 (encode_finite d) ≡ none
no_dash d h =
    break_at-All 45 (encode_finite d)
      (All-map (encode_finite d) dotted-dash (encode_finite-dotted d h))

pub is_number-again : (d : Decimal) → is_number (encode_finite d) ≡ true
unfolding is_number
is_number-again d = rw (read-encode_finite d, is_number) refl

pub parse_body-unit :
    (lower : Str → Str) (s surface : Str) (inv : Bool) (q : Quantity)
    → All is_numeric s
    → stripped surface ≡ surface
    → size_of surface ≡ none
    → parse_with_unit s surface ≡ ok q
    → parse_body lower (s ++ codes "%" ++ surface) inv
      ≡ ok (record { quantity = q; scaling = policy inv })
unfolding parse_body
parse_body-unit lower s surface inv q all hs hz hq =
    rw
      (
        ap (break_at 37) (append_mark s surface 37)
            ∙ break_at-behind 37 s surface (All-map s numeric-percent all),
        ap size_of hs ∙ hz,
        parse_body,
      )
      (>>=-ok _ (ap₂ parse_with_unit (stripped-All s all) hs ∙ hq))

-- A number with a unit behind it.
pub parse_with_unit-scalar :
    (d : Decimal) (surface : Str)
    → d.neg ≡ false
    → parse_with_unit (encode_finite d) surface
      ≡ ok (scalar (record { value = canonical d; unit = some (unit_of surface) }))
unfolding parse_with_unit
parse_with_unit-scalar d surface h =
    rw (no_dash d h, parse_with_unit) (>>=-ok _ (field_value-again d))

pub parse_with_unit-range :
    (low high : Decimal) (surface : Str)
    → low.neg ≡ false
    → range_ordered
        (record { low = canonical low; high = canonical high; unit = some (unit_of surface) })
      ≡ true
    → parse_with_unit (encode_finite low ++ codes "-" ++ encode_finite high) surface
      ≡ ok (
          range
            (record { low = canonical low; high = canonical high; unit = some (unit_of surface) }))
unfolding parse_with_unit
parse_with_unit-range low high surface h o =
    rw (dash_in low high h, parse_with_unit) (>>=-ok _ (field_values-again low high) ∙ rw o refl)

pub parse_counts-again :
    (low high : Decimal)
    → count_ordered (record { value = canonical low; high = some (canonical high); size = none })
      ≡ true
    → parse_counts (encode_finite low) (encode_finite high)
      ≡ ok (record {
        quantity = single (canonical low) (some (canonical high)) none;
        scaling = linear;
      })
unfolding parse_counts
parse_counts-again low high o = >>=-ok _ (field_values-again low high) ∙ rw o refl

size_again : (s : SizeGrade) → size_of (grade_value s) ≡ some s
unfolding size_of str_eq
size_again tiny = refl
size_again small = refl
size_again medium = refl
size_again large = refl
size_again xlarge = refl

pub size_stripped : (s : SizeGrade) → stripped (grade_value s) ≡ grade_value s
unfolding strip_left strip_right
size_stripped tiny = refl
size_stripped small = refl
size_stripped medium = refl
size_stripped large = refl
size_stripped xlarge = refl

pub parse_body-size :
    (lower : Str → Str) (d : Decimal) (s : SizeGrade) (inv : Bool)
    → parse_body lower (encode_finite d ++ codes "%" ++ grade_value s) inv
      ≡ ok (record { quantity = single (canonical d) none (some s); scaling = linear })
unfolding parse_body
parse_body-size lower d s inv =
    rw
      (
        ap (break_at 37) (append_mark (encode_finite d) (grade_value s) 37)
            ∙ break_at-behind 37 (encode_finite d) (grade_value s)
                (All-map (encode_finite d) numeric-percent (encode_finite-All d)),
        ap size_of (size_stripped s) ∙ size_again s,
        parse_body,
      )
      (>>=-ok _ (
        ap (λ t. field_value (read t)) (stripped-All _ (encode_finite-All d))
        ∙ field_value-again d))
