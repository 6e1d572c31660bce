-- ===== src/Units/Rounding.antt =====
-- units/rounding.py: an exact number as the text that a cook reads.
pub mod Display
pub mod Nonzero
pub mod Visible
pub mod Shown
pub mod Nearest
use snap_cook.Common.{
  Str, codes, str_eq, ℕ, zero, suc, ◌+◌, ◌==◌, Bool, true, false, not, ◌&&◌, ◌||◌, Option, none,
  some, List, [], ◌∷◌, ◌++◌, if◌then◌else◌,
}
use snap_cook.Common.Int.{ℤ, pos, negsuc, ◌+ℤ◌, ◌-ℤ◌}
use snap_cook.Errors.{Result, ok, err, ◌>>=◌, index_error}
use snap_cook.Dict.{Dict, get}
use snap_cook.Decimal.{Decimal, mul, less, of_nat}
use snap_cook.Decimal.Arith.{abs, truncate, sub, div, half_up, quantize, adjusted}
use snap_cook.Canonical.Numbers.{normalize, text_of, sign_of, plain}

pub record Fraction : Type 0 where
  pub numerator : ℕ
  pub denominator : ℕ

pub data ProfileSystem : Type 0 where
  metric us imperial : ProfileSystem

pub record RoundingProfile : Type 0 where
  pub system : ProfileSystem
  pub fraction_tolerance : Decimal
  pub prefer_fractions : Bool

abbrev pub fraction : ℕ → ℕ → Fraction
fraction n d = record { numerator = n; denominator = d }

abbrev pub default_ladder : List Fraction
default_ladder =
    fraction 1 8 ∷ fraction 1 4 ∷ fraction 1 3 ∷ fraction 1 2 ∷ fraction 2 3 ∷ fraction 3 4 ∷ []

abbrev pub quarters : List Fraction
quarters = fraction 1 4 ∷ fraction 1 2 ∷ fraction 3 4 ∷ []

abbrev pub thirds : List Fraction
thirds = fraction 1 4 ∷ fraction 1 3 ∷ fraction 1 2 ∷ fraction 2 3 ∷ fraction 3 4 ∷ []

unfoldable pub fraction_ladders : Dict (List Fraction)
fraction_ladders =
    (codes "unit:tsp", default_ladder)
    ∷ (codes "unit:tbsp", thirds)
    ∷ (codes "unit:cup.us", default_ladder)
    ∷ (codes "unit:cup.metric", default_ladder)
    ∷ (codes "unit:cup.uk", default_ladder)
    ∷ (codes "unit:cup.jp", default_ladder)
    ∷ (codes "unit:oz", quarters)
    ∷ (codes "unit:lb", thirds)
    ∷ (codes "unit:pint", quarters)
    ∷ (codes "unit:quart", quarters)
    ∷ []

-- A number of tenths.
abbrev tenths : ℕ → Decimal
tenths n = record { neg = false; coeff = n; exp = negsuc 0 }

-- The upper bounds and steps; a bound that is absent is infinity.
abbrev pub metric_bands : List (Option Decimal × Decimal)
metric_bands =
    (some (of_nat 1), tenths 1)
    ∷ (some (of_nat 10), tenths 5)
    ∷ (some (of_nat 100), of_nat 1)
    ∷ (some (of_nat 1000), of_nat 5)
    ∷ (none, of_nat 25)
    ∷ []

abbrev twentieth : Decimal
twentieth = record { neg = false; coeff = 5; exp = negsuc 1 }

-- `RoundingProfile.ladder_for`
unfoldable pub ladder_for : RoundingProfile → Option Str → Option (List Fraction)
ladder_for profile none = none
ladder_for profile (some unit_id) =
    if not profile.prefer_fractions then none else get fraction_ladders unit_id

abbrev pub metric_profile : RoundingProfile
metric_profile = record {
  system = metric;
  fraction_tolerance = twentieth;
  prefer_fractions = false;
}

abbrev pub us_profile : RoundingProfile
us_profile = record { system = us; fraction_tolerance = twentieth; prefer_fractions = true }

-- `format(value, "f")`
unfoldable pub fixed : Decimal → Str
fixed d = sign_of d.neg ++ plain d.coeff d.exp

-- `_strip`
unfoldable pub strip : Decimal → Str
strip value = if value.coeff == 0 then codes "0" else fixed (normalize value)

-- `_round_significant`, to two digits
unfoldable pub round_significant : Decimal → Result Decimal
round_significant value =
    if value.coeff == 0 then ok value else quantize half_up value (adjusted value -ℤ pos 1)

unfoldable pub below : Decimal → Option Decimal → Bool
below magnitude none = true
below magnitude (some upper) = less magnitude upper

-- `bands[-1][1]`
unfoldable pub last_step : List (Option Decimal × Decimal) → Result Decimal
last_step [] = err index_error
last_step ((upper, step) ∷ []) = ok step
last_step (band ∷ (next ∷ bands)) = last_step (next ∷ bands)

-- The step of the first band whose bound is above the magnitude.
unfoldable pub band_step : Decimal → List (Option Decimal × Decimal) → Decimal → Decimal
band_step magnitude [] default = default
band_step magnitude ((upper, step) ∷ bands) default =
    if below magnitude upper then step else band_step magnitude bands default

-- What is left to do once the step is known.
unfoldable pub snap : Decimal → (step : Decimal) → Result Decimal
snap value step = do
  count ← quantize half_up (div value step) (pos 0)
  if (mul count step).coeff == 0 then round_significant value else ok (mul count step)

unfoldable pub snap_metric : Decimal → List (Option Decimal × Decimal) → Result Decimal
snap_metric value bands =
    if value.coeff == 0
    then ok value
    else last_step bands >>= λ default. snap value (band_step (abs value) bands default)

-- The distance of a remainder from a fraction.
unfoldable pub distance : Decimal → Fraction → Decimal
distance remainder f = abs (sub remainder (div (of_nat f.numerator) (of_nat f.denominator)))

-- `min(candidates, key=…)`: the first of the candidates nearest to the remainder
unfoldable pub nearest : Decimal → Fraction → List Fraction → Fraction
nearest remainder best [] = best
nearest remainder best (f ∷ candidates) =
    nearest remainder (if less (distance remainder f) (distance remainder best) then f else best)
      candidates

-- The text of a whole number and a fraction below 1.
unfoldable pub mixed_text : ℕ → Fraction → Str
mixed_text whole best =
    let ratio = text_of best.numerator ++ codes "/" ++ text_of best.denominator in
    if best.numerator == 0
    then text_of whole
    else if whole == 0
    then ratio
    else text_of whole ++ codes " " ++ ratio

-- A fraction of 1 goes over to the whole number.
unfoldable pub carry : ℕ → Fraction → ℕ × Fraction
carry whole best =
    if best.numerator == best.denominator then (suc whole, fraction 0 1) else (whole, best)

-- The text of a whole number and the fraction nearest to the rest, if that is near enough.
unfoldable pub settle : Bool → ℕ → Fraction → (is_far : Bool) → Option Str
settle negative whole best is_far =
    let c = carry whole best in
    if is_far || ((c.0 == 0) && (c.1.numerator == 0))
    then none
    else some (sign_of negative ++ mixed_text c.0 c.1)

unfoldable pub to_mixed_number : Decimal → List Fraction → (tolerance : Decimal) → Option Str
to_mixed_number value ladder tolerance =
    let magnitude = abs value in
    let whole = truncate magnitude in
    let remainder = sub magnitude (of_nat whole) in
    let best = nearest remainder (fraction 0 1) (ladder ++ fraction 1 1 ∷ []) in
    if value.coeff == 0
    then some (codes "0")
    else settle (less value (of_nat 0)) whole best
        (less (mul tolerance magnitude) (distance remainder best))

unfoldable pub format_number : Decimal → Option Str → RoundingProfile → Result Str
format_number value unit_id profile =
    let snapped : Result Str = (snap_metric value metric_bands >>= λ d. ok (strip d)) in
    elim (ladder_for profile unit_id) [
      | none ↦ snapped
      | some ladder ↦ elim (to_mixed_number value ladder profile.fraction_tolerance) [
        | none ↦ snapped
        | some mixed ↦ ok mixed
      ]
    ]

-- The piece count of an ingredient that comes whole.
unfoldable pub format_whole : Decimal → Result Str
format_whole value = do
  rounded ← quantize half_up value (pos 0)
  ok (strip (if (rounded.coeff == 0) && less (of_nat 0) value then of_nat 1 else rounded))

unfoldable pub format_count : Decimal → (divisible : Bool) → Result Str
format_count value false = format_whole value
format_count value true = do
  doubled ← quantize half_up (mul value (of_nat 2)) (pos 0)
  let halves : Decimal = div doubled (of_nat 2)
  if (halves.coeff == 0) && less (of_nat 0) value
      then (round_significant value >>= λ d. ok (strip d))
      else ok (strip halves)
