-- ===== src/Render/Options.antt =====
-- render/build.py: what one reader wants, and the units and numbers that this reader sees.
use snap_cook.Common.{
  Str, codes, str_eq, ℕ, suc, ◌+◌, ◌-◌, ◌==◌, Bool, true, false, not, ◌||◌, ◌&&◌, Option, none,
  some, [], ◌∷◌, ◌++◌, if◌then◌else◌,
}
use snap_cook.Common.Int.{ℤ, pos, negsuc, pos_part, neg_part, ltb_ℤ}
use snap_cook.Errors.{Result, ok, ◌>>=◌}
use snap_cook.Decimal.{Decimal, digits, half_even, mul, less, equal, of_nat}
use snap_cook.Decimal.Arith.{abs, div, quantize, truncate}
use snap_cook.Canonical.Numbers.{normalize, text_of, sign_of}
use snap_cook.Schema.Quantity.{UnitRef, ScalingPolicy}
use snap_cook.Schema.Graph.{Temperature, TemperatureUnit, C, F}
use snap_cook.Schema.Graph.Temperatures.{value_in}
use snap_cook.Units.Registry.{mass, volume, time, unit_def, dimension_of}
use snap_cook.Units.Density.{Pint, convert_value}
use snap_cook.Units.Rounding.{RoundingProfile, us_profile, metric_profile, fixed}
use snap_cook.Registry.{IngredientRegistry}

pub record RenderOptions : Type 0 where
  pub lang : Str
  pub system : Str
  pub scale : Decimal
  pub registry : Option IngredientRegistry
  pub rounding : Option RoundingProfile

-- What the code calls and that is not written here: Pint, `str.lower`, `repr` of a text, and the text
-- of the warning of `scale_spec`.
pub record Outside : Type 0 where
  pub pint : Pint
  pub lower : Str → Str
  pub repr : Str → Str
  pub message : ScalingPolicy → Decimal → Str

-- `system in ("us", "imperial")`
abbrev pub is_us : Str → Bool
is_us system = str_eq system (codes "us") || str_eq system (codes "imperial")

-- `RenderOptions.profile`
unfoldable pub profile_of : RenderOptions → RoundingProfile
profile_of opts = elim opts.rounding [
  | some rounding ↦ rounding
  | none ↦ if is_us opts.system then us_profile else metric_profile
]

-- `_unit_ref`
unfoldable pub unit_ref : Str → UnitRef
unit_ref unit_id = record {
  unit_id = some unit_id;
  surface = elim (unit_def unit_id) [ none ↦ unit_id | some d ↦ d.symbol ];
  locale = none;
}

-- `abs(value) >= n`
abbrev pub reaches : Decimal → Decimal → Bool
reaches value bound = not (less (abs value) bound)

module _ (pint : Pint) where
  -- The value in another unit, with the unit.
  abbrev pub shown_in : Str → Decimal → Str → Result (Str × Decimal)
  shown_in target value source_unit = do
    converted ← convert_value pint value source_unit target none
    ok (target, converted)

  unfoldable pub choose_mass : Decimal → Str → (us : Bool) → Result (Str × Decimal)
  choose_mass value source_unit true = do
    ounces ← convert_value pint value source_unit (codes "unit:oz") none
    if reaches ounces (of_nat 16)
        then shown_in (codes "unit:lb") value source_unit
        else ok (codes "unit:oz", ounces)
  choose_mass value source_unit false = do
    grams ← convert_value pint value source_unit (codes "unit:g") none
    if reaches grams (of_nat 1000)
        then shown_in (codes "unit:kg") value source_unit
        else ok (codes "unit:g", grams)

  unfoldable pub choose_volume : Decimal → Str → (us : Bool) → Result (Str × Decimal)
  choose_volume value source_unit us = do
    millilitres ← convert_value pint value source_unit (codes "unit:ml") none
    if us
        then (if reaches millilitres (of_nat 59)
            then shown_in (codes "unit:cup.us") value source_unit
            else if reaches millilitres (of_nat 15)
            then shown_in (codes "unit:tbsp") value source_unit
            else shown_in (codes "unit:tsp") value source_unit)
        else if reaches millilitres (of_nat 1000)
        then shown_in (codes "unit:l") value source_unit
        else ok (codes "unit:ml", millilitres)

  -- `_choose_display_unit`
  unfoldable pub choose_display_unit : Decimal → Str → (system : Str) → Result (Str × Decimal)
  choose_display_unit value source_unit system = elim (dimension_of source_unit) [
    | none ↦ ok (source_unit, value)
    | some mass ↦ choose_mass value source_unit (is_us system)
    | some volume ↦ choose_volume value source_unit (is_us system)
    | some time ↦ ok (source_unit, value)
  ]

-- The digits of a number with an exponent, as `str` writes them.
abbrev pub scientific : Str → ℕ → Str
scientific [] n = []
scientific (c ∷ []) n = c ∷ codes "E+" ++ text_of n
scientific (c ∷ (c' ∷ s)) n = c ∷ codes "." ++ (c' ∷ s) ++ codes "E+" ++ text_of n

-- `str`, of a number whose exponent is not negative
unfoldable pub decimal_text : Decimal → Str
decimal_text d =
    let k = pos_part d.exp in
    sign_of d.neg
    ++ (if k == 0 then text_of d.coeff else scientific (text_of d.coeff) (k + digits d.coeff - 1))

abbrev pub degree_unit : Str → TemperatureUnit
degree_unit system = if is_us system then F else C

abbrev pub degree_sign : TemperatureUnit → Str
degree_sign C = codes " °C"
degree_sign F = codes " °F"

-- `_render_temperature`
unfoldable pub temperature_text : Temperature → Str → Result Str
temperature_text temperature system = do
  let value : Decimal = value_in temperature (degree_unit system)
  steps ← quantize half_even (div value (of_nat 5)) (pos 0)
  ok (decimal_text (mul steps (of_nat 5)) ++ degree_sign (degree_unit system))

-- `int(d)`, as `str` writes it
abbrev pub integer_text : Decimal → Str
integer_text d = sign_of (d.neg && not (truncate d == 0)) ++ text_of (truncate d)

-- `to_integral_value`
unfoldable pub to_integral : Decimal → Decimal
to_integral d = elim d.exp [
  | pos k ↦ d
  | negsuc k ↦ record { neg = d.neg; coeff = half_even d.coeff (suc k); exp = pos 0 }
]

abbrev pub of_int : ℤ → Decimal
of_int n = record { neg = ltb_ℤ n (pos 0); coeff = pos_part n + neg_part n; exp = pos 0 }

-- `_scaled_servings`
unfoldable pub scaled_servings : Option ℤ → Decimal → Option Str
scaled_servings none scale = none
scaled_servings (some servings) scale =
    let scaled = mul (of_int servings) scale in
    some
      (if equal scaled (to_integral scaled) then integer_text scaled else fixed (normalize scaled))
