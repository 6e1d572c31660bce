-- ===== src/Checks/Rounding.antt =====
-- Numbers for the reader.
use snap_cook.Common.{codes, str_eq, ◌≡◌, ◌≢◌, refl, true, false, some, arith}
use snap_cook.Common.Int.{negsuc}
use snap_cook.Errors.{ok}
use snap_cook.Dict.{get}
use snap_cook.Decimal.{Decimal, of_nat, less, mul, finish, half_even, digits_on}
use snap_cook.Decimal.Arith.{half_up, quantize, div, quotient, reduce, sum, signed_sum}
use snap_cook.Canonical.Numbers.{normalize, strip_zeros, text_of, last_digits}
use snap_cook.Units.Rounding.{
  metric_profile, us_profile, format_number, format_count, format_whole, snap_metric, snap,
  last_step, band_step, below, strip, fixed, round_significant, ladder_for, fraction_ladders,
  to_mixed_number, nearest, distance, settle, carry, mixed_text,
}
use snap_cook.Units.Rounding.Visible.{IsVisible, format_number-IsVisible, format_count-IsVisible}
use snap_cook.Units.Rounding.{default_ladder}
use snap_cook.Units.Rounding.Nearest.{Outcome, to_mixed_number-Outcome}

abbrev saffron : Decimal
saffron = record { neg = false; coeff = 4; exp = negsuc 2 }

saffron_some : saffron.coeff ≢ 0
saffron_some e = omega (arith, e)

format_number-IsVisible_example :
    IsVisible (format_number saffron (some (codes "unit:g")) metric_profile)
format_number-IsVisible_example =
    format_number-IsVisible saffron (some (codes "unit:g")) metric_profile saffron_some

-- 0.004 is shown with two significant digits.
saffron_text : format_number saffron (some (codes "unit:g")) metric_profile ≡ ok (codes "0.004")
unfolding format_number ladder_for snap_metric snap last_step band_step below strip fixed
    round_significant quantize half_up div quotient reduce less mul finish half_even digits_on
    normalize strip_zeros text_of last_digits
saffron_text = refl

-- 1.125 teaspoons
spoon_text :
    format_number
      (record { neg = false; coeff = 1125; exp = negsuc 2 })
      (some (codes "unit:tsp"))
      us_profile
    ≡ ok (codes "1 1/8")
unfolding format_number ladder_for fraction_ladders get str_eq to_mixed_number nearest distance
    settle carry mixed_text sum signed_sum div quotient reduce less mul finish half_even digits_on
    text_of last_digits
spoon_text = refl

half_positive : less (of_nat 0) (record { neg = false; coeff = 5; exp = negsuc 0 }) ≡ true
unfolding less
half_positive = refl

format_count-IsVisible_example :
    IsVisible (format_count (record { neg = false; coeff = 5; exp = negsuc 0 }) false)
format_count-IsVisible_example = format_count-IsVisible _ false half_positive

half_an_egg :
    format_count (record { neg = false; coeff = 5; exp = negsuc 0 }) false ≡ ok (codes "1")
unfolding format_count format_whole quantize half_up strip fixed finish half_even digits_on
    normalize strip_zeros text_of last_digits
half_an_egg = refl

abbrev spoon : Decimal
spoon = record { neg = false; coeff = 1125; exp = negsuc 2 }

spoon_some : spoon.coeff ≢ 0
spoon_some e = omega (arith, e)

to_mixed_number-Outcome_example :
    Outcome spoon default_ladder us_profile.fraction_tolerance
      (to_mixed_number spoon default_ladder us_profile.fraction_tolerance)
to_mixed_number-Outcome_example =
    to_mixed_number-Outcome spoon default_ladder us_profile.fraction_tolerance spoon_some refl
