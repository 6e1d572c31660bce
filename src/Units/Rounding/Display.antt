-- ===== src/Units/Rounding/Display.antt =====
-- units/rounding.py: the text of a quantity with its unit or size.
use snap_cook.Common.{Str, codes, str_eq, Bool, Option, none, some, ◌++◌, if◌then◌else◌}
use snap_cook.Errors.{Result, ok, ◌>>=◌}
use snap_cook.Schema.Quantity.{Quantity, scalar, range, count, approx, UnitRef, SizeGrade, Count}
use snap_cook.Schema.Ingredient.{grade_value}
use snap_cook.Units.Rounding.{RoundingProfile, format_number, format_count}

unfoldable pub with_unit : Str → Option UnitRef → Str
with_unit text unit = elim unit [ none ↦ text | some u ↦ text ++ codes " " ++ u.surface ]

unfoldable pub with_size : Str → Option SizeGrade → Str
with_size text size = elim size [ none ↦ text | some s ↦ text ++ codes " " ++ grade_value s ]

-- `f"{low}–{high}"`
abbrev pub between : Str → Str → Str
between low high = low ++ codes "–" ++ high

abbrev pub unit_id_of : Option UnitRef → Option Str
unit_id_of unit = elim unit [ none ↦ none | some u ↦ u.unit_id ]

-- The text of a count, without the size.
unfoldable pub count_text : Count → Bool → Result Str
count_text c divisible = do
  low ← format_count c.value divisible
  elim c.high [
    | none ↦ ok low
    | some h ↦ (do
      high ← format_count h divisible
      ok (if str_eq high low then low else between low high))
  ]

unfoldable pub format_quantity : Quantity → RoundingProfile → (divisible : Bool) → Result Str
format_quantity (approx a) profile divisible = ok a.surface
format_quantity (count c) profile divisible = do
  number ← count_text c divisible
  ok (with_size number c.size)
format_quantity (scalar s) profile divisible = do
  number ← format_number s.value (unit_id_of s.unit) profile
  ok (with_unit number s.unit)
format_quantity (range r) profile divisible = do
  low ← format_number r.low (unit_id_of r.unit) profile
  high ← format_number r.high (unit_id_of r.unit) profile
  ok (with_unit (if str_eq low high then low else between low high) r.unit)
