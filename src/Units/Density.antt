-- ===== src/Units/Density.antt =====
-- units/density.py: conversion between units, through Pint and through an ingredient's density.
-- Pint is a parameter: what `Quantity(value, from).to(target)` gives, without and with the context
-- of a density.
pub mod Refusal
use snap_cook.Common.{
  Str, codes, ◌≡◌, ◌≢◌, refl, sym, ◌∙◌, Bool, true, false, ◌||◌, ◌&&◌, not, Option, none, some,
  if◌then◌else◌, Option-cases, Bool-cases, inl, inr, if_true, if_false, arith,
}
use snap_cook.Errors.{
  Result, ok, err, ◌>>=◌, ◌>>◌, raise_if, incompatible_dimensions, no_density, no_count_weight,
}
use snap_cook.Decimal.{Decimal, mul}
use snap_cook.Dict.{get}
use snap_cook.Schema.Ingredient.{Ingredient, piece_weight}
use snap_cook.Schema.Quantity.{SizeGrade}
use snap_cook.Units.Registry.{
  Dimension, mass, volume, time, UnitDef, unit_def, dimension_of, same_dimension, known_equal,
}

pub record Pint : Type 0 where
  pub to : Decimal → (from target : Str) → Result Decimal
  pub to_with : (density : Decimal) → Decimal → (from target : Str) → Result Decimal

abbrev pub resolve_density_g_per_ml : Option Ingredient → Option Decimal
resolve_density_g_per_ml none = none
resolve_density_g_per_ml (some i) = i.density_g_per_ml

-- `{a, b} == {"mass", "volume"}`
abbrev pub is_bridged : Dimension → Dimension → Bool
is_bridged mass volume = true
is_bridged volume mass = true
is_bridged a b = false

module _ (pint : Pint) where
  -- Past the checks of the two units.
  unfoldable pub convert_known : Decimal → UnitDef → UnitDef → Option Ingredient → Result Decimal
  convert_known value from target ingredient =
      if known_equal (some from.dimension) (some target.dimension)
      then pint.to value from.pint_name target.pint_name
      else if is_bridged from.dimension target.dimension
      then elim (resolve_density_g_per_ml ingredient) [
        | none ↦ err no_density
        | some density ↦ pint.to_with density value from.pint_name target.pint_name
      ]
      else err incompatible_dimensions

  unfoldable pub convert_value :
      Decimal → (from_unit to_unit : Str) → Option Ingredient → Result Decimal
  unfolding convert_known
  convert_value value from_unit to_unit ingredient = elim (unit_def from_unit) [
    | none ↦ err incompatible_dimensions
    | some from ↦ elim (unit_def to_unit) [
      | none ↦ err incompatible_dimensions
      | some target ↦ convert_known value from target ingredient
    ]
  ]

unfoldable pub count_to_mass_g : Decimal → Option Ingredient → Option SizeGrade → Result Decimal
count_to_mass_g value none size = err no_count_weight
count_to_mass_g value (some i) size = elim (piece_weight i size) [
  | none ↦ err no_count_weight
  | some weight ↦ ok (mul value weight)
]
