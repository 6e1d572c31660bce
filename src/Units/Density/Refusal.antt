-- ===== src/Units/Density/Refusal.antt =====
-- What a conversion may depend on.
use snap_cook.Common.{
  Str, ◌≡◌, refl, sym, ◌∙◌, ◌⊎◌, inl, inr, true, false, Option, none, some, if_true, if_false,
  Option-cases, Bool-cases,
}
use snap_cook.Errors.{err, no_density, incompatible_dimensions}
use snap_cook.Decimal.{Decimal}
use snap_cook.Schema.Ingredient.{Ingredient}
use snap_cook.Units.Registry.{UnitDef, unit_def, dimension_of, same_dimension, known_equal}
use snap_cook.Units.Density.{
  Pint, resolve_density_g_per_ml, is_bridged, convert_known, convert_value,
}

same_dimension-known :
    (a b : Str) (from target : UnitDef)
    → unit_def a ≡ some from
    → unit_def b ≡ some target
    → same_dimension a b ≡ known_equal (some from.dimension) (some target.dimension)
unfolding same_dimension dimension_of
same_dimension-known a b from target e f = rw (e, dimension_of) (rw (f, dimension_of) refl)

module _ (pint : Pint) where
  convert_known-direct :
      (value : Decimal) (from target : UnitDef) (i : Option Ingredient)
      → known_equal (some from.dimension) (some target.dimension) ≡ true
      → convert_known pint value from target i ≡ pint.to value from.pint_name target.pint_name
  unfolding convert_known
  convert_known-direct value from target i same = if_true _ _ same

  convert_known-refused :
      (value : Decimal) (from target : UnitDef) (i : Option Ingredient)
      → known_equal (some from.dimension) (some target.dimension) ≡ false
      → resolve_density_g_per_ml i ≡ none
      → (convert_known pint value from target i ≡ err no_density)
        ⊎ (convert_known pint value from target i ≡ err incompatible_dimensions)
  unfolding convert_known
  convert_known-refused value from target i other unknown =
      elim (Bool-cases (is_bridged from.dimension target.dimension)) [
        | inl e ↦ inl (if_false _ _ other ∙ if_true _ _ e ∙ rw unknown refl)
        | inr e ↦ inr (if_false _ _ other ∙ if_false _ _ e)
      ]

  -- Between units of one dimension the ingredient plays no part; between others, without a known
  -- density, the conversion is refused.
  pub convert_value-no_guess :
      (value : Decimal) (a b : Str) (i j : Option Ingredient)
      → (same_dimension a b ≡ true
          → convert_value pint value a b i ≡ convert_value pint value a b j)
        × (same_dimension a b ≡ false
            → resolve_density_g_per_ml i ≡ none
            → (convert_value pint value a b i ≡ err no_density)
              ⊎ (convert_value pint value a b i ≡ err incompatible_dimensions))
  unfolding convert_value
  convert_value-no_guess value a b i j = elim (Option-cases (unit_def a)) [
    | inl e ↦ (λ h. rw (e, convert_value) refl, λ h k. inr (rw (e, convert_value) refl))
    | inr (from, e) ↦ elim (Option-cases (unit_def b)) [
      | inl f ↦
          (λ h. rw (e, convert_value) (rw f refl), λ h k. inr (rw (e, convert_value) (rw f refl)))
      | inr (target, f) ↦ (
        λ h.
            rw (e, convert_value)
              (rw f (
                convert_known-direct value from target i
                  (sym (same_dimension-known a b from target e f) ∙ h)
                ∙ sym (
                    convert_known-direct value from target j
                      (sym (same_dimension-known a b from target e f) ∙ h)))),
        λ h k.
            rw (e, convert_value)
              (rw f (
                convert_known-refused value from target i
                  (sym (same_dimension-known a b from target e f) ∙ h) k)),
      )
    ]
  ]
