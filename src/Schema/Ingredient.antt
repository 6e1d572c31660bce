-- ===== src/Schema/Ingredient.antt =====
-- schema/ingredient.py and schema/cookware.py: what an action introduces and what it works with.
use snap_cook.Common.{Str, codes, ℕ, Bool, true, false, Option, none, some, [], ◌∷◌}
use snap_cook.Dict.{Dict, get}
use snap_cook.Decimal.{Decimal}
use snap_cook.Schema.I18n.{LocalizedText, base_language}
use snap_cook.Schema.Quantity.{QuantitySpec, SizeGrade, tiny, small, medium, large, xlarge}

pub record Ingredient : Type 0 where
  pub id : Str
  pub names : Dict Str
  pub density_g_per_ml : Option Decimal
  pub divisible : Bool
  pub piece_weights_g : Dict Decimal
  pub fdc_id : Option ℕ

pub record IngredientUse : Type 0 where
  pub id : Str
  pub name : Str
  pub ingredient_id : Option Str
  pub quantity : Option QuantitySpec
  pub optional : Bool
  pub prep : Option LocalizedText
  pub notes : Option LocalizedText

pub record CookwareUse : Type 0 where
  pub id : Str
  pub name : LocalizedText
  pub quantity : Option Decimal
  pub notes : Option LocalizedText

-- The value of a size grade.
abbrev pub grade_value : SizeGrade → Str
grade_value tiny = codes "tiny"
grade_value small = codes "small"
grade_value medium = codes "medium"
grade_value large = codes "large"
grade_value xlarge = codes "xlarge"

-- `Ingredient.piece_weight`
unfoldable pub piece_weight : Ingredient → Option SizeGrade → Option Decimal
piece_weight i none = get i.piece_weights_g (grade_value medium)
piece_weight i (some size) = get i.piece_weights_g (grade_value size)

abbrev first_value : Dict Str → Option Str
first_value [] = none
first_value ((k, v) ∷ d) = some v

-- `if source and source in self.names`, and then any name
abbrev name_or_any : Dict Str → Option Str → Option Str
name_or_any names none = first_value names
name_or_any names (some []) = first_value names
name_or_any names (some (c ∷ source)) = elim (get names (c ∷ source)) [
  | some v ↦ some v
  | none ↦ first_value names
]

-- `Ingredient.name_for`
unfoldable pub name_for : Ingredient → Str → Option Str → Option Str
name_for i lang source = elim (get i.names lang) [
  | some v ↦ some v
  | none ↦ elim (get i.names (base_language lang)) [
    | some v ↦ some v
    | none ↦ name_or_any i.names source
  ]
]

-- `IngredientUse.bound`
abbrev pub bound : IngredientUse → Bool
bound u = elim u.ingredient_id [ none ↦ false | some x ↦ true ]
