-- ===== src/Registry/Curated.antt =====
-- packages/snapcook-core/src/snapcook_core/registry.py: the bundled registry.
use snap_cook.Common.{Str, codes, ℕ, Bool, true, false, Option, none, some, List, [], ◌∷◌, map}
use snap_cook.Common.Int.{negsuc}
use snap_cook.Dict.{Dict, put_all}
use snap_cook.Decimal.{Decimal, of_nat}
use snap_cook.Schema.Ingredient.{Ingredient}
use snap_cook.Registry.{IngredientRegistry, registry_of}

abbrev in_tenths : ℕ → Decimal
in_tenths n = record { neg = false; coeff = n; exp = negsuc 0 }

abbrev hundredths : ℕ → Decimal
hundredths n = record { neg = false; coeff = n; exp = negsuc 1 }

abbrev thousandths : ℕ → Decimal
thousandths n = record { neg = false; coeff = n; exp = negsuc 2 }

abbrev curated_entry :
    Str → (en de : Str) → Option Decimal → Bool → Dict Decimal → Option ℕ → Ingredient
curated_entry id en de density divisible weights fdc_id = record {
  id = id;
  names = (codes "en", en) ∷ (codes "de", de) ∷ [];
  density_g_per_ml = density;
  divisible = divisible;
  piece_weights_g = weights;
  fdc_id = fdc_id;
}

-- `_CURATED`
unfoldable pub curated : List Ingredient
curated =
    curated_entry (codes "ing_water") (codes "water") (codes "Wasser") (some (in_tenths 10)) true
      ([]) none
    ∷ curated_entry (codes "ing_milk") (codes "milk") (codes "Milch") (some (hundredths 103)) true
        ([]) none
    ∷ curated_entry (codes "ing_flour") (codes "flour") (codes "Mehl") (some (hundredths 53)) true
        ([]) (some 169761)
    ∷ curated_entry (codes "ing_sugar") (codes "sugar") (codes "Zucker") (some (hundredths 85)) true
        ([]) none
    ∷ curated_entry (codes "ing_salt") (codes "salt") (codes "Salz") (some (in_tenths 12)) true ([])
        none
    ∷ curated_entry (codes "ing_pepper") (codes "pepper") (codes "Pfeffer") (some (in_tenths 5))
        true ([]) none
    ∷ curated_entry (codes "ing_butter") (codes "butter") (codes "Butter") (some (thousandths 911))
        true ([]) none
    ∷ curated_entry (codes "ing_oil") (codes "vegetable oil") (codes "Pflanzenöl")
        (some (hundredths 92)) true ([]) none
    ∷ curated_entry (codes "ing_olive_oil") (codes "olive oil") (codes "Olivenöl")
        (some (thousandths 913)) true ([]) none
    ∷ curated_entry (codes "ing_egg") (codes "egg") (codes "Ei") none false
        ((codes "small", of_nat 44) ∷ (codes "medium", of_nat 50) ∷ (codes "large", of_nat 63) ∷ [])
        none
    ∷ curated_entry (codes "ing_potato") (codes "potato") (codes "Kartoffel") none true
        ((codes "small", of_nat 120)
          ∷ (codes "medium", of_nat 170)
          ∷ (codes "large", of_nat 300)
          ∷ [])
        none
    ∷ curated_entry (codes "ing_onion") (codes "onion") (codes "Zwiebel") none true
        ((codes "small", of_nat 90)
          ∷ (codes "medium", of_nat 150)
          ∷ (codes "large", of_nat 250)
          ∷ [])
        none
    ∷ curated_entry (codes "ing_garlic") (codes "garlic") (codes "Knoblauch") none true
        ((codes "medium", of_nat 5) ∷ []) none
    ∷ curated_entry (codes "ing_nutmeg") (codes "nutmeg") (codes "Muskatnuss") (some (in_tenths 5))
        true ([]) none
    ∷ curated_entry (codes "ing_yeast") (codes "yeast") (codes "Hefe") (some (hundredths 75)) true
        ([]) none
    ∷ curated_entry (codes "ing_tomato") (codes "tomato") (codes "Tomate") none true
        ((codes "medium", of_nat 120) ∷ (codes "large", of_nat 180) ∷ []) none
    ∷ curated_entry (codes "ing_cheese") (codes "cheese") (codes "Käse") (some (in_tenths 6)) true
        ([]) none
    ∷ curated_entry (codes "ing_bacon") (codes "bacon") (codes "Speck") none true ([]) none
    ∷ curated_entry (codes "ing_parsley") (codes "parsley") (codes "Petersilie") none true ([]) none
    ∷ curated_entry (codes "ing_rosemary") (codes "rosemary") (codes "Rosmarin") none true ([]) none
    ∷ []

-- `_build`
unfoldable pub build : List Ingredient → Dict Ingredient
build raw = put_all (map (λ (i : Ingredient). (i.id, i)) raw) []

-- `default_registry`
unfoldable pub default_registry : (lower : Str → Str) → IngredientRegistry
default_registry lower = registry_of lower (build curated)
