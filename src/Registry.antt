-- ===== src/Registry.antt =====
-- packages/snapcook-core/src/snapcook_core/registry.py: the entity that an ingredient use binds to.
-- `str.lower` is a parameter.
pub mod Curated
use snap_cook.Common.{
  Str, codes, str_eq, ℕ, ◌+◌, ltb, Bool, true, false, ◌&&◌, Option, none, some, List, [], ◌∷◌, ◌++◌,
  map, length, if◌then◌else◌,
}
use snap_cook.Dict.{Dict, get, set, keys, mem}
use snap_cook.Decimal.{Decimal, of_nat}
use snap_cook.Schema.Ingredient.{Ingredient}
use snap_cook.Units.Registry.{strip_left, strip_right}

-- (lang, lowered name) and the id
abbrev pub Names : Type 0
Names = List ((Str × Str) × Str)

pub record IngredientRegistry : Type 0 where
  pub ingredients : Dict Ingredient
  pub by_name : Names

abbrev pub same_name : Str × Str → Str × Str → Bool
same_name a b = str_eq a.0 b.0 && str_eq a.1 b.1

-- `_by_name.get(key)`
unfoldable pub find_name : Str × Str → Names → Option Str
find_name key [] = none
find_name key ((k, ing_id) ∷ names) = if same_name k key then some ing_id else find_name key names

-- `setdefault`
abbrev pub set_default : Str × Str → Str → Names → Names
set_default key ing_id names = elim (find_name key names) [
  | none ↦ names ++ (key, ing_id) ∷ []
  | some other ↦ names
]

-- The first entry of any language with this name.
unfoldable pub find_any : Str → Names → Option Str
find_any candidate [] = none
find_any candidate (((lang, name), ing_id) ∷ names) =
    if str_eq name candidate then some ing_id else find_any candidate names

-- `ingredient.get`
unfoldable pub get_ingredient : IngredientRegistry → Option Str → Option Ingredient
get_ingredient registry none = none
get_ingredient registry (some ingredient_id) = get registry.ingredients ingredient_id

-- `__contains__`
pub contains : IngredientRegistry → Str → Bool
contains registry ingredient_id = mem ingredient_id (keys registry.ingredients)

-- `s[:-len(ending)]`, if `s` ends in `ending`
unfoldable pub without_end : Str → Str → Option Str
without_end ending [] = if str_eq [] ending then some [] else none
without_end ending (c ∷ s) =
    if str_eq (c ∷ s) ending
    then some []
    else elim (without_end ending s) [ none ↦ none | some r ↦ some (c ∷ r) ]

abbrev pub plural_endings : List Str
plural_endings = codes "es" ∷ codes "en" ∷ codes "n" ∷ codes "s" ∷ []

-- The forms that end in one of the endings and are long enough, without it.
unfoldable pub singular_forms : Str → List Str → List Str
singular_forms key [] = []
singular_forms key (ending ∷ endings) =
    let rest = singular_forms key endings in
    elim (without_end ending key) [
      | none ↦ rest
      | some stem ↦ if ltb (length ending + 1) (length key) then stem ∷ rest else rest
    ]

-- The names of one ingredient, in the index of names.
unfoldable pub add_names : (lower : Str → Str) → Str → Dict Str → Names → Names
add_names lower ing_id [] names = names
add_names lower ing_id ((lang, name) ∷ rest) names =
    add_names lower ing_id rest (set_default (lang, lower name) ing_id names)

unfoldable pub index_names : (lower : Str → Str) → List Ingredient → Names → Names
index_names lower [] names = names
index_names lower (ing ∷ ingredients) names =
    index_names lower ingredients (add_names lower ing.id ing.names names)

module _ (lower : Str → Str) where
  -- `IngredientRegistry.__init__`
  unfoldable pub registry_of : Dict Ingredient → IngredientRegistry
  registry_of ingredients = record {
    ingredients = ingredients;
    by_name = index_names lower (map (λ (e : Str × Ingredient). e.1) ingredients) [];
  }

  unfoldable pub singular_candidates : Str → List Str
  singular_candidates surface =
      let key = lower (strip_right (strip_left surface)) in key ∷ singular_forms key plural_endings

  -- `if lang and (lang, candidate) in self._by_name`, and then any language
  unfoldable pub bind_candidate : Names → Option Str → Str → Option Str
  bind_candidate names none candidate = find_any candidate names
  bind_candidate names (some []) candidate = find_any candidate names
  bind_candidate names (some (c ∷ lang)) candidate = elim (find_name (c ∷ lang, candidate) names) [
    | some ing_id ↦ some ing_id
    | none ↦ find_any candidate names
  ]

  unfoldable pub first_bound : Names → Option Str → List Str → Option Str
  first_bound names lang [] = none
  first_bound names lang (candidate ∷ candidates) = elim (bind_candidate names lang candidate) [
    | some ing_id ↦ some ing_id
    | none ↦ first_bound names lang candidates
  ]

  -- `IngredientRegistry.resolve_name`
  unfoldable pub resolve_name : IngredientRegistry → Str → Option Str → Option Str
  resolve_name registry surface lang =
      first_bound registry.by_name lang (singular_candidates surface)
