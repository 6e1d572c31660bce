-- ===== src/Schema.antt =====
-- packages/snapcook-core/src/snapcook_core/schema/: the data model of a recipe.
pub mod I18n
pub mod Quantity
pub mod Ingredient
pub mod Graph
pub mod Provenance
pub mod Recipe
