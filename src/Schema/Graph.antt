-- ===== src/Schema/Graph.antt =====
-- schema/graph.py: food-states, actions and the prose that refers to their parts.
pub mod References
pub mod Temperatures
use snap_cook.Common.{Str, ℕ, Bool, Option, none, some, List, [], ◌∷◌, map, ◌&&◌, not, length}
use snap_cook.Common.Int.{ℤ, pos, ltb_ℤ}
use snap_cook.Dict.{mem, distinct}
use snap_cook.Decimal.{Decimal}
use snap_cook.Errors.{Result, ok, dangling_reference, raise_if, ◌>>◌}
use snap_cook.Schema.I18n.{LocalizedText}
use snap_cook.Schema.Quantity.{Scalar, Range}
use snap_cook.Schema.Ingredient.{IngredientUse, CookwareUse}

pub data TemperatureUnit : Type 0 where
  C F : TemperatureUnit

pub record Temperature : Type 0 where
  pub value : Decimal
  pub unit : TemperatureUnit

-- `Scalar | Range`
pub data TimerQuantity : Type 0 where
  scalar : Scalar → TimerQuantity
  range : Range → TimerQuantity

pub record Timer : Type 0 where
  pub name : Option LocalizedText
  pub quantity : TimerQuantity

pub data TextChunk : Type 0 where
  text : LocalizedText → TextChunk
  ingredient cookware state : (ref : Str) → TextChunk
  timer temperature : (index : ℤ) → TextChunk

pub record TextTemplate : Type 0 where
  pub chunks : List TextChunk

pub record FoodState : Type 0 where
  pub id : Str
  pub name : Option LocalizedText

pub record Action : Type 0 where
  pub id : Str
  pub order : ℤ
  pub verb : Option LocalizedText
  pub uses : List Str
  pub ingredients : List IngredientUse
  pub cookware : List CookwareUse
  pub timers : List Timer
  pub temperatures : List Temperature
  pub produces : FoodState
  pub text : Option TextTemplate
  pub notes : Option LocalizedText

-- `0 <= index < n`
unfoldable pub in_range : ℤ → ℕ → Bool
in_range i n = not (ltb_ℤ i (pos 0)) && ltb_ℤ i (pos n)

-- The part of the action that a slot of the prose refers to.
unfoldable pub chunk_resolves : Action → TextChunk → Bool
unfolding in_range
chunk_resolves a (text t) = Bool.true
chunk_resolves a (ingredient ref) = mem ref (map (λ (u : IngredientUse). u.id) a.ingredients)
chunk_resolves a (cookware ref) = mem ref (map (λ (u : CookwareUse). u.id) a.cookware)
chunk_resolves a (state ref) = mem ref a.uses
chunk_resolves a (timer i) = in_range i (length a.timers)
chunk_resolves a (temperature i) = in_range i (length a.temperatures)

unfoldable pub check_chunks : Action → List TextChunk → Result (Unit {0})
check_chunks a [] = ok tt
check_chunks a (c ∷ cs) =
    raise_if (not (chunk_resolves a c)) dangling_reference >> check_chunks a cs

-- The prose, if there is any, is checked chunk by chunk.
unfoldable pub check_text : Action → Option TextTemplate → Result (Unit {0})
check_text a o = elim o [ none ↦ ok tt | some t ↦ check_chunks a t.chunks ]

-- `Action._internal_references_resolve`
unfoldable pub internal_references_resolve : Action → Result (Unit {0})
unfolding check_text check_chunks chunk_resolves
internal_references_resolve a = do
  raise_if (not (distinct (map (λ (u : IngredientUse). u.id) a.ingredients))) dangling_reference
  raise_if (not (distinct (map (λ (u : CookwareUse). u.id) a.cookware))) dangling_reference
  check_text a a.text
