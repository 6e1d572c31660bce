-- ===== src/Schema/Recipe.antt =====
-- schema/recipe.py: the recipe and the graph invariants that its construction enforces.
pub mod Linkable
pub mod Acyclic
pub mod Valid
use snap_cook.Common.{
  Str, str_eq, ℕ, suc, Bool, true, false, not, ◌==◌, Option, none, some, List, [], ◌∷◌, ◌++◌, map,
  length, if◌then◌else◌,
}
use snap_cook.Common.Int.{ℤ}
use snap_cook.Errors.{
  Result, ok, err, graph_error, cyclic_graph, dangling_reference, raise_if, ◌>>=◌, ◌>>◌,
}
use snap_cook.Dict.{Dict, mem, get, set, keys, put_all}
use snap_cook.Schema.I18n.{LocalizedText}
use snap_cook.Schema.Ingredient.{IngredientUse}
use snap_cook.Schema.Graph.{Action}
use snap_cook.Schema.Provenance.{Provenance}
use snap_cook.Worklist.{Degrees, unlinked, link, zeros, drain}
use snap_cook.Worklist.Containers.{stack}

pub data Visibility : Type 0 where
  private unlisted public : Visibility

pub record Recipe : Type 0 where
  pub id : Str
  pub source_lang : Str
  pub title : LocalizedText
  pub description : Option LocalizedText
  pub servings : Option ℤ
  pub visibility : Visibility
  pub tags : List Str
  pub actions : List Action
  pub provenance : Provenance

abbrev pub ids : List Action → List Str
ids actions = map (λ (a : Action). a.id) actions

abbrev pub outputs : List Action → List Str
outputs actions = map (λ (a : Action). a.produces.id) actions

-- The pairs (used, action.id) of the nested loops over `actions` and `action.uses`.
unfoldable pub uses_of : List Action → List (Str × Str)
uses_of [] = []
uses_of (a ∷ actions) = map (λ (used : Str). (used, a.id)) a.uses ++ uses_of actions

-- `Recipe.produced_states`
unfoldable pub produced_states : List Action → Dict Str
produced_states actions = put_all (map (λ (a : Action). (a.produces.id, a.id)) actions) []

abbrev pub consumed : List Action → List Str
consumed actions = map (λ (p : Str × Str). p.0) (uses_of actions)

unfoldable pub unconsumed : List Str → List Str → List Str
unconsumed used [] = []
unconsumed used (s ∷ states) =
    if mem s used then unconsumed used states else s ∷ unconsumed used states

-- `Recipe.terminal_state_ids`
unfoldable pub terminal_state_ids : List Action → List Str
unfolding unconsumed
terminal_state_ids actions = unconsumed (consumed actions) (outputs actions)

-- The first loop of `_validate_graph`: outputs are single-writer.
unfoldable pub claim_outputs : List Action → Dict Str → Result (Dict Str)
claim_outputs [] producer = ok producer
claim_outputs (a ∷ actions) producer = do
  raise_if (mem a.produces.id (keys producer)) graph_error
  claim_outputs actions (set a.produces.id a.id producer)

-- The second loop: every state that is used has a producer.
unfoldable pub check_produced : Dict Str → List (Str × Str) → Result (Unit {0})
check_produced producer [] = ok tt
check_produced producer ((used, aid) ∷ rest) = do
  raise_if (not (mem used (keys producer))) dangling_reference
  check_produced producer rest

unfoldable pub by_id : List Action → Dict Action
by_id actions = put_all (map (λ (a : Action). (a.id, a)) actions) []

-- `Recipe._assert_acyclic`, with one more round than there are actions as fuel.
unfoldable pub assert_acyclic : List Action → Dict Str → Result (Unit {0})
assert_acyclic actions producer = do
  g ← link true producer (uses_of actions) (unlinked (ids actions))
  emitted ← drain stack (suc (length (by_id actions))) g.dependents g.indegree (zeros g.indegree)
  raise_if (not (length emitted == length (by_id actions))) cyclic_graph

abbrev pub is_empty {ℓ} : {A : Type ℓ} → List A → Bool
is_empty [] = true
is_empty (x ∷ xs) = false

-- `Recipe._validate_graph`
unfoldable pub validate_graph : List Action → Result (Unit {0})
validate_graph actions = do
  raise_if (is_empty actions) graph_error
  producer ← claim_outputs actions []
  check_produced producer (uses_of actions)
  assert_acyclic actions producer
  raise_if (is_empty (terminal_state_ids actions)) graph_error

-- `Recipe.ingredient_uses`
pub ingredient_uses : List Action → List IngredientUse
ingredient_uses [] = []
ingredient_uses (a ∷ actions) = a.ingredients ++ ingredient_uses actions
