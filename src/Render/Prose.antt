-- ===== src/Render/Prose.antt =====
-- render/build.py: the steps, and the prose of a step with its slots filled in.
pub mod Slots
pub mod Covered
pub mod Complete
use snap_cook.Common.{
  Str, codes, ℕ, suc, ◌-◌, leb, Option, none, some, List, [], ◌∷◌, ◌++◌, map, length, get_elem?,
  if◌then◌else◌,
}
use snap_cook.Common.Int.{ℤ, pos, negsuc}
use snap_cook.Errors.{Result, ok, err, index_error, ◌>>=◌}
use snap_cook.Issues.{IssueCollector}
use snap_cook.Dict.{Dict, get, fetch, put_all}
use snap_cook.Schema.Ingredient.{IngredientUse, CookwareUse}
use snap_cook.Schema.Graph.{Action, TextChunk, TextTemplate, Timer, Temperature}
use snap_cook.Units.Registry.{is_space}
use snap_cook.Registry.{IngredientRegistry}
use snap_cook.Render.Model.{RenderedIngredient, RenderedTimer, RenderedTemperature, RenderedStep}
use snap_cook.Render.Labels.{ingredient_inline, join_with, trim, get_or}
use snap_cook.Render.Options.{RenderOptions, Outside, temperature_text}
use snap_cook.Render.Ingredients.{
  resolve_localized, resolve_optional, render_ingredient, render_timer,
}

module _ {A : Type 0} where
  abbrev pub found : Option A → Result A
  found none = err index_error
  found (some x) = ok x

  -- `l[i]`; a negative index counts from the end.
  unfoldable pub index_of : List A → ℤ → Result A
  index_of l (pos n) = found (get_elem? l n)
  index_of l (negsuc n) =
      if leb (suc n) (length l) then found (get_elem? l (length l - suc n)) else err index_error

-- What the parts of an action were rendered to.
pub record Parts : Type 0 where
  pub ingredients : Dict RenderedIngredient
  pub cookware : Dict Str
  pub timers : List RenderedTimer
  pub temperatures : List RenderedTemperature

-- `[rendered_ings[use.id] for use in action.ingredients]`
unfoldable pub fetch_uses :
    Dict RenderedIngredient → List IngredientUse → Result (List RenderedIngredient)
fetch_uses rendered [] = ok []
fetch_uses rendered (item ∷ items) = do
  first ← fetch rendered item.id
  rest ← fetch_uses rendered items
  ok (first ∷ rest)

module _ (source_lang lang : Str) where
  -- One part of the joined prose.
  unfoldable pub chunk_text : Parts → (state_names : Dict Str) → TextChunk → Result Str
  chunk_text parts state_names (TextChunk.text t) = resolve_localized t source_lang lang
  chunk_text parts state_names (TextChunk.ingredient ref) = do
    rendered ← fetch parts.ingredients ref
    ok (ingredient_inline rendered)
  chunk_text parts state_names (TextChunk.cookware ref) = fetch parts.cookware ref
  chunk_text parts state_names (TextChunk.state ref) = ok (get_or state_names ref ref)
  chunk_text parts state_names (TextChunk.timer index) = do
    rendered ← index_of parts.timers index
    ok rendered.display
  chunk_text parts state_names (TextChunk.temperature index) = do
    rendered ← index_of parts.temperatures index
    ok rendered.display

  unfoldable pub chunk_texts : Parts → (state_names : Dict Str) → List TextChunk → Result Str
  chunk_texts parts state_names [] = ok []
  chunk_texts parts state_names (chunk ∷ chunks) = do
    part ← chunk_text parts state_names chunk
    rest ← chunk_texts parts state_names chunks
    ok (part ++ rest)

  abbrev pub sentence : Str → List Str → Str
  sentence verb [] = trim is_space (verb ++ codes ".")
  sentence verb (name ∷ names) =
      trim is_space (verb ++ codes " " ++ join_with (codes ", ") (name ∷ names) ++ codes ".")

  abbrev pub verb_or : Option Str → Str
  verb_or none = codes "Combine"
  verb_or (some verb) = verb

  -- `_fallback_text`
  unfoldable pub fallback_text : Action → Dict RenderedIngredient → Result Str
  fallback_text action rendered = do
    verb ← resolve_optional action.verb source_lang lang
    names ← fetch_uses rendered action.ingredients
    ok (sentence (verb_or verb) (map ingredient_inline names))

  -- `_render_text`
  unfoldable pub render_text : Action → Parts → (state_names : Dict Str) → Result Str
  render_text action parts state_names = elim action.text [
    | none ↦ fallback_text action parts.ingredients
    | some template ↦ chunk_texts parts state_names template.chunks
  ]

module _ (outside : Outside) (source_lang : Str) (opts : RenderOptions) where
  unfoldable pub render_ingredients :
      IngredientRegistry
      → List IngredientUse
      → IssueCollector
      → Result (List (Str × RenderedIngredient) × IssueCollector)
  render_ingredients registry [] issues = ok ([], issues)
  render_ingredients registry (item ∷ items) issues = do
    (rendered, issues') ← render_ingredient outside item source_lang opts registry issues
    (rest, issues'') ← render_ingredients registry items issues'
    ok ((item.id, rendered) ∷ rest, issues'')

  unfoldable pub render_cookware : List CookwareUse → Result (List (Str × Str))
  render_cookware [] = ok []
  render_cookware (item ∷ items) = do
    name ← resolve_localized item.name source_lang opts.lang
    rest ← render_cookware items
    ok ((item.id, name) ∷ rest)

  unfoldable pub render_timers :
      (action_id : Str) → List Timer → IssueCollector → Result (List RenderedTimer × IssueCollector)
  render_timers action_id [] issues = ok ([], issues)
  render_timers action_id (timer ∷ timers) issues = do
    (rendered, issues') ← render_timer outside timer source_lang opts issues action_id
    (rest, issues'') ← render_timers action_id timers issues'
    ok (rendered ∷ rest, issues'')

  unfoldable pub render_temperatures : List Temperature → Result (List RenderedTemperature)
  render_temperatures [] = ok []
  render_temperatures (temperature ∷ temperatures) = do
    display ← temperature_text temperature opts.system
    rest ← render_temperatures temperatures
    ok (record { display = display } ∷ rest)

  unfoldable pub render_parts :
      IngredientRegistry → Action → IssueCollector → Result (Parts × IssueCollector)
  render_parts registry action issues = do
    (ingredients, issues') ← render_ingredients registry action.ingredients issues
    cookware ← render_cookware action.cookware
    (timers, issues'') ← render_timers action.id action.timers issues'
    temperatures ← render_temperatures action.temperatures
    ok (
      record {
        ingredients = put_all ingredients [];
        cookware = put_all cookware [];
        timers = timers;
        temperatures = temperatures;
      },
      issues'',
    )

  -- The step, once its parts are rendered.
  unfoldable pub finish_step : Action → ℕ → Parts → (state_names : Dict Str) → Result RenderedStep
  finish_step action index parts state_names = do
    text ← render_text source_lang opts.lang action parts state_names
    verb ← resolve_optional action.verb source_lang opts.lang
    ingredients ← fetch_uses parts.ingredients action.ingredients
    ok (record {
      action_id = action.id;
      index = index;
      text = text;
      verb = verb;
      ingredients = ingredients;
      cookware = map (λ (e : Str × Str). e.1) parts.cookware;
      timers = parts.timers;
      temperatures = parts.temperatures;
      produces = get state_names action.produces.id;
      uses = map (λ (sid : Str). get_or state_names sid sid) action.uses;
    })

  -- `_render_step`
  unfoldable pub render_step :
      IngredientRegistry
      → Action
      → ℕ
      → (state_names : Dict Str) → IssueCollector
      → Result (RenderedStep × IssueCollector)
  render_step registry action index state_names issues = do
    (parts, issues') ← render_parts registry action issues
    step ← finish_step action index parts state_names
    ok (step, issues')
