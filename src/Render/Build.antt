-- ===== src/Render/Build.antt =====
-- render/build.py: the model of a recipe for one reader.
pub mod Ordered
pub mod Drawn
use snap_cook.Common.{Str, ℕ, suc, Option, none, some, List, [], ◌∷◌, ◌++◌, map}
use snap_cook.Errors.{Result, ok, ◌>>=◌}
use snap_cook.Issues.{IssueCollector}
use snap_cook.Dict.{Dict, put_all}
use snap_cook.Schema.Graph.{Action}
use snap_cook.Schema.Recipe.{Recipe}
use snap_cook.Registry.{IngredientRegistry}
use snap_cook.Registry.Curated.{default_registry}
use snap_cook.Render.Toposort.{topological_actions}
use snap_cook.Render.Model.{RenderedIngredient, RenderedStep, RenderModel}
use snap_cook.Render.Options.{RenderOptions, Outside, scaled_servings}
use snap_cook.Render.Ingredients.{resolve_localized, resolve_optional}
use snap_cook.Render.Prose.{render_step}
use snap_cook.Render.Picture.{state_labels, build_graph}

module _ (outside : Outside) (source_lang : Str) (opts : RenderOptions) where
  -- The steps in turn, from this number on.
  unfoldable pub render_steps :
      IngredientRegistry
      → List Action
      → ℕ
      → (state_names : Dict Str) → IssueCollector
      → Result (List RenderedStep × IssueCollector)
  render_steps registry [] index state_names issues = ok ([], issues)
  render_steps registry (action ∷ ordered) index state_names issues = do
    (step, issues') ← render_step outside source_lang opts registry action index state_names issues
    (steps, issues'') ← render_steps registry ordered (suc index) state_names issues'
    ok (step ∷ steps, issues'')

abbrev pub all_lines : List RenderedStep → List RenderedIngredient
all_lines [] = []
all_lines (step ∷ steps) = step.ingredients ++ all_lines steps

abbrev pub by_action : List RenderedStep → Dict RenderedStep
by_action steps = put_all (map (λ (s : RenderedStep). (s.action_id, s)) steps) []

abbrev pub registry_or_default : Outside → Option IngredientRegistry → IngredientRegistry
registry_or_default outside none = default_registry outside.lower
registry_or_default outside (some registry) = registry

-- `build_render_model`
unfoldable pub build_render_model : Outside → Recipe → RenderOptions → Result RenderModel
build_render_model outside recipe opts = do
  let registry : IngredientRegistry = registry_or_default outside opts.registry
  ordered ← topological_actions recipe.actions
  state_names ← state_labels recipe.source_lang opts.lang ordered 1 []
  (steps, issues) ← render_steps outside recipe.source_lang opts registry ordered 1 state_names []
  title ← resolve_localized recipe.title recipe.source_lang opts.lang
  description ← resolve_optional recipe.description recipe.source_lang opts.lang
  graph ← build_graph ordered (by_action steps) state_names
  ok (record {
    recipe_id = recipe.id;
    title = title;
    lang = opts.lang;
    system = opts.system;
    scale = opts.scale;
    description = description;
    servings = scaled_servings recipe.servings opts.scale;
    ingredients = all_lines steps;
    steps = steps;
    graph = graph;
    warnings = issues;
  })
