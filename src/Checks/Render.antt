-- ===== src/Checks/Render.antt =====
-- Rendering a small recipe.
use snap_cook.Common.{
  false, Str, codes, str_eq, ◌≡◌, refl, true, none, some, List, [], ◌∷◌, ◌++◌, map, arith,
}
use snap_cook.Common.Int.{pos}
use snap_cook.Errors.{ok}
use snap_cook.Dict.{mem, distinct, get, set, fetch, put_all, keys}
use snap_cook.Decimal.{of_nat, less, equal, mul, finish, half_even, digits_on}
use snap_cook.Decimal.Arith.{half_up, quantize, div, quotient, reduce}
use snap_cook.Canonical.Numbers.{normalize, strip_zeros, text_of, last_digits}
use snap_cook.Issues.{IssueCollector}
use snap_cook.Schema.I18n.{source_is_present}
use snap_cook.Schema.Graph.{Action, internal_references_resolve}
use snap_cook.Schema.Recipe.{Recipe, private, ids, validate_graph}
use snap_cook.Schema.Provenance.{authored}
use snap_cook.Units.Rounding.{
  format_number, snap_metric, snap, last_step, band_step, below, strip, fixed, round_significant,
  ladder_for,
}
use snap_cook.Units.Rounding.Display.{format_quantity, with_unit}
use snap_cook.Units.Scaling.{scale_spec}
use snap_cook.Registry.{IngredientRegistry, get_ingredient}
use snap_cook.Schema.Recipe.{
  claim_outputs, check_produced, assert_acyclic, uses_of, by_id, produced_states,
  terminal_state_ids, unconsumed,
}
use snap_cook.Worklist.{link, zeros, unlinked, release, drain}
use snap_cook.Worklist.Containers.{pop_last}
use snap_cook.Schema.Graph.{check_text, check_chunks, chunk_resolves, in_range}
use snap_cook.Render.Options.{RenderOptions, Outside}
use snap_cook.Render.Ingredients.{
  render_ingredient, note_unbound, render_optional_quantity, render_timer, resolve_optional,
}
use snap_cook.Render.Prose.{
  render_parts, render_ingredients, render_cookware, render_timers, render_temperatures,
}
use snap_cook.Render.Prose.Slots.{Gives}
use snap_cook.Render.Prose.{render_step}
use snap_cook.Render.Prose.Complete.{render_step_complete}
use snap_cook.Render.Html.{html_escape, ingredient_html, render_print_html}
use snap_cook.Render.Html.Markup.{markup}
use snap_cook.Render.Html.Safe.{without_texts, render_print_html-without_texts}
use snap_cook.Render.Model.{RenderedStep, RenderedIngredient, RenderModel, RenderGraph}
use snap_cook.Render.Toposort.{topological_actions}
use snap_cook.Render.Toposort.Lookups.{AllActions}
use snap_cook.Schema.Graph.References.{ingredient_ids}
use snap_cook.Schema.Recipe.{outputs}
use snap_cook.Render.Picture.{build_graph}
use snap_cook.Render.Picture.Closed.{IsClosed, build_graph-IsClosed}
use snap_cook.Render.Build.{build_render_model}
use snap_cook.Render.Build.Drawn.{IsRenderable, build_render_model_complete}
use snap_cook.Dict.{Dict}
use snap_cook.Checks.Soup.{chop, boil, join, season}

abbrev outside : Outside
outside = record {
  pint = record { to = λ v from target. ok v; to_with = λ density v from target. ok v };
  lower = λ s. s;
  repr = λ s. codes "'" ++ s ++ codes "'";
  message = λ policy factor. codes "check";
}

abbrev opts : RenderOptions
opts = record {
  lang = codes "en";
  system = codes "metric";
  scale = of_nat 1;
  registry = some (record { ingredients = []; by_name = [] });
  rounding = none;
}

abbrev registry : IngredientRegistry
registry = record { ingredients = []; by_name = [] }

abbrev stew : Recipe
stew = record {
  id = codes "r1";
  source_lang = codes "en";
  title = record {
    source = codes "en";
    values = (codes "en", codes "Stew") ∷ [];
    stale_against = [];
  };
  description = none;
  servings = some (pos 4);
  visibility = private;
  tags = [];
  actions = chop ∷ season ∷ boil ∷ [];
  provenance = record {
    origin = authored;
    source_url = none;
    source_title = none;
    author = none;
    license_spdx = none;
    attribution = none;
    notes = none;
    retrieved_at = none;
    importer = none;
  };
}

stew_valid : validate_graph stew.actions ≡ ok tt
unfolding validate_graph claim_outputs check_produced assert_acyclic uses_of by_id produced_states
    terminal_state_ids unconsumed get set fetch mem put_all link zeros unlinked release drain
    pop_last str_eq
stew_valid = refl

stew_ids : distinct (ids stew.actions) ≡ true
unfolding distinct mem str_eq
stew_ids = refl

stew_title : source_is_present stew.title ≡ true
unfolding source_is_present mem str_eq
stew_title = refl

season_references : internal_references_resolve season ≡ ok tt
unfolding internal_references_resolve check_text check_chunks chunk_resolves in_range distinct mem
    str_eq
season_references = refl

chop_references : internal_references_resolve chop ≡ ok tt
unfolding internal_references_resolve check_text check_chunks distinct mem
chop_references = refl

boil_references : internal_references_resolve boil ≡ ok tt
unfolding internal_references_resolve check_text check_chunks distinct mem
boil_references = refl

chop_parts :
    (issues : IssueCollector) → Gives (render_parts outside (codes "en") opts registry chop issues)
unfolding render_parts render_ingredients render_cookware render_timers render_temperatures
chop_parts issues = (_, refl)

boil_parts :
    (issues : IssueCollector) → Gives (render_parts outside (codes "en") opts registry boil issues)
unfolding render_parts render_ingredients render_cookware render_timers render_temperatures
boil_parts issues = (_, refl)

season_parts :
    (issues : IssueCollector)
    → Gives (render_parts outside (codes "en") opts registry season issues)
unfolding render_parts render_ingredients render_cookware render_timers render_temperatures
    render_ingredient get_ingredient get note_unbound render_optional_quantity render_timer
    resolve_optional scale_spec equal format_quantity format_number ladder_for snap_metric snap
    last_step band_step below strip fixed round_significant quantize half_up div quotient reduce
    less mul finish half_even digits_on normalize strip_zeros text_of last_digits with_unit
season_parts issues = (_, refl)

stew_actions : AllActions (IsRenderable outside (codes "en") opts registry) stew.actions
stew_actions = (
  record { references = chop_references; verb = tt; name = tt; prose = tt; parts = chop_parts },
  (
    record {
      references = season_references;
      verb = tt;
      name = tt;
      prose = tt;
      parts = season_parts;
    },
    (
      record { references = boil_references; verb = tt; name = tt; prose = tt; parts = boil_parts },
      tt,
    ),
  ),
)

build_render_model_complete_example :
    (model : RenderModel) × (ordered : List Action) × (build_render_model outside stew opts
      ≡ ok model)
    × (topological_actions stew.actions ≡ ok ordered)
    × (map (λ (s : RenderedStep). s.action_id) model.steps ≡ ids ordered)
    × IsClosed model.graph
build_render_model_complete_example =
    build_render_model_complete outside stew opts stew_valid stew_ids stew_title tt stew_actions

render_step_complete_example :
    (step : RenderedStep) × (render_step outside (codes "en") opts registry season 1 [] []
      ≡ ok (step, (season_parts []).0.1))
    × (step.action_id ≡ season.id)
    × (map (λ (r : RenderedIngredient). r.use_id) step.ingredients ≡ ingredient_ids season)
render_step_complete_example =
    render_step_complete outside (codes "en") opts season season_references tt tt registry 1 [] []
      (season_parts []).0.1 (season_parts []).0.0 (season_parts []).1

abbrev blank : Str → RenderedStep
blank id = record {
  action_id = id;
  index = 1;
  text = [];
  verb = none;
  ingredients = [];
  cookware = [];
  timers = [];
  temperatures = [];
  produces = none;
  uses = [];
}

abbrev steps : Dict RenderedStep
steps =
    (codes "chop", blank (codes "chop"))
    ∷ (codes "boil", blank (codes "boil"))
    ∷ (codes "join", blank (codes "join"))
    ∷ []

abbrev labels : Dict Str
labels =
    (codes "onions", codes "onions")
    ∷ (codes "stock", codes "stock")
    ∷ (codes "soup", codes "soup")
    ∷ []

steps_known : (k : Str) → mem k (ids (chop ∷ boil ∷ join ∷ [])) ≡ true → mem k (keys steps) ≡ true
steps_known k h = h

labels_known :
    (k : Str) → mem k (outputs (chop ∷ boil ∷ join ∷ [])) ≡ true → mem k (keys labels) ≡ true
labels_known k h = h

soup_uses :
    AllActions
      (λ a. (k : Str) → mem k a.uses ≡ true → mem k (outputs (chop ∷ boil ∷ join ∷ [])) ≡ true)
      (chop ∷ boil ∷ join ∷ [])
unfolding mem
soup_uses = ((λ k h. cc), ((λ k h. cc), ((λ k h. ground (arith, h)), tt)))

build_graph-IsClosed_example :
    (g : RenderGraph) × (build_graph (chop ∷ boil ∷ join ∷ []) steps labels ≡ ok g) × IsClosed g
build_graph-IsClosed_example =
    build_graph-IsClosed (chop ∷ boil ∷ join ∷ []) steps labels steps_known labels_known soup_uses

-- A model whose texts have brackets.
abbrev marked_up : RenderModel
marked_up = record {
  recipe_id = codes "rcp_1";
  title = codes "Salt & <b>pepper</b>";
  lang = codes "en";
  system = codes "metric";
  scale = of_nat 2;
  description = some (codes "\"Hot\"");
  servings = some (codes "4");
  ingredients =
      record {
        use_id = codes "iuse_1";
        name = codes "salt<";
        quantity = some (record {
          display = codes "1 'g'";
          exact = none;
          exact_unit = none;
          after_name = true;
        });
        optional = true;
        prep = some (codes "<i>ground</i>");
        notes = none;
        unresolved = false;
      }
      ∷ [];
  steps = [];
  graph = record { nodes = []; edges = [] };
  warnings = [];
}

render_print_html-without_texts_example :
    markup (render_print_html marked_up) ≡ markup (render_print_html (without_texts marked_up))
render_print_html-without_texts_example = render_print_html-without_texts marked_up

salt_line :
    ingredient_html (record {
      use_id = codes "iuse_1";
      name = codes "salt<";
      quantity = none;
      optional = true;
      prep = some (codes "<i>");
      notes = none;
      unresolved = false;
    })
    ≡ codes "salt&lt;, &lt;i&gt; <span class=\"opt\">(optional)</span>"
unfolding ingredient_html html_escape
salt_line = refl
