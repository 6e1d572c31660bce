-- ===== src/Render/Ingredients.antt =====
-- render/build.py: the ingredients and timers of a step, for one reader.
use snap_cook.Common.{Str, codes, Bool, true, false, ◌||◌, Option, none, some, ◌++◌}
use snap_cook.Errors.{Result, ok, ◌>>=◌}
use snap_cook.Issues.{IssueCollector, add, info, warn}
use snap_cook.Schema.I18n.{LocalizedText, resolve}
use snap_cook.Schema.Ingredient.{Ingredient, IngredientUse, name_for}
use snap_cook.Schema.Quantity.{Quantity, QuantitySpec, manual, scalar, range}
use snap_cook.Schema.Graph.{Timer, TimerQuantity}
use snap_cook.Units.Rounding.{metric_profile}
use snap_cook.Units.Rounding.Display.{format_quantity}
use snap_cook.Registry.{IngredientRegistry, get_ingredient}
use snap_cook.Render.Model.{RenderedQuantity, RenderedIngredient, RenderedTimer}
use snap_cook.Render.Labels.{or_text}
use snap_cook.Render.Options.{RenderOptions, Outside}
use snap_cook.Render.Quantities.{scale_at, render_quantity}

-- `_resolve_localized`
unfoldable pub resolve_localized : LocalizedText → (source_lang lang : Str) → Result Str
resolve_localized t source_lang lang = do
  (resolved, fallback) ← resolve t lang (some source_lang)
  ok resolved

unfoldable pub resolve_optional :
    Option LocalizedText → (source_lang lang : Str) → Result (Option Str)
resolve_optional none source_lang lang = ok none
resolve_optional (some t) source_lang lang = do
  resolved ← resolve_localized t source_lang lang
  ok (some resolved)

-- The issue of a use that the registry does not know.
unfoldable pub note_unbound :
    Outside → IngredientUse → Option Ingredient → IssueCollector → IssueCollector
note_unbound outside item (some i) issues = issues
note_unbound outside item none issues = elim item.ingredient_id [
  | some ingredient_id ↦
      add (codes "INGREDIENT_UNBOUND") (codes "unknown ingredient id " ++ ingredient_id) warn none
        (some item.id) issues
  | none ↦
      add (codes "INGREDIENT_UNBOUND")
        (codes "ingredient "
          ++ outside.repr item.name
          ++ codes " is not bound to the registry; cannot translate")
        info none (some item.id) issues
]

abbrev pub display_name : IngredientUse → Option Ingredient → (source_lang lang : Str) → Str
display_name item none source_lang lang = item.name
display_name item (some i) source_lang lang = or_text (name_for i lang (some source_lang)) item.name

abbrev pub is_unknown : IngredientUse → Option Ingredient → Bool
is_unknown item (some i) = false
is_unknown item none = elim item.ingredient_id [ none ↦ false | some x ↦ true ]

unfoldable pub render_optional_quantity :
    Outside
    → Option QuantitySpec
    → Option Ingredient
    → RenderOptions
    → IssueCollector
    → Str
    → Result (Option RenderedQuantity × Bool × IssueCollector)
render_optional_quantity outside none ingredient opts issues element_id = ok (none, false, issues)
render_optional_quantity outside (some spec) ingredient opts issues element_id = do
  (quantity, unresolved, issues') ← render_quantity outside spec ingredient opts issues element_id
  ok (some quantity, unresolved, issues')

-- `_render_ingredient`
unfoldable pub render_ingredient :
    Outside
    → IngredientUse
    → (source_lang : Str) → RenderOptions
    → IngredientRegistry
    → IssueCollector
    → Result (RenderedIngredient × IssueCollector)
render_ingredient outside item source_lang opts registry issues = do
  let ingredient : Option Ingredient = get_ingredient registry item.ingredient_id
  (quantity, unresolved, issues') ←
      render_optional_quantity outside item.quantity ingredient opts
        (note_unbound outside item ingredient issues) item.id
  prep ← resolve_optional item.prep source_lang opts.lang
  notes ← resolve_optional item.notes source_lang opts.lang
  ok (
    record {
      use_id = item.id;
      name = display_name item ingredient source_lang opts.lang;
      quantity = quantity;
      optional = item.optional;
      prep = prep;
      notes = notes;
      unresolved = unresolved || is_unknown item ingredient;
    },
    issues',
  )

abbrev pub timer_quantity : TimerQuantity → Quantity
timer_quantity (TimerQuantity.scalar s) = scalar s
timer_quantity (TimerQuantity.range r) = range r

-- `_render_timer`
unfoldable pub render_timer :
    Outside
    → Timer
    → (source_lang : Str) → RenderOptions
    → IssueCollector
    → Str
    → Result (RenderedTimer × IssueCollector)
render_timer outside timer source_lang opts issues element_id = do
  let spec : QuantitySpec = record { quantity = timer_quantity timer.quantity; scaling = manual }
  (quantity, issues') ← scale_at outside spec opts issues element_id
  display ← format_quantity quantity metric_profile true
  label ← resolve_optional timer.name source_lang opts.lang
  ok (record { label = label; display = display }, issues')
