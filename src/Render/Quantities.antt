-- ===== src/Render/Quantities.antt =====
-- render/build.py: a quantity, scaled and in the units of the reader, with the issues that are found.
use snap_cook.Common.{Str, codes, Bool, true, false, Option, none, some, [], ◌∷◌, ◌++◌}
use snap_cook.Errors.{Result, ok, ◌>>=◌}
use snap_cook.Decimal.{Decimal}
use snap_cook.Issues.{IssueCollector, add, warn}
use snap_cook.Schema.Ingredient.{Ingredient}
use snap_cook.Schema.Quantity.{Quantity, QuantitySpec, scalar, range, count, approx, Count, UnitRef}
use snap_cook.Units.Registry.{unit_def}
use snap_cook.Units.Density.{convert_value}
use snap_cook.Units.Scaling.{scale_spec}
use snap_cook.Units.Rounding.Display.{format_quantity, unit_id_of}
use snap_cook.Render.Model.{RenderedQuantity}
use snap_cook.Render.Labels.{size_label, approx_label, token_value}
use snap_cook.Render.Options.{RenderOptions, Outside, profile_of, unit_ref, choose_display_unit}

abbrev pub or_else : Option IssueCollector → IssueCollector → IssueCollector
or_else none issues = issues
or_else (some issues') issues = issues'

-- `scale_spec`, with the collector of the whole model
abbrev pub scale_at :
    Outside
    → QuantitySpec
    → RenderOptions
    → IssueCollector
    → Str
    → Result (Quantity × IssueCollector)
scale_at outside spec opts issues element_id = do
  (scaled, issues') ← scale_spec outside.message spec opts.scale (some issues) (some element_id)
  ok (scaled.quantity, or_else issues' issues)

abbrev pub plain_quantity : Str → RenderedQuantity
plain_quantity display = record {
  display = display;
  exact = none;
  exact_unit = none;
  after_name = false;
}

abbrev pub in_unit : Str → Decimal → Str → RenderedQuantity
in_unit display value target = record {
  display = display;
  exact = some value;
  exact_unit = some target;
  after_name = false;
}

-- A unit without an id is an issue, and the quantity counts as unresolved.
abbrev pub unresolved_unit : Outside → Option UnitRef → IssueCollector → Str → Bool × IssueCollector
unresolved_unit outside none issues element_id = (false, issues)
unresolved_unit outside (some unit) issues element_id = elim unit.unit_id [
  | some unit_id ↦ (false, issues)
  | none ↦ (
    true,
    add (codes "UNIT_UNRESOLVED")
        (codes "unit " ++ outside.repr unit.surface ++ codes " not resolved; cannot convert") warn
        none (some element_id) issues,
  )
]

-- A quantity in a unit that the table does not have, as it is.
unfoldable pub render_as_is :
    Outside
    → Quantity
    → Option UnitRef
    → RenderOptions
    → IssueCollector
    → Str
    → Result (RenderedQuantity × Bool × IssueCollector)
render_as_is outside quantity unit opts issues element_id = do
  let (unresolved, issues') : Bool × IssueCollector = unresolved_unit outside unit issues element_id
  display ← format_quantity quantity (profile_of opts) true
  ok (plain_quantity display, unresolved, issues')

-- The unit, if the table has it.
unfoldable pub known_unit : Option UnitRef → Option Str
known_unit unit = elim (unit_id_of unit) [
  | none ↦ none
  | some unit_id ↦ elim (unit_def unit_id) [ none ↦ none | some d ↦ some unit_id ]
]

abbrev pub with_word : Str → Option Str → Str
with_word number none = number
with_word number (some []) = number
with_word number (some (c ∷ word)) = number ++ codes " " ++ (c ∷ word)

unfoldable pub render_count : Count → RenderOptions → (divisible : Bool) → Result RenderedQuantity
render_count c opts divisible = do
  number ← format_quantity (count (record c { size = none })) (profile_of opts) divisible
  ok (record {
    display = with_word number (size_label c.size opts.lang);
    exact = some c.value;
    exact_unit = none;
    after_name = false;
  })

-- A scaled quantity, for the reader.
unfoldable pub render_scaled :
    Outside
    → Quantity
    → (divisible : Bool) → RenderOptions
    → IssueCollector
    → Str
    → Result (RenderedQuantity × Bool × IssueCollector)
render_scaled outside (approx a) divisible opts issues element_id = ok (
  record {
    display = approx_label (token_value a.token) opts.lang a.surface;
    exact = none;
    exact_unit = none;
    after_name = true;
  },
  false,
  issues,
)
render_scaled outside (count c) divisible opts issues element_id = do
  rendered ← render_count c opts divisible
  ok (rendered, false, issues)
render_scaled outside (scalar s) divisible opts issues element_id = elim (known_unit s.unit) [
  | none ↦ render_as_is outside (scalar s) s.unit opts issues element_id
  | some unit_id ↦ (do
    (target, value) ← choose_display_unit outside.pint s.value unit_id opts.system
    display ←
        format_quantity (scalar (record { value = value; unit = some (unit_ref target) }))
          (profile_of opts) divisible
    ok (in_unit display value target, false, issues))
]
render_scaled outside (range r) divisible opts issues element_id = elim (known_unit r.unit) [
  | none ↦ render_as_is outside (range r) r.unit opts issues element_id
  | some unit_id ↦ (do
    (target, shown) ← choose_display_unit outside.pint r.high unit_id opts.system
    low ← convert_value outside.pint r.low unit_id target none
    high ← convert_value outside.pint r.high unit_id target none
    display ←
        format_quantity (range (record { low = low; high = high; unit = some (unit_ref target) }))
          (profile_of opts) divisible
    ok (in_unit display high target, false, issues))
]

abbrev pub is_divisible : Option Ingredient → Bool
is_divisible none = true
is_divisible (some i) = i.divisible

-- `_render_quantity`
unfoldable pub render_quantity :
    Outside
    → QuantitySpec
    → Option Ingredient
    → RenderOptions
    → IssueCollector
    → Str
    → Result (RenderedQuantity × Bool × IssueCollector)
render_quantity outside spec ingredient opts issues element_id = do
  (quantity, issues') ← scale_at outside spec opts issues element_id
  render_scaled outside quantity (is_divisible ingredient) opts issues' element_id
