-- ===== src/Render/Text.antt =====
-- render/text.py: the model of a recipe as plain text.
use snap_cook.Common.{
  Str, codes, Bool, true, false, Option, none, some, List, [], ◌∷◌, ◌++◌, map, if◌then◌else◌,
}
use snap_cook.Issues.{Severity, info, warn, error, ValidationIssue}
use snap_cook.Decimal.{Decimal, of_nat, equal}
use snap_cook.Canonical.Numbers.{normalize, text_of}
use snap_cook.Units.Registry.{strip_right}
use snap_cook.Units.Rounding.{fixed}
use snap_cook.Render.Labels.{join_with}
use snap_cook.Render.Options.{to_integral, integer_text}
use snap_cook.Render.Model.{RenderedQuantity, RenderedIngredient, RenderedStep, RenderModel}

-- The digits of `_scale_label` and of `_scale_str` in the views.
unfoldable pub scale_digits : Decimal → Str
scale_digits scale =
    if equal scale (to_integral scale) then integer_text scale else fixed (normalize scale)

abbrev pub is_shown : Severity → Bool
is_shown info = false
is_shown warn = true
is_shown error = true

-- The warnings for the reader.
unfoldable pub shown : List ValidationIssue → List ValidationIssue
shown [] = []
shown (w ∷ warnings) = let rest = shown warnings in if is_shown w.severity then w ∷ rest else rest

-- A text that is there, before or behind another.
abbrev pub when_some : Option Str → (Str → List Str) → List Str
when_some none make = []
when_some (some []) make = []
when_some (some (c ∷ s)) make = make (c ∷ s)

abbrev pub with_prep : Option Str → Str → Str
with_prep none line = line
with_prep (some []) line = line
with_prep (some (c ∷ s)) line = line ++ codes ", " ++ c ∷ s

abbrev pub with_mark : Bool → Str → Str → Str
with_mark marked text line = if marked then line ++ text else line

-- The quantity and the name.
abbrev pub name_line : Str → Option RenderedQuantity → Str
name_line name none = name
name_line name (some quantity) =
    if quantity.after_name
    then name ++ codes " " ++ quantity.display
    else quantity.display ++ codes " " ++ name

-- `_ingredient_line`
unfoldable pub ingredient_line : RenderedIngredient → Str
ingredient_line i =
    with_mark i.unresolved (codes "  [unresolved]")
      (with_mark i.optional (codes " (optional)") (with_prep i.prep (name_line i.name i.quantity)))

-- `_scale_label`
unfoldable pub scale_label : Decimal → Str
scale_label scale = scale_digits scale ++ codes "x"

abbrev pub is_unscaled : Decimal → Bool
is_unscaled scale = equal scale (of_nat 1)

-- The servings, the scale, and the language and system.
abbrev pub meta : RenderModel → List Str
meta model =
    when_some model.servings (λ s. (codes "Serves " ++ s) ∷ [])
    ++ (if is_unscaled model.scale then [] else (codes "scaled " ++ scale_label model.scale) ∷ [])
    ++ (model.lang ++ codes " / " ++ model.system) ∷ []

abbrev pub ingredient_lines : List RenderedIngredient → List Str
ingredient_lines [] = codes "  (none)" ∷ []
ingredient_lines (i ∷ ingredients) =
    map (λ (i : RenderedIngredient). codes "  - " ++ ingredient_line i) (i ∷ ingredients)

abbrev pub step_line : RenderedStep → Str
step_line step = codes "  " ++ text_of step.index ++ codes ". " ++ step.text

abbrev pub notes : List ValidationIssue → List Str
notes [] = []
notes (w ∷ warnings) =
    codes "Notes"
      ∷ codes "-----"
      ∷ map (λ (w : ValidationIssue). codes "  ! " ++ w.message) (w ∷ warnings)
    ++ [] ∷ []

-- `render_text`
unfoldable pub render_text : RenderModel → Str
render_text model =
    strip_right (
      join_with (codes "\n") (
        model.title
          ∷ codes "============================================================"
          ∷ when_some model.description (λ s. s ∷ [] ∷ [])
        ++ join_with (codes " · ") (meta model)
          ∷ []
          ∷ codes "Ingredients"
          ∷ codes "-----------"
          ∷ ingredient_lines model.ingredients
        ++ [] ∷ codes "Steps" ∷ codes "-----" ∷ map step_line model.steps
        ++ [] ∷ notes (shown model.warnings)))
    ++ codes "\n"
