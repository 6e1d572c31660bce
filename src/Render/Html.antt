-- ===== src/Render/Html.antt =====
-- render/print_.py: the model of a recipe as a page for the printer.
pub mod Markup
pub mod Safe
use snap_cook.Common.{Str, codes, ◌==◌, Option, none, some, List, [], ◌∷◌, ◌++◌, map, if◌then◌else◌}
use snap_cook.Issues.{ValidationIssue}
use snap_cook.Decimal.{Decimal}
use snap_cook.Render.Labels.{join_with}
use snap_cook.Render.Text.{scale_digits, shown, when_some, with_mark, is_unscaled}
use snap_cook.Render.Model.{RenderedQuantity, RenderedIngredient, RenderedStep, RenderModel}

-- `html.escape`
unfoldable pub html_escape : Str → Str
html_escape [] = []
html_escape (c ∷ s) =
    let rest = html_escape s in
    if c == 38
    then codes "&amp;" ++ rest
    else if c == 60
    then codes "&lt;" ++ rest
    else if c == 62
    then codes "&gt;" ++ rest
    else if c == 34
    then codes "&quot;" ++ rest
    else if c == 39
    then codes "&#x27;" ++ rest
    else c ∷ rest

-- `_CSS`
unfoldable pub css : Str
css =
    codes ":root { --ink: #1a1a1a; --muted: #6b6b6b; --rule: #e0ddd6; --accent: #b5651d; }\n"
    ++ codes "* { box-sizing: border-box; }\n"
    ++ codes "body { font-family: Georgia, 'Times New Roman', serif; color: var(--ink);\n"
    ++ codes "       max-width: 40rem; margin: 2rem auto; padding: 0 1.5rem; line-height: 1.5; }\n"
    ++ codes "h1 { font-size: 2rem; margin: 0 0 .25rem; }\n"
    ++ codes ".meta { color: var(--muted); font-size: .9rem; margin-bottom: 1.5rem; }\n"
    ++ codes ".desc { font-style: italic; color: #333; margin-bottom: 1.5rem; }\n"
    ++ codes "h2 { font-size: 1.1rem; text-transform: uppercase; letter-spacing: .08em;\n"
    ++ codes
        "     border-bottom: 2px solid var(--rule); padding-bottom: .25rem; margin-top: 2rem; }\n"
    ++ codes "ul.ingredients { list-style: none; padding: 0; }\n"
    ++ codes "ul.ingredients li { padding: .3rem 0; border-bottom: 1px solid var(--rule); }\n"
    ++ codes ".qty { font-weight: bold; }\n"
    ++ codes ".opt { color: var(--muted); font-style: italic; }\n"
    ++ codes "ol.steps { padding-left: 1.4rem; }\n"
    ++ codes "ol.steps li { margin: .6rem 0; padding-left: .3rem; }\n"
    ++ codes ".notes { background: #faf6ef; border-left: 3px solid var(--accent);\n"
    ++ codes "         padding: .5rem .9rem; font-size: .9rem; color: #5a4a34; }\n"
    ++ codes "@media print { body { margin: 0; max-width: none; } h2 { page-break-after: avoid; }\n"
    ++ codes "               ol.steps li, ul.ingredients li { page-break-inside: avoid; } }\n"

-- `_scale_label`
unfoldable pub html_scale : Decimal → Str
html_scale scale = scale_digits scale ++ codes "×"

abbrev pub html_name : Str → Option RenderedQuantity → Str
html_name name none = name
html_name name (some quantity) =
    let qty = codes "<span class=\"qty\">" ++ html_escape quantity.display ++ codes "</span>" in
    if quantity.after_name then name ++ codes " " ++ qty else qty ++ codes " " ++ name

abbrev pub html_prep : Option Str → Str → Str
html_prep none line = line
html_prep (some []) line = line
html_prep (some (c ∷ s)) line = line ++ codes ", " ++ html_escape (c ∷ s)

-- `_ingredient_html`
unfoldable pub ingredient_html : RenderedIngredient → Str
ingredient_html i =
    with_mark i.optional (codes " <span class=\"opt\">(optional)</span>")
      (html_prep i.prep (html_name (html_escape i.name) i.quantity))

abbrev pub html_meta : RenderModel → List Str
html_meta model =
    when_some model.servings (λ s. (codes "Serves " ++ html_escape s) ∷ [])
    ++ (html_escape model.lang ++ codes " · " ++ html_escape model.system)
      ∷ (if is_unscaled model.scale then [] else html_scale model.scale ∷ [])

abbrev pub html_notes : List ValidationIssue → List Str
html_notes [] = []
html_notes (w ∷ warnings) =
    codes "<h2>Notes</h2>"
    ∷ map
        (λ (w : ValidationIssue).
          codes "<p class=\"notes\">" ++ html_escape w.message ++ codes "</p>")
        (w ∷ warnings)

abbrev pub in_tag : (before after : Str) → Str → Str
in_tag before after s = before ++ s ++ after

-- The page up to the ingredients, the two lists, and the warnings.
abbrev pub page_head : RenderModel → List Str
page_head model =
    codes "<!doctype html>"
    ∷ in_tag (codes "<html lang=\"") (codes "\">") (html_escape model.lang)
    ∷ codes "<head>"
    ∷ codes "<meta charset=\"utf-8\">"
    ∷ in_tag (codes "<title>") (codes "</title>") (html_escape model.title)
    ∷ in_tag (codes "<style>") (codes "</style>") css
    ∷ codes "</head>"
    ∷ codes "<body>"
    ∷ in_tag (codes "<h1>") (codes "</h1>") (html_escape model.title)
    ∷ in_tag (codes "<p class=\"meta\">") (codes "</p>") (join_with (codes " · ") (html_meta model))
    ∷ when_some model.description
        (λ s. in_tag (codes "<p class=\"desc\">") (codes "</p>") (html_escape s) ∷ [])

abbrev pub ingredient_item : RenderedIngredient → Str
ingredient_item i = in_tag (codes "<li>") (codes "</li>") (ingredient_html i)

abbrev pub step_item : RenderedStep → Str
step_item step = in_tag (codes "<li>") (codes "</li>") (html_escape step.text)

abbrev pub page_ingredients : RenderModel → List Str
page_ingredients model =
    codes "<h2>Ingredients</h2>"
    ∷ codes "<ul class=\"ingredients\">"
    ∷ map ingredient_item model.ingredients

abbrev pub page_steps : RenderModel → List Str
page_steps model =
    codes "</ul>"
    ∷ codes "<h2>Method</h2>"
    ∷ codes "<ol class=\"steps\">"
    ∷ map step_item model.steps

abbrev pub page_notes : RenderModel → List Str
page_notes model = codes "</ol>" ∷ html_notes (shown model.warnings)

abbrev pub page_end : List Str
page_end = codes "</body>" ∷ codes "</html>" ∷ []

-- `render_print_html`
unfoldable pub render_print_html : RenderModel → Str
render_print_html model =
    join_with (codes "\n") (
      page_head model ++ page_ingredients model ++ page_steps model ++ page_notes model ++ page_end)
    ++ codes "\n"
