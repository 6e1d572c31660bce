-- ===== src/Render/Html/Safe.antt =====
-- render/print_.py: the page of a recipe has the markup of a page without texts.
use mathlib.Core.List.{append-nil}
use snap_cook.Common.{
  subst, Str, codes, ◌≡◌, refl, sym, ap, ◌∙◌, Bool, true, false, Option, none, some, List, [], ◌∷◌,
  ◌++◌, map, if◌then◌else◌,
}
use snap_cook.Issues.{ValidationIssue}
use snap_cook.Render.Text.{shown, is_shown, when_some, with_mark}
use snap_cook.Render.Model.{RenderedQuantity, RenderedIngredient, RenderedStep, RenderModel}
use snap_cook.Render.Html.{
  html_escape, html_name, html_prep, ingredient_html, html_meta, html_notes, in_tag, page_head,
  ingredient_item, step_item, page_ingredients, page_steps, page_notes, page_end, render_print_html,
}
use snap_cook.Render.Html.Markup.{
  markup, Alike, AllAlike, append-Alike, escape-Alike, tag-Alike, join-Alike, same-AllAlike,
  both-AllAlike, map-AllAlike, markup-append, markup-html_escape,
}

-- The same parts with empty texts; what decides on a tag stays.
abbrev pub blank_quantity : Option RenderedQuantity → Option RenderedQuantity
blank_quantity none = none
blank_quantity (some q) = some (record q { display = [] })

abbrev pub blank_ingredient : RenderedIngredient → RenderedIngredient
blank_ingredient i = record i { name = []; quantity = blank_quantity i.quantity; prep = none }

abbrev pub blank_step : RenderedStep → RenderedStep
blank_step step = record step { text = [] }

abbrev pub blank_issue : ValidationIssue → ValidationIssue
blank_issue w = record w { message = [] }

abbrev pub blank_if_some : Option Str → Option Str
blank_if_some none = none
blank_if_some (some []) = some []
blank_if_some (some (c ∷ s)) = some (codes "x")

unfoldable pub without_texts : RenderModel → RenderModel
without_texts model = record model {
  title = [];
  lang = [];
  system = [];
  description = blank_if_some model.description;
  servings = blank_if_some model.servings;
  ingredients = map blank_ingredient model.ingredients;
  steps = map blank_step model.steps;
  warnings = map blank_issue model.warnings;
}

prep-Alike :
    (prep : Option Str) (line line' : Str) → Alike line line' → Alike (html_prep prep line) line'
unfolding markup
prep-Alike none line line' h = h
prep-Alike (some []) line line' h = h
prep-Alike (some (c ∷ s)) line line' h =
    markup-append (line ++ codes ", ") (html_escape (c ∷ s))
    ∙ ap (λ t. markup (line ++ codes ", ") ++ t) (markup-html_escape (c ∷ s))
    ∙ append-nil (markup (line ++ codes ", "))
    ∙ markup-append line (codes ", ")
    ∙ append-nil (markup line)
    ∙ h

name-Alike :
    (name : Str) (q : Option RenderedQuantity)
    → Alike (html_name (html_escape name) q) (html_name (html_escape []) (blank_quantity q))
name-Alike name none = escape-Alike name []
name-Alike name (some q) = at_end q.after_name
  where
    qty : Str → Str
    qty s = codes "<span class=\"qty\">" ++ html_escape s ++ codes "</span>"

    span : Alike (qty q.display) (qty [])
    span =
        tag-Alike (codes "<span class=\"qty\">") (codes "</span>") (html_escape q.display)
          (html_escape []) (escape-Alike q.display [])

    at_end :
        (after : Bool)
        → Alike
            (if after
              then html_escape name ++ codes " " ++ qty q.display
              else qty q.display ++ codes " " ++ html_escape name)
            (if after
              then html_escape [] ++ codes " " ++ qty []
              else qty [] ++ codes " " ++ html_escape [])
    at_end true =
        append-Alike (html_escape name ++ codes " ") (html_escape [] ++ codes " ") _ _
          (append-Alike (html_escape name) (html_escape []) (codes " ") (codes " ")
            (escape-Alike name []) refl)
          span
    at_end false =
        append-Alike (qty q.display ++ codes " ") (qty [] ++ codes " ") _ _
          (append-Alike (qty q.display) (qty []) (codes " ") (codes " ") span refl)
          (escape-Alike name [])

mark-Alike :
    (marked : Bool) (text line line' : Str)
    → Alike line line'
    → Alike (with_mark marked text line) (with_mark marked text line')
mark-Alike true text line line' h = append-Alike line line' text text h refl
mark-Alike false text line line' h = h

ingredient-Alike :
    (i : RenderedIngredient) → Alike (ingredient_html i) (ingredient_html (blank_ingredient i))
unfolding ingredient_html
ingredient-Alike i =
    mark-Alike i.optional _ _ _ (prep-Alike i.prep _ _ (name-Alike i.name i.quantity))

tagged-some :
    (a b : Str) (o : Option Str)
    → AllAlike
        (when_some o (λ s. in_tag a b (html_escape s) ∷ []))
        (when_some (blank_if_some o) (λ s. in_tag a b (html_escape s) ∷ []))
tagged-some a b none = tt
tagged-some a b (some []) = tt
tagged-some a b (some (c ∷ s)) = (tag-Alike a b _ _ (escape-Alike (c ∷ s) (codes "x")), tt)

shown-blank_issue :
    (ws : List ValidationIssue) → shown (map blank_issue ws) ≡ map blank_issue (shown ws)
unfolding shown
shown-blank_issue [] = refl
shown-blank_issue (w ∷ ws) = at_severity (is_shown w.severity) (shown-blank_issue ws)
  where
    at_severity :
        (b : Bool)
        → shown (map blank_issue ws) ≡ map blank_issue (shown ws)
        → (if b then blank_issue w ∷ shown (map blank_issue ws) else shown (map blank_issue ws))
          ≡ map blank_issue (if b then w ∷ shown ws else shown ws)
    at_severity true e = ap (λ l. blank_issue w ∷ l) e
    at_severity false e = e

notes-Alike :
    (ws : List ValidationIssue) → AllAlike (html_notes ws) (html_notes (map blank_issue ws))
notes-Alike [] = tt
notes-Alike (w ∷ ws) = (
  refl,
  map-AllAlike
      (λ (w : ValidationIssue).
        codes "<p class=\"notes\">" ++ html_escape w.message ++ codes "</p>")
      blank_issue (w ∷ ws)
      (λ w.
        tag-Alike (codes "<p class=\"notes\">") (codes "</p>") (html_escape w.message)
          (html_escape []) (escape-Alike w.message [])),
)

meta-Alike : (model : RenderModel) → AllAlike (html_meta model) (html_meta (without_texts model))
unfolding without_texts
meta-Alike model = both-AllAlike _ _ _ _ (served model.servings) (
  append-Alike (html_escape model.lang ++ codes " · ") (html_escape [] ++ codes " · ") _ _
      (append-Alike (html_escape model.lang) (html_escape []) (codes " · ") (codes " · ")
        (escape-Alike model.lang []) refl)
      (escape-Alike model.system []),
  same-AllAlike _,
)
  where
    served :
        (o : Option Str)
        → AllAlike
            (when_some o (λ s. (codes "Serves " ++ html_escape s) ∷ []))
            (when_some (blank_if_some o) (λ s. (codes "Serves " ++ html_escape s) ∷ []))
    served none = tt
    served (some []) = tt
    served (some (c ∷ s)) = (
      append-Alike (codes "Serves ") (codes "Serves ") _ _ refl (escape-Alike (c ∷ s) (codes "x")),
      tt,
    )

notes_shown-Alike :
    (ws : List ValidationIssue)
    → AllAlike (html_notes (shown ws)) (html_notes (shown (map blank_issue ws)))
notes_shown-Alike ws =
    subst (λ l. AllAlike (html_notes (shown ws)) (html_notes l)) (sym (shown-blank_issue ws))
      (notes-Alike (shown ws))

head-Alike : (model : RenderModel) → AllAlike (page_head model) (page_head (without_texts model))
unfolding without_texts
head-Alike model = (
  refl,
  (
    tag-Alike (codes "<html lang=\"") (codes "\">") _ _ (escape-Alike model.lang []),
    (
      refl,
      (
        refl,
        (
          tag-Alike (codes "<title>") (codes "</title>") _ _ (escape-Alike model.title []),
          (
            refl,
            (
              refl,
              (
                refl,
                (
                  tag-Alike (codes "<h1>") (codes "</h1>") _ _ (escape-Alike model.title []),
                  (
                    tag-Alike (codes "<p class=\"meta\">") (codes "</p>") _ _
                        (join-Alike (codes " · ") _ _ (meta-Alike model)),
                    tagged-some (codes "<p class=\"desc\">") (codes "</p>") model.description,
                  ),
                ),
              ),
            ),
          ),
        ),
      ),
    ),
  ),
)

ingredients-Alike :
    (model : RenderModel)
    → AllAlike (page_ingredients model) (page_ingredients (without_texts model))
unfolding without_texts
ingredients-Alike model = (
  refl,
  (
    refl,
    map-AllAlike ingredient_item blank_ingredient model.ingredients
        (λ i. tag-Alike (codes "<li>") (codes "</li>") _ _ (ingredient-Alike i)),
  ),
)

steps-Alike : (model : RenderModel) → AllAlike (page_steps model) (page_steps (without_texts model))
unfolding without_texts
steps-Alike model = (
  refl,
  (
    refl,
    (
      refl,
      map-AllAlike step_item blank_step model.steps
          (λ step. tag-Alike (codes "<li>") (codes "</li>") _ _ (escape-Alike step.text [])),
    ),
  ),
)

page_notes-Alike :
    (model : RenderModel) → AllAlike (page_notes model) (page_notes (without_texts model))
unfolding without_texts
page_notes-Alike model = (refl, notes_shown-Alike model.warnings)

abbrev to_ingredients : RenderModel → List Str
to_ingredients model = page_head model ++ page_ingredients model

abbrev to_steps : RenderModel → List Str
to_steps model = to_ingredients model ++ page_steps model

abbrev to_notes : RenderModel → List Str
to_notes model = to_steps model ++ page_notes model

page-Alike :
    (model : RenderModel)
    → AllAlike (to_notes model ++ page_end) (to_notes (without_texts model) ++ page_end)
page-Alike model =
    both-AllAlike (to_notes model) page_end (to_notes (without_texts model)) page_end
      (both-AllAlike (to_steps model) (page_notes model) (to_steps (without_texts model))
        (page_notes (without_texts model))
        (both-AllAlike (to_ingredients model) (page_steps model)
          (to_ingredients (without_texts model)) (page_steps (without_texts model))
          (both-AllAlike (page_head model) (page_ingredients model)
            (page_head (without_texts model)) (page_ingredients (without_texts model))
            (head-Alike model) (ingredients-Alike model))
          (steps-Alike model))
        (page_notes-Alike model))
      (same-AllAlike page_end)

-- The brackets and quotes of a page are, in their order, those of the page of the same model with
-- its texts taken out (a description that is there stays one): no text of a recipe adds markup, or
-- takes some away.
pub render_print_html-without_texts :
    (model : RenderModel)
    → markup (render_print_html model) ≡ markup (render_print_html (without_texts model))
unfolding render_print_html
render_print_html-without_texts model =
    append-Alike _ _ (codes "\n") (codes "\n") (join-Alike (codes "\n") _ _ (page-Alike model)) refl
