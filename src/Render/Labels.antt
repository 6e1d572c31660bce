-- ===== src/Render/Labels.antt =====
-- render/build.py: the texts that a step is put together from.
use snap_cook.Common.{
  Str, codes, ℕ, ◌==◌, Bool, ◌||◌, Option, none, some, List, [], ◌∷◌, ◌++◌, map, if◌then◌else◌,
}
use snap_cook.Dict.{Dict, get}
use snap_cook.Schema.I18n.{base_language}
use snap_cook.Schema.Quantity.{
  SizeGrade, ApproxToken, pinch, dash, splash, drizzle, handful, knob, to_taste, as_needed,
  for_garnish, for_frying, to_cover,
}
use snap_cook.Schema.Ingredient.{grade_value}
use snap_cook.Render.Model.{RenderedIngredient, RenderedTimer, RenderedTemperature, RenderedStep}

-- `sep.join(parts)`
unfoldable pub join_with : Str → List Str → Str
join_with sep [] = []
join_with sep (s ∷ []) = s
join_with sep (s ∷ (t ∷ parts)) = s ++ sep ++ join_with sep (t ∷ parts)

-- `strip`, of the characters that a test decides on
unfoldable pub trim_left : (ℕ → Bool) → Str → Str
trim_left drops [] = []
trim_left drops (c ∷ s) = if drops c then trim_left drops s else c ∷ s

unfoldable pub trim_right : (ℕ → Bool) → Str → Str
trim_right drops [] = []
trim_right drops (c ∷ s) = elim (trim_right drops s) [
  | [] ↦ if drops c then [] else c ∷ []
  | x ∷ r ↦ c ∷ x ∷ r
]

abbrev pub trim : (ℕ → Bool) → Str → Str
trim drops s = trim_right drops (trim_left drops s)

-- `strip(" @")`
abbrev pub is_mark : ℕ → Bool
is_mark c = (c == 32) || (c == 64)

-- A text that is absent or empty is not true.
abbrev pub or_text : Option Str → Str → Str
or_text none default = default
or_text (some []) default = default
or_text (some (c ∷ s)) default = c ∷ s

-- `_ingredient_inline`
unfoldable pub ingredient_inline : RenderedIngredient → Str
ingredient_inline ri = elim ri.quantity [
  | none ↦ ri.name
  | some q ↦
      if q.after_name then ri.name ++ codes " " ++ q.display else q.display ++ codes " " ++ ri.name
]

abbrev pub english_sizes : Dict Str
english_sizes =
    (codes "tiny", codes "tiny")
    ∷ (codes "small", codes "small")
    ∷ (codes "medium", codes "medium")
    ∷ (codes "large", codes "large")
    ∷ (codes "xlarge", codes "extra-large")
    ∷ []

abbrev pub german_sizes : Dict Str
german_sizes =
    (codes "tiny", codes "winzige")
    ∷ (codes "small", codes "kleine")
    ∷ (codes "medium", codes "mittlere")
    ∷ (codes "large", codes "große")
    ∷ (codes "xlarge", codes "sehr große")
    ∷ []

abbrev pub size_labels : Dict (Dict Str)
size_labels = (codes "en", english_sizes) ∷ (codes "de", german_sizes) ∷ []

-- `d.get(k, default)`
abbrev pub get_or {ℓ} : {V : Type ℓ} → Dict V → Str → V → V
get_or d k default = elim (get d k) [ none ↦ default | some v ↦ v ]

-- `_size_label`
unfoldable pub size_label : Option SizeGrade → Str → Option Str
size_label none lang = none
size_label (some size) lang =
    let table = get_or size_labels (base_language lang) english_sizes in
    some (get_or table (grade_value size) (grade_value size))

-- The value of a token.
abbrev pub token_value : ApproxToken → Str
token_value pinch = codes "pinch"
token_value dash = codes "dash"
token_value splash = codes "splash"
token_value drizzle = codes "drizzle"
token_value handful = codes "handful"
token_value knob = codes "knob"
token_value to_taste = codes "to_taste"
token_value as_needed = codes "as_needed"
token_value for_garnish = codes "for_garnish"
token_value for_frying = codes "for_frying"
token_value to_cover = codes "to_cover"

abbrev pub english_approx : Dict Str
english_approx =
    (codes "pinch", codes "a pinch")
    ∷ (codes "dash", codes "a dash")
    ∷ (codes "splash", codes "a splash")
    ∷ (codes "drizzle", codes "a drizzle")
    ∷ (codes "handful", codes "a handful")
    ∷ (codes "knob", codes "a knob")
    ∷ (codes "to_taste", codes "to taste")
    ∷ (codes "as_needed", codes "as needed")
    ∷ (codes "for_garnish", codes "for garnish")
    ∷ (codes "for_frying", codes "for frying")
    ∷ (codes "to_cover", codes "to cover")
    ∷ []

abbrev pub german_approx : Dict Str
german_approx =
    (codes "pinch", codes "eine Prise")
    ∷ (codes "dash", codes "ein Spritzer")
    ∷ (codes "splash", codes "ein Schuss")
    ∷ (codes "drizzle", codes "etwas zum Beträufeln")
    ∷ (codes "handful", codes "eine Handvoll")
    ∷ (codes "knob", codes "ein Stück")
    ∷ (codes "to_taste", codes "nach Geschmack")
    ∷ (codes "as_needed", codes "nach Bedarf")
    ∷ (codes "for_garnish", codes "zum Garnieren")
    ∷ (codes "for_frying", codes "zum Braten")
    ∷ (codes "to_cover", codes "zum Bedecken")
    ∷ []

abbrev pub approx_labels : Dict (Dict Str)
approx_labels = (codes "en", english_approx) ∷ (codes "de", german_approx) ∷ []

-- `_approx_label`
unfoldable pub approx_label : Str → (lang surface : Str) → Str
approx_label token lang surface = elim (get approx_labels (base_language lang)) [
  | none ↦ surface
  | some table ↦ get_or table token surface
]

abbrev pub timer_text : RenderedTimer → Str
timer_text t = elim t.label [
  | none ↦ t.display
  | some [] ↦ t.display
  | some (c ∷ s) ↦ (c ∷ s) ++ codes " " ++ t.display
]

abbrev pub verb_part : Option Str → List Str
verb_part none = []
verb_part (some []) = []
verb_part (some (c ∷ s)) = (c ∷ s) ∷ []

-- `_edge_label`
unfoldable pub edge_label : RenderedStep → Str
edge_label step =
    let label = join_with (codes ", ") (verb_part step.verb ++ map timer_text step.timers) in
    let displays = map (λ (t : RenderedTemperature). t.display) step.temperatures in
    elim step.temperatures [
      | [] ↦ label
      | t ∷ ts ↦ trim is_mark (label ++ codes " @ " ++ join_with (codes " / ") displays)
    ]
