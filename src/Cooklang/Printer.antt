-- ===== src/Cooklang/Printer.antt =====
-- cooklang/print_.py: the steps of a recipe as text. The front matter is written by a YAML library.
use snap_cook.Common.{
  Str, codes, str_eq, ℕ, suc, Bool, true, false, Option, none, some, List, [], ◌∷◌, ◌++◌, map,
  if◌then◌else◌,
}
use snap_cook.Errors.{Result, ok, ◌>>=◌}
use snap_cook.Dict.{Dict, fetch, set, mem, put_all}
use snap_cook.Canonical.Numbers.{encode_finite, text_of}
use snap_cook.Schema.I18n.{LocalizedText}
use snap_cook.Schema.Quantity.{QuantitySpec, linear, invariant, manual, nonlinear}
use snap_cook.Schema.Ingredient.{IngredientUse, CookwareUse, name_for}
use snap_cook.Schema.Graph.{Action, TextChunk, TextTemplate, Timer, Temperature, C, F}
use snap_cook.Registry.{IngredientRegistry, get_ingredient}
use snap_cook.Render.Toposort.{topological_actions}
use snap_cook.Render.Labels.{join_with, or_text}
use snap_cook.Render.Ingredients.{resolve_localized, timer_quantity}
use snap_cook.Render.Prose.{index_of}
use snap_cook.Cooklang.Quantities.{quantity_body, bare_quantity_body}

abbrev pub in_braces : Str → Str
in_braces s = codes "{" ++ s ++ codes "}"

abbrev pub is_invariant : Option QuantitySpec → Bool
is_invariant none = false
is_invariant (some spec) = elim spec.scaling [
  | linear ↦ false
  | invariant ↦ true
  | manual ↦ false
  | nonlinear ↦ false
]

abbrev pub mark : Bool → Str → Str
mark true s = s
mark false s = []

-- `_temperature_token`
unfoldable pub temperature_text_of : Temperature → Str
temperature_text_of t =
    codes "^"
    ++ in_braces
        (encode_finite t.value ++ codes "%" ++ elim t.unit [ C ↦ codes "C" | F ↦ codes "F" ])

module _ (source_lang lang : Str) (registry : IngredientRegistry) where
  -- The name that the author wrote, or in another language that of the registry.
  unfoldable pub printed_name : IngredientUse → Str
  printed_name item =
      if str_eq lang source_lang
      then item.name
      else elim (get_ingredient registry item.ingredient_id) [
        | none ↦ item.name
        | some i ↦ or_text (name_for i lang (some source_lang)) item.name
      ]

  -- `_ingredient_token`
  unfoldable pub ingredient_text : IngredientUse → Str
  ingredient_text item =
      codes "@"
      ++ mark item.optional (codes "?")
      ++ mark (is_invariant item.quantity) (codes "=")
      ++ printed_name item
      ++ in_braces (quantity_body item.quantity)

  -- `_cookware_token`
  unfoldable pub cookware_text : CookwareUse → Result Str
  cookware_text item = do
    name ← resolve_localized item.name source_lang lang
    ok (
        codes "#"
        ++ name
        ++ in_braces (elim item.quantity [ none ↦ [] | some amount ↦ encode_finite amount ]))

  -- `_timer_token`
  unfoldable pub timer_text_of : Timer → Result Str
  timer_text_of timer = do
    name ← elim timer.name [ none ↦ ok [] | some name ↦ resolve_localized name source_lang lang ]
    ok (codes "~" ++ name ++ in_braces (bare_quantity_body (timer_quantity timer.quantity)))

  abbrev pub state_text : Str → Str
  state_text name = codes "@&" ++ in_braces name

  -- The text of one chunk.
  unfoldable pub chunk_token :
      Action
      → (by_ing : Dict IngredientUse) → (by_cook : Dict CookwareUse) → (state_names : Dict Str)
      → TextChunk
      → Result Str
  chunk_token action by_ing by_cook state_names (TextChunk.text t) =
      resolve_localized t source_lang lang
  chunk_token action by_ing by_cook state_names (TextChunk.ingredient ref) = do
    item ← fetch by_ing ref
    ok (ingredient_text item)
  chunk_token action by_ing by_cook state_names (TextChunk.cookware ref) = do
    item ← fetch by_cook ref
    cookware_text item
  chunk_token action by_ing by_cook state_names (TextChunk.state ref) = do
    name ← fetch state_names ref
    ok (state_text name)
  chunk_token action by_ing by_cook state_names (TextChunk.timer index) = do
    timer ← index_of action.timers index
    timer_text_of timer
  chunk_token action by_ing by_cook state_names (TextChunk.temperature index) = do
    temperature ← index_of action.temperatures index
    ok (temperature_text_of temperature)

  unfoldable pub chunk_tokens :
      Action
      → (by_ing : Dict IngredientUse) → (by_cook : Dict CookwareUse) → (state_names : Dict Str)
      → List TextChunk
      → Result Str
  chunk_tokens action by_ing by_cook state_names [] = ok []
  chunk_tokens action by_ing by_cook state_names (chunk ∷ chunks) = do
    part ← chunk_token action by_ing by_cook state_names chunk
    rest ← chunk_tokens action by_ing by_cook state_names chunks
    ok (part ++ rest)

  -- `_print_body`
  unfoldable pub print_body : Action → (state_names : Dict Str) → Result Str
  print_body action state_names = elim action.text [
    | none ↦ ok (join_with (codes " ") (map ingredient_text action.ingredients))
    | some template ↦
        chunk_tokens action (put_all (map (λ (u : IngredientUse). (u.id, u)) action.ingredients) [])
          (put_all (map (λ (u : CookwareUse). (u.id, u)) action.cookware) []) state_names
          template.chunks
  ]

  -- The states that chunks name.
  unfoldable pub chunk_states : List TextChunk → List Str
  chunk_states [] = []
  chunk_states (TextChunk.state ref ∷ chunks) = ref ∷ chunk_states chunks
  chunk_states (TextChunk.text t ∷ chunks) = chunk_states chunks
  chunk_states (TextChunk.ingredient ref ∷ chunks) = chunk_states chunks
  chunk_states (TextChunk.cookware ref ∷ chunks) = chunk_states chunks
  chunk_states (TextChunk.timer index ∷ chunks) = chunk_states chunks
  chunk_states (TextChunk.temperature index ∷ chunks) = chunk_states chunks

  -- The uses that no chunk places.
  unfoldable pub leading : (placed uses : List Str) → (state_names : Dict Str) → Result Str
  leading placed [] state_names = ok []
  leading placed (used ∷ uses) state_names =
      let rest : Result Str = leading placed uses state_names in
      if mem used placed
      then rest
      else (fetch state_names used >>= λ name. rest >>= λ r. ok (state_text name ++ r))

  abbrev pub suffix : Option LocalizedText → Result Str
  suffix none = ok []
  suffix (some t) = resolve_localized t source_lang lang >>= λ name. ok (codes " => " ++ name)

  abbrev pub chunks_in : Option TextTemplate → List TextChunk
  chunks_in none = []
  chunks_in (some template) = template.chunks

  -- `_print_step`
  unfoldable pub print_step : Action → (state_names : Dict Str) → Result Str
  print_step action state_names = do
    front ← leading (chunk_states (chunks_in action.text)) action.uses state_names
    body ← print_body action state_names
    produced ← suffix action.produces.name
    ok (front ++ body ++ produced)

  unfoldable pub print_steps : List Action → (state_names : Dict Str) → Result (List Str)
  print_steps [] state_names = ok []
  print_steps (action ∷ ordered) state_names = do
    step ← print_step action state_names
    rest ← print_steps ordered state_names
    ok (step ∷ rest)

  abbrev pub printed_state : Option LocalizedText → ℕ → Result Str
  printed_state none index = ok (codes "s" ++ text_of index)
  printed_state (some t) index = resolve_localized t source_lang lang

  -- `_state_names`, from the step with this number on
  unfoldable pub printed_names : List Action → (index : ℕ) → Dict Str → Result (Dict Str)
  printed_names [] index names = ok names
  printed_names (action ∷ ordered) index names = do
    name ← printed_state action.produces.name index
    printed_names ordered (suc index) (set action.produces.id name names)

  -- The body that `print_cook` writes.
  unfoldable pub print_actions : List Action → Result Str
  print_actions actions = do
    ordered ← topological_actions actions
    state_names ← printed_names ordered 1 []
    steps ← print_steps ordered state_names
    ok (join_with (codes "\n\n") steps)
