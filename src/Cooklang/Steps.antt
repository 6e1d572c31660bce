-- ===== src/Cooklang/Steps.antt =====
-- cooklang/parse.py: the steps of a document.
pub mod Safe
use snap_cook.Common.{
  Str, codes, ℕ, zero, suc, ◌-◌, leb, ◌==◌, Bool, true, false, ◌&&◌, ◌||◌, not, Option, none, some,
  List, [], ◌∷◌, ◌++◌, map, length, if◌then◌else◌,
}
use snap_cook.Common.Int.{pos}
use snap_cook.Errors.{Result, ok, ◌>>=◌, ◌>>◌}
use snap_cook.Dict.{Dict, set}
use snap_cook.Canonical.Numbers.{text_of}
use snap_cook.Schema.I18n.{mono}
use snap_cook.Schema.Graph.{Action, FoodState, TextTemplate, TextChunk, internal_references_resolve}
use snap_cook.Registry.{IngredientRegistry}
use snap_cook.Units.Registry.{is_space, strip_right}
use snap_cook.Cooklang.Numbers.{drop_prefix}
use snap_cook.Cooklang.Quantities.{stripped}
use snap_cook.Cooklang.Scanner.{Parsed, nothing_yet, run}

-- How far the white space reaches up to its last end of a line.
unfoldable pub break_length : Str → Option ℕ
break_length [] = none
break_length (c ∷ s) =
    let rest = break_length s in
    if is_space c
    then elim rest [ some n ↦ some (suc n) | none ↦ if c == 10 then some 1 else none ]
    else none

abbrev pub cons_first : ℕ → List Str → List Str
cons_first c [] = (c ∷ []) ∷ []
cons_first c (piece ∷ pieces) = (c ∷ piece) ∷ pieces

-- `re.split(r"\n\s*\n", body)`, with the number of characters of a separator still to pass
unfoldable pub split_blank : (skip : ℕ) → Str → List Str
split_blank skip [] = [] ∷ []
split_blank (suc skip) (c ∷ s) = split_blank skip s
split_blank zero (c ∷ s) = elim (if c == 10 then break_length s else none) [
  | some n ↦ [] ∷ split_blank n s
  | none ↦ cons_first c (split_blank zero s)
]

abbrev pub not_blank : List Str → List Str
not_blank [] = []
not_blank (piece ∷ pieces) = elim (stripped piece) [
  | [] ↦ not_blank pieces
  | c ∷ rest ↦ (c ∷ rest) ∷ not_blank pieces
]

-- `_split_steps`
unfoldable pub split_steps : Str → List Str
split_steps body = not_blank (split_blank 0 body)

-- `block.replace("\n", " ")`
abbrev pub one_line : Str → Str
one_line s = map (λ (c : ℕ). if c == 10 then 32 else c) s

-- The characters of a produced name.
unfoldable pub is_plain : Str → Bool
is_plain [] = true
is_plain (c ∷ s) =
    not ((c == 123) || (c == 125) || (c == 64) || (c == 35) || (c == 126) || (c == 94))
    && is_plain s

abbrev pub is_name : Str → Bool
is_name [] = false
is_name (c ∷ s) = is_plain (c ∷ s)

-- The first arrow with a name behind it: the text before it, and that name.
unfoldable pub find_produce : Str → Option (Str × Str)
find_produce [] = none
find_produce (c ∷ s) =
    let rest : Option (Str × Str) = elim (find_produce s) [
      | none ↦ none
      | some p ↦ some (c ∷ p.0, p.1)
    ] in
    elim (drop_prefix (codes "=>") (c ∷ s)) [
      | none ↦ rest
      | some name ↦ if is_name name then some ([], name) else rest
    ]

abbrev pub is_slug : ℕ → Bool
is_slug c = (leb 97 c && leb c 122) || (leb 48 c && leb c 57)

-- Each run of other characters becomes one dash.
unfoldable pub dashed : (in_run : Bool) → Str → Str
dashed in_run [] = []
dashed in_run (c ∷ s) =
    let inside = dashed true s in
    let outside = dashed false s in
    if is_slug c then c ∷ outside else if in_run then inside else 45 ∷ inside

-- `strip("-")`
unfoldable pub strip_dashes_left : Str → Str
strip_dashes_left [] = []
strip_dashes_left (c ∷ s) = if c == 45 then strip_dashes_left s else c ∷ s

unfoldable pub strip_dashes_right : Str → Str
strip_dashes_right [] = []
strip_dashes_right (c ∷ s) = elim (strip_dashes_right s) [
  | [] ↦ if c == 45 then [] else c ∷ []
  | x ∷ r ↦ c ∷ x ∷ r
]

module _ (lower : Str → Str) where
  -- `_slug`
  unfoldable pub slug : Str → Str
  slug text = elim (strip_dashes_right (strip_dashes_left (dashed false (lower text)))) [
    | [] ↦ codes "state"
    | c ∷ s ↦ c ∷ s
  ]

  -- The state that a step produces, and the names with it.
  unfoldable pub produced : (index : ℕ) → (lang name : Str) → Dict Str → FoodState × Dict Str
  produced index lang [] name_to_state =
      (record { id = codes "nod_" ++ text_of index; name = none }, name_to_state)
  produced index lang (c ∷ name) name_to_state =
      let state_id = codes "nod_" ++ text_of index ++ codes "_" ++ slug (c ∷ name) in
      (
        record { id = state_id; name = some (mono lang (c ∷ name)) },
        set (c ∷ name) state_id name_to_state,
      )

  abbrev pub template_of : List TextChunk → Option TextTemplate
  template_of [] = none
  template_of (chunk ∷ chunks) = some (record { chunks = chunk ∷ chunks })

  -- The text that is scanned, and the produced name.
  unfoldable pub split_produce : Str → Str × Str
  split_produce text = elim (find_produce text) [
    | none ↦ (text, [])
    | some p ↦ (strip_right p.0, stripped p.1)
  ]

  abbrev pub action_of : (index : ℕ) → Parsed → FoodState → Action
  action_of index p produces = record {
    id = codes "act_" ++ text_of index;
    order = pos (index - 1);
    verb = none;
    uses = p.uses;
    ingredients = p.ingredients;
    cookware = p.cookware;
    timers = p.timers;
    temperatures = p.temperatures;
    produces = produces;
    text = template_of p.chunks;
    notes = none;
  }

  -- `_parse_step`, with the names of the states so far; the action's own check runs at the end.
  unfoldable pub parse_step :
      Str
      → (index : ℕ) → (lang : Str) → IngredientRegistry
      → (name_to_state : Dict Str) → Result (Action × Dict Str)
  parse_step block index lang registry name_to_state = do
    let (text, name) : Str × Str = split_produce (one_line block)
    p ← run lower index lang registry name_to_state (length text) text [] nothing_yet
    let (produces, names) : FoodState × Dict Str = produced index lang name name_to_state
    internal_references_resolve (action_of index p produces)
    ok (action_of index p produces, names)

  -- The steps of the body in turn, from this number on.
  unfoldable pub parse_steps :
      List Str
      → (index : ℕ) → (lang : Str) → IngredientRegistry
      → (name_to_state : Dict Str) → Result (List Action)
  parse_steps [] index lang registry name_to_state = ok []
  parse_steps (block ∷ blocks) index lang registry name_to_state = do
    (action, names) ← parse_step block index lang registry name_to_state
    actions ← parse_steps blocks (suc index) lang registry names
    ok (action ∷ actions)
