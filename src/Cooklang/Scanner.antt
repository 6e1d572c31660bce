-- ===== src/Cooklang/Scanner.antt =====
-- cooklang/parse.py: `_StepScanner`. A position is the text from it on.
pub mod Ids
pub mod Kept
pub mod Parts
pub mod Tokens
pub mod Scan
pub mod Printed
use snap_cook.Common.{
  Str, codes, ℕ, zero, suc, ◌+◌, ◌==◌, Bool, true, false, ◌&&◌, ◌||◌, not, Option, none, some, List,
  [], ◌∷◌, ◌++◌, length, if◌then◌else◌,
}
use snap_cook.Common.Int.{ℤ, pos}
use snap_cook.Errors.{Result, ok, err, ◌>>=◌, value_error, out_of_fuel}
use snap_cook.Dict.{Dict, get, mem}
use snap_cook.Decimal.{Decimal, of_nat}
use snap_cook.Canonical.Numbers.{text_of}
use snap_cook.Schema.I18n.{LocalizedText, mono}
use snap_cook.Schema.Quantity.{Quantity, QuantitySpec, scalar, range, count, approx}
use snap_cook.Schema.Ingredient.{IngredientUse, CookwareUse}
use snap_cook.Schema.Graph.{TextChunk, Timer, TimerQuantity, Temperature, TemperatureUnit, C, F}
use snap_cook.Registry.{IngredientRegistry, resolve_name}
use snap_cook.Cooklang.Numbers.{break_at, read, field_value}
use snap_cook.Cooklang.Quantities.{parse_quantity, stripped}

-- What the scanner collects.
pub record Parsed : Type 0 where
  pub chunks : List TextChunk
  pub ingredients : List IngredientUse
  pub cookware : List CookwareUse
  pub timers : List Timer
  pub temperatures : List Temperature
  pub uses : List Str
  pub counter : ℕ

abbrev pub nothing_yet : Parsed
nothing_yet = record {
  chunks = [];
  ingredients = [];
  cookware = [];
  timers = [];
  temperatures = [];
  uses = [];
  counter = 0;
}

-- A chunk, the position behind its token, and what was collected.
abbrev pub Token : Type 0
Token = TextChunk × Str × Parsed

-- `_braced`: the body between the next braces, and the position behind them
unfoldable pub braced : Str → Option (Str × Str)
braced s = elim (break_at 123 s) [ none ↦ none | some p ↦ break_at 125 p.1 ]

-- The text before the next brace, with the body and the position behind.
unfoldable pub name_and_body : Str → Option (Str × Str × Str)
name_and_body s = elim (break_at 123 s) [
  | none ↦ none
  | some p ↦ elim (break_at 125 p.1) [ none ↦ none | some q ↦ some (p.0, q.0, q.1) ]
]

-- The modifiers `?` and `=` in front of a name: whether each is among them, and the rest.
unfoldable pub modifiers : Str → Bool × Bool × Str
modifiers [] = (false, false, [])
modifiers (c ∷ s) =
    let rest = modifiers s in
    if c == 63
    then (true, rest.1, rest.2)
    else if c == 61
    then (rest.0, true, rest.2)
    else (false, false, c ∷ s)

abbrev pub use_uses : Str → List Str → List Str
use_uses state_id uses = if mem state_id uses then uses else uses ++ state_id ∷ []

-- A timer takes a scalar or a range, as its field does.
unfoldable pub timer_quantity_of : Option QuantitySpec → Result TimerQuantity
timer_quantity_of none = ok (TimerQuantity.scalar (record { value = of_nat 0; unit = none }))
timer_quantity_of (some spec) = elim spec.quantity [
  | scalar s ↦ ok (TimerQuantity.scalar s)
  | range r ↦ ok (TimerQuantity.range r)
  | count c ↦ err value_error
  | approx a ↦ err value_error
]

-- The field of the unit takes "C" and "F"; an absent or empty unit is "C".
unfoldable pub temperature_unit : Str → Result TemperatureUnit
temperature_unit [] = ok C
temperature_unit (c ∷ []) = if c == 67 then ok C else if c == 70 then ok F else err value_error
temperature_unit (c ∷ (d ∷ s)) = err value_error

abbrev pub value_and_unit : Str → Str × Str
value_and_unit body = elim (break_at 37 body) [ none ↦ (body, []) | some p ↦ p ]

-- `_next`
unfoldable pub use_id : Str → (index counter : ℕ) → Str
use_id prefix index counter = prefix ++ codes "_" ++ text_of index ++ codes "_" ++ text_of counter

abbrev pub is_state : Str → Bool
is_state (c ∷ (d ∷ s)) = (c == 38) && (d == 123)
is_state (c ∷ []) = false
is_state [] = false

abbrev pub amount_of : Str → Result (Option Decimal)
amount_of body = elim (stripped body) [
  | [] ↦ ok none
  | c ∷ rest ↦ (field_value (read body) >>= λ d. ok (some d))
]

-- A literal that is not empty becomes a chunk.
unfoldable pub flush : (lang : Str) → (literal : Str) → Parsed → Parsed
flush lang [] p = p
flush lang (c ∷ literal) p = record p {
  chunks = p.chunks ++ TextChunk.text (mono lang (c ∷ literal)) ∷ [];
}

module _ (lower : Str → Str) (index : ℕ) (lang : Str) (registry : IngredientRegistry)
    (name_to_state : Dict Str) where
  -- `_state`, from behind the `@`
  unfoldable pub state_token : Str → Parsed → Option Token
  state_token s p = elim (braced s) [
    | none ↦ none
    | some (name, end) ↦ elim (get name_to_state (stripped name)) [
      | none ↦ none
      | some state_id ↦
          some (TextChunk.state state_id, end, record p { uses = use_uses state_id p.uses })
    ]
  ]

  -- The new use of an ingredient.
  unfoldable pub add_ingredient :
      (optional : Bool) → (name : Str) → Option QuantitySpec → Parsed → Parsed
  add_ingredient optional name quantity p = record p {
    counter = suc p.counter;
    ingredients =
        p.ingredients
        ++ record {
          id = use_id (codes "iuse") index (suc p.counter);
          name = name;
          ingredient_id = resolve_name lower registry name (some lang);
          quantity = quantity;
          optional = optional;
          prep = none;
          notes = none;
        }
          ∷ [];
  }

  -- `_ingredient`, from behind the `@`
  unfoldable pub ingredient_token : Str → Parsed → Result (Option Token)
  ingredient_token s p = elim (name_and_body (modifiers s).2) [
    | none ↦ ok none
    | some (name, body, end) ↦ (do
      quantity ← parse_quantity lower body (modifiers s).1
      ok (
          some (
            TextChunk.ingredient (use_id (codes "iuse") index (suc p.counter)),
            end,
            add_ingredient (modifiers s).0 name quantity p,
          )))
  ]

  unfoldable pub add_cookware : (name : Str) → Option Decimal → Parsed → Parsed
  add_cookware name quantity p = record p {
    counter = suc p.counter;
    cookware =
        p.cookware
        ++ record {
          id = use_id (codes "cwu") index (suc p.counter);
          name = mono lang name;
          quantity = quantity;
          notes = none;
        }
          ∷ [];
  }

  -- `_cookware`, from behind the `#`
  unfoldable pub cookware_token : Str → Parsed → Result (Option Token)
  cookware_token s p = elim (name_and_body s) [
    | none ↦ ok none
    | some (name, body, end) ↦ (do
      quantity ← amount_of body
      ok (
          some (
            TextChunk.cookware (use_id (codes "cwu") index (suc p.counter)),
            end,
            add_cookware name quantity p,
          )))
  ]

  abbrev pub timer_name : Str → Option LocalizedText
  timer_name [] = none
  timer_name (c ∷ name) = some (mono lang (c ∷ name))

  -- `_timer`, from behind the `~`
  unfoldable pub timer_token : Str → Parsed → Result (Option Token)
  timer_token s p = elim (name_and_body s) [
    | none ↦ ok none
    | some (name, body, end) ↦ (do
      spec ← parse_quantity lower body false
      quantity ← timer_quantity_of spec
      ok (
          some (
            TextChunk.timer (pos (length p.timers)),
            end,
            record p {
              timers = p.timers ++ record { name = timer_name name; quantity = quantity } ∷ [];
            },
          )))
  ]

  -- `_temperature`, from behind the `^`
  unfoldable pub temperature_token : Str → Parsed → Result (Option Token)
  temperature_token s p = elim (braced s) [
    | none ↦ ok none
    | some (body, end) ↦ (do
      value ← field_value (read (value_and_unit body).0)
      unit ← temperature_unit (value_and_unit body).1
      ok (
          some (
            TextChunk.temperature (pos (length p.temperatures)),
            end,
            record p {
              temperatures = p.temperatures ++ record { value = value; unit = unit } ∷ [];
            },
          )))
  ]

  -- `_try_token`, at a character and the text behind it
  unfoldable pub try_token : ℕ → Str → Parsed → Result (Option Token)
  try_token ch s p =
      if ch == 64
      then (if is_state s then ok (state_token s p) else ingredient_token s p)
      else if ch == 35
      then cookware_token s p
      else if ch == 126
      then timer_token s p
      else if ch == 94
      then temperature_token s p
      else ok none

  -- `run`, with the position and the literal so far
  unfoldable pub run : (fuel : ℕ) → Str → (literal : Str) → Parsed → Result Parsed
  run fuel [] literal p = ok (flush lang literal p)
  run zero (ch ∷ s) literal p = err out_of_fuel
  run (suc fuel) (ch ∷ s) literal p = do
    marker ← try_token ch s p
    elim marker [
      | none ↦ run fuel s (literal ++ ch ∷ []) p
      | some (chunk, end, p') ↦
          let flushed = flush lang literal p' in
          run fuel end [] (record flushed { chunks = flushed.chunks ++ chunk ∷ [] })
    ]
