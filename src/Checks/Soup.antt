-- ===== src/Checks/Soup.antt =====
-- A small recipe: two preparations, in either order, and a step that joins them.
use snap_cook.Common.{Str, codes, none, List, [], ◌∷◌}
use snap_cook.Common.Int.{ℤ, pos}
use snap_cook.Common.{false, some}
use snap_cook.Decimal.{of_nat}
use snap_cook.Schema.Ingredient.{IngredientUse}
use snap_cook.Schema.Graph.{TimerQuantity, TextChunk, Action}

abbrev pub step : Str → ℤ → List Str → Str → Action
step id order uses made = record {
  id = id;
  order = order;
  verb = none;
  uses = uses;
  ingredients = [];
  cookware = [];
  timers = [];
  temperatures = [];
  produces = record { id = made; name = none };
  text = none;
  notes = none;
}

abbrev pub chop : Action
chop = step (codes "chop") (pos 1) [] (codes "onions")

abbrev pub boil : Action
boil = step (codes "boil") (pos 0) [] (codes "stock")

abbrev pub join : Action
join = step (codes "join") (pos 0) (codes "onions" ∷ codes "stock" ∷ []) (codes "soup")

abbrev pub soup : List Action
soup = chop ∷ join ∷ boil ∷ []

abbrev pub soup' : List Action
soup' = join ∷ chop ∷ boil ∷ []

-- The id of `chop` stands for two steps.
abbrev pub chop' : Action
chop' = step (codes "chop") (pos 2) [] (codes "stock")

abbrev pub doubled : List Action
doubled = chop ∷ join ∷ chop' ∷ []

abbrev salt : IngredientUse
salt = record {
  id = codes "salt";
  name = codes "salt";
  ingredient_id = none;
  quantity = none;
  optional = false;
  prep = none;
  notes = none;
}

-- A step whose prose refers to an ingredient, to a state and to a timer.
abbrev pub season : Action
season = record join {
  ingredients = salt ∷ [];
  timers =
      record {
        name = none;
        quantity = TimerQuantity.scalar (record { value = of_nat 5; unit = none });
      }
      ∷ [];
  text = some (record {
    chunks =
        TextChunk.ingredient (codes "salt")
        ∷ TextChunk.state (codes "stock")
        ∷ TextChunk.timer (pos 0)
        ∷ [];
  });
}
