-- ===== src/Units/Registry.antt =====
-- units/registry.py: the table of units, and the units that an author's word means. Lower case and
-- the spaces around a word are those that decide whether it is one of the words of the table, which
-- are ASCII.
pub mod Known
use snap_cook.Common.{
  Str, codes, str_eq, ℕ, ◌+◌, leb, ◌==◌, Bool, true, false, ◌&&◌, ◌||◌, not, Option, none, some,
  List, [], ◌∷◌, ◌++◌, map, if◌then◌else◌,
}
use snap_cook.Dict.{Dict, get, mem}

pub data Dimension : Type 0 where
  mass volume time : Dimension

pub data System : Type 0 where
  metric us uk jp universal : System

pub record UnitDef : Type 0 where
  pub id : Str
  pub pint_name : Str
  pub dimension : Dimension
  pub system : System
  pub symbol : Str
  pub aliases : List Str

abbrev unit : Str → Str → Dimension → System → Str → List Str → UnitDef
unit id pint_name dimension system symbol aliases = record {
  id = id;
  pint_name = pint_name;
  dimension = dimension;
  system = system;
  symbol = symbol;
  aliases = aliases;
}

-- `UNIT_DEFS`
abbrev pub unit_defs : List UnitDef
unit_defs =
    unit (codes "unit:g") (codes "gram") mass metric (codes "g")
      (codes "g" ∷ codes "gr" ∷ codes "gram" ∷ codes "grams" ∷ codes "gramm" ∷ [])
    ∷ unit (codes "unit:kg") (codes "kilogram") mass metric (codes "kg")
        (codes "kg" ∷ codes "kilogram" ∷ codes "kilograms" ∷ [])
    ∷ unit (codes "unit:mg") (codes "milligram") mass metric (codes "mg")
        (codes "mg" ∷ codes "milligram" ∷ codes "milligrams" ∷ [])
    ∷ unit (codes "unit:oz") (codes "ounce") mass us (codes "oz")
        (codes "oz" ∷ codes "ounce" ∷ codes "ounces" ∷ [])
    ∷ unit (codes "unit:lb") (codes "pound") mass us (codes "lb")
        (codes "lb" ∷ codes "lbs" ∷ codes "pound" ∷ codes "pounds" ∷ [])
    ∷ unit (codes "unit:ml") (codes "milliliter") volume metric (codes "ml") (
        codes "ml"
        ∷ codes "milliliter"
        ∷ codes "milliliters"
        ∷ codes "millilitre"
        ∷ codes "millilitres"
        ∷ [])
    ∷ unit (codes "unit:l") (codes "liter") volume metric (codes "l")
        (codes "l" ∷ codes "liter" ∷ codes "liters" ∷ codes "litre" ∷ codes "litres" ∷ [])
    ∷ unit (codes "unit:dl") (codes "deciliter") volume metric (codes "dl") (
        codes "dl"
        ∷ codes "deciliter"
        ∷ codes "deciliters"
        ∷ codes "decilitre"
        ∷ codes "decilitres"
        ∷ [])
    ∷ unit (codes "unit:tsp") (codes "tsp_cook") volume universal (codes "tsp")
        (codes "tsp" ∷ codes "teaspoon" ∷ codes "teaspoons" ∷ codes "tl" ∷ [])
    ∷ unit (codes "unit:tbsp") (codes "tbsp_cook") volume universal (codes "tbsp")
        (codes "tbsp" ∷ codes "tablespoon" ∷ codes "tablespoons" ∷ codes "el" ∷ codes "el" ∷ [])
    ∷ unit (codes "unit:cup.us") (codes "cup_us") volume us (codes "cup")
        (codes "cup" ∷ codes "cups" ∷ [])
    ∷ unit (codes "unit:cup.metric") (codes "cup_metric") volume metric (codes "cup")
        (codes "cup" ∷ codes "cups" ∷ [])
    ∷ unit (codes "unit:cup.uk") (codes "cup_uk") volume uk (codes "cup")
        (codes "cup" ∷ codes "cups" ∷ [])
    ∷ unit (codes "unit:cup.jp") (codes "cup_jp") volume jp (codes "cup")
        (codes "cup" ∷ codes "cups" ∷ [])
    ∷ unit (codes "unit:floz") (codes "floz_us") volume us (codes "fl oz")
        (codes "floz" ∷ codes "fl oz" ∷ codes "fluid ounce" ∷ [])
    ∷ unit (codes "unit:pint") (codes "pint_us") volume us (codes "pint")
        (codes "pint" ∷ codes "pints" ∷ codes "pt" ∷ [])
    ∷ unit (codes "unit:quart") (codes "quart_us") volume us (codes "quart")
        (codes "quart" ∷ codes "quarts" ∷ codes "qt" ∷ [])
    ∷ unit (codes "unit:s") (codes "second") time universal (codes "s")
        (codes "s" ∷ codes "sec" ∷ codes "second" ∷ codes "seconds" ∷ [])
    ∷ unit (codes "unit:min") (codes "minute") time universal (codes "min")
        (codes "min" ∷ codes "minute" ∷ codes "minutes" ∷ [])
    ∷ unit (codes "unit:h") (codes "hour") time universal (codes "h")
        (codes "h" ∷ codes "hr" ∷ codes "hour" ∷ codes "hours" ∷ [])
    ∷ unit (codes "unit:day") (codes "day") time universal (codes "d")
        (codes "day" ∷ codes "days" ∷ [])
    ∷ []

-- `_BY_ID.get(…)`; the ids of the table are different.
unfoldable pub find_unit : List UnitDef → Str → Option UnitDef
find_unit [] unit_id = none
find_unit (d ∷ ds) unit_id = if str_eq d.id unit_id then some d else find_unit ds unit_id

unfoldable pub unit_def : Str → Option UnitDef
unfolding find_unit
unit_def unit_id = find_unit unit_defs unit_id

unfoldable pub dimension_of : Str → Option Dimension
dimension_of unit_id = elim (unit_def unit_id) [ none ↦ none | some d ↦ some d.dimension ]

unfoldable pub system_of : Str → Option System
system_of unit_id = elim (unit_def unit_id) [ none ↦ none | some d ↦ some d.system ]

abbrev pub eq_dimension : Dimension → Dimension → Bool
eq_dimension mass mass = true
eq_dimension volume volume = true
eq_dimension time time = true
eq_dimension a b = false

abbrev pub known_equal : Option Dimension → Option Dimension → Bool
known_equal none b = false
known_equal (some a) none = false
known_equal (some a) (some b) = eq_dimension a b

unfoldable pub same_dimension : Str → Str → Bool
same_dimension a b = known_equal (dimension_of a) (dimension_of b)

-- The words that only a locale decides.
abbrev pub is_cup : Str → Bool
is_cup key = str_eq key (codes "cup") || str_eq key (codes "cups")

-- `_BY_ALIAS`, where the first unit with a word keeps it and the cups are taken out
unfoldable pub by_alias : List UnitDef → Str → Option Str
by_alias [] key = none
by_alias (d ∷ ds) key = if mem key d.aliases && not (is_cup key) then some d.id else by_alias ds key

-- `lower`; of the letters outside ASCII only the Kelvin sign has a lower case in it.
abbrev pub lower_char : ℕ → ℕ
lower_char c = if leb 65 c && leb c 90 then c + 32 else if c == 8490 then 107 else c

abbrev pub lower : Str → Str
lower s = map lower_char s

-- The white space of `str.strip`.
abbrev pub is_space : ℕ → Bool
is_space c =
    (leb 9 c && leb c 13)
    || (leb 28 c && leb c 32)
    || (c == 133)
    || (c == 160)
    || (c == 5760)
    || (leb 8192 c && leb c 8202)
    || (c == 8232)
    || (c == 8233)
    || (c == 8239)
    || (c == 8287)
    || (c == 12288)

unfoldable pub strip_left : Str → Str
strip_left [] = []
strip_left (c ∷ s) = if is_space c then strip_left s else c ∷ s

unfoldable pub strip_right : Str → Str
strip_right [] = []
strip_right (c ∷ s) = elim (strip_right s) [
  | [] ↦ if is_space c then [] else c ∷ []
  | x ∷ r ↦ c ∷ x ∷ r
]

abbrev pub locale_unit : Option Str → Option Str
locale_unit none = none
locale_unit (some []) = none
locale_unit (some (c ∷ s)) =
    let candidate = codes "unit:cup." ++ lower (c ∷ s) in
    elim (unit_def candidate) [ none ↦ none | some d ↦ some candidate ]

unfoldable pub resolve_unit : Str → Option Str → Option Str
resolve_unit surface locale =
    let key = lower (strip_right (strip_left surface)) in
    elim (by_alias unit_defs key) [
      | some unit_id ↦ some unit_id
      | none ↦ if is_cup key then locale_unit locale else none
    ]
