-- ===== src/Web/Views.antt =====
-- recipes/views.py: what the views read from the query and write into the page's controls.
pub mod Scale
use snap_cook.Common.{
  Str, codes, str_eq, map, ◌||◌, Bool, true, false, Option, none, some, [], ◌∷◌, if◌then◌else◌,
}
use snap_cook.Errors.{Result, ok, err, ◌>>=◌, invalid_operation}
use snap_cook.Dict.{Dict, get}
use snap_cook.Decimal.{Decimal, of_nat, less}
use snap_cook.Units.Registry.{lower_char, strip_left, strip_right}
use snap_cook.Cooklang.Numbers.{
  Reading, finite, special, unreadable, read, signed, without_underscores,
}
use snap_cook.Render.Options.{RenderOptions}
use snap_cook.Render.Text.{scale_digits}

-- `_MAX_SCALE`
abbrev pub max_scale : Decimal
max_scale = of_nat 100

-- The sign of a text, and the rest in lower case.
abbrev pub sign_and_rest : Str → Bool × Str
sign_and_rest raw = signed (map lower_char (without_underscores (strip_right (strip_left raw))))

abbrev pub is_infinite : Str → Bool
is_infinite s = str_eq s (codes "inf") || str_eq s (codes "infinity")

-- A number of the query, between 0 and the greatest scale.
unfoldable pub bounded : Decimal → Decimal
bounded value =
    if less (of_nat 0) value then (if less max_scale value then max_scale else value) else of_nat 1

-- An infinity is compared as a number is; NaN has no order.
unfoldable pub bounded_special : Str → Result Decimal
bounded_special raw =
    if is_infinite (sign_and_rest raw).1
    then ok (if (sign_and_rest raw).0 then of_nat 1 else max_scale)
    else err invalid_operation

-- `_parse_scale`
unfoldable pub parse_scale : Option Str → Result Decimal
parse_scale none = ok (of_nat 1)
parse_scale (some []) = ok (of_nat 1)
parse_scale (some (c ∷ s)) = elim (read (c ∷ s)) [
  | unreadable ↦ ok (of_nat 1)
  | finite value ↦ ok (bounded value)
  | special ↦ bounded_special (c ∷ s)
]

-- `_scale_str`
unfoldable pub scale_str : Decimal → Str
scale_str scale = scale_digits scale

pub record Preferences : Type 0 where
  pub language : Str
  pub unit_system : Str

abbrev pub is_lang : Str → Bool
is_lang s = str_eq s (codes "en") || str_eq s (codes "de")

abbrev pub is_system : Str → Bool
is_system s = str_eq s (codes "metric") || str_eq s (codes "us")

abbrev pub default_lang : Option Preferences → Str
default_lang none = codes "en"
default_lang (some prefs) = prefs.language

abbrev pub default_system : Option Preferences → Str
default_system none = codes "metric"
default_system (some prefs) = prefs.unit_system

abbrev pub asked_or : Option Str → Str → Str
asked_or none default = default
asked_or (some asked) default = asked

abbrev pub chosen_lang : (asked default : Str) → Str
chosen_lang asked default =
    if is_lang asked then asked else if is_lang default then default else codes "en"

abbrev pub chosen_system : Str → Str
chosen_system asked = if is_system asked then asked else codes "metric"

-- `_options_from_request`, of a query with one value for each key
unfoldable pub options_from_request : Option Preferences → (query : Dict Str) → Result RenderOptions
options_from_request prefs query = do
  scale ← parse_scale (get query (codes "scale"))
  ok (record {
    lang =
        chosen_lang (asked_or (get query (codes "lang")) (default_lang prefs)) (default_lang prefs);
    system = chosen_system (asked_or (get query (codes "system")) (default_system prefs));
    scale = scale;
    registry = none;
    rounding = none;
  })
