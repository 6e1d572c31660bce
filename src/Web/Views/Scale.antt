-- ===== src/Web/Views/Scale.antt =====
-- recipes/views.py: whatever the query holds, the options are ones that the page offers.
use snap_cook.Common.{
  ℕ, Str, codes, str_eq, ◌≡◌, refl, Bool, true, false, Option, none, some, [], ◌∷◌, if◌then◌else◌,
  Bool-cases, inl, inr,
}
use snap_cook.Errors.{Result, ok, err, >>=-ok, >>=-err, invalid_operation}
use snap_cook.Dict.{Dict, get}
use snap_cook.Decimal.{Decimal, of_nat, less}
use snap_cook.Cooklang.Numbers.{Reading, finite, special, unreadable, read}
use snap_cook.Render.Options.{RenderOptions}
use snap_cook.Web.Views.{
  max_scale, sign_and_rest, is_infinite, bounded, bounded_special, parse_scale, Preferences,
  is_lang, is_system, default_lang, default_system, asked_or, chosen_lang, chosen_system,
  options_from_request,
}

-- Above 0, and not above 100.
abbrev pub InBounds : Decimal → Type 0
InBounds d = (less (of_nat 0) d ≡ true) × (less max_scale d ≡ false)

-- The text is read as NaN.
unfoldable pub reads_nan : Option Str → Bool
reads_nan none = false
reads_nan (some []) = false
reads_nan (some (c ∷ s)) = elim (read (c ∷ s)) [
  | finite d ↦ false
  | unreadable ↦ false
  | special ↦ if is_infinite (sign_and_rest (c ∷ s)).1 then false else true
]

-- With NaN the comparison raises; else there is a scale within the bounds.
abbrev pub Scaled : Bool → Result Decimal → Type 0
Scaled true r = r ≡ err invalid_operation
Scaled false r = (d : Decimal) × (r ≡ ok d) × InBounds d

one-InBounds : InBounds (of_nat 1)
unfolding less
one-InBounds = (refl, refl)

max-InBounds : InBounds max_scale
unfolding less
max-InBounds = (refl, refl)

bounded-InBounds : (d : Decimal) → InBounds (bounded d)
unfolding bounded
bounded-InBounds d = elim (Bool-cases (less (of_nat 0) d)) [
  | inl e ↦ elim (Bool-cases (less max_scale d)) [
    | inl f ↦ rw (e, f) max-InBounds
    | inr f ↦ rw (e, f) (e, f)
  ]
  | inr e ↦ rw e one-InBounds
]

bounded_special-Scaled :
    (raw : Str)
    → Scaled (if is_infinite (sign_and_rest raw).1 then false else true) (bounded_special raw)
unfolding bounded_special
bounded_special-Scaled raw = elim (Bool-cases (is_infinite (sign_and_rest raw).1)) [
  | inl e ↦ rw e (elim (Bool-cases (sign_and_rest raw).0) [
    | inl f ↦ rw f (of_nat 1, refl, one-InBounds)
    | inr f ↦ rw f (max_scale, refl, max-InBounds)
  ])
  | inr e ↦ rw e refl
]

text-Scaled :
    (c : ℕ) (s : Str) (r : Reading)
    → read (c ∷ s) ≡ r
    → Scaled (reads_nan (some (c ∷ s))) (parse_scale (some (c ∷ s)))
unfolding reads_nan parse_scale
text-Scaled c s (finite d) e = rw (e, reads_nan, parse_scale) (bounded d, refl, bounded-InBounds d)
text-Scaled c s unreadable e = rw (e, reads_nan, parse_scale) (of_nat 1, refl, one-InBounds)
text-Scaled c s special e = rw (e, reads_nan, parse_scale) (bounded_special-Scaled (c ∷ s))

pub parse_scale-Scaled : (raw : Option Str) → Scaled (reads_nan raw) (parse_scale raw)
unfolding reads_nan parse_scale
parse_scale-Scaled none = (of_nat 1, refl, one-InBounds)
parse_scale-Scaled (some []) = (of_nat 1, refl, one-InBounds)
parse_scale-Scaled (some (c ∷ s)) = text-Scaled c s (read (c ∷ s)) refl

english : is_lang (codes "en") ≡ true
unfolding str_eq
english = refl

metric : is_system (codes "metric") ≡ true
unfolding str_eq
metric = refl

chosen_lang-is_lang : (asked default : Str) → is_lang (chosen_lang asked default) ≡ true
chosen_lang-is_lang asked default = elim (Bool-cases (is_lang asked)) [
  | inl e ↦ rw e e
  | inr e ↦ elim (Bool-cases (is_lang default)) [ inl f ↦ rw (e, f) f | inr f ↦ rw (e, f) english ]
]

chosen_system-is_system : (asked : Str) → is_system (chosen_system asked) ≡ true
chosen_system-is_system asked = elim (Bool-cases (is_system asked)) [
  | inl e ↦ rw e e
  | inr e ↦ rw e metric
]

-- Options that the page has a control for, or the exception of a scale that is NaN.
abbrev pub Offered : (nan : Bool) → Result RenderOptions → Type 0
Offered true r = r ≡ err invalid_operation
Offered false r =
    (o : RenderOptions) × (r ≡ ok o)
    × (is_lang o.lang ≡ true)
    × (is_system o.system ≡ true)
    × InBounds o.scale

offered :
    (prefs : Option Preferences) (query : Dict Str) (nan : Bool)
    → Scaled nan (parse_scale (get query (codes "scale")))
    → Offered nan (options_from_request prefs query)
unfolding options_from_request
offered prefs query true e = >>=-err _ e
offered prefs query false (scale, e, bounds) = (
  _,
  >>=-ok _ e,
  chosen_lang-is_lang (asked_or (get query (codes "lang")) (default_lang prefs))
      (default_lang prefs),
  chosen_system-is_system (asked_or (get query (codes "system")) (default_system prefs)),
  bounds,
)

-- Whatever a query and the preferences hold, the options have a language, a system and a scale that
-- are offered; only a scale that is NaN raises InvalidOperation.
pub options_from_request-Offered :
    (prefs : Option Preferences) (query : Dict Str)
    → Offered (reads_nan (get query (codes "scale"))) (options_from_request prefs query)
options_from_request-Offered prefs query =
    offered prefs query (reads_nan (get query (codes "scale")))
      (parse_scale-Scaled (get query (codes "scale")))
