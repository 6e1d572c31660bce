-- ===== src/Schema/I18n.antt =====
-- schema/i18n.py: prose in one or more languages. The hash of a source text is a parameter.
pub mod Fallback
use snap_cook.Common.{
  Str, codes, str_eq, ◌==◌, Bool, true, false, not, ◌&&◌, Option, none, some, List, [], ◌∷◌,
  if◌then◌else◌,
}
use snap_cook.Errors.{Result, ok, err, ◌>>=◌}
use snap_cook.Dict.{Dict, get, fetch, mem, keys}

pub record LocalizedText : Type 0 where
  pub source : Str
  pub values : Dict Str
  pub stale_against : Dict Str

-- `LocalizedText._source_is_present` accepts
unfoldable pub source_is_present : LocalizedText → Bool
source_is_present t = mem t.source (keys t.values)

-- `LocalizedText.mono`
pub mono : Str → Str → LocalizedText
mono lang text = record { source = lang; values = (lang, text) ∷ []; stale_against = [] }

-- `lang.split("-", 1)[0]`
unfoldable pub base_language : Str → Str
base_language [] = []
base_language (c ∷ s) = if c == 45 then [] else c ∷ base_language s

-- The text in the recipe's source language, or else in the text's own.
unfoldable pub source_text : LocalizedText → Option Str → Result Str
source_text t none = fetch t.values t.source
source_text t (some []) = fetch t.values t.source
source_text t (some (c ∷ source)) = elim (get t.values (c ∷ source)) [
  | some v ↦ ok v
  | none ↦ fetch t.values t.source
]

-- `LocalizedText.resolve`
unfoldable pub resolve : LocalizedText → Str → Option Str → Result (Str × Bool)
unfolding source_text base_language
resolve t lang source =
    let fallback : Result (Str × Bool) = (source_text t source >>= λ v. ok (v, true)) in
    elim (get t.values lang) [
      | some v ↦ ok (v, false)
      | none ↦ elim (get t.values (base_language lang)) [
        | some v ↦ if not (str_eq (base_language lang) lang) then ok (v, true) else fallback
        | none ↦ fallback
      ]
    ]

-- `LocalizedText.is_stale`
unfoldable pub is_stale : (source_string_hash : Str → Str) → LocalizedText → Str → Result Bool
is_stale source_string_hash t lang = elim (get t.stale_against lang) [
  | none ↦ ok false
  | some recorded ↦ do
    current ← fetch t.values t.source
    ok (not (str_eq recorded (source_string_hash current)))
]
