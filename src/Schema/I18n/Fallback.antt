-- ===== src/Schema/I18n/Fallback.antt =====
-- `LocalizedText.resolve` on a text that its validation accepts.
use snap_cook.Common.{
  Str, str_eq, ◌≡◌, refl, sym, ◌∙◌, Bool, true, false, not, Option, none, some, [], ◌∷◌, inl, inr,
  Bool-cases, Option-cases, if_true, if_false,
}
use snap_cook.Errors.{ok, ◌>>=◌}
use snap_cook.Dict.{Dict, get, fetch-some, mem, keys}
use snap_cook.Dict.Laws.{get-of_mem, mem-keys}
use snap_cook.Schema.I18n.{LocalizedText, source_is_present, base_language, source_text, resolve}

-- The text found for a language, and whether it is in another one.
pub record Resolved (t : LocalizedText) (lang : Str) (source : Option Str) : Type 0 where
  pub text : Str
  pub fallback : Bool
  pub runs : resolve t lang source ≡ ok (text, fallback)
  pub own : fallback ≡ not (mem lang (keys t.values))
  pub tag : Str
  pub known : get t.values tag ≡ some text

source_text-runs :
    (t : LocalizedText) (source : Option Str)
    → source_is_present t ≡ true
    → (text : Str) × (source_text t source ≡ ok text) × (tag : Str) × (get t.values tag ≡ some text)
unfolding source_text source_is_present
source_text-runs t none h =
    let (v, at) = get-of_mem t.values t.source h in
    (v, fetch-some t.values t.source v at, t.source, at)
source_text-runs t (some []) h =
    let (v, at) = get-of_mem t.values t.source h in
    (v, fetch-some t.values t.source v at, t.source, at)
source_text-runs t (some (c ∷ source)) h = elim (Option-cases (get t.values (c ∷ source))) [
  | inl e ↦
      let (v, at) = get-of_mem t.values t.source h in
      (v, rw (e, source_text) (fetch-some t.values t.source v at), t.source, at)
  | inr (v, e) ↦ (v, rw (e, source_text) refl, c ∷ source, e)
]

not_there : (d : Dict Str) (k : Str) → get d k ≡ none → mem k (keys d) ≡ false
not_there d k e = elim (Bool-cases (mem k (keys d))) [
  | inl h ↦ let (v, f) = get-of_mem d k h in cc (sym e ∙ f)
  | inr h ↦ h
]

-- A text with its source language resolves for every language and every recipe language to one of
-- its own values, marked as a fallback exactly if the language asked for is missing.
pub resolve-Resolved :
    (t : LocalizedText) (lang : Str) (source : Option Str)
    → source_is_present t ≡ true
    → Resolved t lang source
unfolding resolve
resolve-Resolved t lang source present = elim (Option-cases (get t.values lang)) [
  | inr (v, e) ↦ record {
    text = v;
    fallback = false;
    runs = rw (e, resolve) refl;
    own = rw (mem-keys t.values lang v e) refl;
    tag = lang;
    known = e;
  }
  | inl e ↦
      let missing : true ≡ not (mem lang (keys t.values)) = rw (not_there t.values lang e) refl in
      let (v, runs, tag, at) = source_text-runs t source present in
      let last : (source_text t source >>= λ s. ok (s, true)) ≡ ok (v, true) = rw runs refl in
      elim (Option-cases (get t.values (base_language lang))) [
        | inl f ↦ record {
          text = v;
          fallback = true;
          runs = rw (e, resolve) (rw f last);
          own = missing;
          tag = tag;
          known = at;
        }
        | inr (w, f) ↦ elim (Bool-cases (not (str_eq (base_language lang) lang))) [
          | inl g ↦ record {
            text = w;
            fallback = true;
            runs = rw (e, resolve) (rw f (if_true _ _ g));
            own = missing;
            tag = base_language lang;
            known = f;
          }
          | inr g ↦ record {
            text = v;
            fallback = true;
            runs = rw (e, resolve) (rw f (if_false _ _ g ∙ last));
            own = missing;
            tag = tag;
            known = at;
          }
        ]
      ]
]
