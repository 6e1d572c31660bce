-- ===== src/Render/Html/Markup.antt =====
-- render/print_.py: the texts of a recipe add no markup to the page.
use mathlib.Core.Path.{ap₂}
use snap_cook.Common.{
  Str, ℕ, ◌==◌, ◌≡◌, refl, sym, ap, ◌∙◌, Bool, false, ◌||◌, List, [], ◌∷◌, ◌++◌, map, if◌then◌else◌,
  Bool-cases, inl, inr, arith,
}
use snap_cook.Render.Labels.{join_with}
use snap_cook.Render.Html.{html_escape, in_tag}

abbrev pub is_markup : ℕ → Bool
is_markup c = (c == 60) || (c == 62) || (c == 34) || (c == 39)

-- The brackets and quotes of a text, in their order.
unfoldable pub markup : Str → Str
markup [] = []
markup (c ∷ s) = let rest = markup s in if is_markup c then c ∷ rest else rest

pub markup-append : (s t : Str) → markup (s ++ t) ≡ markup s ++ markup t
unfolding markup
markup-append [] t = refl
markup-append (c ∷ s) t = elim (Bool-cases (is_markup c)) [
  | inl e ↦ rw e (ap (λ s. c ∷ s) (markup-append s t))
  | inr e ↦ rw e (markup-append s t)
]

plain_char :
    (c : ℕ) (s : Str)
    → (c == 60) ≡ false
    → (c == 62) ≡ false
    → (c == 34) ≡ false
    → (c == 39) ≡ false
    → markup (c ∷ s) ≡ markup s
unfolding markup
plain_char c s h k l m = ground (arith, h, k, l, m)

-- Nothing of it is left in an escaped text.
pub markup-html_escape : (s : Str) → markup (html_escape s) ≡ []
unfolding markup html_escape
markup-html_escape [] = refl
markup-html_escape (c ∷ s) = elim (Bool-cases (c == 38)) [
  | inl e ↦ rw e (markup-html_escape s)
  | inr e ↦ elim (Bool-cases (c == 60)) [
    | inl f ↦ rw (e, f) (markup-html_escape s)
    | inr f ↦ elim (Bool-cases (c == 62)) [
      | inl g ↦ rw (e, f, g) (markup-html_escape s)
      | inr g ↦ elim (Bool-cases (c == 34)) [
        | inl h ↦ rw (e, f, g, h) (markup-html_escape s)
        | inr h ↦ elim (Bool-cases (c == 39)) [
          | inl k ↦ rw (e, f, g, h, k) (markup-html_escape s)
          | inr k ↦ rw (e, f, g, h, k) (plain_char c (html_escape s) f g h k ∙ markup-html_escape s)
        ]
      ]
    ]
  ]
]

-- Two texts with the same markup.
abbrev pub Alike : Str → Str → Type 0
Alike s t = markup s ≡ markup t

pub append-Alike : (s s' t t' : Str) → Alike s s' → Alike t t' → Alike (s ++ t) (s' ++ t')
append-Alike s s' t t' h k = markup-append s t ∙ ap₂ (λ a b. a ++ b) h k ∙ sym (markup-append s' t')

pub escape-Alike : (s t : Str) → Alike (html_escape s) (html_escape t)
escape-Alike s t = markup-html_escape s ∙ sym (markup-html_escape t)

pub tag-Alike : (a b s t : Str) → Alike s t → Alike (in_tag a b s) (in_tag a b t)
tag-Alike a b s t h = append-Alike (a ++ s) (a ++ t) b b (append-Alike a a s t refl h) refl

abbrev pub AllAlike : List Str → List Str → Type 0
AllAlike [] [] = Unit
AllAlike [] (t ∷ ts) = ⊥
AllAlike (s ∷ ss) [] = ⊥
AllAlike (s ∷ ss) (t ∷ ts) = Alike s t × AllAlike ss ts

pub join-Alike :
    (sep : Str) (ss ts : List Str) → AllAlike ss ts → Alike (join_with sep ss) (join_with sep ts)
unfolding join_with
join-Alike sep [] [] h = refl
join-Alike sep (s ∷ []) (t ∷ []) h = h.0
join-Alike sep (s ∷ (s' ∷ ss)) (t ∷ (t' ∷ ts)) h =
    append-Alike (s ++ sep) (t ++ sep) _ _ (append-Alike s t sep sep h.0 refl)
      (join-Alike sep (s' ∷ ss) (t' ∷ ts) h.1)
join-Alike sep [] (t ∷ ts) h = absurd h
join-Alike sep (s ∷ ss) [] h = absurd h
join-Alike sep (s ∷ []) (t ∷ (t' ∷ ts)) h = absurd h.1
join-Alike sep (s ∷ (s' ∷ ss)) (t ∷ []) h = absurd h.1

pub same-AllAlike : (ss : List Str) → AllAlike ss ss
same-AllAlike [] = tt
same-AllAlike (s ∷ ss) = (refl, same-AllAlike ss)

pub both-AllAlike :
    (ss ss' ts ts' : List Str)
    → AllAlike ss ts
    → AllAlike ss' ts'
    → AllAlike (ss ++ ss') (ts ++ ts')
both-AllAlike [] ss' [] ts' h k = k
both-AllAlike (s ∷ ss) ss' (t ∷ ts) ts' h k = (h.0, both-AllAlike ss ss' ts ts' h.1 k)
both-AllAlike [] ss' (t ∷ ts) ts' h k = absurd h
both-AllAlike (s ∷ ss) ss' [] ts' h k = absurd h

pub map-AllAlike :
    {A : Type 0} (f : A → Str) (v : A → A) (l : List A)
    → ((x : A) → Alike (f x) (f (v x)))
    → AllAlike (map f l) (map f (map v l))
map-AllAlike f v [] h = tt
map-AllAlike f v (x ∷ l) h = (h x, map-AllAlike f v l h)
