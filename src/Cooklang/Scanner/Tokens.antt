-- ===== src/Cooklang/Scanner/Tokens.antt =====
-- cooklang/parse.py: the tokens of a scanner end behind their start and keep the parts consistent.
use snap_cook.Common.{
  subst, Str, ℕ, suc, ◌<◌, ◌≤◌, ◌≡◌, refl, false, [], ◌∷◌, length, Bool-cases, Option-cases, inl,
  inr, arith, Option, none, some, ◌==◌,
}
use snap_cook.Dict.{Dict, get}
use snap_cook.Registry.{IngredientRegistry}
use snap_cook.Cooklang.Numbers.{break_at, read}
use snap_cook.Cooklang.Quantities.{stripped}
use snap_cook.Cooklang.Safe.{
  Safe, Any, ok-Safe, if-Safe, >>=-Safe, field_value-Safe, parse_quantity-Safe,
  timer_quantity_of-Safe, temperature_unit-Safe, amount_of-Safe,
}
use snap_cook.Cooklang.Scanner.{
  Parsed, Token, braced, name_and_body, modifiers, value_and_unit, is_state, state_token,
  ingredient_token, cookware_token, timer_token, temperature_token, try_token,
}
use snap_cook.Cooklang.Scanner.Kept.{Here, Consistent}
use snap_cook.Cooklang.Scanner.Parts.{
  Consistent-ingredient, Consistent-cookware, Consistent-state, Consistent-timer,
  Consistent-temperature,
}

-- What is left of a text is shorter.
unfoldable pub Shorter : ℕ → Option (Str × Str) → Type 0
Shorter n none = Unit
Shorter n (some p) = length p.1 < n

break_at-Shorter : (mark : ℕ) (s : Str) → Shorter (length s) (break_at mark s)
unfolding Shorter break_at
break_at-Shorter mark [] = tt
break_at-Shorter mark (c ∷ s) = elim (Bool-cases (c == mark)) [
  | inl e ↦ rw e (omega arith)
  | inr e ↦ rw e (pushed c (break_at mark s) (break_at-Shorter mark s))
]
  where
    pushed :
        (c : ℕ) (o : Option (Str × Str))
        → Shorter (length s) o
        → Shorter (suc (length s)) (elim o [ none ↦ none | some p ↦ some (c ∷ p.0, p.1) ])
    pushed c none h = tt
    pushed c (some p) h = omega (arith, h)

broken : (mark : ℕ) (s : Str) {p : Str × Str} → break_at mark s ≡ some p → length p.1 < length s
unfolding Shorter
broken mark s e = subst (Shorter (length s)) e (break_at-Shorter mark s)

-- The position behind a body in braces, if there is one, is further on.
unfoldable NameEnds : ℕ → Option (Str × Str × Str) → Type 0
NameEnds n none = Unit
NameEnds n (some p) = length p.2 < n

name_and_body-NameEnds : (s : Str) → NameEnds (length s) (name_and_body s)
unfolding NameEnds name_and_body
name_and_body-NameEnds s = elim (Option-cases (break_at 123 s)) [
  | inl e ↦ rw (e, name_and_body) tt
  | inr (p, e) ↦ elim (Option-cases (break_at 125 p.1)) [
    | inl f ↦ rw (e, f, name_and_body) tt
    | inr (q, f) ↦ rw (e, f, name_and_body) (omega (arith, broken 123 s e, broken 125 p.1 f))
  ]
]

braced-Shorter : (s : Str) → Shorter (length s) (braced s)
unfolding Shorter braced
braced-Shorter s = elim (Option-cases (break_at 123 s)) [
  | inl e ↦ rw (e, braced) tt
  | inr (p, e) ↦ elim (Option-cases (break_at 125 p.1)) [
    | inl f ↦ rw (e, f, braced) tt
    | inr (q, f) ↦ rw (e, f, braced) (omega (arith, broken 123 s e, broken 125 p.1 f))
  ]
]

modifiers_shorter : (s : Str) → length (modifiers s).2 ≤ length s
unfolding modifiers
modifiers_shorter [] = omega arith
modifiers_shorter (c ∷ s) = elim (Bool-cases (c == 63)) [
  | inl e ↦ rw e (omega (arith, modifiers_shorter s))
  | inr e ↦ elim (Bool-cases (c == 61)) [
    | inl f ↦ rw (e, f) (omega (arith, modifiers_shorter s))
    | inr f ↦ rw (e, f) (omega arith)
  ]
]

-- What a token leaves: a position not behind the end, and consistent parts with that of the chunk.
unfoldable pub Step : (index limit : ℕ) → Option Token → Type 0
Step index limit none = Unit
Step index limit (some (chunk, end, p)) = (length end ≤ limit) × Consistent index p × Here p chunk

module _ (lower : Str → Str) (index : ℕ) (lang : Str) (registry : IngredientRegistry)
    (names : Dict Str) where
  state_token-Step :
      (s : Str) (p : Parsed) (o : Option (Str × Str))
      → braced s ≡ o
      → Shorter (length s) o
      → Consistent index p
      → Step index (length s) (state_token lower index lang registry names s p)
  unfolding state_token Step Shorter
  state_token-Step s p none e short h = rw (e, state_token) tt
  state_token-Step s p (some (name, end)) e short h =
      elim (Option-cases (get names (stripped name))) [
        | inl f ↦ rw (e, f, state_token) tt
        | inr (x, f) ↦
            rw (e, f, state_token)
              (
                omega (arith, short),
                (Consistent-state index x p h).0,
                (Consistent-state index x p h).1,
              )
      ]

  ingredient_token-Safe :
      (s : Str) (p : Parsed) (o : Option (Str × Str × Str))
      → name_and_body (modifiers s).2 ≡ o
      → NameEnds (length (modifiers s).2) o
      → Consistent index p
      → Safe (Step index (length s)) (ingredient_token lower index lang registry names s p)
  unfolding ingredient_token Step NameEnds
  ingredient_token-Safe s p none e short h =
      rw (e, ingredient_token) (ok-Safe (Step index (length s)) none tt)
  ingredient_token-Safe s p (some (name, body, end)) e short h =
      rw (e, ingredient_token)
        (>>=-Safe Any (Step index (length s)) _ _ (parse_quantity-Safe lower body (modifiers s).1)
          (λ quantity any.
            let kept =
              Consistent-ingredient lower index lang registry names (modifiers s).0 name quantity p
                h in
            ok-Safe (Step index (length s)) _
              (omega (arith, short, modifiers_shorter s), kept.0, kept.1)))

  cookware_token-Safe :
      (s : Str) (p : Parsed) (o : Option (Str × Str × Str))
      → name_and_body s ≡ o
      → NameEnds (length s) o
      → Consistent index p
      → Safe (Step index (length s)) (cookware_token lower index lang registry names s p)
  unfolding cookware_token Step NameEnds
  cookware_token-Safe s p none e short h =
      rw (e, cookware_token) (ok-Safe (Step index (length s)) none tt)
  cookware_token-Safe s p (some (name, body, end)) e short h =
      rw (e, cookware_token)
        (>>=-Safe Any (Step index (length s)) _ _ (amount_of-Safe body) (λ quantity any.
          let kept = Consistent-cookware lower index lang registry names name quantity p h in
          ok-Safe (Step index (length s)) _ (omega (arith, short), kept.0, kept.1)))

  timer_token-Safe :
      (s : Str) (p : Parsed) (o : Option (Str × Str × Str))
      → name_and_body s ≡ o
      → NameEnds (length s) o
      → Consistent index p
      → Safe (Step index (length s)) (timer_token lower index lang registry names s p)
  unfolding timer_token Step NameEnds
  timer_token-Safe s p none e short h =
      rw (e, timer_token) (ok-Safe (Step index (length s)) none tt)
  timer_token-Safe s p (some (name, body, end)) e short h =
      rw (e, timer_token)
        (>>=-Safe Any (Step index (length s)) _ _ (parse_quantity-Safe lower body false)
          (λ spec any.
            >>=-Safe Any (Step index (length s)) _ _ (timer_quantity_of-Safe spec) (λ quantity any.
              let kept = Consistent-timer index _ p h in
              ok-Safe (Step index (length s)) _ (omega (arith, short), kept.0, kept.1))))

  temperature_token-Safe :
      (s : Str) (p : Parsed) (o : Option (Str × Str))
      → braced s ≡ o
      → Shorter (length s) o
      → Consistent index p
      → Safe (Step index (length s)) (temperature_token lower index lang registry names s p)
  unfolding temperature_token Step Shorter
  temperature_token-Safe s p none e short h =
      rw (e, temperature_token) (ok-Safe (Step index (length s)) none tt)
  temperature_token-Safe s p (some (body, end)) e short h =
      rw (e, temperature_token)
        (>>=-Safe Any (Step index (length s)) _ _ (field_value-Safe (read (value_and_unit body).0))
          (λ value any.
            >>=-Safe Any (Step index (length s)) _ _ (temperature_unit-Safe (value_and_unit body).1)
              (λ unit any.
                let kept = Consistent-temperature index _ p h in
                ok-Safe (Step index (length s)) _ (omega (arith, short), kept.0, kept.1))))

  pub try_token-Safe :
      (ch : ℕ) (s : Str) (p : Parsed)
      → Consistent index p
      → Safe (Step index (length s)) (try_token lower index lang registry names ch s p)
  unfolding try_token Step
  try_token-Safe ch s p h =
      let P = Step index (length s) in
      if-Safe P (ch == 64) _ _
        (if-Safe P (is_state s) _ _
          (ok-Safe P _ (state_token-Step s p (braced s) refl (braced-Shorter s) h))
          (ingredient_token-Safe s p _ refl (name_and_body-NameEnds (modifiers s).2) h))
        (if-Safe P (ch == 35) _ _ (cookware_token-Safe s p _ refl (name_and_body-NameEnds s) h) (
          if-Safe P (ch == 126) _ _ (timer_token-Safe s p _ refl (name_and_body-NameEnds s) h) (
            if-Safe P (ch == 94) _ _ (temperature_token-Safe s p _ refl (braced-Shorter s) h)
              (ok-Safe P none tt))))
