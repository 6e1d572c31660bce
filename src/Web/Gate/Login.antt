-- ===== src/Web/Gate/Login.antt =====
-- Which requests the login gate lets through to the views.
use snap_cook.Common.{
  Str, str_eq, str_eq_refl, str_eq_iff, ◌≡◌, ◌↔◌, ◌⊎◌, inl, inr, refl, sym, ◌∙◌, ap, subst, Bool,
  true, false, not, ◌&&◌, List, [], ◌∷◌, ◌++◌, if◌then◌else◌, Bool-cases, arith,
}
use snap_cook.Dict.{mem}
use snap_cook.Web.Gate.{
  Request, handled, redirect_to_login, starts_with, starts_with_any, exempt_prefixes, is_exempt,
  is_authenticated, login_gate,
}

-- A path that goes on from one of the prefixes.
abbrev pub Continues : List Str → Str → Type 0
Continues prefixes path = (p : Str) × (rest : Str) × (mem p prefixes ≡ true) × (path ≡ p ++ rest)

starts_with-rest : (p s : Str) → starts_with p s ≡ true → (rest : Str) × (s ≡ p ++ rest)
unfolding starts_with
starts_with-rest [] s h = (s, refl)
starts_with-rest (c ∷ p) [] h = cc
starts_with-rest (c ∷ p) (x ∷ s) h =
    let (rest, e) = starts_with-rest p s (ground arith) in (rest, ground (arith, e))

starts_with-append : (p rest : Str) → starts_with p (p ++ rest) ≡ true
unfolding starts_with
starts_with-append [] rest = refl
starts_with-append (c ∷ p) rest = ground (arith, starts_with-append p rest)

any-Continues : (ps : List Str) (s : Str) → starts_with_any ps s ≡ true → Continues ps s
unfolding starts_with_any mem
any-Continues [] s h = cc
any-Continues (p ∷ ps) s h = elim (Bool-cases (starts_with p s)) [
  | inl e ↦ let (rest, f) = starts_with-rest p s e in (p, rest, ground (arith, str_eq_refl p), f)
  | inr e ↦ let (q, rest, m, f) = any-Continues ps s (ground arith) in (q, rest, ground arith, f)
]

Continues-any : (ps : List Str) (s : Str) → Continues ps s → starts_with_any ps s ≡ true
unfolding starts_with_any mem
Continues-any [] s (p, rest, m, f) = cc
Continues-any (q ∷ ps) s (p, rest, m, f) = elim (Bool-cases (str_eq q p)) [
  | inl e ↦
      let starts : starts_with q s ≡ true =
        subst (λ (x : Str). starts_with q x ≡ true)
          (ap (λ (x : Str). x ++ rest) ((str_eq_iff q p).0 e) ∙ sym f)
          (starts_with-append q rest) in
      ground (arith, starts)
  | inr e ↦ let later = Continues-any ps s (p, rest, ground arith, f) in ground (arith, later)
]

passes :
    (a e : Bool)
    → (if not a && not e then redirect_to_login else handled) ≡ handled
    → (a ≡ true) ⊎ (e ≡ true)
passes true e h = inl refl
passes false true h = inr refl
passes false false h = cc

passes-of :
    (a e : Bool)
    → (a ≡ true) ⊎ (e ≡ true)
    → (if not a && not e then redirect_to_login else handled) ≡ handled
passes-of true e h = refl
passes-of false true h = refl
passes-of false false (inl h) = cc
passes-of false false (inr h) = cc

-- A request reaches the views exactly if its user is logged in or its path goes on from one of the
-- exempt prefixes.
pub login_gate_iff :
    (r : Request)
    → (login_gate r ≡ handled)
      ↔ ((is_authenticated r.user ≡ true) ⊎ Continues exempt_prefixes r.path)
unfolding login_gate is_exempt
login_gate_iff r = (
  (λ h. elim (passes (is_authenticated r.user) (is_exempt r.path) h) [
    | inl known ↦ inl known
    | inr exempt ↦ inr (any-Continues exempt_prefixes r.path exempt)
  ]),
  (λ h.
      passes-of (is_authenticated r.user) (is_exempt r.path) (elim h [
        | inl known ↦ inl known
        | inr on ↦ inr (Continues-any exempt_prefixes r.path on)
      ])),
)
