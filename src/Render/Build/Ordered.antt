-- ===== src/Render/Build/Ordered.antt =====
-- What the steps in their order keep of the actions of the recipe.
use mathlib.Core.List.{Permᴰ}
use mathlib.Core.Path.{ap₂}
use snap_cook.Common.{
  Str, str_eq, ◌≡◌, refl, sym, ◌∙◌, subst, Bool, true, ◌||◌, List, [], ◌∷◌, ◌++◌, map, arith,
}
use snap_cook.Dict.{mem}
use snap_cook.Schema.Graph.{Action}
use snap_cook.Schema.Recipe.{outputs, uses_of, consumed, validate_graph}
use snap_cook.Schema.Recipe.Valid.{validate_graph_iff}
use snap_cook.Render.Toposort.Lookups.{AllActions}
use snap_cook.Errors.{ok}

pub AllActions-perm :
    (P : Action → Type 0) {l m : List Action} → Permᴰ l m → AllActions P m → AllActions P l
AllActions-perm P Permᴰ.nil h = tt
AllActions-perm P (Permᴰ.cons e p) h = (subst P (sym e) h.0, AllActions-perm P p h.1)
AllActions-perm P (Permᴰ.swap e f) h = (subst P (sym e) h.1.0, (subst P (sym f) h.0, h.1.1))
AllActions-perm P (Permᴰ.trans p q) h = AllActions-perm P p (AllActions-perm P q h)

or_swap : (a b c : Bool) → (a || (b || c)) ≡ (b || (a || c))
or_swap a b c = ground arith

pub mem-outputs : (k : Str) {l m : List Action} → Permᴰ l m → mem k (outputs l) ≡ mem k (outputs m)
unfolding mem
mem-outputs k Permᴰ.nil = refl
mem-outputs k (Permᴰ.cons {a = a} {b} e p) =
    ap₂ (λ (x : Action) (r : Bool). str_eq x.produces.id k || r) e (mem-outputs k p)
mem-outputs k (Permᴰ.swap {a = a} {b} {a' = a'} {b' = b'} {l = l} e f) =
    ap₂ (λ (x y : Action). str_eq x.produces.id k || (str_eq y.produces.id k || mem k (outputs l)))
      e f
    ∙ or_swap (str_eq b'.produces.id k) (str_eq a'.produces.id k) (mem k (outputs l))
mem-outputs k (Permᴰ.trans p q) = mem-outputs k p ∙ mem-outputs k q

first_uses :
    (k aid : Str) (used : List Str) (rest : List (Str × Str))
    → mem k (map (λ (p : Str × Str). p.0) (map (λ (u : Str). (u, aid)) used ++ rest))
      ≡ (mem k used || mem k (map (λ (p : Str × Str). p.0) rest))
unfolding mem
first_uses k aid [] rest = refl
first_uses k aid (u ∷ used) rest = ground (arith, first_uses k aid used rest)

each_use :
    (P : Str → Type 0) (l : List Action)
    → ((k : Str) → mem k (consumed l) ≡ true → P k)
    → AllActions (λ a. (k : Str) → mem k a.uses ≡ true → P k) l
unfolding uses_of
each_use P [] h = tt
each_use P (a ∷ l) h = (
  (λ k u. h k (ground (arith, first_uses k a.id a.uses (uses_of l), u))),
  each_use P l (λ k u. h k (ground (arith, first_uses k a.id a.uses (uses_of l), u))),
)

-- In the steps of a valid recipe every state that is used is an output.
pub uses-made :
    (actions ordered : List Action)
    → validate_graph actions ≡ ok tt
    → Permᴰ ordered actions
    → AllActions (λ a. (k : Str) → mem k a.uses ≡ true → mem k (outputs ordered) ≡ true) ordered
uses-made actions ordered valid p = AllActions-perm _ p (
    each_use (λ k. mem k (outputs ordered) ≡ true) actions
      (λ k h. mem-outputs k p ∙ ((validate_graph_iff actions).0 valid).no_dangling k h))
