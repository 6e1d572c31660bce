-- ===== src/Schema/Graph/References.antt =====
-- The check of an action's references, against what its prose needs to be rendered.
use snap_cook.Common.{
  Str, ℕ, zero, suc, ◌≡◌, ◌↔◌, refl, sym, ◌∙◌, subst, Bool, true, false, not, Option, none, some,
  List, [], ◌∷◌, map, length, get_elem?, arith,
}
use snap_cook.Common.Int.{ℤ, pos, negsuc}
use snap_cook.Errors.{ok, raise_if-eq-ok, dangling_reference}
use snap_cook.Dict.{mem, distinct}
use snap_cook.Schema.Ingredient.{IngredientUse, CookwareUse}
use snap_cook.Schema.Graph.{
  Action, Timer, Temperature, TextChunk, TextTemplate, in_range, chunk_resolves, check_chunks,
  check_text, internal_references_resolve,
}

abbrev pub ingredient_ids : Action → List Str
ingredient_ids a = map (λ (u : IngredientUse). u.id) a.ingredients

abbrev pub cookware_ids : Action → List Str
cookware_ids a = map (λ (u : CookwareUse). u.id) a.cookware

-- A slot of the prose finds what it refers to; an index is a place in the list.
abbrev pub Resolves : Action → TextChunk → Type 0
Resolves a (TextChunk.text t) = Unit
Resolves a (TextChunk.ingredient ref) = mem ref (ingredient_ids a) ≡ true
Resolves a (TextChunk.cookware ref) = mem ref (cookware_ids a) ≡ true
Resolves a (TextChunk.state ref) = mem ref a.uses ≡ true
Resolves a (TextChunk.timer i) =
    (n : ℕ) × (t : Timer) × (i ≡ pos n) × (get_elem? a.timers n ≡ some t)
Resolves a (TextChunk.temperature i) =
    (n : ℕ) × (t : Temperature) × (i ≡ pos n) × (get_elem? a.temperatures n ≡ some t)

abbrev pub AllResolve : Action → List TextChunk → Type 0
AllResolve a [] = Unit
AllResolve a (c ∷ cs) = Resolves a c × AllResolve a cs

abbrev pub chunks_of : Option TextTemplate → List TextChunk
chunks_of none = []
chunks_of (some t) = t.chunks

place-of_in_range :
    {A : Type 0} (l : List A) (i : ℤ)
    → in_range i (length l) ≡ true
    → (n : ℕ) × (x : A) × (i ≡ pos n) × (get_elem? l n ≡ some x)
unfolding in_range
place-of_in_range l (negsuc n) h = ground arith
place-of_in_range [] (pos n) h = ground arith
place-of_in_range (x ∷ l) (pos zero) h = (0, x, refl, refl)
place-of_in_range (x ∷ l) (pos (suc n)) h =
    let (m, y, e, f) = place-of_in_range l (pos n) (ground arith) in
    (suc m, y, ground (arith, e), f)

in_range-of_place :
    {A : Type 0} (l : List A) (n : ℕ) (x : A)
    → get_elem? l n ≡ some x
    → in_range (pos n) (length l) ≡ true
unfolding in_range
in_range-of_place [] n x h = cc h
in_range-of_place (y ∷ l) zero x h = ground arith
in_range-of_place (y ∷ l) (suc n) x h = ground (arith, in_range-of_place l n x h)

Resolves-iff : (a : Action) (c : TextChunk) → (chunk_resolves a c ≡ true) ↔ Resolves a c
unfolding chunk_resolves
Resolves-iff a (TextChunk.text t) = ((λ h. tt), (λ h. refl))
Resolves-iff a (TextChunk.ingredient ref) = ((λ h. h), (λ h. h))
Resolves-iff a (TextChunk.cookware ref) = ((λ h. h), (λ h. h))
Resolves-iff a (TextChunk.state ref) = ((λ h. h), (λ h. h))
Resolves-iff a (TextChunk.timer i) = (
  place-of_in_range a.timers i,
  λ (n, t, e, f).
      subst (λ (j : ℤ). in_range j (length a.timers) ≡ true) (sym e)
        (in_range-of_place a.timers n t f),
)
Resolves-iff a (TextChunk.temperature i) = (
  place-of_in_range a.temperatures i,
  λ (n, t, e, f).
      subst (λ (j : ℤ). in_range j (length a.temperatures) ≡ true) (sym e)
        (in_range-of_place a.temperatures n t f),
)

not_negated : (c : Bool) → not c ≡ false → c ≡ true
not_negated c h = ground arith

check_chunks_iff :
    (a : Action) (cs : List TextChunk) → (check_chunks a cs ≡ ok tt) ↔ AllResolve a cs
unfolding check_chunks
check_chunks_iff a [] = ((λ h. tt), (λ h. refl))
check_chunks_iff a (c ∷ cs) = (
  (λ h.
      let (passes, rest) =
        raise_if-eq-ok (not (chunk_resolves a c)) dangling_reference (check_chunks a cs) h in
      (
        (Resolves-iff a c).0 (not_negated (chunk_resolves a c) passes),
        (check_chunks_iff a cs).0 rest,
      )),
  (λ h. rw ((Resolves-iff a c).1 h.0) ((check_chunks_iff a cs).1 h.1)),
)

check_text_lem :
    (a : Action) (o : Option TextTemplate) → check_text a o ≡ check_chunks a (chunks_of o)
unfolding check_text check_chunks
check_text_lem a none = refl
check_text_lem a (some t) = refl

-- An action is accepted exactly if its ingredients have different ids, its cookware has different
-- ids, and every slot of its prose finds what it refers to: an ingredient or a piece of cookware
-- of the action, a state that it uses, or the timer or temperature at the index.
pub internal_references_resolve_iff :
    (a : Action)
    → (internal_references_resolve a ≡ ok tt) ↔ (
        (distinct (ingredient_ids a) ≡ true)
        × (distinct (cookware_ids a) ≡ true)
        × AllResolve a (chunks_of a.text))
unfolding internal_references_resolve check_text
internal_references_resolve_iff a = (
  (λ h.
      let (p, h1) = raise_if-eq-ok (not (distinct (ingredient_ids a))) dangling_reference _ h in
      let (q, h2) = raise_if-eq-ok (not (distinct (cookware_ids a))) dangling_reference _ h1 in
      (
        not_negated (distinct (ingredient_ids a)) p,
        not_negated (distinct (cookware_ids a)) q,
        (check_chunks_iff a (chunks_of a.text)).0 (sym (check_text_lem a a.text) ∙ h2),
      )),
  (λ (p, q, r).
      rw p (rw q (check_text_lem a a.text ∙ (check_chunks_iff a (chunks_of a.text)).1 r))),
)
