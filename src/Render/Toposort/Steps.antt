-- ===== src/Render/Toposort/Steps.antt =====
-- The sorted actions are those of the recipe, each once, and every step comes after those whose
-- states it uses.
use mathlib.Core.List.{Perm, Permᴰ}
use mathlib.Core.List.Permᴰ
use snap_cook.Common.{
  Str, ◌≡◌, refl, sym, ◌∙◌, ap, subst, true, List, ◌∷◌, arith, Bool-cases, inl, inr,
}
use snap_cook.Errors.{ok, >>=-eq-ok}
use snap_cook.Dict.{Dict, mem, distinct, fetch}
use snap_cook.Count.{count, mem-count, not_mem-count, distinct-count}
use snap_cook.Count.Perms.{perm_of_count}
use snap_cook.Schema.Graph.{Action}
use snap_cook.Schema.Recipe.Acyclic.{ids-known}
use snap_cook.Schema.Recipe.{ids, by_id, validate_graph}
use snap_cook.Schema.Recipe.Linkable.{mem-keys-by_id}
use snap_cook.Render.Toposort.{fetch_all, topological_actions}
use snap_cook.Render.Toposort.Runs.{Sorted, valid-Sorted}
use snap_cook.Render.Toposort.Lookups.{fetch_all-ids}
use snap_cook.Worklist.Order.{Run-count, Run-mem}

module _ (known : Dict Action) where
  pub fetched-cons :
      (n : Str) (l : List Str) (xs : List Action)
      → fetch_all known (n ∷ l) ≡ ok xs
      → (x : Action) × (rest : List Action) × (fetch known n ≡ ok x)
        × (fetch_all known l ≡ ok rest)
        × (x ∷ rest ≡ xs)
  unfolding fetch_all
  fetched-cons n l xs h =
      let (x, found, h1) = >>=-eq-ok (fetch known n) _ h in
      let (rest, later, h2) = >>=-eq-ok (fetch_all known l) _ h1 in
      (x, rest, found, later, ground (arith, h2))

  cons-fetched :
      (n : Str) (l : List Str) (x : Action) (rest : List Action)
      → fetch known n ≡ ok x
      → fetch_all known l ≡ ok rest
      → fetch_all known (n ∷ l) ≡ ok (x ∷ rest)
  unfolding fetch_all
  cons-fetched n l x rest h k = rw h (rw k)

  -- Fetching the ids in another order fetches the same actions in another order.
  fetch_all-perm :
      {l m : List Str}
      → Permᴰ l m
      → (xs : List Action) → fetch_all known l ≡ ok xs
      → (ys : List Action) × (fetch_all known m ≡ ok ys) × Permᴰ xs ys
  fetch_all-perm Permᴰ.nil xs h = (xs, h, Permᴰ.refl xs)
  fetch_all-perm (Permᴰ.cons {a = a} {b} {l₁} {l₂} e p) xs h =
      let (x, rest, found, later, same) = fetched-cons a l₁ xs h in
      let (ys, ys_fetched, rest_perm) = fetch_all-perm p rest later in
      (
        x ∷ ys,
        cons-fetched b l₂ x ys (rw e at found) ys_fetched,
        subst (λ zs. Permᴰ zs (x ∷ ys)) same (Permᴰ.cons refl rest_perm),
      )
  fetch_all-perm (Permᴰ.swap {a = a} {b} {a' = a'} {b' = b'} {l = l} e f) xs h =
      let (x, rest, found, later, same) = fetched-cons a (b ∷ l) xs h in
      let (y, rest', found', later', same') = fetched-cons b l rest later in
      (
        y ∷ x ∷ rest',
        cons-fetched a' (b' ∷ l) y (x ∷ rest') (rw f at found')
            (cons-fetched b' l x rest' (rw e at found) later'),
        subst (λ zs. Permᴰ zs (y ∷ x ∷ rest')) (ap (λ zs. x ∷ zs) same' ∙ same)
            (Permᴰ.swap refl refl),
      )
  fetch_all-perm (Permᴰ.trans p q) xs h =
      let (ys, ys_fetched, first) = fetch_all-perm p xs h in
      let (zs, zs_fetched, second) = fetch_all-perm q ys ys_fetched in
      (zs, zs_fetched, Permᴰ.trans first second)

pub ok-injective : {A : Type 0} {a b : A} → ok a ≡ ok b → a ≡ b
ok-injective h = cc

module _ (actions : List Action) (once : distinct (ids actions) ≡ true) (s : Sorted actions) where
  count-ids : (n : Str) → count n (ids s.ordered) ≡ count n (ids actions)
  unfolding count
  count-ids n = elim (Bool-cases (mem n (ids actions))) [
    | inl e ↦
        let known = ids-known actions n e in
        omega (
          arith,
          Run-count n s.run (omega arith),
          mem-count n (ids s.ordered) (s.covers n known),
          mem-count n (ids actions) e,
          distinct-count n (ids actions) once,
        )
    | inr e ↦ elim (Bool-cases (mem n (ids s.ordered))) [
      | inl m ↦ cc (Run-mem n s.run (mem-count n (ids s.ordered) m), mem-keys-by_id actions n)
      | inr m ↦ omega (arith, not_mem-count n (ids actions) e, not_mem-count n (ids s.ordered) m)
    ]
  ]

  pub ordered-steps : Permᴰ s.ordered actions
  ordered-steps =
      let (ys, fetched, p) =
        fetch_all-perm (by_id actions) (perm_of_count (ids s.ordered) (ids actions) count-ids)
          s.ordered s.fetched in
      let same : ys ≡ actions = ok-injective (sym fetched ∙ fetch_all-ids actions once) in
      subst (λ (l : List Action). Permᴰ s.ordered l) same p

  ordered-perm : Perm s.ordered actions
  ordered-perm = ∣ ordered-steps ∣₁

-- On a recipe that passes validation and has different action ids the sort returns the actions of the recipe, each once.
pub topological_actions-perm :
    (actions ordered : List Action)
    → validate_graph actions ≡ ok tt
    → distinct (ids actions) ≡ true
    → topological_actions actions ≡ ok ordered
    → Perm ordered actions
topological_actions-perm actions ordered valid once h =
    let s = valid-Sorted actions valid in
    let same : s.ordered ≡ ordered = ok-injective (sym s.runs ∙ h) in
    subst (λ (l : List Action). Perm l actions) same (ordered-perm actions once s)
