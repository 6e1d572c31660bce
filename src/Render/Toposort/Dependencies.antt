-- ===== src/Render/Toposort/Dependencies.antt =====
-- Every step comes after those whose states it uses.
use mathlib.Core.List.{map-append}
use snap_cook.Common.{
  Str, str_eq, str_eq_iff, str_eq_refl, ◌≡◌, refl, ◌∙◌, ap, subst, true, some, List, [], ◌∷◌, ◌++◌,
  map, arith, Bool-cases, inl, inr,
}
use snap_cook.Errors.{ok}
use snap_cook.Dict.{Dict, mem, distinct, get, fetch, put_all}
use snap_cook.Dict.Laws.{Entries, put_all-Entries, get-Entries, get-of_mem}
use snap_cook.Count.{count, count-append, mem-nil, mem-append}
use snap_cook.Schema.Graph.{Action}
use snap_cook.Schema.Recipe.Acyclic.{edges_of}
use snap_cook.Schema.Recipe.{ids, uses_of, produced_states, by_id, validate_graph}
use snap_cook.Schema.Recipe.Linkable.{mem-keys_produced}
use snap_cook.Schema.Recipe.Valid.{IsRecipeGraph, validate_graph_iff}
use snap_cook.Render.Toposort.{fetch_all, topological_actions}
use snap_cook.Render.Toposort.Runs.{valid-Sorted}
use snap_cook.Render.Toposort.Lookups.{AllActions, produced-by, edges-append}
use snap_cook.Render.Toposort.Steps.{fetched-cons}
use snap_cook.Worklist.Edges.{Edges, waits, targets}
use snap_cook.Worklist.Link.{edges}
use snap_cook.Worklist.Order.{IsTopological, Run-IsTopological}
use snap_cook.Worklist.Rank.{IsEdge, source_done}

-- With the states of `made` there, each step finds the states that it uses.
abbrev pub IsCookable : List Str → List Action → Type 0
IsCookable made [] = Unit
IsCookable made (a ∷ rest) =
    ((s : Str) → mem s a.uses ≡ true → mem s made ≡ true) × IsCookable (a.produces.id ∷ made) rest

targets-append : (x : Str) (es fs : Edges) → targets x (es ++ fs) ≡ targets x es ++ targets x fs
unfolding targets
targets-append x [] fs = refl
targets-append x ((u, m) ∷ es) fs = ground (arith, targets-append x es fs)

module _ (producer : Dict Str) where
  IsEdge-more :
      (l m : List (Str × Str)) (u n : Str)
      → IsEdge (edges producer m) u n
      → IsEdge (edges producer (l ++ m)) u n
  IsEdge-more l m u n h = rw (edges-append producer l m) (
      rw (targets-append u (edges producer l) (edges producer m)) (
        omega
          (arith, count-append n (targets u (edges producer l)) (targets u (edges producer m)))))

  -- A use of a produced state is an edge, and a state that is used is consumed.
  abbrev Uses : List (Str × Str) → Action → Type 0
  Uses pairs a =
      (s : Str)
      → mem s a.uses ≡ true
      → (mem s (map (λ (p : Str × Str). p.0) pairs) ≡ true)
        × ((u : Str) → get producer s ≡ some u → IsEdge (edges producer pairs) u a.id)

  Uses-more : (l m : List (Str × Str)) (a : Action) → Uses m a → Uses (l ++ m) a
  Uses-more l m a h s used = (
    rw map-append (
        mem-append s (map (λ (p : Str × Str). p.0) l) (map (λ (p : Str × Str). p.0) m)
        ∙ ground (arith, (h s used).0)),
    λ u made. IsEdge-more l m u a.id ((h s used).1 u made),
  )

  abbrev pairs_of : Str → List Str → List (Str × Str)
  pairs_of aid uses = map (λ (u : Str). (u, aid)) uses

  mem-own :
      (aid : Str) (uses : List Str) (m : List (Str × Str)) (s : Str)
      → mem s uses ≡ true
      → mem s (map (λ (p : Str × Str). p.0) (pairs_of aid uses ++ m)) ≡ true
  unfolding mem
  mem-own aid [] m s used = cc
  mem-own aid (v ∷ uses) m s used = ground (arith, mem-own aid uses m s)

  IsEdge-own :
      (aid : Str) (uses : List Str) (m : List (Str × Str)) (s u : Str)
      → mem s uses ≡ true
      → get producer s ≡ some u
      → IsEdge (edges producer (pairs_of aid uses ++ m)) u aid
  unfolding mem edges targets count
  IsEdge-own aid [] m s u used made = cc
  IsEdge-own aid (v ∷ uses) m s u used made = elim (Bool-cases (str_eq v s)) [
    | inl e ↦ ground (
      arith,
      made,
      ap (λ (k : Str). get producer k) ((str_eq_iff v s).0 e),
      str_eq_refl u,
      str_eq_refl aid,
    )
    | inr e ↦ ground (arith, IsEdge-own aid uses m s u (ground arith) made)
  ]

  -- So it is for each action.
  AllActions-Uses : (l : List Action) → AllActions (Uses (uses_of l)) l
  unfolding uses_of
  AllActions-Uses [] = tt
  AllActions-Uses (a ∷ l) = (
    λ s used. (
      mem-own a.id a.uses (uses_of l) s used,
      λ u made. IsEdge-own a.id a.uses (uses_of l) s u used made,
    ),
    rest l (AllActions-Uses l),
  )
    where
      rest :
          (k : List Action)
          → AllActions (Uses (uses_of l)) k
          → AllActions (Uses (pairs_of a.id a.uses ++ uses_of l)) k
      rest [] h = tt
      rest (b ∷ k) h = (Uses-more (pairs_of a.id a.uses) (uses_of l) b h.0, rest k h.1)

module _ (actions : List Action) (valid : IsRecipeGraph actions)
    (once : distinct (ids actions) ≡ true) where
  -- The same of the actions that the sort looks up.
  found-Uses :
      (n : Str) (a : Action)
      → get (by_id actions) n ≡ some a
      → Uses (produced_states actions) (uses_of actions) a
  unfolding by_id
  found-Uses n a h =
      get-Entries P (put_all (pairs actions) []) n a
        (put_all-Entries P (pairs actions) []
          (own actions (AllActions-Uses (produced_states actions) actions)) tt)
        h
    where
      P : Str → Action → Type 0
      P k b = Uses (produced_states actions) (uses_of actions) b

      pairs : List Action → List (Str × Action)
      pairs l = map (λ (b : Action). (b.id, b)) l

      own :
          (l : List Action)
          → AllActions (Uses (produced_states actions) (uses_of actions)) l
          → Entries P (pairs l)
      own [] h = tt
      own (b ∷ l) h = (h.0, own l h.1)

  -- The states of the actions that are done.
  abbrev HasOutputs : List Str → List Str → Type 0
  HasOutputs done made =
      (u : Str) (b : Action)
      → mem u done ≡ true
      → get (by_id actions) u ≡ some b
      → mem b.produces.id made ≡ true

  uses_made :
      (done made : List Str) (a : Action)
      → get (by_id actions) a.id ≡ some a
      → waits done (edges_of actions) a.id ≡ 0
      → HasOutputs done made
      → (s : Str) → mem s a.uses ≡ true
      → mem s made ≡ true
  uses_made done made a found free outs s used =
      let (consumes, edge) = found-Uses a.id a found s used in
      let (u, produced) =
        get-of_mem (produced_states actions) s
          (mem-keys_produced actions s ∙ valid.no_dangling s consumes) in
      let (b, b_found, writes) = produced-by actions s u once produced in
      subst (λ (k : Str). mem k made ≡ true) writes
        (outs u b (source_done done (edges_of actions) u a.id free (edge u produced)) b_found)

  HasOutputs-cons :
      (done made : List Str) (a : Action)
      → get (by_id actions) a.id ≡ some a
      → HasOutputs done made
      → HasOutputs (a.id ∷ done) (a.produces.id ∷ made)
  unfolding mem
  HasOutputs-cons done made a found outs u b is_done b_found = elim (Bool-cases (str_eq a.id u)) [
    | inl e ↦
        let same : a ≡ b =
          cc (found, ap (λ (k : Str). get (by_id actions) k) ((str_eq_iff a.id u).0 e), b_found) in
        subst (λ (c : Action). mem c.produces.id (a.produces.id ∷ made) ≡ true) same
          (rw str_eq_refl)
    | inr e ↦ ground (arith, outs u b)
  ]

  fetched-get :
      (n : Str) (a : Action) → fetch (by_id actions) n ≡ ok a → get (by_id actions) n ≡ some a
  unfolding fetch
  fetched-get n a h = ground arith

  -- The ids under which actions are fetched are their own.
  fetched-IsCookable :
      (done made : List Str) (ordered : List Action)
      → fetch_all (by_id actions) (ids ordered) ≡ ok ordered
      → IsTopological (edges_of actions) done (ids ordered)
      → HasOutputs done made
      → IsCookable made ordered
  fetched-IsCookable done made [] fetched top outs = tt
  fetched-IsCookable done made (a ∷ rest) fetched top outs =
      let (x, xs, x_found, xs_fetched, same) =
        fetched-cons (by_id actions) a.id (ids rest) (a ∷ rest) fetched in
      let head : x ≡ a = cc same in
      let tail : xs ≡ rest = cc same in
      let found : get (by_id actions) a.id ≡ some a =
        fetched-get a.id a
          (subst (λ (y : Action). fetch (by_id actions) a.id ≡ ok y) head x_found) in
      (
        uses_made done made a found top.0 outs,
        fetched-IsCookable (a.id ∷ done) (a.produces.id ∷ made) rest
            (subst (λ (l : List Action). fetch_all (by_id actions) (ids rest) ≡ ok l) tail
              xs_fetched)
            top.1 (HasOutputs-cons done made a found outs),
      )

-- On a recipe that passes validation and has different action ids the sort returns a result, and in it each action stands
-- behind the actions that produce the states it uses.
pub topological_actions-IsCookable :
    (actions : List Action)
    → validate_graph actions ≡ ok tt
    → distinct (ids actions) ≡ true
    → (ordered : List Action) × (topological_actions actions ≡ ok ordered) × IsCookable [] ordered
topological_actions-IsCookable actions valid once =
    let s = valid-Sorted actions valid in
    (
      s.ordered,
      s.runs,
      fetched-IsCookable actions ((validate_graph_iff actions).0 valid) once [] [] s.ordered
          s.fetched (Run-IsTopological s.run) (λ u b h. cc (mem-nil u)),
    )
