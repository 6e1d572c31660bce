-- ===== src/Render/Toposort/Stable.antt =====
-- The sort depends on the set of actions, not on the order of the list that holds them.
use mathlib.Core.Path.{fun_ext}
use mathlib.Core.List.{Permᴰ}
use snap_cook.Common.{
  Str, ℕ, ◌+◌, ◌≡◌, refl, sym, ◌∙◌, ap, subst, true, List, [], ◌∷◌, ◌++◌, map, arith,
}
use snap_cook.Common.Int.{ℤ}
use snap_cook.Errors.{ok}
use snap_cook.Dict.{Dict, mem, distinct, get, fetch-congr}
use snap_cook.Dict.Perms.{get-comprehension}
use snap_cook.Dict.Laws.{mem-keys_eq}
use snap_cook.Schema.Graph.{Action}
use snap_cook.Schema.Recipe.Acyclic.{edges_of, nodes_of}
use snap_cook.Schema.Recipe.{ids, uses_of, produced_states, by_id, validate_graph}
use snap_cook.Schema.Recipe.Valid.{validate_graph_iff}
use snap_cook.Render.Toposort.{order_of, fetch_all, topological_actions}
use snap_cook.Render.Toposort.Runs.{Sorted, valid-Sorted}
use snap_cook.Render.Toposort.Lookups.{edges-append}
use snap_cook.Render.Toposort.Steps.{ok-injective}
use snap_cook.Worklist.Edges.{Edges, waits}
use snap_cook.Worklist.Laws.{KeyLe, KeyLe-antisym}
use snap_cook.Worklist.Link.{edges}
use snap_cook.Worklist.Run.{Run}
use snap_cook.Worklist.Unique.{Run-unique}

waits-append :
    (done : List Str) (es fs : Edges) (n : Str)
    → waits done (es ++ fs) n ≡ waits done es n + waits done fs n
unfolding waits
waits-append done [] fs n = omega arith
waits-append done ((u, m) ∷ es) fs n = omega (arith, waits-append done es fs n)

edges-congr :
    (p q : Dict Str) (l : List (Str × Str))
    → ((s : Str) → get p s ≡ get q s)
    → edges p l ≡ edges q l
unfolding edges
edges-congr p q [] same = refl
edges-congr p q ((s, aid) ∷ l) same = ground (arith, same s, edges-congr p q l same)

fetch_all-congr :
    (d e : Dict Action) (l : List Str)
    → ((n : Str) → get d n ≡ get e n)
    → fetch_all d l ≡ fetch_all e l
unfolding fetch_all
fetch_all-congr d e [] same = refl
fetch_all-congr d e (n ∷ l) same = rw (fetch_all-congr d e l same) (rw (fetch-congr d e n (same n)))

module _ (producer : Dict Str) (done : List Str) (n : Str) where
  abbrev waiting : List Action → ℕ
  waiting l = waits done (edges producer (uses_of l)) n

  abbrev own_waits : Action → ℕ
  own_waits a = waits done (edges producer (map (λ (u : Str). (u, a.id)) a.uses)) n

  waiting-cons : (a : Action) (l : List Action) → waiting (a ∷ l) ≡ own_waits a + waiting l
  unfolding uses_of
  waiting-cons a l = rw (edges-append producer (map (λ (u : Str). (u, a.id)) a.uses) (uses_of l)) (
      waits-append done (edges producer (map (λ (u : Str). (u, a.id)) a.uses))
        (edges producer (uses_of l)) n)

  waiting-perm : {l m : List Action} → Permᴰ l m → waiting l ≡ waiting m
  waiting-perm Permᴰ.nil = refl
  waiting-perm (Permᴰ.cons {a = a} {b} {l₁} {l₂} e p) =
      omega (arith, waiting-cons a l₁, waiting-cons b l₂, waiting-perm p, ap own_waits e)
  waiting-perm (Permᴰ.swap {a = a} {b} {a' = a'} {b' = b'} {l = l} e f) = omega (
    arith,
    waiting-cons a (b ∷ l),
    waiting-cons b l,
    waiting-cons a' (b' ∷ l),
    waiting-cons b' l,
    ap own_waits e,
    ap own_waits f,
  )
  waiting-perm (Permᴰ.trans p q) = waiting-perm p ∙ waiting-perm q

module _ (actions actions' : List Action) (p : Permᴰ actions actions')
    (valid : validate_graph actions ≡ ok tt) (valid' : validate_graph actions' ≡ ok tt)
    (once : distinct (ids actions) ≡ true) (once' : distinct (ids actions') ≡ true) where
  same_by_id : (n : Str) → get (by_id actions) n ≡ get (by_id actions') n
  unfolding by_id
  same_by_id n = get-comprehension (λ (a : Action). a.id) (λ (a : Action). a) n p once once'

  same_producer : (s : Str) → get (produced_states actions) s ≡ get (produced_states actions') s
  unfolding produced_states
  same_producer s =
      get-comprehension (λ (a : Action). a.produces.id) (λ (a : Action). a.id) s p
        ((validate_graph_iff actions).0 valid).single_writer
        ((validate_graph_iff actions').0 valid').single_writer

  same_order : order_of (by_id actions) ≡ order_of (by_id actions')
  unfolding order_of
  same_order = fun_ext (λ n. ground (arith, same_by_id n))

  same_nodes : (n : Str) → mem n (nodes_of actions) ≡ mem n (nodes_of actions')
  same_nodes n = mem-keys_eq (by_id actions) (by_id actions') n (same_by_id n)

  same_waits :
      (done : List Str) (n : Str)
      → waits done (edges_of actions) n ≡ waits done (edges_of actions') n
  same_waits done n =
      waiting-perm (produced_states actions) done n p
      ∙ ap (λ (es : Edges). waits done es n)
          (edges-congr (produced_states actions) (produced_states actions') (uses_of actions')
            same_producer)

  same_ordered : (s : Sorted actions) (s' : Sorted actions') → s.ordered ≡ s'.ordered
  same_ordered s s' =
      let same_ids : ids s.ordered ≡ ids s'.ordered =
        Run-unique (KeyLe-antisym (order_of (by_id actions))) same_nodes same_waits s.run (
          subst
            (λ (f : Str → ℤ).
              Run (KeyLe f) (nodes_of actions') (edges_of actions') [] (ids s'.ordered))
            (sym same_order) s'.run) in
      ok-injective (
        sym s.fetched
        ∙ fetch_all-congr (by_id actions) (by_id actions') (ids s.ordered) same_by_id
        ∙ ap (fetch_all (by_id actions')) same_ids
        ∙ s'.fetched)

-- Two recipes with the same actions in another order, both valid and with different action ids,
-- are sorted into the same list of actions.
pub topological_actions-stable :
    (actions actions' : List Action)
    → Permᴰ actions actions'
    → validate_graph actions ≡ ok tt
    → validate_graph actions' ≡ ok tt
    → distinct (ids actions) ≡ true
    → distinct (ids actions') ≡ true
    → (ordered : List Action) × (topological_actions actions ≡ ok ordered)
      × (topological_actions actions' ≡ ok ordered)
topological_actions-stable actions actions' p valid valid' once once' =
    let s = valid-Sorted actions valid in
    let s' = valid-Sorted actions' valid' in
    (
      s.ordered,
      s.runs,
      s'.runs ∙ ap ok (sym (same_ordered actions actions' p valid valid' once once' s s')),
    )
