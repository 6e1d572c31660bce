-- ===== src/Render/Toposort/Runs.antt =====
-- On a recipe that was constructed the sort raises nothing, and its order is a run of Kahn's
-- algorithm by (order, id).
use snap_cook.Common.{
  Str, str_eq_refl, ℕ, suc, length-map, ==_iff, ◌≡◌, refl, sym, ◌∙◌, ap, subst, true, false, List,
  [], ◌∷◌, map, length, arith,
}
use snap_cook.Errors.{ok}
use snap_cook.Dict.{Dict, mem, keys, fetch-some}
use snap_cook.Dict.Laws.{Entries, put_all-Entries, get-Entries, get-of_mem}
use snap_cook.Count.{mem-count}
use snap_cook.Schema.Graph.{Action}
use snap_cook.Schema.Recipe.Acyclic.{distinct-nodes, edges_of, length-nodes, nodes_of}
use snap_cook.Schema.Recipe.{ids, uses_of, produced_states, by_id, validate_graph}
use snap_cook.Schema.Recipe.Linkable.{IsLinkable-weaken}
use snap_cook.Schema.Recipe.Valid.{checks, Checks-IsLinkable, validate_graph_iff}
use snap_cook.Render.Toposort.{order_of, fetch_all, topological_actions}
use snap_cook.Worklist.{Degrees, link, zeros, drain, unlinked}
use snap_cook.Worklist.Containers.{heap, heapify}
use snap_cook.Worklist.Kahn.{kahn_lem}
use snap_cook.Worklist.Laws.{KeyLe, heap_pushes, heap_pops, heapify-IsHeap, count-heapify}
use snap_cook.Worklist.Link.{mem-sources}
use snap_cook.Worklist.Order.{Run-mem}
use snap_cook.Worklist.Rank.{Run-covers_of_rank, Run-length}
use snap_cook.Worklist.Run.{Run}

-- The actions are filed under their own ids.
pub by_id-Entries : (actions : List Action) → Entries (λ k a. a.id ≡ k) (by_id actions)
unfolding by_id
by_id-Entries actions =
    put_all-Entries (λ k a. a.id ≡ k) (map (λ (a : Action). (a.id, a)) actions) [] (own actions) tt
  where
    own : (l : List Action) → Entries (λ k a. a.id ≡ k) (map (λ (a : Action). (a.id, a)) l)
    own [] = tt
    own (a ∷ l) = (refl, own l)

fetch_all_lem :
    (known : Dict Action) (out : List Str)
    → Entries (λ k a. a.id ≡ k) known
    → ((n : Str) → mem n out ≡ true → mem n (keys known) ≡ true)
    → (ordered : List Action) × (fetch_all known out ≡ ok ordered) × (ids ordered ≡ out)
unfolding fetch_all mem
fetch_all_lem known [] own all = ([], refl, refl)
fetch_all_lem known (n ∷ out) own all =
    let (a, found) = get-of_mem known n (all n (ground (arith, str_eq_refl n))) in
    let (ordered, runs, same) = fetch_all_lem known out own (λ m h. all m (ground arith)) in
    (
      a ∷ ordered,
      rw (fetch-some known n a found) (rw runs),
      cc (same, get-Entries (λ k b. b.id ≡ k) known n a own found),
    )

module _ (actions : List Action) where
  abbrev pub Order : Str → Str → Type 0
  Order = KeyLe (order_of (by_id actions))

  pub record Sorted : Type 0 where
    pub ordered : List Action
    pub runs : topological_actions actions ≡ ok ordered
    pub fetched : fetch_all (by_id actions) (ids ordered) ≡ ok ordered
    pub run : Run Order (nodes_of actions) (edges_of actions) [] (ids ordered)
    pub covers : (n : Str) → mem n (nodes_of actions) ≡ true → mem n (ids ordered) ≡ true

  topological-runs :
      (g : Degrees) (out : List Str) (ordered : List Action)
      → link false (produced_states actions) (uses_of actions) (unlinked (nodes_of actions)) ≡ ok g
      → drain
          (heap (order_of (by_id actions)))
          (suc (length (by_id actions)))
          g.dependents
          g.indegree
          (heapify (order_of (by_id actions)) (zeros g.indegree))
        ≡ ok out
      → fetch_all (by_id actions) out ≡ ok ordered
      → length ordered ≡ length (by_id actions)
      → topological_actions actions ≡ ok ordered
  unfolding topological_actions
  topological-runs g out ordered links drains fetches long =
      rw links
        (rw drains (rw fetches (rw ((==_iff (length ordered) (length (by_id actions))).1 long))))

  -- On a recipe that passes validation the sort returns a result. The ids of its steps are those of
  -- its actions, and a greedy run of the graph: each is ready and not yet done, no ready id comes
  -- before it by (order, id), and at the end no ready id is left.
  pub valid-Sorted : validate_graph actions ≡ ok tt → Sorted
  valid-Sorted valid =
      let v = (validate_graph_iff actions).0 valid in
      let linkable = Checks-IsLinkable actions (checks actions valid) in
      let (g, out, links, drains, run) =
        kahn_lem (heap (order_of (by_id actions))) (heap_pushes (order_of (by_id actions)))
          (heap_pops (order_of (by_id actions))) (heapify (order_of (by_id actions)))
          (count-heapify (order_of (by_id actions))) (heapify-IsHeap (order_of (by_id actions)))
          false (produced_states actions) (nodes_of actions) (nodes_of actions) (uses_of actions)
          (λ n. refl)
          (IsLinkable-weaken (nodes_of actions) (produced_states actions) (uses_of actions)
            linkable) in
      let covers =
        Run-covers_of_rank (nodes_of actions) (edges_of actions) v.rank v.acyclic
          (λ u n.
            mem-sources true (produced_states actions) (nodes_of actions) (uses_of actions) u n
              linkable)
          run in
      let (ordered, fetches, same) =
        fetch_all_lem (by_id actions) out (by_id-Entries actions)
          (λ n h. Run-mem n run (mem-count n out h)) in
      let long : length ordered ≡ length (by_id actions) =
        sym (length-map (λ (a : Action). a.id) ordered)
        ∙ ap (λ (l : List Str). length l) same
        ∙ Run-length (nodes_of actions) (edges_of actions) (distinct-nodes actions) run covers
        ∙ length-nodes actions in
      record {
        ordered = ordered;
        runs =
            topological-runs g out ordered links
              (subst
                (λ (k : ℕ).
                  drain (heap (order_of (by_id actions))) (suc k) g.dependents g.indegree
                    (heapify (order_of (by_id actions)) (zeros g.indegree))
                  ≡ ok out)
                (length-nodes actions) drains)
              fetches long;
        fetched = subst (λ l. fetch_all (by_id actions) l ≡ ok ordered) (sym same) fetches;
        run = subst (Run Order (nodes_of actions) (edges_of actions) []) (sym same) run;
        covers = λ n h. rw same (covers n h);
      }
