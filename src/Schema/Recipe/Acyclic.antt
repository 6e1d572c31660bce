-- ===== src/Schema/Recipe/Acyclic.antt =====
-- `Recipe._assert_acyclic` passes exactly if the graph of the actions has a rank.
use snap_cook.Common.{
  Str, ℕ, suc, ◌==◌, ◌≡◌, refl, sym, ◌∙◌, true, false, not, List, [], map, length, length-map,
  arith, subst,
}
use snap_cook.Errors.{ok, raise_if, cyclic_graph}
use snap_cook.Dict.{mem, distinct, keys}
use snap_cook.Dict.Laws.{distinct-put_all}
use snap_cook.Schema.Graph.{Action}
use snap_cook.Schema.Recipe.{ids, uses_of, produced_states, by_id, assert_acyclic}
use snap_cook.Schema.Recipe.Linkable.{
  AllProduced, produced_states-Entries, uses_of-AllKnown, mem-keys-by_id, AllProduced-IsLinkable,
}
use snap_cook.Worklist.{zeros, drain}
use snap_cook.Worklist.Containers.{stack}
use snap_cook.Worklist.Edges.{Edges}
use snap_cook.Worklist.Kahn.{kahn_lem}
use snap_cook.Worklist.Laws.{NoOrder, Any, stack_pushes, stack_pops}
use snap_cook.Worklist.Link.{edges, IsLinkable, mem-targets, mem-sources}
use snap_cook.Worklist.Order.{Run-IsTopological}
use snap_cook.Worklist.Run.{Run}
use snap_cook.Worklist.Rank.{
  IsRanked, Run-covers, Run-covers_of_rank, Run-length, place, place-IsRanked,
}

-- The ids of the actions, each once.
abbrev pub nodes_of : List Action → List Str
nodes_of actions = keys (by_id actions)

-- The edges: from the producer of a state to each action that uses it.
abbrev pub edges_of : List Action → Edges
edges_of actions = edges (produced_states actions) (uses_of actions)

same_length-of_ok : (a b : ℕ) → raise_if (not (a == b)) cyclic_graph ≡ ok tt → a ≡ b
same_length-of_ok a b h = ground arith

same_length-ok : (a b : ℕ) → a ≡ b → raise_if (not (a == b)) cyclic_graph ≡ ok tt
same_length-ok a b h = ground arith

module _ (actions : List Action) where
  pub distinct-nodes : distinct (nodes_of actions) ≡ true
  unfolding by_id distinct
  distinct-nodes = distinct-put_all (map (λ (a : Action). (a.id, a)) actions) [] refl

  pub ids-known : (n : Str) → mem n (ids actions) ≡ true → mem n (nodes_of actions) ≡ true
  ids-known n h = mem-keys-by_id actions n ∙ h

  pub length-nodes : length (nodes_of actions) ≡ length (by_id actions)
  length-nodes = length-map (λ e. e.0) (by_id actions)

  pub produced-IsLinkable :
      AllProduced (produced_states actions) (uses_of actions)
      → IsLinkable false (produced_states actions) (nodes_of actions) (uses_of actions)
  produced-IsLinkable produced =
      AllProduced-IsLinkable (nodes_of actions) (produced_states actions) (uses_of actions)
        (produced_states-Entries (nodes_of actions) actions ids-known)
        (uses_of-AllKnown (nodes_of actions) actions ids-known) produced

  -- What `_assert_acyclic` computes on a graph with no dangling and no self reference.
  assert_acyclic-runs :
      IsLinkable true (produced_states actions) (nodes_of actions) (uses_of actions)
      → (out : List Str) × (assert_acyclic actions (produced_states actions)
          ≡ raise_if (not (length out == length (by_id actions))) cyclic_graph)
        × Run NoOrder (nodes_of actions) (edges_of actions) [] out
  unfolding assert_acyclic
  assert_acyclic-runs linkable =
      let (g, out, links, runs, run) =
        kahn_lem stack {Keeps = Any} {Before = NoOrder} stack_pushes stack_pops (λ l. l)
          (λ n l. refl) (λ l. tt) true (produced_states actions) (ids actions) (nodes_of actions)
          (uses_of actions) (λ n. sym (mem-keys-by_id actions n)) linkable in
      (
        out,
        rw links (
            rw (
              subst
                (λ (k : ℕ). drain stack (suc k) g.dependents g.indegree (zeros g.indegree) ≡ ok out)
                length-nodes runs)),
        run,
      )

  -- A graph that passes has a rank, and one that has a rank passes.
  pub assert_acyclic-rank :
      IsLinkable true (produced_states actions) (nodes_of actions) (uses_of actions)
      → assert_acyclic actions (produced_states actions) ≡ ok tt
      → (rank : Str → ℕ) × IsRanked rank (edges_of actions)
  assert_acyclic-rank linkable passes =
      let (out, e, run) = assert_acyclic-runs linkable in
      let same : length out ≡ length (by_id actions) =
        same_length-of_ok (length out) (length (by_id actions)) (sym e ∙ passes) in
      (
        (λ n. place n out),
        place-IsRanked (nodes_of actions) (edges_of actions) out (Run-IsTopological run)
            (λ u n.
              mem-targets true (produced_states actions) (nodes_of actions) (uses_of actions) u n
                linkable)
            (Run-covers (nodes_of actions) (edges_of actions) run
              (omega (arith, length-nodes, same))),
      )

  pub rank-assert_acyclic :
      (rank : Str → ℕ)
      → IsRanked rank (edges_of actions)
      → IsLinkable true (produced_states actions) (nodes_of actions) (uses_of actions)
      → assert_acyclic actions (produced_states actions) ≡ ok tt
  rank-assert_acyclic rank ranked linkable =
      let (out, e, run) = assert_acyclic-runs linkable in
      let all =
        Run-covers_of_rank (nodes_of actions) (edges_of actions) rank ranked
          (λ u n.
            mem-sources true (produced_states actions) (nodes_of actions) (uses_of actions) u n
              linkable)
          run in
      e
      ∙ same_length-ok (length out) (length (by_id actions))
          (Run-length (nodes_of actions) (edges_of actions) distinct-nodes run all ∙ length-nodes)
