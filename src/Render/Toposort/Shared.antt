-- ===== src/Render/Toposort/Shared.antt =====
-- Two actions with one id: the validator accepts them and the sort drops a step.
use snap_cook.Common.{
  Str, ◌<◌, ◌≤◌, ltb, ◌≡◌, ◌∙◌, sym, false, inl, inr, List, length, length-map, arith, Bool-cases,
}
use snap_cook.Errors.{ok}
use snap_cook.Dict.{mem, distinct}
use snap_cook.Count.{
  count, mem-count, not_mem-count, distinct-count, distinct_of_count, count-eq_of_length,
}
use snap_cook.Schema.Graph.{Action}
use snap_cook.Schema.Recipe.Acyclic.{distinct-nodes, edges_of, nodes_of}
use snap_cook.Schema.Recipe.{ids, validate_graph}
use snap_cook.Schema.Recipe.Linkable.{mem-keys-by_id}
use snap_cook.Render.Toposort.{topological_actions}
use snap_cook.Render.Toposort.Runs.{valid-Sorted}
use snap_cook.Worklist.Rank.{Run-length}

module _ (actions : List Action) where
  count-nodes_le : (n : Str) → count n (nodes_of actions) ≤ count n (ids actions)
  count-nodes_le n = elim (Bool-cases (mem n (nodes_of actions))) [
    | inl e ↦ omega (
      arith,
      distinct-count n (nodes_of actions) (distinct-nodes actions),
      mem-count n (ids actions) (sym (mem-keys-by_id actions n) ∙ e),
    )
    | inr e ↦ omega (arith, not_mem-count n (nodes_of actions) e)
  ]

  -- With an id twice there are fewer ids than actions.
  length-nodes_lt :
      distinct (ids actions) ≡ false → length (nodes_of actions) < length (ids actions)
  length-nodes_lt twice =
      elim (Bool-cases (ltb (length (nodes_of actions)) (length (ids actions)))) [
        | inl e ↦ ground arith
        | inr e ↦
            let all =
              count-eq_of_length (nodes_of actions) (ids actions) count-nodes_le (ground arith) in
            cc (
              distinct_of_count (ids actions) λ n.
                omega (arith, all n, distinct-count n (nodes_of actions) (distinct-nodes actions)))
      ]

-- On a recipe that passes validation with two actions of one id the sort returns a result without
-- an error, and the result has fewer steps than the recipe.
pub topological_actions-loses :
    (actions : List Action)
    → validate_graph actions ≡ ok tt
    → distinct (ids actions) ≡ false
    → (ordered : List Action) × (topological_actions actions ≡ ok ordered)
      × (length ordered < length actions)
topological_actions-loses actions valid twice =
    let s = valid-Sorted actions valid in
    (
      s.ordered,
      s.runs,
      omega (
        arith,
        length-nodes_lt actions twice,
        length-map (λ (a : Action). a.id) actions,
        length-map (λ (a : Action). a.id) s.ordered,
        Run-length (nodes_of actions) (edges_of actions) (distinct-nodes actions) s.run s.covers,
      ),
    )
