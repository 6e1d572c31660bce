-- ===== src/Worklist.antt =====
-- Kahn's algorithm as the two loops of packages/snapcook-core/src/snapcook_core use it:
-- `Recipe._assert_acyclic` (schema/recipe.py) over a stack, and `topological_actions`
-- (render/toposort.py) over a heap. What they share is here, over the container of ready ids.
pub mod Edges
pub mod Run
pub mod Release
pub mod Drain
pub mod Order
pub mod Containers
pub mod Laws
pub mod Link
pub mod Kahn
pub mod Rank
pub mod Unique
use snap_cook.Common.{
  Str, str_eq, ℕ, zero, suc, ◌+◌, ◌-◌, ◌==◌, Bool, true, false, ◌&&◌, Option, none, some, List, [],
  ◌∷◌, ◌++◌, map, if◌then◌else◌,
}
use snap_cook.Errors.{Result, ok, err, cyclic_graph, out_of_fuel, raise_if, ◌>>=◌, ◌>>◌}
use snap_cook.Dict.{Dict, get, set, fetch, put_all}

pub record Degrees : Type 0 where
  pub indegree : Dict ℕ
  pub dependents : Dict (List Str)

-- `{aid: 0 for aid in nodes}` and `{aid: [] for aid in nodes}`
unfoldable pub unlinked : List Str → Degrees
unlinked nodes = record {
  indegree = put_all (map (λ (k : Str). (k, 0)) nodes) [];
  dependents = put_all (map (λ (k : Str). (k, [])) nodes) [];
}

-- `for action in actions: for used in action.uses: …`, over the pairs (used, action.id) in the order
-- of the two loops. `strict` says whether an action that uses its own output is refused.
unfoldable pub link : Bool → Dict Str → List (Str × Str) → Degrees → Result Degrees
link strict producer [] g = ok g
link strict producer ((used, aid) ∷ rest) g = do
  upstream ← fetch producer used
  raise_if (strict && str_eq upstream aid) cyclic_graph
  deg ← fetch g.indegree aid
  deps ← fetch g.dependents upstream
  link strict producer rest (record {
    indegree = set aid (deg + 1) g.indegree;
    dependents = set upstream (deps ++ aid ∷ []) g.dependents;
  })

-- `[aid for aid, deg in indegree.items() if deg == 0]`
unfoldable pub zeros : Dict ℕ → List Str
zeros [] = []
zeros ((k, deg) ∷ d) = if deg == 0 then k ∷ zeros d else zeros d

-- The container of ready ids.
pub record Container : Type 0 where
  pub push : Str → List Str → List Str
  pub pop : List Str → Option (Str × List Str)

module _ (c : Container) where
  -- `for nxt in dependents[current]: indegree[nxt] -= 1; if indegree[nxt] == 0: push(nxt)`. The new
  -- degree is zero exactly if the old one is 1; a degree of 0 is never lowered (`release_lem`).
  unfoldable pub release : List Str → Dict ℕ → List Str → Result (Dict ℕ × List Str)
  release [] indegree ready = ok (indegree, ready)
  release (nxt ∷ rest) indegree ready = do
    deg ← fetch indegree nxt
    release rest (set nxt (deg - 1) indegree) (if deg == 1 then c.push nxt ready else ready)

  -- `while ready: …`. The result holds the ids that are emitted from here on.
  unfoldable pub drain : ℕ → Dict (List Str) → Dict ℕ → List Str → Result (List Str)
  unfolding release
  drain zero dependents indegree ready = err out_of_fuel
  drain (suc fuel) dependents indegree ready = elim (c.pop ready) [
    | none ↦ ok []
    | some (current, rest) ↦ do
      deps ← fetch dependents current
      after ← release deps indegree rest
      emitted ← drain fuel dependents after.0 after.1
      ok (current ∷ emitted)
  ]
