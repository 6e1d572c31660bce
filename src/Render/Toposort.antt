-- ===== src/Render/Toposort.antt =====
-- render/toposort.py: the actions of a recipe in deterministic dependency order.
pub mod Runs
pub mod Lookups
pub mod Steps
pub mod Dependencies
pub mod Shared
pub mod Stable
use snap_cook.Common.{Str, ℕ, suc, not, ◌==◌, false, Option, none, some, List, [], ◌∷◌, map, length}
use snap_cook.Common.Int.{ℤ, pos}
use snap_cook.Errors.{Result, ok, err, cyclic_graph, raise_if, ◌>>=◌, ◌>>◌}
use snap_cook.Dict.{Dict, get, keys, fetch}
use snap_cook.Schema.Graph.{Action}
use snap_cook.Schema.Recipe.{uses_of, produced_states, by_id}
use snap_cook.Worklist.{unlinked, link, zeros, drain}
use snap_cook.Worklist.Containers.{heap, heapify}

-- `by_id[aid].order`. The heap is asked for ids of `by_id` alone (`Kahn`), so the other case is idle.
unfoldable pub order_of : Dict Action → Str → ℤ
order_of known aid = elim (get known aid) [ none ↦ pos 0 | some a ↦ a.order ]

-- `ordered.append(by_id[current])`, for the emitted ids in turn.
unfoldable pub fetch_all : Dict Action → List Str → Result (List Action)
fetch_all known [] = ok []
fetch_all known (aid ∷ rest) = do
  a ← fetch known aid
  ordered ← fetch_all known rest
  ok (a ∷ ordered)

-- `topological_actions`, with one more round than there are actions as fuel.
unfoldable pub topological_actions : List Action → Result (List Action)
topological_actions actions = do
  let known = by_id actions
  g ← link false (produced_states actions) (uses_of actions) (unlinked (keys known))
  emitted ←
      drain (heap (order_of known)) (suc (length known)) g.dependents g.indegree
        (heapify (order_of known) (zeros g.indegree))
  ordered ← fetch_all known emitted
  raise_if (not (length ordered == length known)) cyclic_graph
  ok ordered
