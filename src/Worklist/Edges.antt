-- ===== src/Worklist/Edges.antt =====
-- The dependency graph as a list of edges (upstream, downstream), and the counts on it that the
-- dictionaries of the loops hold.
use snap_cook.Common.{
  Str, str_eq, str_eq_iff, ℕ, ◌+◌, ◌≡◌, refl, false, not, ◌&&◌, List, [], ◌∷◌, if◌then◌else◌, arith,
}
use snap_cook.Dict.{mem}
use snap_cook.Count.{count}

abbrev pub Edges : Type 0
Edges = List (Str × Str)

-- How many edges lead to `n` from an action that is not done.
unfoldable pub waits : List Str → Edges → Str → ℕ
waits done [] n = 0
waits done ((u, m) ∷ es) n = (if str_eq m n && not (mem u done) then 1 else 0) + waits done es n

-- The ends of the edges that leave `x`.
unfoldable pub targets : Str → Edges → List Str
targets x [] = []
targets x ((u, m) ∷ es) = if str_eq x u then m ∷ targets x es else targets x es

-- Marking `x` as done frees each action once for each edge from `x`.
pub waits-done :
    (x n : Str) (done : List Str) (es : Edges)
    → mem x done ≡ false
    → waits (x ∷ done) es n + count n (targets x es) ≡ waits done es n
unfolding waits targets count mem
waits-done x n done [] h = omega arith
waits-done x n done ((u, m) ∷ es) h = ground (arith, waits-done x n done es, str_eq_iff x u)

-- What an action waits for shrinks as more is done.
pub waits-done_zero :
    (x n : Str) (done : List Str) (es : Edges) → waits done es n ≡ 0 → waits (x ∷ done) es n ≡ 0
unfolding waits mem
waits-done_zero x n done [] h = refl
waits-done_zero x n done ((u, m) ∷ es) h = ground (arith, waits-done_zero x n done es)
