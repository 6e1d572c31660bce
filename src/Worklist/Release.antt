-- ===== src/Worklist/Release.antt =====
-- The inner loop of Kahn's algorithm.
use snap_cook.Common.{
  Str, str_eq, str_eq_iff, str_eq_refl, ℕ, ◌+◌, ◌-◌, ◌==◌, ◌<◌, ◌≡◌, refl, Bool, true, false, ◌&&◌,
  none, some, List, [], ◌∷◌, if◌then◌else◌, arith,
}
use snap_cook.Errors.{ok}
use snap_cook.Dict.{Dict, mem, get, set, fetch, get-set, fetch-some}
use snap_cook.Count.{count, count-cons, count-cons_le, count_self}
use snap_cook.Worklist.{Container, release}

-- The laws of the container: pushing adds one id, and `Keeps` is kept.
pub record Pushes (c : Container) (Keeps : List Str → Type 0) : Type 0 where
  pub count-push :
      (x n : Str) (ready : List Str)
      → count n (c.push x ready) ≡ (if str_eq x n then 1 else 0) + count n ready
  pub push-Keeps : (x : Str) (ready : List Str) → Keeps ready → Keeps (c.push x ready)

-- With `left n` edges to `n` from actions that are not done, and the ids of `todo` still to be
-- handled: the degrees, and the ready ids beside those that are done.
pub record State (nodes done : List Str) (left : Str → ℕ) (todo : List Str) (indegree : Dict ℕ)
    (ready : List Str) : Type 0 where
  pub degrees :
      (n : Str) → get indegree n ≡ (if mem n nodes then some (left n + count n todo) else none)
  pub ready_iff :
      (n : Str)
      → count n ready + count n done
        ≡ (if mem n nodes && (left n + count n todo == 0) then 1 else 0)

module _ (c : Container) {Keeps : List Str → Type 0} (laws : Pushes c Keeps) (nodes done : List Str)
    (left : Str → ℕ) where
  State-next :
      (nxt : Str) (todo : List Str) (indegree : Dict ℕ) (ready : List Str)
      → mem nxt nodes ≡ true
      → State nodes done left (nxt ∷ todo) indegree ready
      → let deg = left nxt + count nxt (nxt ∷ todo) in
        State nodes done left todo
          (set nxt (deg - 1) indegree)
          (if deg == 1 then c.push nxt ready else ready)
  State-next nxt todo indegree ready known s = record {
    degrees = λ n. ground (
      arith,
      get-set nxt n (left nxt + count nxt (nxt ∷ todo) - 1) indegree,
      s.degrees n,
      count-cons n nxt todo,
      count-cons nxt nxt todo,
      str_eq_iff nxt n,
      str_eq_refl nxt,
    );
    ready_iff = λ n. ground (
      arith,
      s.ready_iff n,
      laws.count-push nxt n ready,
      count-cons n nxt todo,
      count-cons nxt nxt todo,
      str_eq_iff nxt n,
      str_eq_refl nxt,
    );
  }

  -- With every id of `todo` known the loop raises nothing, and ends in the state that the ids of
  -- `todo` have left.
  pub release_lem :
      (todo : List Str) (indegree : Dict ℕ) (ready : List Str)
      → ((n : Str) → 0 < count n todo → mem n nodes ≡ true)
      → State nodes done left todo indegree ready
      → Keeps ready
      → (after : Dict ℕ × List Str) × (release c todo indegree ready ≡ ok after)
        × State nodes done left [] after.0 after.1
        × Keeps after.1
  unfolding release
  release_lem [] indegree ready known s k = ((indegree, ready), refl, s, k)
  release_lem (nxt ∷ todo) indegree ready known s k =
      let here : mem nxt nodes ≡ true = known nxt (count_self nxt todo) in
      let deg : ℕ = left nxt + count nxt (nxt ∷ todo) in
      let fetched : fetch indegree nxt ≡ ok deg =
        fetch-some indegree nxt deg (rw here at (s.degrees nxt)) in
      let kept : Keeps (if deg == 1 then c.push nxt ready else ready) = keep-if (deg == 1) in
      let (after, runs, s', k') =
        release_lem todo (set nxt (deg - 1) indegree) (if deg == 1 then c.push nxt ready else ready)
          (λ n h. known n (omega (arith, count-cons_le n nxt todo)))
          (State-next nxt todo indegree ready here s) kept in
      (after, rw fetched runs, s', k')
    where
      keep-if : (b : Bool) → Keeps (if b then c.push nxt ready else ready)
      keep-if true = laws.push-Keeps nxt ready k
      keep-if false = k
