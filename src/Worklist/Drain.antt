-- ===== src/Worklist/Drain.antt =====
-- The outer loop of Kahn's algorithm is a run: enough fuel is one more than the number of actions.
use snap_cook.Common.{
  Str, str_eq, str_eq_refl, ℕ, zero, suc, ◌+◌, ◌<◌, ◌≤◌, ◌≡◌, true, false, none, some, List, [],
  ◌∷◌, if◌then◌else◌, arith, length, Option-cases, Bool-cases, inl, inr,
}
use snap_cook.Errors.{ok}
use snap_cook.Dict.{Dict, mem, get, fetch-some}
use snap_cook.Count.{count, count-nil, count-cons, mem-count, not_mem-count, length-le_of_count}
use snap_cook.Worklist.{Container, drain}
use snap_cook.Worklist.Edges.{Edges, waits, targets, waits-done}
use snap_cook.Worklist.Run.{Run, stop, step}
use snap_cook.Worklist.Release.{Pushes, State, release_lem}

-- The laws of the container: what is taken out was in it, and precedes all that was.
pub record Pops (c : Container) (Keeps : List Str → Type 0) (Before : Str → Str → Type 0)
    : Type 0 where
  pub pop-none : (ready : List Str) → c.pop ready ≡ none → (n : Str) → count n ready ≡ 0
  pub count-pop :
      (ready rest : List Str) (x n : Str)
      → c.pop ready ≡ some (x, rest)
      → count n ready ≡ (if str_eq x n then 1 else 0) + count n rest
  pub pop-Keeps :
      (ready rest : List Str) (x : Str) → c.pop ready ≡ some (x, rest) → Keeps ready → Keeps rest
  pub pop-Before :
      (ready rest : List Str) (x n : Str)
      → c.pop ready ≡ some (x, rest)
      → Keeps ready
      → 0 < count n ready
      → Before x n

module _ (nodes done : List Str) (left : Str → ℕ) (indegree : Dict ℕ) (ready : List Str)
    (s : State nodes done left [] indegree ready) where
  count_done_le : (n : Str) → count n done ≤ count n nodes
  count_done_le n = elim (Bool-cases (mem n nodes)) [
    | inl e ↦ ground (arith, s.ready_iff n, mem-count n nodes e)
    | inr e ↦ ground (arith, s.ready_iff n)
  ]

  -- An id that is ready is known, waits for nothing and is not done.
  ready-known : (n : Str) → 0 < count n ready → mem n nodes ≡ true
  ready-known n h = ground (arith, s.ready_iff n)

  ready-left : (n : Str) → 0 < count n ready → left n ≡ 0
  ready-left n h = ground (arith, s.ready_iff n, count-nil n)

  ready-fresh : (n : Str) → 0 < count n ready → mem n done ≡ false
  ready-fresh n h = ground (arith, s.ready_iff n, mem-count n done)

  ready_complete :
      (n : Str) → mem n nodes ≡ true → mem n done ≡ false → left n ≡ 0 → 0 < count n ready
  ready_complete n k f l = ground (arith, s.ready_iff n, count-nil n, not_mem-count n done)

counts_itself : (x : Str) → 1 ≤ (if str_eq x x then 1 else 0)
counts_itself x = rw str_eq_refl (omega arith)

module _ (c : Container) {Keeps : List Str → Type 0} {Before : Str → Str → Type 0}
    (pushes : Pushes c Keeps) (pops : Pops c Keeps Before) (nodes : List Str) (es : Edges) where
  -- Taking `x` out and marking it as done leaves its dependents to be handled.
  State-pop :
      (done : List Str) (indegree : Dict ℕ) (ready rest : List Str) (x : Str)
      → c.pop ready ≡ some (x, rest)
      → mem x done ≡ false
      → State nodes done (waits done es) [] indegree ready
      → State nodes (x ∷ done) (waits (x ∷ done) es) (targets x es) indegree rest
  State-pop done indegree ready rest x popped fresh s = record {
    degrees = λ n. rw (waits-done x n done es fresh) (ground (arith, s.degrees n, count-nil n));
    ready_iff = λ n. rw (waits-done x n done es fresh) (
        ground (
          arith,
          s.ready_iff n,
          count-nil n,
          count-cons n x done,
          pops.count-pop ready rest x n popped,
        ));
  }

  module _ (dependents : Dict (List Str))
      (linked : (x : Str) → mem x nodes ≡ true → get dependents x ≡ some (targets x es))
      (closed : (x n : Str) → 0 < count n (targets x es) → mem n nodes ≡ true) where
    abbrev Drained : List Str → ℕ → Dict ℕ → List Str → Type 0
    Drained done fuel indegree ready =
        (out : List Str) × (drain c fuel dependents indegree ready ≡ ok out)
        × Run Before nodes es done out

    module _ (done : List Str) (indegree : Dict ℕ) (ready : List Str)
        (s : State nodes done (waits done es) [] indegree ready) (keeps : Keeps ready) where
      Drained-idle : (fuel : ℕ) → c.pop ready ≡ none → Drained done (suc fuel) indegree ready
      unfolding drain
      Drained-idle fuel e = ([], rw (e, drain), stop all_done)
        where
          all_done : (n : Str) → mem n nodes ≡ true → waits done es n ≡ 0 → mem n done ≡ true
          all_done n known free = elim (Bool-cases (mem n done)) [
            | inl d ↦ d
            | inr d ↦ absurd (
                omega (
                  arith,
                  pops.pop-none ready e n,
                  ready_complete nodes done _ indegree ready s n known d free,
                ))
          ]

      Drained-next :
          (fuel : ℕ) (x : Str) (rest : List Str)
          → c.pop ready ≡ some (x, rest)
          → ((indegree' : Dict ℕ) (ready' : List Str)
              → State nodes (x ∷ done) (waits (x ∷ done) es) [] indegree' ready'
              → Keeps ready'
              → Drained (x ∷ done) fuel indegree' ready')
          → Drained done (suc fuel) indegree ready
      unfolding drain
      Drained-next fuel x rest e later =
          let x_ready : 0 < count x ready =
            omega (arith, pops.count-pop ready rest x x e, counts_itself x) in
          let known = ready-known nodes done _ indegree ready s x x_ready in
          let fresh = ready-fresh nodes done _ indegree ready s x x_ready in
          let (after, released, s', k') =
            release_lem c pushes nodes (x ∷ done) (waits (x ∷ done) es) (targets x es) indegree rest
              (λ n h. closed x n h) (State-pop done indegree ready rest x e fresh s)
              (pops.pop-Keeps ready rest x e keeps) in
          let (out, runs, run) = later after.0 after.1 s' k' in
          (
            x ∷ out,
            rw (e, drain)
                (rw (fetch-some dependents x (targets x es) (linked x known))
                  (rw released (rw runs))),
            step known fresh (ready-left nodes done _ indegree ready s x x_ready)
                (λ n known' fresh' free.
                  pops.pop-Before ready rest x n e keeps
                    (ready_complete nodes done _ indegree ready s n known' fresh' free))
                run,
          )

    pub drain_lem :
        (fuel : ℕ) (done : List Str) (indegree : Dict ℕ) (ready : List Str)
        → length nodes < fuel + length done
        → State nodes done (waits done es) [] indegree ready
        → Keeps ready
        → Drained done fuel indegree ready
    drain_lem zero done indegree ready enough s k =
        absurd (
          omega
            (arith, length-le_of_count done nodes (count_done_le nodes done _ indegree ready s)))
    drain_lem (suc fuel) done indegree ready enough s k = elim (Option-cases (c.pop ready)) [
      | inl e ↦ Drained-idle done indegree ready s k fuel e
      | inr ((x, rest), e) ↦
          Drained-next done indegree ready s k fuel x rest e
            (λ indegree' ready'. drain_lem fuel (x ∷ done) indegree' ready' (omega arith))
    ]
