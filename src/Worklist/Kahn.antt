-- ===== src/Worklist/Kahn.antt =====
-- The whole algorithm, from the uses of the actions to the emitted ids, for either container.
use snap_cook.Common.{
  Str, suc, ◌≡◌, refl, ap, ◌∙◌, Bool, none, some, List, [], map, length, if◌then◌else◌, arith,
}
use snap_cook.Errors.{ok}
use snap_cook.Dict.{Dict, mem, get, distinct}
use snap_cook.Dict.Laws.{get-put_const, distinct-put_all}
use snap_cook.Count.{count, count-nil}
use snap_cook.Worklist.{Container, Degrees, unlinked, link, zeros, drain}
use snap_cook.Worklist.Edges.{waits}
use snap_cook.Worklist.Run.{Run}
use snap_cook.Worklist.Release.{Pushes, State}
use snap_cook.Worklist.Drain.{Pops, drain_lem}
use snap_cook.Worklist.Link.{edges, IsLinkable, IsLinked, link_lem, count-zeros, mem-targets}

unlinked-IsLinked :
    (ids nodes : List Str)
    → ((n : Str) → mem n ids ≡ mem n nodes)
    → IsLinked nodes (unlinked ids) (λ n. 0) (λ n. [])
unfolding unlinked get distinct
unlinked-IsLinked ids nodes same = record {
  degrees = λ n. get-put_const 0 ids [] n ∙ ap (λ (b : Bool). if b then some 0 else none) (same n);
  dependents =
      λ n. get-put_const [] ids [] n ∙ ap (λ (b : Bool). if b then some [] else none) (same n);
  distinct_keys = distinct-put_all (map (λ (k : Str). (k, 0)) ids) [] refl;
}

module _ (c : Container) {Keeps : List Str → Type 0} {Before : Str → Str → Type 0}
    (pushes : Pushes c Keeps) (pops : Pops c Keeps Before) (fill : List Str → List Str)
    (count-fill : (n : Str) (l : List Str) → count n (fill l) ≡ count n l)
    (fill-Keeps : (l : List Str) → Keeps (fill l)) (strict : Bool) (producer : Dict Str)
    (ids nodes : List Str) (uses : List (Str × Str)) (same : (n : Str) → mem n ids ≡ mem n nodes)
    (linkable : IsLinkable strict producer nodes uses) where
  abbrev Kahn : Type 0
  Kahn =
      (g : Degrees) × (out : List Str) × (link strict producer uses (unlinked ids) ≡ ok g)
      × (drain c (suc (length nodes)) g.dependents g.indegree (fill (zeros g.indegree)) ≡ ok out)
      × Run Before nodes (edges producer uses) [] out

  -- The loops raise nothing, and the fuel is enough.
  pub kahn_lem : Kahn
  kahn_lem =
      let (g, links, linked) =
        link_lem nodes strict producer uses (unlinked ids) (λ n. 0) (λ n. []) linkable
          (unlinked-IsLinked ids nodes same) in
      let start : State nodes [] (waits [] (edges producer uses)) [] g.indegree
          (fill (zeros g.indegree)) =
        record {
          degrees = λ n. ground (arith, linked.degrees n, count-nil n);
          ready_iff = λ n. ground (
            arith,
            linked.degrees n,
            count-nil n,
            count-fill n (zeros g.indegree),
            count-zeros n g.indegree linked.distinct_keys,
          );
        } in
      let (out, runs, run) =
        drain_lem c pushes pops nodes (edges producer uses) g.dependents
          (λ x known. rw known at (linked.dependents x))
          (λ x n. mem-targets strict producer nodes uses x n linkable) (suc (length nodes)) []
          g.indegree (fill (zeros g.indegree)) (omega arith) start
          (fill-Keeps (zeros g.indegree)) in
      (g, out, links, runs, run)
