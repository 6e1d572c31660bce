-- ===== src/Worklist/Link.antt =====
-- The dictionaries that the loops over the actions build hold the counts on the edges.
use snap_cook.Common.{
  Str, str_eq, str_eq_iff, ℕ, ◌+◌, ◌==◌, ◌<◌, ◌≡◌, refl, ap, str_eq_refl, Bool, true, false, ◌&&◌,
  none, some, List, [], ◌∷◌, ◌++◌, if◌then◌else◌, arith, Bool-cases, inl, inr,
}
use mathlib.Core.List.{append-nil, append_assoc}
use snap_cook.Errors.{ok}
use snap_cook.Dict.{Dict, mem, distinct, get, set, get-set, fetch-some, keys}
use snap_cook.Dict.Laws.{get-eq_none, distinct-set}
use snap_cook.Count.{count, mem-nil}
use snap_cook.Worklist.{Degrees, link, zeros}
use snap_cook.Worklist.Edges.{Edges, waits, targets}

-- The edges of the graph: each use that has a producer.
unfoldable pub edges : Dict Str → List (Str × Str) → Edges
edges producer [] = []
edges producer ((used, aid) ∷ rest) = elim (get producer used) [
  | none ↦ edges producer rest
  | some upstream ↦ (upstream, aid) ∷ edges producer rest
]

-- Every use has a producer among the actions, and where `strict` no action uses its own output.
abbrev pub IsLinkable : Bool → Dict Str → List Str → List (Str × Str) → Type 0
IsLinkable strict producer nodes [] = Unit
IsLinkable strict producer nodes ((used, aid) ∷ rest) =
    ((upstream : Str) × (get producer used ≡ some upstream)
      × (mem upstream nodes ≡ true)
      × (mem aid nodes ≡ true)
      × ((strict && str_eq upstream aid) ≡ false))
    × IsLinkable strict producer nodes rest

module _ (nodes : List Str) where
  -- The degrees of the known ids are `c`, and their dependents are `l`.
  pub record IsLinked (g : Degrees) (c : Str → ℕ) (l : Str → List Str) : Type 0 where
    pub degrees : (n : Str) → get g.indegree n ≡ (if mem n nodes then some (c n) else none)
    pub dependents : (n : Str) → get g.dependents n ≡ (if mem n nodes then some (l n) else none)
    pub distinct_keys : distinct (keys g.indegree) ≡ true

  abbrev more_degrees : Str → (Str → ℕ) → Str → ℕ
  more_degrees aid c n = c n + (if str_eq aid n then 1 else 0)

  abbrev more_dependents : Str → Str → (Str → List Str) → Str → List Str
  more_dependents up aid l n = if str_eq n up then l n ++ aid ∷ [] else l n

  -- One edge.
  IsLinked-next :
      (g : Degrees) (c : Str → ℕ) (l : Str → List Str) (up aid : Str)
      → mem up nodes ≡ true
      → mem aid nodes ≡ true
      → IsLinked g c l
      → IsLinked
          (record {
            indegree = set aid (c aid + 1) g.indegree;
            dependents = set up (l up ++ aid ∷ []) g.dependents;
          })
          (more_degrees aid c)
          (more_dependents up aid l)
  IsLinked-next g c l up aid up_known aid_known linked = record {
    degrees = λ n.
        ground (arith, get-set aid n (c aid + 1) g.indegree, linked.degrees n, str_eq_iff aid n);
    dependents = λ n. ground (
      arith,
      get-set up n (l up ++ aid ∷ []) g.dependents,
      linked.dependents n,
      str_eq_iff up n,
      str_eq_iff n up,
    );
    distinct_keys = distinct-set aid (c aid + 1) g.indegree linked.distinct_keys;
  }

  degrees-cons :
      (c : Str → ℕ) (up aid n : Str) (es : Edges)
      → more_degrees aid c n + waits [] es n ≡ c n + waits [] ((up, aid) ∷ es) n
  unfolding waits
  degrees-cons c up aid n es = ground (arith, mem-nil up)

  dependents-cons :
      (l : Str → List Str) (up aid n : Str) (es : Edges)
      → more_dependents up aid l n ++ targets n es ≡ l n ++ targets n ((up, aid) ∷ es)
  unfolding targets
  dependents-cons l up aid n es = elim (Bool-cases (str_eq n up)) [
    | inl e ↦ rw e (append_assoc (l n) (aid ∷ []) (targets n es))
    | inr e ↦ rw e
  ]

  edges-cons :
      (producer : Dict Str) (used aid up : Str) (uses : List (Str × Str))
      → get producer used ≡ some up
      → edges producer ((used, aid) ∷ uses) ≡ (up, aid) ∷ edges producer uses
  unfolding edges
  edges-cons producer used aid up uses made = rw (made, edges)

  pub link_lem :
      (strict : Bool) (producer : Dict Str) (uses : List (Str × Str)) (g : Degrees) (c : Str → ℕ)
      (l : Str → List Str)
      → IsLinkable strict producer nodes uses
      → IsLinked g c l
      → (g' : Degrees) × (link strict producer uses g ≡ ok g')
        × IsLinked g'
            (λ n. c n + waits [] (edges producer uses) n)
            (λ n. l n ++ targets n (edges producer uses))
  unfolding link edges waits targets
  link_lem strict producer [] g c l linkable linked = (
    g,
    refl,
    record {
      degrees = λ n. ground (arith, linked.degrees n);
      dependents = λ n. rw append-nil (linked.dependents n);
      distinct_keys = linked.distinct_keys;
    },
  )
  link_lem strict producer ((used, aid) ∷ uses) g c l
        ((up, made, up_known, aid_known, not_self), later) linked =
      let g1 : Degrees = record {
        indegree = set aid (c aid + 1) g.indegree;
        dependents = set up (l up ++ aid ∷ []) g.dependents;
      } in
      let (g', runs, linked') =
        link_lem strict producer uses g1 (more_degrees aid c) (more_dependents up aid l) later
          (IsLinked-next g c l up aid up_known aid_known linked) in
      (
        g',
        rw (fetch-some producer used up made) (
            rw not_self (
              rw (fetch-some g.indegree aid (c aid) (rw aid_known at (linked.degrees aid))) (
                rw (fetch-some g.dependents up (l up) (rw up_known at (linked.dependents up)))
                  runs))),
        record {
          degrees = λ n.
              rw (edges-cons producer used aid up uses made)
                (rw (← degrees-cons c up aid n (edges producer uses)) (linked'.degrees n));
          dependents = λ n.
              rw (edges-cons producer used aid up uses made)
                (rw (← dependents-cons l up aid n (edges producer uses)) (linked'.dependents n));
          distinct_keys = linked'.distinct_keys;
        },
      )

-- The initially ready ids are those with degree zero.
pub count-zeros :
    (n : Str) (d : Dict ℕ)
    → distinct (keys d) ≡ true
    → count n (zeros d) ≡ elim (get d n) [ none ↦ 0 | some deg ↦ if deg == 0 then 1 else 0 ]
unfolding zeros get count distinct
count-zeros n [] h = refl
count-zeros n ((k, deg) ∷ d) h = ground (arith, count-zeros n d, get-eq_none d k, str_eq_iff k n)

-- The edges lead to actions.
pub mem-targets :
    (strict : Bool) (producer : Dict Str) (nodes : List Str) (uses : List (Str × Str)) (x n : Str)
    → IsLinkable strict producer nodes uses
    → 0 < count n (targets x (edges producer uses))
    → mem n nodes ≡ true
unfolding edges targets count
mem-targets strict producer nodes [] x n linkable h = absurd (omega arith)
mem-targets strict producer nodes ((used, aid) ∷ uses) x n
      ((up, made, up_known, aid_known, not_self), later) h =
    ground
      (arith, made, aid_known, str_eq_iff aid n, mem-targets strict producer nodes uses x n later)

-- And they come from actions.
pub mem-sources :
    (strict : Bool) (producer : Dict Str) (nodes : List Str) (uses : List (Str × Str)) (x n : Str)
    → IsLinkable strict producer nodes uses
    → 0 < count n (targets x (edges producer uses))
    → mem x nodes ≡ true
unfolding edges targets count
mem-sources strict producer nodes [] x n linkable h = absurd (omega arith)
mem-sources strict producer nodes ((used, aid) ∷ uses) x n
      ((up, made, up_known, aid_known, not_self), later) h =
    ground
      (arith, made, up_known, str_eq_iff x up, mem-sources strict producer nodes uses x n later)

-- Where ranks grow along the edges, no action uses its own output.
pub IsLinkable-of_rank :
    (producer : Dict Str) (nodes : List Str) (uses : List (Str × Str)) (rank : Str → ℕ)
    → ((u n : Str) → 0 < count n (targets u (edges producer uses)) → rank u < rank n)
    → IsLinkable false producer nodes uses
    → IsLinkable true producer nodes uses
unfolding targets count
IsLinkable-of_rank producer nodes [] rank ranked h = tt
IsLinkable-of_rank producer nodes ((used, aid) ∷ uses) rank ranked
      ((up, made, up_known, aid_known, _), later) =
    let first : rank up < rank aid = ranked up aid (
      rw (edges-cons nodes producer used aid up uses made)
        (ground (arith, str_eq_refl up, str_eq_refl aid))) in
    (
      (
        up,
        made,
        up_known,
        aid_known,
        elim (Bool-cases (str_eq up aid)) [
          | inl e ↦ absurd (omega (arith, ap rank ((str_eq_iff up aid).0 e)))
          | inr e ↦ e
        ],
      ),
      IsLinkable-of_rank producer nodes uses rank
          (λ u n k. ranked u n (
            rw (edges-cons nodes producer used aid up uses made) (ground (arith, str_eq_iff u up))))
          later,
    )
