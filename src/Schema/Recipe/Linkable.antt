-- ===== src/Schema/Recipe/Linkable.antt =====
-- What the first checks of `_validate_graph` establish of the actions and their uses.
use snap_cook.Common.{
  Str, str_eq, str_eq_iff, str_eq_refl, ◌≡◌, refl, ◌∙◌, true, false, ◌||◌, List, [], ◌∷◌, ◌++◌, map,
  arith, Bool-cases, inl, inr,
}
use snap_cook.Errors.{ok, cyclic_graph, raise_if-eq-ok, >>=-eq-ok}
use snap_cook.Dict.{Dict, mem, distinct, set, fetch, fetch-some, keys, put_all}
use snap_cook.Dict.Laws.{
  Entries, put_all-Entries, get-Entries, get-of_mem, mem-put_all, mem-keys-set,
}
use snap_cook.Count.{mem-nil}
use snap_cook.Schema.Graph.{Action}
use snap_cook.Schema.Recipe.{
  ids, outputs, uses_of, produced_states, by_id, claim_outputs, check_produced,
}
use snap_cook.Worklist.{Degrees, link}
use snap_cook.Worklist.Link.{IsLinkable}

-- The pairs name known actions.
abbrev pub AllKnown : List Str → List (Str × Str) → Type 0
AllKnown nodes [] = Unit
AllKnown nodes ((used, aid) ∷ rest) = (mem aid nodes ≡ true) × AllKnown nodes rest

AllKnown-append :
    (nodes : List Str) (aid : Str) (used : List Str) (rest : List (Str × Str))
    → mem aid nodes ≡ true
    → AllKnown nodes rest
    → AllKnown nodes (map (λ (u : Str). (u, aid)) used ++ rest)
AllKnown-append nodes aid [] rest h k = k
AllKnown-append nodes aid (u ∷ used) rest h k = (h, AllKnown-append nodes aid used rest h k)

pub uses_of-AllKnown :
    (nodes : List Str) (actions : List Action)
    → ((n : Str) → mem n (ids actions) ≡ true → mem n nodes ≡ true)
    → AllKnown nodes (uses_of actions)
unfolding uses_of mem
uses_of-AllKnown nodes [] h = tt
uses_of-AllKnown nodes (a ∷ actions) h =
    AllKnown-append nodes a.id a.uses (uses_of actions) (h a.id (ground (arith, str_eq_refl a.id)))
      (uses_of-AllKnown nodes actions (λ n k. h n (ground arith)))

-- Every state that is used is an output of some action.
abbrev pub AllProduced : Dict Str → List (Str × Str) → Type 0
AllProduced producer [] = Unit
AllProduced producer ((used, aid) ∷ rest) =
    (mem used (keys producer) ≡ true) × AllProduced producer rest

pub check_produced_lem :
    (producer : Dict Str) (uses : List (Str × Str))
    → check_produced producer uses ≡ ok tt
    → AllProduced producer uses
unfolding check_produced
check_produced_lem producer [] h = tt
check_produced_lem producer ((used, aid) ∷ uses) h = elim (Bool-cases (mem used (keys producer))) [
  | inl e ↦ (e, check_produced_lem producer uses (rw e at h))
  | inr e ↦ cc (rw e at h)
]

pub check_produced-eq_ok :
    (producer : Dict Str) (uses : List (Str × Str))
    → AllProduced producer uses
    → check_produced producer uses ≡ ok tt
unfolding check_produced
check_produced-eq_ok producer [] h = refl
check_produced-eq_ok producer ((used, aid) ∷ uses) h =
    rw h.0 (check_produced-eq_ok producer uses h.1)

-- `claim_outputs` builds `produced_states`, and refuses a second writer.
pub claim_outputs_lem :
    (actions : List Action) (d producer : Dict Str)
    → claim_outputs actions d ≡ ok producer
    → (producer ≡ put_all (map (λ (a : Action). (a.produces.id, a.id)) actions) d)
      × (distinct (outputs actions) ≡ true)
      × ((n : Str) → mem n (keys d) ≡ true → mem n (outputs actions) ≡ false)
unfolding claim_outputs put_all distinct mem
claim_outputs_lem [] d producer h = (ground arith, refl, λ n k. refl)
claim_outputs_lem (a ∷ actions) d producer h = elim (Bool-cases (mem a.produces.id (keys d))) [
  | inl e ↦ cc (rw e at h)
  | inr e ↦
      let (same, once, apart) =
        claim_outputs_lem actions (set a.produces.id a.id d) producer (rw e at h) in
      (
        same,
        ground (
          arith,
          once,
          apart a.produces.id,
          mem-keys-set a.produces.id a.produces.id a.id d,
          str_eq_refl a.produces.id,
        ),
        λ n k.
            ground
              (arith, apart n, mem-keys-set a.produces.id n a.id d, str_eq_iff a.produces.id n),
      )
]

pub claim_outputs-eq_ok :
    (actions : List Action) (d : Dict Str)
    → distinct (outputs actions) ≡ true
    → ((n : Str) → mem n (keys d) ≡ true → mem n (outputs actions) ≡ false)
    → claim_outputs actions d ≡ ok (put_all (map (λ (a : Action). (a.produces.id, a.id)) actions) d)
unfolding claim_outputs put_all distinct mem
claim_outputs-eq_ok [] d once apart = refl
claim_outputs-eq_ok (a ∷ actions) d once apart = rw fresh (
    claim_outputs-eq_ok actions (set a.produces.id a.id d) (ground arith) λ n k.
      ground (arith, apart n, mem-keys-set a.produces.id n a.id d, str_eq_iff a.produces.id n))
  where
    fresh : mem a.produces.id (keys d) ≡ false
    fresh = ground (arith, apart a.produces.id, str_eq_refl a.produces.id)

-- The producers are actions.
pub produced_states-Entries :
    (nodes : List Str) (actions : List Action)
    → ((n : Str) → mem n (ids actions) ≡ true → mem n nodes ≡ true)
    → Entries (λ s aid. mem aid nodes ≡ true) (produced_states actions)
unfolding produced_states mem
produced_states-Entries nodes actions h =
    put_all-Entries (λ s aid. mem aid nodes ≡ true)
      (map (λ (a : Action). (a.produces.id, a.id)) actions) [] (all_known actions h) tt
  where
    all_known :
        (l : List Action)
        → ((n : Str) → mem n (ids l) ≡ true → mem n nodes ≡ true)
        → Entries (λ s aid. mem aid nodes ≡ true) (map (λ (a : Action). (a.produces.id, a.id)) l)
    all_known [] h = tt
    all_known (a ∷ l) h =
        (h a.id (ground (arith, str_eq_refl a.id)), all_known l (λ n k. h n (ground arith)))

-- The keys of `produced_states` are the outputs, those of `by_id` the ids.
pub mem-keys_produced :
    (actions : List Action) (n : Str)
    → mem n (keys (produced_states actions)) ≡ mem n (outputs actions)
unfolding produced_states mem
mem-keys_produced actions n =
    mem-put_all (map (λ (a : Action). (a.produces.id, a.id)) actions) [] n ∙ by_list actions
  where
    by_list :
        (l : List Action)
        → (mem n (keys (map (λ (a : Action). (a.produces.id, a.id)) l)) || mem n [])
          ≡ mem n (outputs l)
    by_list [] = refl
    by_list (a ∷ l) = ground (arith, by_list l, mem-nil n)

pub mem-keys-by_id :
    (actions : List Action) (n : Str) → mem n (keys (by_id actions)) ≡ mem n (ids actions)
unfolding by_id mem
mem-keys-by_id actions n =
    mem-put_all (map (λ (a : Action). (a.id, a)) actions) [] n ∙ by_list actions
  where
    by_list :
        (l : List Action)
        → (mem n (keys (map (λ (a : Action). (a.id, a)) l)) || mem n []) ≡ mem n (ids l)
    by_list [] = refl
    by_list (a ∷ l) = ground (arith, by_list l, mem-nil n)

-- With producers and users known, the uses are edges between known actions.
pub AllProduced-IsLinkable :
    (nodes : List Str) (producer : Dict Str) (uses : List (Str × Str))
    → Entries (λ s aid. mem aid nodes ≡ true) producer
    → AllKnown nodes uses
    → AllProduced producer uses
    → IsLinkable false producer nodes uses
AllProduced-IsLinkable nodes producer [] entries known produced = tt
AllProduced-IsLinkable nodes producer ((used, aid) ∷ uses) entries known produced =
    let (up, made) = get-of_mem producer used produced.0 in
    (
      (
        up,
        made,
        get-Entries (λ s i. mem i nodes ≡ true) producer used up entries made,
        known.0,
        refl,
      ),
      AllProduced-IsLinkable nodes producer uses entries known.1 produced.1,
    )

-- Where the strict loop ends, no action uses its own output.
pub link-IsLinkable :
    (nodes : List Str) (producer : Dict Str) (uses : List (Str × Str)) (g g' : Degrees)
    → IsLinkable false producer nodes uses
    → link true producer uses g ≡ ok g'
    → IsLinkable true producer nodes uses
unfolding link
link-IsLinkable nodes producer [] g g' linkable h = tt
link-IsLinkable nodes producer ((used, aid) ∷ uses) g g' ((up, made, up_known, aid_known, _), later)
      h =
    let (other, h1) =
      raise_if-eq-ok (str_eq up aid) cyclic_graph _ (rw (fetch-some producer used up made) at h) in
    let (deg, _, h2) = >>=-eq-ok (fetch g.indegree aid) _ h1 in
    let (deps, _, h3) = >>=-eq-ok (fetch g.dependents up) _ h2 in
    ((up, made, up_known, aid_known, other), link-IsLinkable nodes producer uses _ g' later h3)

pub IsLinkable-weaken :
    (nodes : List Str) (producer : Dict Str) (uses : List (Str × Str))
    → IsLinkable true producer nodes uses
    → IsLinkable false producer nodes uses
IsLinkable-weaken nodes producer [] h = tt
IsLinkable-weaken nodes producer ((used, aid) ∷ uses) ((up, made, up_known, aid_known, _), later) =
    ((up, made, up_known, aid_known, refl), IsLinkable-weaken nodes producer uses later)
