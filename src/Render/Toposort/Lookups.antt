-- ===== src/Render/Toposort/Lookups.antt =====
-- With action ids that are all different, an id stands for one action.
use snap_cook.Common.{
  Str, str_eq_refl, ◌≡◌, refl, ◌∙◌, ap, true, some, List, [], ◌∷◌, ◌++◌, map, arith,
}
use snap_cook.Errors.{ok}
use snap_cook.Dict.{Dict, distinct, get, set, get-set, keys, put_all, fetch-some}
use snap_cook.Dict.Perms.{get-put_all_other}
use snap_cook.Dict.Laws.{Entries, put_all-Entries, get-Entries}
use snap_cook.Schema.Graph.{Action}
use snap_cook.Schema.Recipe.{ids, produced_states, by_id}
use snap_cook.Render.Toposort.{fetch_all}
use snap_cook.Worklist.Link.{edges}

abbrev pub AllActions : (Action → Type 0) → List Action → Type 0
AllActions P [] = Unit
AllActions P (a ∷ l) = P a × AllActions P l

abbrev by_pairs : List Action → List (Str × Action)
by_pairs l = map (λ (a : Action). (a.id, a)) l

keys-by_pairs : (l : List Action) → keys (by_pairs l) ≡ ids l
keys-by_pairs [] = refl
keys-by_pairs (a ∷ l) = ap (λ (r : List Str). a.id ∷ r) (keys-by_pairs l)

found_own :
    (l : List Action) (d : Dict Action)
    → distinct (ids l) ≡ true
    → AllActions (λ a. get (put_all (by_pairs l) d) a.id ≡ some a) l
unfolding put_all distinct
found_own [] d h = tt
found_own (a ∷ l) d h = (
  get-put_all_other (by_pairs l) (set a.id a d) a.id (rw (keys-by_pairs l) (ground arith))
      ∙ ground (arith, get-set a.id a.id a d, str_eq_refl a.id),
  found_own l (set a.id a d) (ground arith),
)

-- `by_id[action.id]` is the action.
pub get-by_id :
    (actions : List Action)
    → distinct (ids actions) ≡ true
    → AllActions (λ a. get (by_id actions) a.id ≡ some a) actions
unfolding by_id
get-by_id actions h = found_own actions [] h

-- So fetching the ids in the authored order gives the actions.
fetch_all-own :
    (known : Dict Action) (l : List Action)
    → AllActions (λ a. get known a.id ≡ some a) l
    → fetch_all known (ids l) ≡ ok l
unfolding fetch_all
fetch_all-own known [] h = refl
fetch_all-own known (a ∷ l) h = rw (fetch-some known a.id a h.0) (rw (fetch_all-own known l h.1))

pub fetch_all-ids :
    (actions : List Action)
    → distinct (ids actions) ≡ true
    → fetch_all (by_id actions) (ids actions) ≡ ok actions
fetch_all-ids actions h = fetch_all-own (by_id actions) actions (get-by_id actions h)

-- The producer of a state is the action that writes it.
pub produced-by :
    (actions : List Action) (s aid : Str)
    → distinct (ids actions) ≡ true
    → get (produced_states actions) s ≡ some aid
    → (a : Action) × (get (by_id actions) aid ≡ some a) × (a.produces.id ≡ s)
unfolding produced_states
produced-by actions s aid once h =
    get-Entries P (put_all (outs actions) []) s aid
      (put_all-Entries P (outs actions) [] (own actions (get-by_id actions once)) tt) h
  where
    P : Str → Str → Type 0
    P s aid = (a : Action) × (get (by_id actions) aid ≡ some a) × (a.produces.id ≡ s)

    outs : List Action → List (Str × Str)
    outs l = map (λ (a : Action). (a.produces.id, a.id)) l

    own :
        (l : List Action)
        → AllActions (λ a. get (by_id actions) a.id ≡ some a) l
        → Entries P (outs l)
    own [] h = tt
    own (a ∷ l) h = ((a, h.0, refl), own l h.1)

pub edges-append :
    (producer : Dict Str) (l m : List (Str × Str))
    → edges producer (l ++ m) ≡ edges producer l ++ edges producer m
unfolding edges
edges-append producer [] m = refl
edges-append producer ((used, aid) ∷ l) m = ground (arith, edges-append producer l m)
