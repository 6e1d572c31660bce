-- ===== src/Checks/Graphs.antt =====
-- The recipe graph and the order of its steps.
use snap_cook.Common.{◌≡◌, refl, ◌<◌, true, false, List, [], ◌∷◌, length, str_eq, str_lt, ◌↔◌}
use mathlib.Core.List.{Perm, Permᴰ}
use snap_cook.Errors.{ok}
use snap_cook.Dict.{distinct, get, set, fetch, mem, put_all}
use snap_cook.Schema.Graph.{Action}
use snap_cook.Schema.Recipe.{
  ids, uses_of, produced_states, by_id, terminal_state_ids, unconsumed, claim_outputs,
  check_produced, assert_acyclic, validate_graph,
}
use snap_cook.Worklist.{link, zeros, unlinked, release, drain}
use snap_cook.Worklist.Containers.{pop_last, key_lt, heap_push, heapify}
use snap_cook.Render.Toposort.{topological_actions, fetch_all, order_of}
use snap_cook.Render.Toposort.Dependencies.{IsCookable, topological_actions-IsCookable}
use snap_cook.Render.Toposort.Runs.{Sorted, valid-Sorted}
use snap_cook.Render.Toposort.Steps.{topological_actions-perm}
use snap_cook.Render.Toposort.Shared.{topological_actions-loses}
use snap_cook.Render.Toposort.Stable.{topological_actions-stable}
use snap_cook.Schema.Graph.{
  internal_references_resolve, check_text, check_chunks, chunk_resolves, in_range,
}
use snap_cook.Schema.Graph.References.{
  ingredient_ids, cookware_ids, AllResolve, chunks_of, internal_references_resolve_iff,
}
use snap_cook.Checks.Soup.{season, chop, boil, join, soup, soup', doubled}

soup_valid : validate_graph soup ≡ ok tt
unfolding validate_graph claim_outputs check_produced assert_acyclic uses_of by_id produced_states
    terminal_state_ids unconsumed get set fetch mem put_all link zeros unlinked release drain
    pop_last str_eq
soup_valid = refl

soup_sorted : topological_actions soup ≡ ok (boil ∷ chop ∷ join ∷ [])
unfolding topological_actions fetch_all order_of uses_of by_id produced_states get set fetch mem
    put_all link zeros unlinked release drain heap_push heapify key_lt str_eq str_lt
soup_sorted = refl

soup'_valid : validate_graph soup' ≡ ok tt
unfolding validate_graph claim_outputs check_produced assert_acyclic uses_of by_id produced_states
    terminal_state_ids unconsumed get set fetch mem put_all link zeros unlinked release drain
    pop_last str_eq
soup'_valid = refl

doubled_valid : validate_graph doubled ≡ ok tt
unfolding validate_graph claim_outputs check_produced assert_acyclic uses_of by_id produced_states
    terminal_state_ids unconsumed get set fetch mem put_all link zeros unlinked release drain
    pop_last str_eq
doubled_valid = refl

soup-distinct : distinct (ids soup) ≡ true
unfolding distinct mem str_eq
soup-distinct = refl

soup'-distinct : distinct (ids soup') ≡ true
unfolding distinct mem str_eq
soup'-distinct = refl

doubled-ids : distinct (ids doubled) ≡ false
unfolding distinct mem str_eq
doubled-ids = refl

topological_actions-IsCookable_example :
    (ordered : List Action) × (topological_actions soup ≡ ok ordered) × IsCookable [] ordered
topological_actions-IsCookable_example =
    topological_actions-IsCookable soup soup_valid soup-distinct

topological_actions-perm_example : Perm (boil ∷ chop ∷ join ∷ []) soup
topological_actions-perm_example =
    topological_actions-perm soup (boil ∷ chop ∷ join ∷ []) soup_valid soup-distinct soup_sorted

topological_actions-loses_example :
    (ordered : List Action) × (topological_actions doubled ≡ ok ordered)
    × (length ordered < length doubled)
topological_actions-loses_example = topological_actions-loses doubled doubled_valid doubled-ids

topological_actions-stable_example :
    (ordered : List Action) × (topological_actions soup ≡ ok ordered)
    × (topological_actions soup' ≡ ok ordered)
topological_actions-stable_example =
    topological_actions-stable soup soup' (Permᴰ.swap refl refl) soup_valid soup'_valid
      soup-distinct soup'-distinct

season_valid : internal_references_resolve season ≡ ok tt
unfolding internal_references_resolve check_text check_chunks chunk_resolves in_range distinct mem
    str_eq
season_valid = refl

internal_references_resolve_iff_example : (internal_references_resolve season ≡ ok tt) ↔ (
    (distinct (ingredient_ids season) ≡ true)
    × (distinct (cookware_ids season) ≡ true)
    × AllResolve season (chunks_of season.text))
internal_references_resolve_iff_example = internal_references_resolve_iff season

valid-Sorted_example : Sorted soup
valid-Sorted_example = valid-Sorted soup soup_valid
