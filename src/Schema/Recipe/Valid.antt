-- ===== src/Schema/Recipe/Valid.antt =====
-- `_validate_graph` accepts exactly the graphs that its documentation describes.
use snap_cook.Common.{
  Str, str_eq, str_eq_iff, str_eq_refl, ℕ, ◌≡◌, refl, sym, ◌∙◌, ap, ◌≢◌, ◌↔◌, true, false, List, [],
  ◌∷◌, map, arith, Bool-cases, inl, inr, subst,
}
use snap_cook.Errors.{ok, raise_if-eq-ok, >>=-eq-ok, graph_error}
use snap_cook.Dict.{Dict, mem, distinct, keys}
use snap_cook.Count.{mem-nil}
use snap_cook.Schema.Graph.{Action}
use snap_cook.Schema.Recipe.{
  ids, outputs, consumed, uses_of, produced_states, terminal_state_ids, claim_outputs,
  check_produced, assert_acyclic, validate_graph, is_empty,
}
use snap_cook.Schema.Recipe.Acyclic.{
  nodes_of, edges_of, produced-IsLinkable, assert_acyclic-rank, rank-assert_acyclic,
}
use snap_cook.Schema.Recipe.Linkable.{
  AllProduced, check_produced_lem, check_produced-eq_ok, claim_outputs_lem, claim_outputs-eq_ok,
  mem-keys_produced, link-IsLinkable,
}
use snap_cook.Worklist.{link, unlinked}
use snap_cook.Worklist.Link.{IsLinkable, IsLinkable-of_rank}
use snap_cook.Worklist.Rank.{IsRanked}

-- The invariants of a recipe's graph, with a rank that grows along every edge for acyclicity.
pub record IsRecipeGraph (actions : List Action) : Type 0 where
  pub some_action : actions ≢ []
  pub single_writer : distinct (outputs actions) ≡ true
  pub no_dangling : (s : Str) → mem s (consumed actions) ≡ true → mem s (outputs actions) ≡ true
  pub rank : Str → ℕ
  pub acyclic : IsRanked rank (edges_of actions)
  pub some_terminal : terminal_state_ids actions ≢ []

-- What `AllProduced` says, as a statement about the states that are consumed.
produced_iff :
    (producer : Dict Str) (uses : List (Str × Str)) (s : Str)
    → AllProduced producer uses
    → mem s (map (λ (p : Str × Str). p.0) uses) ≡ true
    → mem s (keys producer) ≡ true
unfolding mem
produced_iff producer [] s h k = cc
produced_iff producer ((used, aid) ∷ uses) s h k = elim (Bool-cases (str_eq used s)) [
  | inl e ↦ subst (λ (u : Str). mem u (keys producer) ≡ true) ((str_eq_iff used s).0 e) h.0
  | inr e ↦ produced_iff producer uses s h.1 (rw e at k)
]

produced-of :
    (producer : Dict Str) (uses : List (Str × Str))
    → ((s : Str) → mem s (map (λ (p : Str × Str). p.0) uses) ≡ true → mem s (keys producer) ≡ true)
    → AllProduced producer uses
unfolding mem
produced-of producer [] h = tt
produced-of producer ((used, aid) ∷ uses) h =
    (h used (rw str_eq_refl), produced-of producer uses (λ s k. h s (ground arith)))

module _ (actions : List Action) where
  -- The checks in turn, each on what the ones before it have established.
  pub record Checks : Type 0 where
    pub nonempty : is_empty actions ≡ false
    pub claimed : claim_outputs actions [] ≡ ok (produced_states actions)
    pub checked : check_produced (produced_states actions) (uses_of actions) ≡ ok tt
    pub acyclic : assert_acyclic actions (produced_states actions) ≡ ok tt
    pub terminal : is_empty (terminal_state_ids actions) ≡ false

  claimed-produced :
      (producer : Dict Str)
      → claim_outputs actions [] ≡ ok producer
      → claim_outputs actions [] ≡ ok (produced_states actions)
  unfolding produced_states
  claimed-produced producer h = h ∙ ap ok (claim_outputs_lem actions [] producer h).0

  pub checks : validate_graph actions ≡ ok tt → Checks
  unfolding validate_graph
  checks h =
      let (nonempty, h1) = raise_if-eq-ok (is_empty actions) graph_error _ h in
      let (producer, claims, _) = >>=-eq-ok (claim_outputs actions []) _ h1 in
      let claimed = claimed-produced producer claims in
      let h2 = rw claimed at h1 in
      let (_, checked, h3) =
        >>=-eq-ok (check_produced (produced_states actions) (uses_of actions)) _ h2 in
      let (_, acyclic, h4) = >>=-eq-ok (assert_acyclic actions (produced_states actions)) _ h3 in
      record {
        nonempty = nonempty;
        claimed = claimed;
        checked = checked;
        acyclic = acyclic;
        terminal = ground (arith, h4);
      }

  checks-ok : Checks → validate_graph actions ≡ ok tt
  unfolding validate_graph
  checks-ok c = rw c.nonempty (rw c.claimed (rw c.checked (rw c.acyclic (rw c.terminal))))

  pub Checks-IsLinkable :
      Checks → IsLinkable true (produced_states actions) (nodes_of actions) (uses_of actions)
  unfolding assert_acyclic
  Checks-IsLinkable c =
      let (g, links, _) =
        >>=-eq-ok (link true (produced_states actions) (uses_of actions) (unlinked (ids actions))) _
          c.acyclic in
      link-IsLinkable (nodes_of actions) (produced_states actions) (uses_of actions)
        (unlinked (ids actions)) g
        (produced-IsLinkable actions
          (check_produced_lem (produced_states actions) (uses_of actions) c.checked))
        links

pub nonempty_iff :
    {A : Type 0} (l : List A) → (is_empty l ≡ false → l ≢ []) × (l ≢ [] → is_empty l ≡ false)
nonempty_iff [] = (λ h e. cc, λ h. absurd (h refl))
nonempty_iff (x ∷ l) = (λ h e. cc, λ h. refl)

Checks-IsRecipeGraph : (actions : List Action) → Checks actions → IsRecipeGraph actions
Checks-IsRecipeGraph actions c =
    let (rank, ranked) = assert_acyclic-rank actions (Checks-IsLinkable actions c) c.acyclic in
    record {
      some_action = (nonempty_iff actions).0 c.nonempty;
      single_writer = (claim_outputs_lem actions [] (produced_states actions) c.claimed).1;
      no_dangling = λ s used.
          sym (mem-keys_produced actions s)
          ∙ produced_iff (produced_states actions) (uses_of actions) s
              (check_produced_lem (produced_states actions) (uses_of actions) c.checked) used;
      rank = rank;
      acyclic = ranked;
      some_terminal = (nonempty_iff (terminal_state_ids actions)).0 c.terminal;
    }

IsRecipeGraph-Checks : (actions : List Action) → IsRecipeGraph actions → Checks actions
IsRecipeGraph-Checks actions v =
    let produced =
      produced-of (produced_states actions) (uses_of actions)
        (λ s used. mem-keys_produced actions s ∙ v.no_dangling s used) in
    record {
      nonempty = (nonempty_iff actions).1 v.some_action;
      claimed =
          unfold produced_states in
          claim_outputs-eq_ok actions [] v.single_writer (λ n k. cc (mem-nil n));
      checked = check_produced-eq_ok (produced_states actions) (uses_of actions) produced;
      acyclic = rank-assert_acyclic actions v.rank v.acyclic (
          IsLinkable-of_rank (produced_states actions) (nodes_of actions) (uses_of actions) v.rank
            v.acyclic (produced-IsLinkable actions produced));
      terminal = (nonempty_iff (terminal_state_ids actions)).1 v.some_terminal;
    }

pub validate_graph_iff :
    (actions : List Action) → (validate_graph actions ≡ ok tt) ↔ IsRecipeGraph actions
validate_graph_iff actions = (
  λ h. Checks-IsRecipeGraph actions (checks actions h),
  λ v. checks-ok actions (IsRecipeGraph-Checks actions v),
)
