-- ===== src/Render/Picture/Closed.antt =====
-- Every edge of the graph joins two of its nodes, and no two nodes have one id.
use snap_cook.Common.{
  Str, codes, str_eq_refl, ◌≡◌, refl, ◌∙◌, true, List, [], ◌∷◌, ◌++◌, map, arith,
}
use snap_cook.Errors.{ok, >>=-ok}
use snap_cook.Dict.{Dict, mem, keys, distinct, fetch-some}
use snap_cook.Dict.Laws.{get-of_mem}
use snap_cook.Count.{mem-append}
use snap_cook.Schema.Graph.{Action}
use snap_cook.Schema.Recipe.{ids, outputs}
use snap_cook.Render.Toposort.Lookups.{AllActions}
use snap_cook.Render.Model.{RenderedStep, RenderNode, RenderEdge, RenderGraph, state, join}
use snap_cook.Render.Labels.{edge_label, or_text}
use snap_cook.Render.Picture.{
  add_ingredients, zipped_ids, add_node, edge, add_edges, add_steps, build_graph,
}
use snap_cook.Render.Picture.Nodes.{
  node_ids, Grows, add_states-Extended, add_ingredients-Extended, add_node-Grows, add_node-own,
  distinct-add_node,
}

-- The two ends of every edge are nodes.
abbrev pub AllJoined : List RenderNode → List RenderEdge → Type 0
AllJoined nodes [] = Unit
AllJoined nodes (e ∷ edges) =
    (mem e.src (node_ids nodes) ≡ true)
    × (mem e.dst (node_ids nodes) ≡ true)
    × AllJoined nodes edges

pub record IsClosed (g : RenderGraph) : Type 0 where
  pub once : distinct (node_ids g.nodes) ≡ true
  pub joined : AllJoined g.nodes g.edges

AllJoined-Grows :
    (nodes nodes' : List RenderNode) (edges : List RenderEdge)
    → Grows nodes nodes'
    → AllJoined nodes edges
    → AllJoined nodes' edges
AllJoined-Grows nodes nodes' [] g h = tt
AllJoined-Grows nodes nodes' (e ∷ edges) g h =
    (g e.src h.0, g e.dst h.1, AllJoined-Grows nodes nodes' edges g h.2)

AllJoined-append :
    (nodes : List RenderNode) (edges more : List RenderEdge)
    → AllJoined nodes edges
    → AllJoined nodes more
    → AllJoined nodes (edges ++ more)
AllJoined-append nodes [] more h k = k
AllJoined-append nodes (e ∷ edges) more h k = (h.0, h.1, AllJoined-append nodes edges more h.2 k)

from_both :
    (l m after : List Str)
    → ((k : Str) → mem k l ≡ true → mem k after ≡ true)
    → ((k : Str) → mem k m ≡ true → mem k after ≡ true)
    → (k : Str) → mem k (l ++ m) ≡ true
    → mem k after ≡ true
from_both l m after h g k e = ground (arith, mem-append k l m, h k, g k, e)

pub AllActions-map :
    {P Q : Action → Type 0} (l : List Action)
    → ((a : Action) → P a → Q a)
    → AllActions P l
    → AllActions Q l
AllActions-map [] h all = tt
AllActions-map (a ∷ l) h all = (h a all.0, AllActions-map l h all.1)

AllJoined-into :
    (nodes : List RenderNode) (inputs : List Str) (dst label : Str)
    → ((k : Str) → mem k inputs ≡ true → mem k (node_ids nodes) ≡ true)
    → mem dst (node_ids nodes) ≡ true
    → AllJoined nodes (map (λ (s : Str). edge s dst label) inputs)
unfolding mem
AllJoined-into nodes [] dst label all h = tt
AllJoined-into nodes (s ∷ inputs) dst label all h = (
  all s (ground (arith, str_eq_refl s)),
  h,
  AllJoined-into nodes inputs dst label (λ k m. all k (ground arith)) h,
)

-- What adding the edges of a step keeps.
record Kept (nodes : List RenderNode) (p : List RenderNode × List RenderEdge) : Type 0 where
  once : distinct (node_ids p.0) ≡ true
  grows : Grows nodes p.0
  joined : AllJoined p.0 p.1

add_edges-Kept :
    (a : Action) (step : RenderedStep) (inputs : List Str) (nodes : List RenderNode)
    (edges : List RenderEdge)
    → distinct (node_ids nodes) ≡ true
    → AllJoined nodes edges
    → ((k : Str) → mem k inputs ≡ true → mem k (node_ids nodes) ≡ true)
    → mem a.produces.id (node_ids nodes) ≡ true
    → Kept nodes (add_edges a step inputs nodes edges)
unfolding add_edges
add_edges-Kept a step [] nodes edges once joined all target =
    let node : RenderNode = record {
      id = codes "start_" ++ a.id;
      label = codes "start";
      kind = state;
    } in
    record {
      once = distinct-add_node node nodes once;
      grows = add_node-Grows node nodes;
      joined =
          AllJoined-append (add_node node nodes) edges _
            (AllJoined-Grows nodes _ edges (add_node-Grows node nodes) joined)
            (add_node-own node nodes, add_node-Grows node nodes _ target, tt);
    }
add_edges-Kept a step (src ∷ []) nodes edges once joined all target = record {
  once = once;
  grows = λ k h. h;
  joined =
      AllJoined-append nodes edges _ joined
        (AllJoined-into nodes (src ∷ []) a.produces.id (edge_label step) all target);
}
add_edges-Kept a step (src ∷ (src' ∷ inputs)) nodes edges once joined all target =
    let node : RenderNode = record {
      id = codes "join_" ++ a.id;
      label = or_text step.verb (codes "combine");
      kind = join;
    } in
    let g = add_node-Grows node nodes in
    record {
      once = distinct-add_node node nodes once;
      grows = g;
      joined =
          AllJoined-append (add_node node nodes) _ _
            (AllJoined-append (add_node node nodes) edges _ (AllJoined-Grows nodes _ edges g joined)
              (AllJoined-into (add_node node nodes) (src ∷ src' ∷ inputs) node.id []
                (λ k h. g k (all k h)) (add_node-own node nodes)))
            (add_node-own node nodes, g _ target, tt);
    }

module _ (steps_by_action : Dict RenderedStep) where
  -- With a step for every action, the outputs and the states that are used among the nodes.
  add_steps-Kept :
      (ordered : List Action) (nodes : List RenderNode) (edges : List RenderEdge)
      → distinct (node_ids nodes) ≡ true
      → AllJoined nodes edges
      → ((k : Str) → mem k (ids ordered) ≡ true → mem k (keys steps_by_action) ≡ true)
      → ((k : Str) → mem k (outputs ordered) ≡ true → mem k (node_ids nodes) ≡ true)
      → AllActions (λ a. (k : Str) → mem k a.uses ≡ true → mem k (node_ids nodes) ≡ true) ordered
      → (p : List RenderNode × List RenderEdge) × (add_steps ordered steps_by_action nodes edges
          ≡ ok p)
        × Kept nodes p
  unfolding add_steps mem
  add_steps-Kept [] nodes edges once joined known made used =
      ((nodes, edges), refl, record { once = once; grows = λ k h. h; joined = joined })
  add_steps-Kept (a ∷ ordered) nodes edges once joined known made used =
      let (step, e) =
        get-of_mem steps_by_action a.id (known a.id (ground (arith, str_eq_refl a.id))) in
      let ext = add_ingredients-Extended a.ingredients step.ingredients nodes in
      let nodes1 = add_ingredients a.ingredients step.ingredients nodes in
      let inputs = a.uses ++ zipped_ids a.ingredients step.ingredients in
      let kept =
        add_edges-Kept a step inputs nodes1 edges (ext.once once)
          (AllJoined-Grows nodes nodes1 edges ext.grows joined)
          (from_both a.uses (zipped_ids a.ingredients step.ingredients) (node_ids nodes1)
            (λ k h. ext.grows k (used.0 k h)) ext.adds)
          (ext.grows a.produces.id
            (made a.produces.id (ground (arith, str_eq_refl a.produces.id)))) in
      let added = add_edges a step inputs nodes1 edges in
      let (p, f, later) =
        add_steps-Kept ordered added.0 added.1 kept.once kept.joined (λ k h. known k (ground arith))
          (λ k h. kept.grows k (ext.grows k (made k (ground arith))))
          (AllActions-map ordered (λ b u k h. kept.grows k (ext.grows k (u k h))) used.1) in
      (
        p,
        >>=-ok _ (fetch-some steps_by_action a.id step e) ∙ f,
        record {
          once = later.once;
          grows = λ k h. later.grows k (kept.grows k (ext.grows k h));
          joined = later.joined;
        },
      )

-- With a step for every action, a label for every state and no use of a state that none of the
-- actions produces, the graph is built, and it is closed.
pub build_graph-IsClosed :
    (ordered : List Action) (steps_by_action : Dict RenderedStep) (state_names : Dict Str)
    → ((k : Str) → mem k (ids ordered) ≡ true → mem k (keys steps_by_action) ≡ true)
    → ((k : Str) → mem k (outputs ordered) ≡ true → mem k (keys state_names) ≡ true)
    → AllActions (λ a. (k : Str) → mem k a.uses ≡ true → mem k (outputs ordered) ≡ true) ordered
    → (g : RenderGraph) × (build_graph ordered steps_by_action state_names ≡ ok g) × IsClosed g
unfolding build_graph distinct
build_graph-IsClosed ordered steps_by_action state_names known named used =
    let (nodes, e, ext) = add_states-Extended ordered state_names [] named in
    let (p, f, kept) =
      add_steps-Kept steps_by_action ordered nodes [] (ext.once refl) tt known ext.adds
        (AllActions-map ordered (λ a u k h. ext.adds k (u k h)) used) in
    (_, >>=-ok _ e ∙ >>=-ok _ f, record { once = kept.once; joined = kept.joined })
