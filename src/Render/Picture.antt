-- ===== src/Render/Picture.antt =====
-- render/build.py: the graph of a recipe, with a label for every food-state.
pub mod Nodes
pub mod Closed
use snap_cook.Common.{
  Str, codes, str_eq, ℕ, suc, Bool, true, false, Option, none, some, List, [], ◌∷◌, ◌++◌, map,
  if◌then◌else◌,
}
use snap_cook.Errors.{Result, ok, ◌>>=◌}
use snap_cook.Dict.{Dict, fetch, set, mem}
use snap_cook.Canonical.Numbers.{text_of}
use snap_cook.Schema.Ingredient.{IngredientUse}
use snap_cook.Schema.Graph.{Action}
use snap_cook.Render.Model.{
  RenderedIngredient, RenderedStep, RenderNode, RenderEdge, RenderGraph, ingredient, state, join,
}
use snap_cook.Render.Labels.{ingredient_inline, edge_label, or_text}
use snap_cook.Render.Ingredients.{resolve_localized}

module _ (source_lang lang : Str) where
  -- The name of the state, or the verb of its action, or the number of the step.
  unfoldable pub state_label : Action → ℕ → Result Str
  state_label action index = elim action.produces.name [
    | some name ↦ resolve_localized name source_lang lang
    | none ↦ elim action.verb [
      | some verb ↦ resolve_localized verb source_lang lang
      | none ↦ ok (codes "step " ++ text_of index)
    ]
  ]

  -- `_state_labels`, from the step with this number on
  unfoldable pub state_labels : List Action → ℕ → Dict Str → Result (Dict Str)
  state_labels [] index labels = ok labels
  state_labels (action ∷ ordered) index labels = do
    label ← state_label action index
    state_labels ordered (suc index) (set action.produces.id label labels)

-- `add_node`; the ids that were seen are those of the nodes.
unfoldable pub add_node : RenderNode → List RenderNode → List RenderNode
add_node node nodes =
    if mem node.id (map (λ (n : RenderNode). n.id) nodes) then nodes else nodes ++ node ∷ []

-- The first loop: a node for every food-state.
unfoldable pub add_states :
    List Action → (state_names : Dict Str) → List RenderNode → Result (List RenderNode)
add_states [] state_names nodes = ok nodes
add_states (action ∷ ordered) state_names nodes = do
  label ← fetch state_names action.produces.id
  add_states ordered state_names
      (add_node (record { id = action.produces.id; label = label; kind = state }) nodes)

-- `zip(action.ingredients, step.ingredients)`: the nodes, and the ids as further inputs.
unfoldable pub add_ingredients :
    List IngredientUse → List RenderedIngredient → List RenderNode → List RenderNode
add_ingredients [] rendered nodes = nodes
add_ingredients (item ∷ items) [] nodes = nodes
add_ingredients (item ∷ items) (r ∷ rendered) nodes =
    add_ingredients items rendered
      (add_node (record { id = item.id; label = ingredient_inline r; kind = ingredient }) nodes)

unfoldable pub zipped_ids : List IngredientUse → List RenderedIngredient → List Str
zipped_ids [] rendered = []
zipped_ids (item ∷ items) [] = []
zipped_ids (item ∷ items) (r ∷ rendered) = item.id ∷ zipped_ids items rendered

abbrev pub edge : Str → Str → Str → RenderEdge
edge src dst label = record { src = src; dst = dst; label = label }

-- The edges of one step: one input is an edge, several meet in a node of their own.
unfoldable pub add_edges :
    Action
    → RenderedStep
    → (inputs : List Str) → List RenderNode
    → List RenderEdge
    → List RenderNode × List RenderEdge
add_edges action step [] nodes edges =
    let start = codes "start_" ++ action.id in
    (
      add_node (record { id = start; label = codes "start"; kind = state }) nodes,
      edges ++ edge start action.produces.id (edge_label step) ∷ [],
    )
add_edges action step (src ∷ []) nodes edges =
    (nodes, edges ++ edge src action.produces.id (edge_label step) ∷ [])
add_edges action step (src ∷ (src' ∷ inputs)) nodes edges =
    let id = codes "join_" ++ action.id in
    (
      add_node (record { id = id; label = or_text step.verb (codes "combine"); kind = join }) nodes,
      edges
          ++ map (λ (s : Str). edge s id []) (src ∷ src' ∷ inputs)
          ++ edge id action.produces.id (edge_label step) ∷ [],
    )

-- The second loop: the ingredients and edges of every step.
unfoldable pub add_steps :
    List Action
    → (steps_by_action : Dict RenderedStep) → List RenderNode
    → List RenderEdge
    → Result (List RenderNode × List RenderEdge)
add_steps [] steps_by_action nodes edges = ok (nodes, edges)
add_steps (action ∷ ordered) steps_by_action nodes edges = do
  step ← fetch steps_by_action action.id
  let added : List RenderNode × List RenderEdge =
      add_edges action step (action.uses ++ zipped_ids action.ingredients step.ingredients)
        (add_ingredients action.ingredients step.ingredients nodes) edges
  add_steps ordered steps_by_action added.0 added.1

-- `_build_graph`
unfoldable pub build_graph :
    List Action
    → (steps_by_action : Dict RenderedStep) → (state_names : Dict Str) → Result RenderGraph
build_graph ordered steps_by_action state_names = do
  nodes ← add_states ordered state_names []
  (nodes', edges) ← add_steps ordered steps_by_action nodes []
  ok (record { nodes = nodes'; edges = edges })
