-- ===== src/Render/Picture/Nodes.antt =====
-- What the operations on the nodes of a graph keep and add.
use snap_cook.Common.{
  Str, str_eq, str_eq_refl, str_eq_iff, str_eq_comm, ◌≡◌, refl, ap, ◌∙◌, true, false, ◌||◌, List,
  [], ◌∷◌, ◌++◌, map, Bool-cases, inl, inr, arith,
}
use snap_cook.Errors.{ok, >>=-ok}
use snap_cook.Dict.{Dict, mem, keys, distinct, fetch-some}
use snap_cook.Dict.Laws.{get-of_mem}
use snap_cook.Count.{mem-append, mem-nil}
use snap_cook.Schema.Graph.{Action}
use snap_cook.Schema.Ingredient.{IngredientUse}
use snap_cook.Schema.Recipe.{outputs}
use snap_cook.Render.Model.{RenderedIngredient, RenderNode, state, ingredient}
use snap_cook.Render.Labels.{ingredient_inline}
use snap_cook.Render.Picture.{add_node, add_states, add_ingredients, zipped_ids}

abbrev pub node_ids : List RenderNode → List Str
node_ids nodes = map (λ (n : RenderNode). n.id) nodes

pub node_ids-append : (l m : List RenderNode) → node_ids (l ++ m) ≡ node_ids l ++ node_ids m
node_ids-append [] m = refl
node_ids-append (n ∷ l) m = ap (λ r. n.id ∷ r) (node_ids-append l m)

mem-one : (k j : Str) → mem k (j ∷ []) ≡ str_eq j k
unfolding mem
mem-one k j = ground arith

distinct-snoc :
    (l : List Str) (k : Str) → distinct l ≡ true → mem k l ≡ false → distinct (l ++ k ∷ []) ≡ true
unfolding distinct mem
distinct-snoc [] k h e = refl
distinct-snoc (j ∷ l) k h e =
    ground (arith, distinct-snoc l k, mem-append j l (k ∷ []), mem-one j k, str_eq_comm j k)

-- The node is there afterwards, and those before it.
pub mem-add_node :
    (k : Str) (node : RenderNode) (nodes : List RenderNode)
    → mem k (node_ids (add_node node nodes)) ≡ (str_eq node.id k || mem k (node_ids nodes))
unfolding add_node
mem-add_node k node nodes = elim (Bool-cases (mem node.id (node_ids nodes))) [
  | inl e ↦ rw e (ground (arith, e, str_eq_iff node.id k))
  | inr e ↦ rw e (
      ground (
        arith,
        node_ids-append nodes (node ∷ []),
        mem-append k (node_ids nodes) (node.id ∷ []),
        mem-one k node.id,
      ))
]

pub distinct-add_node :
    (node : RenderNode) (nodes : List RenderNode)
    → distinct (node_ids nodes) ≡ true
    → distinct (node_ids (add_node node nodes)) ≡ true
unfolding add_node
distinct-add_node node nodes h = elim (Bool-cases (mem node.id (node_ids nodes))) [
  | inl e ↦ rw e h
  | inr e ↦ rw (e, node_ids-append nodes (node ∷ [])) (distinct-snoc (node_ids nodes) node.id h e)
]

abbrev pub Grows : List RenderNode → List RenderNode → Type 0
Grows nodes nodes' = (k : Str) → mem k (node_ids nodes) ≡ true → mem k (node_ids nodes') ≡ true

pub add_node-Grows :
    (node : RenderNode) (nodes : List RenderNode) → Grows nodes (add_node node nodes)
add_node-Grows node nodes k h = ground (arith, mem-add_node k node nodes, h)

pub add_node-own :
    (node : RenderNode) (nodes : List RenderNode)
    → mem node.id (node_ids (add_node node nodes)) ≡ true
add_node-own node nodes = ground (arith, mem-add_node node.id node nodes, str_eq_refl node.id)

-- Nodes whose ids differ, with all those that were there before and with the ids of a list.
pub record Extended (before after : List RenderNode) (added : List Str) : Type 0 where
  pub once : distinct (node_ids before) ≡ true → distinct (node_ids after) ≡ true
  pub grows : Grows before after
  pub adds : (k : Str) → mem k added ≡ true → mem k (node_ids after) ≡ true

cons_case :
    (j : Str) (l after : List Str)
    → mem j after ≡ true
    → ((k : Str) → mem k l ≡ true → mem k after ≡ true)
    → (k : Str) → mem k (j ∷ l) ≡ true
    → mem k after ≡ true
unfolding mem
cons_case j l after own rest k h = ground (arith, own, rest k, str_eq_iff j k)

one_more :
    (node : RenderNode) (before after : List RenderNode) (added : List Str)
    → Extended (add_node node before) after added
    → Extended before after (node.id ∷ added)
one_more node before after added e = record {
  once = λ h. e.once (distinct-add_node node before h);
  grows = λ k h. e.grows k (add_node-Grows node before k h);
  adds =
      cons_case node.id added (node_ids after) (e.grows node.id (add_node-own node before)) e.adds;
}

nothing_more : (nodes : List RenderNode) → Extended nodes nodes []
nothing_more nodes = record {
  once = λ h. h;
  grows = λ k h. h;
  adds = λ k h. absurd (cc (mem-nil k, h));
}

-- With a label for every state, every state gets its node.
pub add_states-Extended :
    (ordered : List Action) (state_names : Dict Str) (nodes : List RenderNode)
    → ((k : Str) → mem k (outputs ordered) ≡ true → mem k (keys state_names) ≡ true)
    → (nodes' : List RenderNode) × (add_states ordered state_names nodes ≡ ok nodes')
      × Extended nodes nodes' (outputs ordered)
unfolding add_states mem
add_states-Extended [] state_names nodes all = (nodes, refl, nothing_more nodes)
add_states-Extended (a ∷ ordered) state_names nodes all =
    let (label, e) =
      get-of_mem state_names a.produces.id
        (all a.produces.id (ground (arith, str_eq_refl a.produces.id))) in
    let node : RenderNode = record { id = a.produces.id; label = label; kind = state } in
    let (nodes', f, ext) =
      add_states-Extended ordered state_names (add_node node nodes) (λ k h. all k (ground arith)) in
    (
      nodes',
      >>=-ok _ (fetch-some state_names a.produces.id label e) ∙ f,
      one_more node nodes nodes' _ ext,
    )

pub add_ingredients-Extended :
    (items : List IngredientUse) (rendered : List RenderedIngredient) (nodes : List RenderNode)
    → Extended nodes (add_ingredients items rendered nodes) (zipped_ids items rendered)
unfolding add_ingredients zipped_ids
add_ingredients-Extended [] rendered nodes = nothing_more nodes
add_ingredients-Extended (item ∷ items) [] nodes = nothing_more nodes
add_ingredients-Extended (item ∷ items) (r ∷ rendered) nodes =
    let node : RenderNode = record {
      id = item.id;
      label = ingredient_inline r;
      kind = ingredient;
    } in
    one_more node nodes _ _ (add_ingredients-Extended items rendered (add_node node nodes))
