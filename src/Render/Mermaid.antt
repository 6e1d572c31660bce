-- ===== src/Render/Mermaid.antt =====
-- render/mermaid.py: the graph of a recipe as a flowchart.
use snap_cook.Common.{Str, codes, ℕ, ◌==◌, ◌||◌, List, [], ◌∷◌, ◌++◌, map, if◌then◌else◌}
use snap_cook.Units.Registry.{strip_right}
use snap_cook.Render.Labels.{join_with}
use snap_cook.Render.Model.{NodeKind, RenderNode, RenderEdge, RenderModel}

-- `_safe_id`
unfoldable pub safe_id : Str → Str
safe_id node_id = map (λ (c : ℕ). if (c == 58) || (c == 46) || (c == 45) then 95 else c) node_id

-- `_escape`
unfoldable pub escape : Str → Str
escape [] = []
escape (c ∷ s) = let rest = escape s in if c == 34 then codes "#quot;" ++ rest else c ∷ rest

-- The brackets of a kind of node.
unfoldable pub shape : NodeKind → Str → Str
shape NodeKind.ingredient text = codes "([\"" ++ text ++ codes "\"])"
shape NodeKind.join text = codes "{\"" ++ text ++ codes "\"}"
shape NodeKind.state text = codes "[\"" ++ text ++ codes "\"]"

-- `_node`
unfoldable pub node_text : RenderNode → Str
node_text node = safe_id node.id ++ shape node.kind (escape node.label)

abbrev pub arrow : (label : Str) → Str
arrow [] = codes " --> "
arrow (c ∷ label) = codes " -->|" ++ escape (c ∷ label) ++ codes "| "

-- `_edge`
unfoldable pub edge_text : RenderEdge → Str
edge_text edge = safe_id edge.src ++ arrow edge.label ++ safe_id edge.dst

-- The empty line between nodes and edges.
abbrev pub gap : List RenderNode → List RenderEdge → List Str
gap [] edges = []
gap (node ∷ nodes) [] = []
gap (node ∷ nodes) (edge ∷ edges) = [] ∷ []

-- `render_mermaid`
unfoldable pub render_mermaid : RenderModel → Str
render_mermaid model =
    let graph = model.graph in
    strip_right (
      join_with (codes "\n") (
        codes "flowchart TD"
          ∷ map (λ (node : RenderNode). codes "    " ++ node_text node) graph.nodes
        ++ gap graph.nodes graph.edges
        ++ map (λ (edge : RenderEdge). codes "    " ++ edge_text edge) graph.edges))
    ++ codes "\n"
