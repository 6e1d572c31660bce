-- ===== src/Render/Build/Drawn.antt =====
-- A valid recipe whose parts render has a model, with a step for each action and a closed graph.
use snap_cook.Common.{
  Str, codes, ◌++◌, ℕ, suc, ◌≡◌, refl, ap, ◌∙◌, true, ◌||◌, Option, none, some, List, [], ◌∷◌, map,
  arith,
}
use mathlib.Core.Path.{ap₂}
use snap_cook.Errors.{ok, >>=-ok}
use snap_cook.Issues.{IssueCollector}
use snap_cook.Dict.{Dict, mem, keys, set, distinct}
use snap_cook.Dict.Laws.{mem-keys-set}
use snap_cook.Schema.I18n.{LocalizedText, source_is_present}
use snap_cook.Schema.Graph.{Action, internal_references_resolve}
use snap_cook.Schema.Graph.References.{chunks_of}
use snap_cook.Schema.Recipe.{Recipe, ids, outputs, validate_graph}
use snap_cook.Canonical.Numbers.{text_of}
use snap_cook.Render.Ingredients.{resolve_localized}
use snap_cook.Registry.{IngredientRegistry}
use snap_cook.Render.Toposort.{topological_actions}
use snap_cook.Render.Toposort.Runs.{valid-Sorted}
use snap_cook.Render.Toposort.Steps.{ordered-steps}
use snap_cook.Render.Toposort.Lookups.{AllActions}
use snap_cook.Render.Model.{RenderedStep, RenderModel}
use snap_cook.Render.Options.{RenderOptions, Outside}
use snap_cook.Render.Prose.{render_parts}
use snap_cook.Render.Prose.Slots.{
  Gives, IsSourced, AllSourced, resolve_localized-Gives, resolve_optional-Gives,
}
use snap_cook.Render.Prose.Covered.{there}
use snap_cook.Render.Prose.Complete.{render_step_complete}
use snap_cook.Render.Picture.{state_label, state_labels}
use snap_cook.Render.Picture.Closed.{IsClosed, build_graph-IsClosed}
use snap_cook.Render.Build.{render_steps, by_action, registry_or_default, build_render_model}
use snap_cook.Render.Build.Ordered.{AllActions-perm, uses-made}

module _ (outside : Outside) (source_lang : Str) (opts : RenderOptions)
    (registry : IngredientRegistry) where
  -- The checks of an action and of its texts passed, and its parts render.
  pub record IsRenderable (a : Action) : Type 0 where
    pub references : internal_references_resolve a ≡ ok tt
    pub verb : IsSourced a.verb
    pub name : IsSourced a.produces.name
    pub prose : AllSourced (chunks_of a.text)
    pub parts :
        (issues : IssueCollector) → Gives (render_parts outside source_lang opts registry a issues)

  state_label-Gives :
      (a : Action) (index : ℕ)
      → IsSourced a.produces.name
      → IsSourced a.verb
      → Gives (state_label source_lang opts.lang a index)
  unfolding state_label
  state_label-Gives a index name verb = named a.produces.name name
    where
      by_verb :
          (o : Option LocalizedText)
          → IsSourced o
          → Gives (elim o [
            | some verb ↦ resolve_localized verb source_lang opts.lang
            | none ↦ ok (codes "step " ++ text_of index)
          ])
      by_verb none h = (_, refl)
      by_verb (some t) h = resolve_localized-Gives t source_lang opts.lang h

      named :
          (o : Option LocalizedText)
          → IsSourced o
          → Gives (elim o [
            | some name ↦ resolve_localized name source_lang opts.lang
            | none ↦ elim a.verb [
              | some verb ↦ resolve_localized verb source_lang opts.lang
              | none ↦ ok (codes "step " ++ text_of index)
            ]
          ])
      named none h = by_verb a.verb verb
      named (some t) h = resolve_localized-Gives t source_lang opts.lang h

  -- Every state gets a label.
  state_labels-Gives :
      (ordered : List Action) (index : ℕ) (labels : Dict Str)
      → AllActions IsRenderable ordered
      → (d : Dict Str) × (state_labels source_lang opts.lang ordered index labels ≡ ok d)
        × ((k : Str)
            → (mem k (outputs ordered) || mem k (keys labels)) ≡ true
            → mem k (keys d) ≡ true)
  unfolding state_labels mem
  state_labels-Gives [] index labels all = (labels, refl, λ k h. h)
  state_labels-Gives (a ∷ ordered) index labels all =
      let (label, e) = state_label-Gives a index all.0.name all.0.verb in
      let (d, f, named) =
        state_labels-Gives ordered (suc index) (set a.produces.id label labels) all.1 in
      (
        d,
        >>=-ok _ e ∙ f,
        λ k h. named k (ground (arith, h, mem-keys-set a.produces.id k label labels)),
      )

  -- Every action gets its step.
  render_steps-Gives :
      (ordered : List Action) (index : ℕ) (state_names : Dict Str) (issues : IssueCollector)
      → AllActions IsRenderable ordered
      → (p : List RenderedStep × IssueCollector) × (render_steps outside source_lang opts registry
            ordered index state_names issues
          ≡ ok p)
        × (map (λ (s : RenderedStep). s.action_id) p.0 ≡ ids ordered)
  unfolding render_steps
  render_steps-Gives [] index state_names issues all = (([], issues), refl, refl)
  render_steps-Gives (a ∷ ordered) index state_names issues all =
      let ((parts, issues1), e) = all.0.parts issues in
      let (step, f, same, _) =
        render_step_complete outside source_lang opts a all.0.references all.0.verb all.0.prose
          registry index state_names issues issues1 parts e in
      let ((steps, issues2), g, rest) =
        render_steps-Gives ordered (suc index) state_names issues1 all.1 in
      ((step ∷ steps, issues2), >>=-ok _ f ∙ >>=-ok _ g, ap₂ (λ (x : Str) l. x ∷ l) same rest)

keys-by_action :
    (steps : List RenderedStep)
    → keys (map (λ (s : RenderedStep). (s.action_id, s)) steps)
      ≡ map (λ (s : RenderedStep). s.action_id) steps
keys-by_action [] = refl
keys-by_action (s ∷ steps) = ap (λ l. s.action_id ∷ l) (keys-by_action steps)

-- For a recipe that passes validation, with different action ids, whose actions pass their own
-- checks, whose texts have their source languages and whose parts render, the model is built: its
-- steps are those of the actions in the order of the sort, and its graph is closed.
pub build_render_model_complete :
    (outside : Outside) (recipe : Recipe) (opts : RenderOptions)
    → validate_graph recipe.actions ≡ ok tt
    → distinct (ids recipe.actions) ≡ true
    → source_is_present recipe.title ≡ true
    → IsSourced recipe.description
    → AllActions
        (IsRenderable outside recipe.source_lang opts (registry_or_default outside opts.registry))
        recipe.actions
    → (model : RenderModel) × (ordered : List Action) × (build_render_model outside recipe opts
        ≡ ok model)
      × (topological_actions recipe.actions ≡ ok ordered)
      × (map (λ (s : RenderedStep). s.action_id) model.steps ≡ ids ordered)
      × IsClosed model.graph
unfolding build_render_model
build_render_model_complete outside recipe opts valid once title description all =
    let registry = registry_or_default outside opts.registry in
    let s = valid-Sorted recipe.actions valid in
    let p = ordered-steps recipe.actions once s in
    let all' = AllActions-perm _ p all in
    let (names, e, named) =
      state_labels-Gives outside recipe.source_lang opts registry s.ordered 1 [] all' in
    let ((steps, issues), f, same) =
      render_steps-Gives outside recipe.source_lang opts registry s.ordered 1 names [] all' in
    let (t, g) = resolve_localized-Gives recipe.title recipe.source_lang opts.lang title in
    let (d, h) =
      resolve_optional-Gives recipe.description recipe.source_lang opts.lang description in
    let (graph, i, closed) =
      build_graph-IsClosed s.ordered (by_action steps) names
        (λ k m. there _ (ids s.ordered) k (keys-by_action steps ∙ same) m)
        (λ k m. named k (ground (arith, m))) (uses-made recipe.actions s.ordered valid p) in
    (
      _,
      s.ordered,
      >>=-ok _ s.runs ∙ >>=-ok _ e ∙ >>=-ok _ f ∙ >>=-ok _ g ∙ >>=-ok _ h ∙ >>=-ok _ i,
      s.runs,
      same,
      closed,
    )
