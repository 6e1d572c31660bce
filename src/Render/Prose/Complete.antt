-- ===== src/Render/Prose/Complete.antt =====
-- A valid action whose parts render has a step.
use snap_cook.Common.{Str, ℕ, ◌≡◌, refl, ◌∙◌, Option, none, some}
use snap_cook.Errors.{ok, Holds-ok, >>=-ok}
use snap_cook.Issues.{IssueCollector}
use snap_cook.Dict.{Dict}
use snap_cook.Schema.Graph.{Action, TextTemplate, internal_references_resolve}
use snap_cook.Schema.Graph.References.{
  ingredient_ids, AllResolve, chunks_of, internal_references_resolve_iff,
}
use snap_cook.Registry.{IngredientRegistry}
use snap_cook.Render.Model.{RenderedStep}
use snap_cook.Render.Options.{RenderOptions, Outside}
use snap_cook.Render.Prose.{
  Parts, chunk_texts, fallback_text, render_text, render_parts, finish_step, render_step,
}
use snap_cook.Render.Prose.Slots.{
  Covers, Gives, IsSourced, AllSourced, resolve_optional-Gives, chunk_texts-Gives, fetch_uses-Gives,
  use_ids,
}
use snap_cook.Render.Prose.Covered.{render_parts-Covers}

module _ (outside : Outside) (source_lang : Str) (opts : RenderOptions) where
  module _ (a : Action) (valid : internal_references_resolve a ≡ ok tt) (verb : IsSourced a.verb)
      (sourced : AllSourced (chunks_of a.text)) where
    render_text-Gives :
        (parts : Parts) (state_names : Dict Str)
        → Covers a parts
        → Gives (render_text source_lang opts.lang a parts state_names)
    unfolding render_text fallback_text
    render_text-Gives parts state_names covers =
        by_template a.text ((internal_references_resolve_iff a).0 valid).2 sourced
      where
        by_template :
            (o : Option TextTemplate)
            → AllResolve a (chunks_of o)
            → AllSourced (chunks_of o)
            → Gives (elim o [
              | none ↦ fallback_text source_lang opts.lang a parts.ingredients
              | some template ↦ chunk_texts source_lang opts.lang parts state_names template.chunks
            ])
        by_template none r s =
            let (v, f) = resolve_optional-Gives a.verb source_lang opts.lang verb in
            let (l, g, same) =
              fetch_uses-Gives parts.ingredients a.ingredients covers.ingredients covers.own in
            (_, >>=-ok _ f ∙ >>=-ok _ g)
        by_template (some template) r s =
            chunk_texts-Gives source_lang opts.lang a parts state_names covers template.chunks r s

    finish_step_complete :
        (index : ℕ) (parts : Parts) (state_names : Dict Str)
        → Covers a parts
        → (step : RenderedStep) × (finish_step outside source_lang opts a index parts state_names
            ≡ ok step)
          × (step.action_id ≡ a.id)
          × (use_ids step.ingredients ≡ ingredient_ids a)
    unfolding finish_step
    finish_step_complete index parts state_names covers =
        let (text, e) = render_text-Gives parts state_names covers in
        let (v, f) = resolve_optional-Gives a.verb source_lang opts.lang verb in
        let (l, g, same) =
          fetch_uses-Gives parts.ingredients a.ingredients covers.ingredients covers.own in
        (_, >>=-ok _ e ∙ >>=-ok _ f ∙ >>=-ok _ g, refl, same)

    -- If an action passes the check of its references, its verb and its texts have their source
    -- languages, and its ingredients, cookware, timers and temperatures render, then its step
    -- renders; the step has the id of the action and its ingredients in their order.
    pub render_step_complete :
        (registry : IngredientRegistry) (index : ℕ) (state_names : Dict Str)
        (issues issues' : IssueCollector) (parts : Parts)
        → render_parts outside source_lang opts registry a issues ≡ ok (parts, issues')
        → (step : RenderedStep) × (render_step outside source_lang opts registry a index state_names
              issues
            ≡ ok (step, issues'))
          × (step.action_id ≡ a.id)
          × (use_ids step.ingredients ≡ ingredient_ids a)
    unfolding render_step
    render_step_complete registry index state_names issues issues' parts h =
        let (step, e, same, ids) =
          finish_step_complete index parts state_names
            (Holds-ok _ h (render_parts-Covers outside source_lang opts registry a issues)) in
        (step, >>=-ok _ h ∙ >>=-ok _ e, same, ids)
