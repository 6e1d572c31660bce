-- ===== src/Render/Prose/Covered.antt =====
-- The parts of an action stand under the ids and at the indices of the action.
use snap_cook.Common.{Str, suc, ◌≡◌, refl, ap, ◌∙◌, true, List, [], ◌∷◌, map, length, arith}
use snap_cook.Errors.{>>=-Holds, >>=-Holds_any, Holds, ok-Holds}
use snap_cook.Issues.{IssueCollector}
use snap_cook.Dict.{put_all, keys, mem}
use snap_cook.Dict.Laws.{Entries, put_all-Entries, mem-put_all}
use snap_cook.Schema.Ingredient.{IngredientUse, CookwareUse}
use snap_cook.Schema.Graph.{Action, Timer, Temperature}
use snap_cook.Schema.Graph.References.{ingredient_ids, cookware_ids}
use snap_cook.Registry.{IngredientRegistry, get_ingredient}
use snap_cook.Render.Model.{RenderedIngredient, RenderedTimer}
use snap_cook.Render.Options.{RenderOptions, Outside, temperature_text}
use snap_cook.Render.Ingredients.{
  resolve_localized, resolve_optional, render_ingredient, render_timer, render_optional_quantity,
  note_unbound,
}
use snap_cook.Render.Prose.{
  Parts, render_ingredients, render_cookware, render_timers, render_temperatures, render_parts,
}
use snap_cook.Render.Prose.Slots.{Covers, item_ids}

pub there :
    {V : Type 0} (l : List (Str × V)) (ids : List Str) (k : Str)
    → keys l ≡ ids
    → mem k ids ≡ true
    → mem k (keys (put_all l [])) ≡ true
there l ids k e h = mem-put_all l [] k ∙ ground (arith, e, h)

abbrev OwnIds : List (Str × RenderedIngredient) → Type 0
OwnIds l = Entries (λ k (r : RenderedIngredient). r.use_id ≡ k) l

module _ (outside : Outside) (source_lang : Str) (opts : RenderOptions) where
  -- A rendered ingredient keeps the id of its use.
  render_ingredient-own :
      (item : IngredientUse) (registry : IngredientRegistry) (issues : IssueCollector)
      → Holds
          (λ (p : RenderedIngredient × IssueCollector). p.0.use_id ≡ item.id)
          (render_ingredient outside item source_lang opts registry issues)
  unfolding render_ingredient
  render_ingredient-own item registry issues =
      let ingredient = get_ingredient registry item.ingredient_id in
      >>=-Holds_any _
        (render_optional_quantity outside item.quantity ingredient opts
          (note_unbound outside item ingredient issues) item.id)
        _
        (λ q. >>=-Holds_any _ (resolve_optional item.prep source_lang opts.lang) _ (λ prep.
          >>=-Holds_any _ (resolve_optional item.notes source_lang opts.lang) _
            (λ notes. ok-Holds _ _ refl)))

  render_ingredients-own :
      (registry : IngredientRegistry) (items : List IngredientUse) (issues : IssueCollector)
      → Holds
          (λ (p : List (Str × RenderedIngredient) × IssueCollector).
            (keys p.0 ≡ item_ids items) × OwnIds p.0)
          (render_ingredients outside source_lang opts registry items issues)
  unfolding render_ingredients
  render_ingredients-own registry [] issues = ok-Holds _ _ (refl, tt)
  render_ingredients-own registry (item ∷ items) issues =
      >>=-Holds _ _ (render_ingredient outside item source_lang opts registry issues) _
        (render_ingredient-own item registry issues)
        (λ p own.
          >>=-Holds _ _ (render_ingredients outside source_lang opts registry items p.1) _
            (render_ingredients-own registry items p.1)
            (λ q rest. ok-Holds _ _ (ap (λ l. item.id ∷ l) rest.0, (own, rest.1))))

  render_cookware-own :
      (items : List CookwareUse)
      → Holds
          (λ l. keys l ≡ map (λ (u : CookwareUse). u.id) items)
          (render_cookware outside source_lang opts items)
  unfolding render_cookware
  render_cookware-own [] = ok-Holds _ _ refl
  render_cookware-own (item ∷ items) =
      >>=-Holds_any _ (resolve_localized item.name source_lang opts.lang) _ (λ name.
        >>=-Holds _ _ (render_cookware outside source_lang opts items) _ (render_cookware-own items)
          (λ l rest. ok-Holds _ _ (ap (λ l. item.id ∷ l) rest)))

  render_timers-long :
      (action_id : Str) (timers : List Timer) (issues : IssueCollector)
      → Holds
          (λ (p : List RenderedTimer × IssueCollector). length p.0 ≡ length timers)
          (render_timers outside source_lang opts action_id timers issues)
  unfolding render_timers
  render_timers-long action_id [] issues = ok-Holds _ _ refl
  render_timers-long action_id (timer ∷ timers) issues =
      >>=-Holds_any _ (render_timer outside timer source_lang opts issues action_id) _ (λ p.
        >>=-Holds _ _ (render_timers outside source_lang opts action_id timers p.1) _
          (render_timers-long action_id timers p.1) (λ q rest. ok-Holds _ _ (ap suc rest)))

  render_temperatures-long :
      (temperatures : List Temperature)
      → Holds
          (λ l. length l ≡ length temperatures)
          (render_temperatures outside source_lang opts temperatures)
  unfolding render_temperatures
  render_temperatures-long [] = ok-Holds _ _ refl
  render_temperatures-long (t ∷ temperatures) =
      >>=-Holds_any _ (temperature_text t opts.system) _ (λ display.
        >>=-Holds _ _ (render_temperatures outside source_lang opts temperatures) _
          (render_temperatures-long temperatures) (λ l rest. ok-Holds _ _ (ap suc rest)))

  -- The parts of an action are there under the ids and at the indices of the action.
  pub render_parts-Covers :
      (registry : IngredientRegistry) (a : Action) (issues : IssueCollector)
      → Holds
          (λ (p : Parts × IssueCollector). Covers a p.0)
          (render_parts outside source_lang opts registry a issues)
  unfolding render_parts
  render_parts-Covers registry a issues =
      >>=-Holds _ _ (render_ingredients outside source_lang opts registry a.ingredients issues) _
        (render_ingredients-own registry a.ingredients issues)
        (λ i own.
          >>=-Holds _ _ (render_cookware outside source_lang opts a.cookware) _
            (render_cookware-own a.cookware)
            (λ c named.
              >>=-Holds _ _ (render_timers outside source_lang opts a.id a.timers i.1) _
                (render_timers-long a.id a.timers i.1)
                (λ t long.
                  >>=-Holds _ _ (render_temperatures outside source_lang opts a.temperatures) _
                    (render_temperatures-long a.temperatures)
                    (λ d long'. ok-Holds _ _ (record {
                      ingredients = λ k h. there i.0 (ingredient_ids a) k own.0 h;
                      own =
                          put_all-Entries (λ k (r : RenderedIngredient). r.use_id ≡ k) i.0 [] own.1
                            tt;
                      cookware = λ k h. there c (cookware_ids a) k named h;
                      timers = long;
                      temperatures = long';
                    })))))
