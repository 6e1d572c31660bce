-- ===== src/Render/Prose/Slots.antt =====
-- The slots of a template find their parts.
use snap_cook.Common.{
  Str, str_eq_refl, ℕ, zero, suc, ◌≡◌, ◌≢◌, refl, sym, subst, true, Option, none, some, List, [],
  ◌∷◌, ◌++◌, map, length, get_elem?, arith,
}
use snap_cook.Common.Int.{pos}
use snap_cook.Errors.{Result, ok, ◌>>=◌}
use snap_cook.Dict.{Dict, get, fetch, keys, mem, fetch-some}
use snap_cook.Dict.Laws.{Entries, get-Entries, get-of_mem}
use snap_cook.Schema.I18n.{LocalizedText, source_is_present}
use snap_cook.Schema.I18n.Fallback.{resolve-Resolved}
use snap_cook.Schema.Ingredient.{IngredientUse}
use snap_cook.Schema.Graph.{Action, TextChunk}
use snap_cook.Schema.Graph.References.{ingredient_ids, cookware_ids, Resolves, AllResolve}
use snap_cook.Render.Model.{RenderedIngredient, RenderedTimer, RenderedTemperature}
use snap_cook.Render.Labels.{ingredient_inline}
use snap_cook.Render.Ingredients.{resolve_localized, resolve_optional}
use snap_cook.Render.Prose.{Parts, index_of, chunk_text, chunk_texts, fetch_uses}

-- The texts have their source languages, as their own validation asks.
abbrev pub IsSourced : Option LocalizedText → Type 0
IsSourced none = Unit
IsSourced (some t) = source_is_present t ≡ true

abbrev pub AllSourced : List TextChunk → Type 0
AllSourced [] = Unit
AllSourced (TextChunk.text t ∷ chunks) = (source_is_present t ≡ true) × AllSourced chunks
AllSourced (chunk ∷ chunks) = AllSourced chunks

abbrev pub Gives : {A : Type 0} → Result A → Type 0
Gives {A} r = (a : A) × (r ≡ ok a)

>>=-Gives :
    {A B : Type 0} (r : Result A) (next : A → Result B)
    → Gives r
    → ((a : A) → r ≡ ok a → Gives (next a))
    → Gives (r >>= next)
>>=-Gives r next (a, e) h = let (b, f) = h a e in (b, rw e f)

pub resolve_localized-Gives :
    (t : LocalizedText) (source_lang lang : Str)
    → source_is_present t ≡ true
    → Gives (resolve_localized t source_lang lang)
unfolding resolve_localized
resolve_localized-Gives t source_lang lang h =
    let r = resolve-Resolved t lang (some source_lang) h in (r.text, rw r.runs refl)

pub resolve_optional-Gives :
    (o : Option LocalizedText) (source_lang lang : Str)
    → IsSourced o
    → Gives (resolve_optional o source_lang lang)
unfolding resolve_optional
resolve_optional-Gives none source_lang lang h = (none, refl)
resolve_optional-Gives (some t) source_lang lang h =
    let (s, e) = resolve_localized-Gives t source_lang lang h in (some s, rw e refl)

fetch-Gives : {V : Type 0} (d : Dict V) (k : Str) → mem k (keys d) ≡ true → Gives (fetch d k)
fetch-Gives d k h = let (v, e) = get-of_mem d k h in (v, fetch-some d k v e)

-- What is known of the parts of an action.
pub record Covers (a : Action) (parts : Parts) : Type 0 where
  pub ingredients :
      (k : Str) → mem k (ingredient_ids a) ≡ true → mem k (keys parts.ingredients) ≡ true
  pub own : Entries (λ k (r : RenderedIngredient). r.use_id ≡ k) parts.ingredients
  pub cookware : (k : Str) → mem k (cookware_ids a) ≡ true → mem k (keys parts.cookware) ≡ true
  pub timers : length parts.timers ≡ length a.timers
  pub temperatures : length parts.temperatures ≡ length a.temperatures

zero_is_not_suc : (n : ℕ) → 0 ≢ suc n
zero_is_not_suc n h = omega (arith, h)

place-Gives :
    {A B : Type 0} (l : List A) (m : List B) (n : ℕ) (x : A)
    → length m ≡ length l
    → get_elem? l n ≡ some x
    → Gives (index_of m (pos n))
unfolding index_of
place-Gives [] m n x h e = cc e
place-Gives (y ∷ l) [] n x h e = elim (zero_is_not_suc (length l) h) [ ]
place-Gives (y ∷ l) (z ∷ m) zero x h e = (z, refl)
place-Gives (y ∷ l) (z ∷ m) (suc n) x h e = place-Gives l m n x (omega (arith, h)) e

ap-Gives : {A B : Type 0} (r : Result A) (f : A → B) → Gives r → Gives (r >>= λ a. ok (f a))
ap-Gives r f (a, e) = (f a, rw e refl)

head_sourced :
    (chunk : TextChunk) (chunks : List TextChunk)
    → AllSourced (chunk ∷ chunks)
    → AllSourced (chunk ∷ [])
head_sourced (TextChunk.text t) chunks s = (s.0, tt)
head_sourced (TextChunk.ingredient ref) chunks s = tt
head_sourced (TextChunk.cookware ref) chunks s = tt
head_sourced (TextChunk.state ref) chunks s = tt
head_sourced (TextChunk.timer i) chunks s = tt
head_sourced (TextChunk.temperature i) chunks s = tt

rest_sourced :
    (chunk : TextChunk) (chunks : List TextChunk) → AllSourced (chunk ∷ chunks) → AllSourced chunks
rest_sourced (TextChunk.text t) chunks s = s.1
rest_sourced (TextChunk.ingredient ref) chunks s = s
rest_sourced (TextChunk.cookware ref) chunks s = s
rest_sourced (TextChunk.state ref) chunks s = s
rest_sourced (TextChunk.timer i) chunks s = s
rest_sourced (TextChunk.temperature i) chunks s = s

module _ (source_lang lang : Str) (a : Action) (parts : Parts) (state_names : Dict Str)
    (covers : Covers a parts) where
  chunk_text-Gives :
      (chunk : TextChunk)
      → Resolves a chunk
      → AllSourced (chunk ∷ [])
      → Gives (chunk_text source_lang lang parts state_names chunk)
  unfolding chunk_text
  chunk_text-Gives (TextChunk.text t) r s = resolve_localized-Gives t source_lang lang s.0
  chunk_text-Gives (TextChunk.ingredient ref) r s =
      ap-Gives _ ingredient_inline (fetch-Gives parts.ingredients ref (covers.ingredients ref r))
  chunk_text-Gives (TextChunk.cookware ref) r s =
      fetch-Gives parts.cookware ref (covers.cookware ref r)
  chunk_text-Gives (TextChunk.state ref) r s = (_, refl)
  chunk_text-Gives (TextChunk.timer index) (n, t, e, f) s =
      ap-Gives _ (λ (d : RenderedTimer). d.display)
        (subst (λ i. Gives (index_of parts.timers i)) (sym e)
          (place-Gives a.timers parts.timers n t covers.timers f))
  chunk_text-Gives (TextChunk.temperature index) (n, t, e, f) s =
      ap-Gives _ (λ (d : RenderedTemperature). d.display)
        (subst (λ i. Gives (index_of parts.temperatures i)) (sym e)
          (place-Gives a.temperatures parts.temperatures n t covers.temperatures f))

  pub chunk_texts-Gives :
      (chunks : List TextChunk)
      → AllResolve a chunks
      → AllSourced chunks
      → Gives (chunk_texts source_lang lang parts state_names chunks)
  unfolding chunk_texts
  chunk_texts-Gives [] r s = ([], refl)
  chunk_texts-Gives (chunk ∷ chunks) r s =
      let (t, e) = chunk_text-Gives chunk r.0 (head_sourced chunk chunks s) in
      let (u, f) = chunk_texts-Gives chunks r.1 (rest_sourced chunk chunks s) in
      (t ++ u, rw e (rw f refl))

own_id :
    (d : Dict RenderedIngredient) (k : Str) (r : RenderedIngredient)
    → Entries (λ k (r : RenderedIngredient). r.use_id ≡ k) d
    → get d k ≡ some r
    → r.use_id ≡ k
own_id d k r own e = get-Entries (λ k (r : RenderedIngredient). r.use_id ≡ k) d k r own e

abbrev pub use_ids : List RenderedIngredient → List Str
use_ids l = map (λ (r : RenderedIngredient). r.use_id) l

abbrev pub item_ids : List IngredientUse → List Str
item_ids l = map (λ (u : IngredientUse). u.id) l

-- The ingredients are found again, in their order.
pub fetch_uses-Gives :
    (d : Dict RenderedIngredient) (items : List IngredientUse)
    → ((k : Str) → mem k (item_ids items) ≡ true → mem k (keys d) ≡ true)
    → Entries (λ k (r : RenderedIngredient). r.use_id ≡ k) d
    → (l : List RenderedIngredient) × (fetch_uses d items ≡ ok l) × (use_ids l ≡ item_ids items)
unfolding fetch_uses mem
fetch_uses-Gives d [] all own = ([], refl, refl)
fetch_uses-Gives d (item ∷ items) all own =
    let (r, e) = get-of_mem d item.id (all item.id (ground (arith, str_eq_refl item.id))) in
    let (l, f, g) = fetch_uses-Gives d items (λ k h. all k (ground arith)) own in
    (r ∷ l, rw (fetch-some d item.id r e) (rw f refl), cc (g, own_id d item.id r own e))
