-- ===== src/Cooklang/Steps/Safe.antt =====
-- cooklang/parse.py: the steps of a document are read, or refused with one of two errors.
use snap_cook.Common.{Str, ℕ, suc, ◌≡◌, refl, sym, subst, true, [], ◌∷◌, List, length, arith}
use snap_cook.Errors.{ok, ◌>>◌, >>=-ok}
use snap_cook.Dict.{Dict, mem, distinct}
use snap_cook.Registry.{IngredientRegistry}
use snap_cook.Schema.Graph.{
  Action, FoodState, TextChunk, chunk_resolves, check_chunks, check_text,
  internal_references_resolve,
}
use snap_cook.Cooklang.Safe.{Safe, ok-Safe, >>=-Safe}
use snap_cook.Cooklang.Scanner.{Parsed, nothing_yet}
use snap_cook.Cooklang.Scanner.Kept.{Here, AllHere, Consistent}
use snap_cook.Cooklang.Scanner.Scan.{run-Safe}
use snap_cook.Cooklang.Steps.{
  one_line, produced, template_of, split_produce, action_of, parse_step, parse_steps,
}

pub nothing_yet-Consistent : (index : ℕ) → Consistent index nothing_yet
unfolding mem distinct AllHere
nothing_yet-Consistent index = ((refl, λ k lt. refl), (refl, λ k lt. refl), tt)

-- An action that passes its own check.
abbrev pub Checked : Action → Type 0
Checked a = internal_references_resolve a ≡ ok tt

abbrev pub AllChecked : List Action → Type 0
AllChecked [] = Unit
AllChecked (a ∷ actions) = Checked a × AllChecked actions

module _ (lower : Str → Str) where
  resolves-Here :
      (index : ℕ) (p : Parsed) (produces : FoodState) (c : TextChunk)
      → Here p c
      → chunk_resolves (action_of lower index p produces) c ≡ true
  unfolding Here chunk_resolves
  resolves-Here index p produces (TextChunk.text t) h = refl
  resolves-Here index p produces (TextChunk.ingredient ref) h = h
  resolves-Here index p produces (TextChunk.cookware ref) h = h
  resolves-Here index p produces (TextChunk.state ref) h = h
  resolves-Here index p produces (TextChunk.timer i) h = h
  resolves-Here index p produces (TextChunk.temperature i) h = h

  check_chunks-AllHere :
      (index : ℕ) (p : Parsed) (produces : FoodState) (cs : List TextChunk)
      → AllHere p cs
      → check_chunks (action_of lower index p produces) cs ≡ ok tt
  unfolding AllHere check_chunks
  check_chunks-AllHere index p produces [] h = refl
  check_chunks-AllHere index p produces (c ∷ cs) h =
      rw (resolves-Here index p produces c h.0) (check_chunks-AllHere index p produces cs h.1)

  check_text-AllHere :
      (index : ℕ) (p : Parsed) (produces : FoodState) (cs : List TextChunk)
      → AllHere p cs
      → check_text (action_of lower index p produces) (template_of lower cs) ≡ ok tt
  unfolding check_text
  check_text-AllHere index p produces [] h = refl
  check_text-AllHere index p produces (c ∷ cs) h = check_chunks-AllHere index p produces (c ∷ cs) h

  -- The action of consistent parts passes its own check.
  references_resolve :
      (index : ℕ) (p : Parsed) (produces : FoodState)
      → Consistent index p
      → internal_references_resolve (action_of lower index p produces) ≡ ok tt
  unfolding internal_references_resolve
  references_resolve index p produces h =
      rw (h.0.0, h.1.0) (check_text-AllHere index p produces p.chunks h.2)

  behind_check :
      (a : Action) (names : Dict Str)
      → Checked a
      → Safe
          (λ (r : Action × Dict Str). Checked r.0)
          (internal_references_resolve a >> ok (a, names))
  behind_check a names h =
      subst (Safe (λ (r : Action × Dict Str). Checked r.0)) (sym (>>=-ok (λ u. ok (a, names)) h))
        (ok-Safe (λ (r : Action × Dict Str). Checked r.0) (a, names) h)

  parse_step-Safe :
      (block : Str) (index : ℕ) (lang : Str) (registry : IngredientRegistry) (names : Dict Str)
      → Safe
          (λ (r : Action × Dict Str). Checked r.0)
          (parse_step lower block index lang registry names)
  unfolding parse_step
  parse_step-Safe block index lang registry names =
      let text = (split_produce lower (one_line block)).0 in
      let name = (split_produce lower (one_line block)).1 in
      >>=-Safe (Consistent index) _ _ _
        (run-Safe lower index lang registry names (length text) text [] nothing_yet (omega arith)
          (nothing_yet-Consistent index))
        (λ p kept.
          let made = produced lower index lang name names in
          behind_check (action_of lower index p made.0) made.1
            (references_resolve index p made.0 kept))

  -- The steps of any text are read to the end: a ValidationError or an InvalidOperation is raised,
  -- or every action that is built passes its own check. No scan runs out of fuel, and no reference
  -- dangles.
  pub parse_steps-Safe :
      (blocks : List Str) (index : ℕ) (lang : Str) (registry : IngredientRegistry)
      (names : Dict Str)
      → Safe AllChecked (parse_steps lower blocks index lang registry names)
  unfolding parse_steps
  parse_steps-Safe [] index lang registry names = ok-Safe AllChecked [] tt
  parse_steps-Safe (block ∷ blocks) index lang registry names =
      >>=-Safe (λ (r : Action × Dict Str). Checked r.0) AllChecked _ _
        (parse_step-Safe block index lang registry names)
        (λ r checked.
          >>=-Safe AllChecked AllChecked _ _ (parse_steps-Safe blocks (suc index) lang registry r.1)
            (λ actions all. ok-Safe AllChecked (r.0 ∷ actions) (checked, all)))
