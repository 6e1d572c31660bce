-- ===== src/Cooklang/Scanner/Parts.antt =====
-- cooklang/parse.py: each part that a scanner collects keeps the parts consistent.
use mathlib.Core.List.{map-append}
use snap_cook.Common.{
  Str, codes, ℕ, suc, ◌≡◌, sym, subst, Bool, true, List, [], ◌∷◌, ◌++◌, length, Bool-cases, inl,
  inr, arith, Option,
}
use snap_cook.Common.Int.{pos}
use snap_cook.Dict.{mem}
use snap_cook.Decimal.{Decimal}
use snap_cook.Schema.Quantity.{QuantitySpec}
use snap_cook.Schema.Graph.{TextChunk, Timer, Temperature}
use snap_cook.Schema.I18n.{mono}
use snap_cook.Registry.{IngredientRegistry}
use snap_cook.Dict.{Dict}
use snap_cook.Cooklang.Scanner.{Parsed, use_id, use_uses, add_ingredient, add_cookware, flush}
use snap_cook.Cooklang.Scanner.Ids.{Fresh, Fresh-suc, Fresh-append}
use snap_cook.Cooklang.Scanner.Kept.{
  ingredient_ids, cookware_ids, Here, Consistent, Grows-Here, Grows-AllHere, mem_kept, mem_last,
  length_more, last_place, AllHere-append,
}

pub Consistent-ingredient :
    (lower : Str → Str) (index : ℕ) (lang : Str) (registry : IngredientRegistry) (names : Dict Str)
    (optional : Bool) (name : Str) (quantity : Option QuantitySpec) (p : Parsed)
    → Consistent index p
    → Consistent index (add_ingredient lower index lang registry names optional name quantity p)
      × Here
          (add_ingredient lower index lang registry names optional name quantity p)
          (TextChunk.ingredient (use_id (codes "iuse") index (suc p.counter)))
unfolding add_ingredient Here
Consistent-ingredient lower index lang registry names optional name quantity p h =
    let q = add_ingredient lower index lang registry names optional name quantity p in
    let more : ingredient_ids q
        ≡ ingredient_ids p ++ use_id (codes "iuse") index (suc p.counter) ∷ [] =
      map-append _ p.ingredients _ in
    (
      (
        subst (Fresh (codes "iuse") index (suc p.counter)) (sym more)
            (Fresh-append (codes "iuse") index p.counter _ h.0),
        Fresh-suc (codes "cwu") index p.counter _ h.1,
        Grows-AllHere p q p.chunks
            (
              λ k m. subst (λ l. mem k l ≡ true) (sym more) (mem_kept k _ _ m),
              λ k m. m,
              λ k m. m,
              omega arith,
              omega arith,
            )
            h.2,
      ),
      subst (λ l. mem (use_id (codes "iuse") index (suc p.counter)) l ≡ true) (sym more)
          (mem_last _ (ingredient_ids p)),
    )

pub Consistent-cookware :
    (lower : Str → Str) (index : ℕ) (lang : Str) (registry : IngredientRegistry) (names : Dict Str)
    (name : Str) (quantity : Option Decimal) (p : Parsed)
    → Consistent index p
    → Consistent index (add_cookware lower index lang registry names name quantity p)
      × Here
          (add_cookware lower index lang registry names name quantity p)
          (TextChunk.cookware (use_id (codes "cwu") index (suc p.counter)))
unfolding add_cookware Here
Consistent-cookware lower index lang registry names name quantity p h =
    let q = add_cookware lower index lang registry names name quantity p in
    let more : cookware_ids q ≡ cookware_ids p ++ use_id (codes "cwu") index (suc p.counter) ∷ [] =
      map-append _ p.cookware _ in
    (
      (
        Fresh-suc (codes "iuse") index p.counter _ h.0,
        subst (Fresh (codes "cwu") index (suc p.counter)) (sym more)
            (Fresh-append (codes "cwu") index p.counter _ h.1),
        Grows-AllHere p q p.chunks
            (
              λ k m. m,
              λ k m. subst (λ l. mem k l ≡ true) (sym more) (mem_kept k _ _ m),
              λ k m. m,
              omega arith,
              omega arith,
            )
            h.2,
      ),
      subst (λ l. mem (use_id (codes "cwu") index (suc p.counter)) l ≡ true) (sym more)
          (mem_last _ (cookware_ids p)),
    )

use_uses-kept : (x k : Str) (uses : List Str) → mem k uses ≡ true → mem k (use_uses x uses) ≡ true
use_uses-kept x k uses h = elim (Bool-cases (mem x uses)) [
  | inl e ↦ rw e h
  | inr e ↦ rw e (mem_kept k uses (x ∷ []) h)
]

use_uses-mem : (x : Str) (uses : List Str) → mem x (use_uses x uses) ≡ true
use_uses-mem x uses = elim (Bool-cases (mem x uses)) [
  | inl e ↦ rw e e
  | inr e ↦ rw e (mem_last x uses)
]

pub Consistent-state :
    (index : ℕ) (x : Str) (p : Parsed)
    → Consistent index p
    → Consistent index (record p { uses = use_uses x p.uses })
      × Here (record p { uses = use_uses x p.uses }) (TextChunk.state x)
unfolding Here
Consistent-state index x p h = (
  (
    h.0,
    h.1,
    Grows-AllHere p _ p.chunks
        (λ k m. m, λ k m. m, λ k m. use_uses-kept x k p.uses m, omega arith, omega arith) h.2,
  ),
  use_uses-mem x p.uses,
)

pub Consistent-timer :
    (index : ℕ) (t : Timer) (p : Parsed)
    → Consistent index p
    → Consistent index (record p { timers = p.timers ++ t ∷ [] })
      × Here (record p { timers = p.timers ++ t ∷ [] }) (TextChunk.timer (pos (length p.timers)))
unfolding Here
Consistent-timer index t p h = (
  (
    h.0,
    h.1,
    Grows-AllHere p _ p.chunks
        (λ k m. m, λ k m. m, λ k m. m, length_more p.timers (t ∷ []), omega arith) h.2,
  ),
  last_place p.timers t,
)

pub Consistent-temperature :
    (index : ℕ) (t : Temperature) (p : Parsed)
    → Consistent index p
    → Consistent index (record p { temperatures = p.temperatures ++ t ∷ [] })
      × Here
          (record p { temperatures = p.temperatures ++ t ∷ [] })
          (TextChunk.temperature (pos (length p.temperatures)))
unfolding Here
Consistent-temperature index t p h = (
  (
    h.0,
    h.1,
    Grows-AllHere p _ p.chunks
        (λ k m. m, λ k m. m, λ k m. m, omega arith, length_more p.temperatures (t ∷ [])) h.2,
  ),
  last_place p.temperatures t,
)

pub Consistent-chunk :
    (index : ℕ) (c : TextChunk) (p : Parsed)
    → Consistent index p
    → Here p c
    → Consistent index (record p { chunks = p.chunks ++ c ∷ [] })
Consistent-chunk index c p h k = (
  h.0,
  h.1,
  Grows-AllHere p _ (p.chunks ++ c ∷ []) (λ k m. m, λ k m. m, λ k m. m, omega arith, omega arith)
      (AllHere-append p p.chunks c h.2 k),
)

pub Consistent-flushed :
    (index : ℕ) (lang literal : Str) (p : Parsed)
    → Consistent index p
    → Consistent index (flush lang literal p)
unfolding flush Here
Consistent-flushed index lang [] p h = h
Consistent-flushed index lang (x ∷ literal) p h =
    Consistent-chunk index (TextChunk.text (mono lang (x ∷ literal))) p h tt

pub Consistent-flush :
    (index : ℕ) (lang literal : Str) (p : Parsed) (c : TextChunk)
    → Consistent index p
    → Here p c
    → Consistent index (flush lang literal p) × Here (flush lang literal p) c
unfolding flush Here
Consistent-flush index lang [] p c h k = (h, k)
Consistent-flush index lang (x ∷ literal) p c h k = (
  Consistent-flushed index lang (x ∷ literal) p h,
  Grows-Here p (flush lang (x ∷ literal) p) c
      (λ k m. m, λ k m. m, λ k m. m, omega arith, omega arith) k,
)
