-- ===== src/Cooklang/Scanner/Kept.antt =====
-- cooklang/parse.py: what a scanner keeps to while it collects the parts of a step.
use snap_cook.Common.{
  Str, codes, ℕ, ◌≤◌, ◌≡◌, ◌∙◌, true, List, [], ◌∷◌, ◌++◌, map, length, length-append, str_eq_refl,
  arith,
}
use snap_cook.Common.Int.{ℤ, pos}
use snap_cook.Dict.{mem}
use snap_cook.Schema.Ingredient.{IngredientUse, CookwareUse}
use snap_cook.Schema.Graph.{TextChunk, in_range}
use snap_cook.Cooklang.Scanner.{Parsed}
use snap_cook.Cooklang.Scanner.Ids.{mem-append, Fresh}

abbrev pub ingredient_ids : Parsed → List Str
ingredient_ids p = map (λ (u : IngredientUse). u.id) p.ingredients

abbrev pub cookware_ids : Parsed → List Str
cookware_ids p = map (λ (u : CookwareUse). u.id) p.cookware

-- A chunk refers to a part that was collected.
unfoldable pub Here : Parsed → TextChunk → Type 0
Here p (TextChunk.text t) = Unit
Here p (TextChunk.ingredient ref) = mem ref (ingredient_ids p) ≡ true
Here p (TextChunk.cookware ref) = mem ref (cookware_ids p) ≡ true
Here p (TextChunk.state ref) = mem ref p.uses ≡ true
Here p (TextChunk.timer i) = in_range i (length p.timers) ≡ true
Here p (TextChunk.temperature i) = in_range i (length p.temperatures) ≡ true

unfoldable pub AllHere : Parsed → List TextChunk → Type 0
AllHere p [] = Unit
AllHere p (c ∷ cs) = Here p c × AllHere p cs

-- No two uses have one id, the next id is new, and every chunk refers to a part.
abbrev pub Consistent : (index : ℕ) → Parsed → Type 0
Consistent index p =
    Fresh (codes "iuse") index p.counter (ingredient_ids p)
    × Fresh (codes "cwu") index p.counter (cookware_ids p)
    × AllHere p p.chunks

-- Nothing that was collected is dropped.
abbrev pub Grows : Parsed → Parsed → Type 0
Grows p q =
    ((k : Str) → mem k (ingredient_ids p) ≡ true → mem k (ingredient_ids q) ≡ true)
    × ((k : Str) → mem k (cookware_ids p) ≡ true → mem k (cookware_ids q) ≡ true)
    × ((k : Str) → mem k p.uses ≡ true → mem k q.uses ≡ true)
    × (length p.timers ≤ length q.timers)
    × (length p.temperatures ≤ length q.temperatures)

in_range-grows : (i : ℤ) (m n : ℕ) → m ≤ n → in_range i m ≡ true → in_range i n ≡ true
unfolding in_range
in_range-grows i m n le h = ground (arith, le, h)

pub Grows-Here : (p q : Parsed) (c : TextChunk) → Grows p q → Here p c → Here q c
unfolding Here
Grows-Here p q (TextChunk.text t) g h = tt
Grows-Here p q (TextChunk.ingredient ref) g h = g.0 ref h
Grows-Here p q (TextChunk.cookware ref) g h = g.1 ref h
Grows-Here p q (TextChunk.state ref) g h = g.2 ref h
Grows-Here p q (TextChunk.timer i) g h = in_range-grows i (length p.timers) (length q.timers) g.3 h
Grows-Here p q (TextChunk.temperature i) g h =
    in_range-grows i (length p.temperatures) (length q.temperatures) g.4 h

pub Grows-AllHere : (p q : Parsed) (cs : List TextChunk) → Grows p q → AllHere p cs → AllHere q cs
unfolding AllHere
Grows-AllHere p q [] g h = tt
Grows-AllHere p q (c ∷ cs) g h = (Grows-Here p q c g h.0, Grows-AllHere p q cs g h.1)

pub mem_kept : (k : Str) (l r : List Str) → mem k l ≡ true → mem k (l ++ r) ≡ true
mem_kept k l r h = mem-append k l r ∙ ground (arith, h)

pub mem_last : (k : Str) (l : List Str) → mem k (l ++ k ∷ []) ≡ true
unfolding mem
mem_last k l = mem-append k l (k ∷ []) ∙ ground (arith, str_eq_refl k)

pub length_more : {A : Type 0} (l r : List A) → length l ≤ length (l ++ r)
length_more l r = omega (arith, length-append l r)

pub last_place :
    {A : Type 0} (l : List A) (x : A) → in_range (pos (length l)) (length (l ++ x ∷ [])) ≡ true
unfolding in_range
last_place l x = ground (arith, length-append l (x ∷ []))

pub AllHere-append :
    (p : Parsed) (cs : List TextChunk) (c : TextChunk)
    → AllHere p cs
    → Here p c
    → AllHere p (cs ++ c ∷ [])
unfolding AllHere
AllHere-append p [] c h k = (k, tt)
AllHere-append p (d ∷ cs) c h k = (h.0, AllHere-append p cs c h.1 k)
