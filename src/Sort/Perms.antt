-- ===== src/Sort/Perms.antt =====
-- What sorting keeps, and what it forgets.
use mathlib.Core.List.{Permᴰ}
use snap_cook.Common.{
  Bool, ◌||◌, str_eq, Str, str_eq, str_lt, str_lt_trans, str_lt_irrefl, str_lt-total, ◌≡◌,
  Bool-cases, inl, inr, refl, sym, ◌∙◌, ap, true, false, List, [], ◌∷◌, arith,
}
use snap_cook.Dict.{mem}
use snap_cook.Sort.{insert_text, sorted}

-- Two texts, the first below the second.
insert_text_below :
    (s t : Str) (l : List Str)
    → str_lt s t ≡ true
    → str_lt t s ≡ false
    → insert_text s (insert_text t l) ≡ insert_text t (insert_text s l)
unfolding insert_text
insert_text_below s t [] below above = ground arith
insert_text_below s t (u ∷ l) below above =
    ground (arith, str_lt_trans u s t, insert_text_below s t l below above)

below_above : (s t : Str) → str_lt s t ≡ true → str_lt t s ≡ false
below_above s t h = ground (arith, str_lt_trans s t s, str_lt_irrefl s)

insert_text_swap :
    (s t : Str) (l : List Str) → insert_text s (insert_text t l) ≡ insert_text t (insert_text s l)
insert_text_swap s t l = elim (Bool-cases (str_lt s t)) [
  | inl h ↦ insert_text_below s t l h (below_above s t h)
  | inr h ↦ elim (Bool-cases (str_lt t s)) [
    | inl k ↦ sym (insert_text_below t s l k h)
    | inr k ↦
        let same = str_lt-total s t h k in
        ap (λ (x : Str). insert_text x (insert_text t l)) same
        ∙ ap (λ (x : Str). insert_text t (insert_text x l)) (sym same)
  ]
]

pub sorted-perm : {l m : List Str} → Permᴰ l m → sorted l ≡ sorted m
unfolding sorted
sorted-perm Permᴰ.nil = refl
sorted-perm (Permᴰ.cons {a} {b} {l₁} {l₂} e p) =
    ap (λ (s : Str). insert_text s (sorted l₁)) e ∙ ap (insert_text b) (sorted-perm p)
sorted-perm (Permᴰ.swap {a} {b} {a'} {b'} {l} e f) =
    insert_text_swap a b (sorted l)
    ∙ ap (λ (s : Str). insert_text s (insert_text a (sorted l))) f
    ∙ ap (λ (s : Str). insert_text a' (insert_text s (sorted l))) e
sorted-perm (Permᴰ.trans p q) = sorted-perm p ∙ sorted-perm q

mem-insert_text : (k s : Str) (l : List Str) → mem k (insert_text s l) ≡ (str_eq s k || mem k l)
unfolding insert_text mem
mem-insert_text k s [] = refl
mem-insert_text k s (t ∷ l) = ground (arith, mem-insert_text k s l)

pub mem-sorted : (k : Str) (l : List Str) → mem k (sorted l) ≡ mem k l
unfolding sorted mem
mem-sorted k [] = refl
mem-sorted k (s ∷ l) =
    mem-insert_text k s (sorted l) ∙ ap (λ (b : Bool). str_eq s k || b) (mem-sorted k l)
