-- ===== src/Cooklang/Scanner/Ids.antt =====
-- `_next` of cooklang/parse.py: the ids of the uses in a step.
use snap_cook.Common.{
  Str, codes, ℕ, suc, ◌<◌, ◌≡◌, ◌≢◌, refl, sym, ap, ◌∙◌, subst, true, false, ◌||◌, List, [], ◌∷◌,
  ◌++◌, Bool-cases, inl, inr, str_eq, str_eq_refl, str_eq→eq, arith,
}
use snap_cook.Dict.{mem, distinct}
use snap_cook.Canonical.Numbers.{text_of}
use snap_cook.Cooklang.Numbers.Digits.{text_of-injective}
use snap_cook.Cooklang.Scanner.{use_id}

abbrev behind_first : Str → Str
behind_first [] = []
behind_first (c ∷ s) = s

append_cancel : (s t u : Str) → s ++ t ≡ s ++ u → t ≡ u
append_cancel [] t u e = e
append_cancel (c ∷ s) t u e = append_cancel s t u (ap behind_first e)

use_id-injective :
    (prefix : Str) (index m n : ℕ) → use_id prefix index m ≡ use_id prefix index n → m ≡ n
unfolding use_id
use_id-injective prefix index m n e =
    text_of-injective m n (append_cancel (prefix ++ codes "_" ++ text_of index ++ codes "_") _ _ e)

other_texts : (s t : Str) → s ≢ t → str_eq s t ≡ false
other_texts s t h = elim (Bool-cases (str_eq s t)) [
  | inl e ↦ elim (h (str_eq→eq s t e)) [ ]
  | inr e ↦ e
]

swapped : (s t : Str) → str_eq s t ≡ false → str_eq t s ≡ false
swapped s t h = other_texts t s (λ e. different s t h (sym e))
  where
    different : (s t : Str) → str_eq s t ≡ false → s ≢ t
    different s t h e = cc (str_eq_refl t, subst (λ u. str_eq u t ≡ false) e h)

pub mem-append : (k : Str) (l r : List Str) → mem k (l ++ r) ≡ (mem k l || mem k r)
unfolding mem
mem-append k [] r = refl
mem-append k (j ∷ l) r = ground (arith, mem-append k l r)

distinct-append :
    (l : List Str) (x : Str) → distinct l ≡ true → mem x l ≡ false → distinct (l ++ x ∷ []) ≡ true
unfolding distinct mem
distinct-append [] x d h = refl
distinct-append (k ∷ l) x d h =
    ground (arith, distinct-append l x, mem-append k l (x ∷ []), swapped k x, d, h)

-- The ids so far differ, and no later number gives one of them.
abbrev pub Fresh : (prefix : Str) → (index counter : ℕ) → List Str → Type 0
Fresh prefix index n l =
    (distinct l ≡ true) × ((k : ℕ) → n < k → mem (use_id prefix index k) l ≡ false)

pub Fresh-suc :
    (prefix : Str) (index n : ℕ) (l : List Str)
    → Fresh prefix index n l
    → Fresh prefix index (suc n) l
Fresh-suc prefix index n l h = (h.0, λ k lt. h.1 k (omega (arith, lt)))

later_id :
    (prefix : Str) (index n k : ℕ)
    → suc n < k
    → str_eq (use_id prefix index (suc n)) (use_id prefix index k) ≡ false
later_id prefix index n k lt =
    other_texts _ _ (λ e. omega (arith, lt, use_id-injective prefix index (suc n) k e))

pub Fresh-append :
    (prefix : Str) (index n : ℕ) (l : List Str)
    → Fresh prefix index n l
    → Fresh prefix index (suc n) (l ++ use_id prefix index (suc n) ∷ [])
unfolding mem
Fresh-append prefix index n l h = (
  distinct-append l (use_id prefix index (suc n)) h.0 (h.1 (suc n) (omega arith)),
  λ k lt.
      mem-append (use_id prefix index k) l (use_id prefix index (suc n) ∷ [])
      ∙ ground (arith, h.1 k (omega (arith, lt)), later_id prefix index n k lt),
)
