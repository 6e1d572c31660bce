-- ===== src/Web/Tokens/Split.antt =====
-- The parts of a text that holds a separator or not.
use snap_cook.Common.{
  Str, ℕ, ◌≤◌, ◌==◌, ==_iff, ◌≡◌, refl, Bool, true, false, ◌||◌, List, [], ◌∷◌, ◌++◌, length, arith,
}
use snap_cook.Web.Tokens.{split_on, cons_first}

unfoldable pub has_char : ℕ → Str → Bool
has_char c [] = false
has_char c (x ∷ s) = (x == c) || has_char c s

pub split_on-none : (c : ℕ) (s : Str) → has_char c s ≡ false → split_on c s ≡ s ∷ []
unfolding split_on has_char
split_on-none c [] h = refl
split_on-none c (x ∷ s) h = ground (arith, split_on-none c s)

pub split_on-append :
    (c : ℕ) (s t : Str) → has_char c s ≡ false → split_on c (s ++ c ∷ t) ≡ s ∷ split_on c t
unfolding split_on has_char
split_on-append c [] t h = ground (arith, ==_iff c c)
split_on-append c (x ∷ s) t h = ground (arith, split_on-append c s t)

length-cons_first : (x : ℕ) (l : List Str) → length l ≤ length (cons_first x l)
length-cons_first x [] = omega arith
length-cons_first x (p ∷ ps) = omega arith

pub length-split_on : (c : ℕ) (s : Str) → 1 ≤ length (split_on c s)
unfolding split_on
length-split_on c [] = ground arith
length-split_on c (x ∷ s) = ground (arith, length-split_on c s, length-cons_first x (split_on c s))

pub length-split_on_has : (c : ℕ) (s : Str) → has_char c s ≡ true → 2 ≤ length (split_on c s)
unfolding split_on has_char
length-split_on_has c [] h = cc
length-split_on_has c (x ∷ s) h =
    ground (arith, length-split_on c s, length-split_on_has c s, length-cons_first x (split_on c s))
