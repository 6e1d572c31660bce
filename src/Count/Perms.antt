-- ===== src/Count/Perms.antt =====
-- Lists that hold every id as often are permutations of one another.
use mathlib.Core.List.{Permᴰ}
use mathlib.Core.List.Permᴰ
use snap_cook.Common.{
  Str, str_eq, str_eq_iff, ◌<◌, ◌≡◌, refl, List, [], ◌∷◌, arith, Bool-cases, inl, inr,
}
use snap_cook.Count.{count, count-nil, count-cons, count_self, remove, count-remove}

remove-perm : (k : Str) (l : List Str) → 0 < count k l → Permᴰ l (k ∷ remove k l)
unfolding remove count
remove-perm k [] h = absurd (omega arith)
remove-perm k (j ∷ l) h = elim (Bool-cases (str_eq j k)) [
  | inl e ↦ rw e (Permᴰ.cons ((str_eq_iff j k).0 e) (Permᴰ.refl l))
  | inr e ↦
      rw e (Permᴰ.trans (Permᴰ.cons refl (remove-perm k l (ground arith))) (Permᴰ.swap refl refl))
]

pub perm_of_count : (l m : List Str) → ((n : Str) → count n l ≡ count n m) → Permᴰ l m
perm_of_count [] [] h = Permᴰ.nil
perm_of_count [] (j ∷ m) h = absurd (omega (arith, h j, count-nil j, count_self j m))
perm_of_count (k ∷ l) m h =
    let k_in : 0 < count k m = omega (arith, h k, count_self k l) in
    Permᴰ.trans
      (Permᴰ.cons refl (
        perm_of_count l (remove k m)
          λ n. omega (arith, h n, count-cons n k l, count-remove k n m k_in)))
      (Permᴰ.symm (remove-perm k m k_in))
