-- ===== src/Count.antt =====
-- Membership and multiplicity in lists of ids.
pub mod Perms
use snap_cook.Common.{
  Str, str_eq, str_eq_iff, str_eq_refl, ℕ, zero, suc, ◌+◌, ◌≤◌, ◌<◌, ◌≡◌, refl, ◌≢◌, ◌⊎◌, inl, inr,
  ◌||◌, Bool, true, false, List, [], ◌∷◌, ◌++◌, map, if◌then◌else◌, arith, length, Bool-cases,
}
use snap_cook.Dict.{mem, distinct}

unfoldable pub count : Str → List Str → ℕ
count k [] = 0
count k (j ∷ l) = (if str_eq j k then 1 else 0) + count k l

pub count-nil : (k : Str) → count k [] ≡ 0
unfolding count
count-nil k = refl

pub count-cons :
    (k j : Str) (l : List Str) → count k (j ∷ l) ≡ (if str_eq j k then 1 else 0) + count k l
unfolding count
count-cons k j l = refl

pub count-cons_le : (k j : Str) (l : List Str) → count k l ≤ count k (j ∷ l)
unfolding count
count-cons_le k j l = omega arith

pub mem-nil : (k : Str) → mem k [] ≡ false
unfolding mem
mem-nil k = refl

pub mem-count : (k : Str) (l : List Str) → mem k l ≡ true → 0 < count k l
unfolding mem count
mem-count k [] h = cc
mem-count k (j ∷ l) h = ground (arith, mem-count k l)

pub not_mem-count : (k : Str) (l : List Str) → mem k l ≡ false → count k l ≡ 0
unfolding mem count
not_mem-count k [] h = refl
not_mem-count k (j ∷ l) h = ground (arith, not_mem-count k l)

pub count-mem : (k : Str) (l : List Str) → 0 < count k l → mem k l ≡ true
count-mem k l h = elim (Bool-cases (mem k l)) [
  | inl e ↦ e
  | inr e ↦ absurd (omega (arith, not_mem-count k l e))
]

pub count-append : (k : Str) (l m : List Str) → count k (l ++ m) ≡ count k l + count k m
unfolding count
count-append k [] m = omega arith
count-append k (j ∷ l) m = omega (arith, count-append k l m)

pub mem-append : (k : Str) (l m : List Str) → mem k (l ++ m) ≡ (mem k l || mem k m)
unfolding mem
mem-append k [] m = refl
mem-append k (j ∷ l) m = ground (arith, mem-append k l m)

pub distinct-count : (k : Str) (l : List Str) → distinct l ≡ true → count k l ≤ 1
unfolding distinct count
distinct-count k [] h = omega arith
distinct-count k (j ∷ l) h = ground (arith, distinct-count k l, not_mem-count j l, str_eq_iff j k)

pub count_self : (k : Str) (l : List Str) → 0 < count k (k ∷ l)
unfolding count
count_self k l = rw str_eq_refl (omega arith)

-- `l` with one `k` taken out.
unfoldable pub remove : Str → List Str → List Str
remove k [] = []
remove k (j ∷ l) = let rest = remove k l in if str_eq j k then l else j ∷ rest

pub count-remove :
    (k n : Str) (l : List Str)
    → 0 < count k l
    → count n l ≡ (if str_eq k n then 1 else 0) + count n (remove k l)
unfolding count remove
count-remove k n [] h = absurd (omega arith)
count-remove k n (j ∷ l) h =
    ground (arith, count-remove k n l, str_eq_iff j k, str_eq_iff j n, str_eq_iff k n)

length-remove : (k : Str) (l : List Str) → 0 < count k l → length l ≡ suc (length (remove k l))
unfolding count remove
length-remove k [] h = absurd (omega arith)
length-remove k (j ∷ l) h = ground (arith, length-remove k l)

-- A list that holds nothing more often than another is no longer than it.
pub length-le_of_count :
    (l m : List Str) → ((k : Str) → count k l ≤ count k m) → length l ≤ length m
length-le_of_count [] m h = omega arith
length-le_of_count (j ∷ l) m h =
    let j_in : 0 < count j m = omega (arith, h j, count_self j l) in
    omega (
      arith,
      length-remove j m j_in,
      length-le_of_count l (remove j m)
          (λ k. omega (arith, h k, count-cons k j l, count-remove j k m j_in)),
    )

-- Where it is as long, it holds everything as often.
pub count-eq_of_length :
    (l m : List Str)
    → ((k : Str) → count k l ≤ count k m)
    → length m ≤ length l
    → (k : Str) → count k l ≡ count k m
count-eq_of_length [] [] h e k = refl
count-eq_of_length [] (j ∷ m) h e k = absurd (omega arith)
count-eq_of_length (j ∷ l) m h e k =
    let j_in : 0 < count j m = omega (arith, h j, count_self j l) in
    let rest : count k l ≡ count k (remove j m) =
      count-eq_of_length l (remove j m)
        (λ i. omega (arith, h i, count-cons i j l, count-remove j i m j_in))
        (omega (arith, length-remove j m j_in)) k in
    omega (arith, rest, count-cons k j l, count-remove j k m j_in)

pub distinct_of_count : (l : List Str) → ((k : Str) → count k l ≤ 1) → distinct l ≡ true
unfolding distinct count
distinct_of_count [] h = refl
distinct_of_count (j ∷ l) h = ground (
  arith,
  distinct_of_count l (λ k. omega (arith, h k, count-cons k j l)),
  h j,
  str_eq_refl j,
  mem-count j l,
)
