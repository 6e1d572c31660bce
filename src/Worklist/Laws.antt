-- ===== src/Worklist/Laws.antt =====
-- The laws of the two containers.
use snap_cook.Common.{
  Str, str_eq, str_eq_iff, str_lt_irrefl, str_lt_trans, str_lt-total, ◌+◌, ◌<◌, ◌≡◌, refl, true,
  false, none, some, List, [], ◌∷◌, if◌then◌else◌, arith, subst, Bool-cases, Option-cases, inl, inr,
}
use snap_cook.Common.Int.{ℤ}
use snap_cook.Count.{count, count-append, count-cons, count-nil}
use snap_cook.Worklist.Containers.{pop_last, stack, key_lt, heap_push, heapify, heap}
use snap_cook.Worklist.Release.{Pushes}
use snap_cook.Worklist.Drain.{Pops}

abbrev pub Any : List Str → Type 0
Any ready = Unit

abbrev pub NoOrder : Str → Str → Type 0
NoOrder a b = Unit

pub stack_pushes : Pushes stack Any
stack_pushes = record {
  count-push =
      λ x n ready. omega (arith, count-append n ready (x ∷ []), count-cons n x [], count-nil n);
  push-Keeps = λ x ready k. tt;
}

pop_last-none : (ready : List Str) → pop_last ready ≡ none → (n : Str) → count n ready ≡ 0
unfolding pop_last count
pop_last-none [] e n = refl
pop_last-none (x ∷ xs) e n = ground arith

count-pop_last :
    (ready rest : List Str) (x n : Str)
    → pop_last ready ≡ some (x, rest)
    → count n ready ≡ (if str_eq x n then 1 else 0) + count n rest
unfolding pop_last count
count-pop_last [] rest x n e = cc
count-pop_last (y ∷ ys) rest x n e = elim (Option-cases (pop_last ys)) [
  | inl q ↦ ground (arith, pop_last-none ys q n)
  | inr ((z, zs), q) ↦ ground (arith, count-pop_last ys zs z n q)
]

pub stack_pops : Pops stack Any NoOrder
stack_pops = record {
  pop-none = pop_last-none;
  count-pop = count-pop_last;
  pop-Keeps = λ ready rest x e k. tt;
  pop-Before = λ ready rest x n e k h. tt;
}

module _ (order_of : Str → ℤ) where
  -- `a` is not after `b`.
  abbrev pub KeyLe : Str → Str → Type 0
  KeyLe a b = key_lt order_of b a ≡ false

  abbrev AllAfter : Str → List Str → Type 0
  AllAfter x [] = Unit
  AllAfter x (y ∷ ys) = KeyLe x y × AllAfter x ys

  abbrev pub IsHeap : List Str → Type 0
  IsHeap [] = Unit
  IsHeap (x ∷ xs) = AllAfter x xs × IsHeap xs

  key_lt_trans :
      (a b c : Str)
      → key_lt order_of a b ≡ true
      → key_lt order_of b c ≡ true
      → key_lt order_of a c ≡ true
  unfolding key_lt
  key_lt_trans a b c h k = ground (arith, str_lt_trans a b c)

  key_lt-asym : (a b : Str) → key_lt order_of a b ≡ true → key_lt order_of b a ≡ false
  unfolding key_lt
  key_lt-asym a b h = ground (arith, str_lt_trans a b a, str_lt_irrefl a)

  KeyLe-trans : (a b c : Str) → KeyLe a b → KeyLe b c → KeyLe a c
  unfolding key_lt
  KeyLe-trans a b c h k = ground (
    arith,
    str_lt_trans c b a,
    str_lt_trans c a b,
    str_lt_trans b c a,
    str_lt-total a b,
    str_lt-total b c,
    str_lt_irrefl a,
  )

  pub KeyLe-antisym : (a b : Str) → KeyLe a b → KeyLe b a → a ≡ b
  unfolding key_lt
  KeyLe-antisym a b h k = str_lt-total a b (ground arith) (ground arith)

  KeyLe-refl : (a : Str) → KeyLe a a
  unfolding key_lt
  KeyLe-refl a = ground (arith, str_lt_irrefl a)

  AllAfter-trans : (x y : Str) (ys : List Str) → KeyLe x y → AllAfter y ys → AllAfter x ys
  AllAfter-trans x y [] h a = tt
  AllAfter-trans x y (z ∷ zs) h a = (KeyLe-trans x y z h a.0, AllAfter-trans x y zs h a.1)

  AllAfter-count : (x n : Str) (ys : List Str) → AllAfter x ys → 0 < count n ys → KeyLe x n
  unfolding count
  AllAfter-count x n [] a h = absurd (omega arith)
  AllAfter-count x n (y ∷ ys) a h = elim (Bool-cases (str_eq y n)) [
    | inl e ↦ subst (KeyLe x) ((str_eq_iff y n).0 e) a.0
    | inr e ↦ AllAfter-count x n ys a.1 (ground arith)
  ]

  AllAfter-heap_push :
      (w x : Str) (ys : List Str) → KeyLe w x → AllAfter w ys → AllAfter w (heap_push order_of x ys)
  unfolding heap_push
  AllAfter-heap_push w x [] h a = (h, tt)
  AllAfter-heap_push w x (y ∷ ys) h a = elim (Bool-cases (key_lt order_of y x)) [
    | inl e ↦ rw e (a.0, AllAfter-heap_push w x ys h a.1)
    | inr e ↦ rw e (h, a)
  ]

  heap_push-IsHeap : (x : Str) (ys : List Str) → IsHeap ys → IsHeap (heap_push order_of x ys)
  unfolding heap_push
  heap_push-IsHeap x [] h = (tt, tt)
  heap_push-IsHeap x (y ∷ ys) h = elim (Bool-cases (key_lt order_of y x)) [
    | inl e ↦ rw e (AllAfter-heap_push y x ys (key_lt-asym y x e) h.0, heap_push-IsHeap x ys h.1)
    | inr e ↦ rw e ((e, AllAfter-trans x y ys e h.0), h)
  ]

  count-heap_push :
      (x n : Str) (ys : List Str)
      → count n (heap_push order_of x ys) ≡ (if str_eq x n then 1 else 0) + count n ys
  unfolding heap_push count
  count-heap_push x n [] = refl
  count-heap_push x n (y ∷ ys) = ground (arith, count-heap_push x n ys)

  pub heapify-IsHeap : (xs : List Str) → IsHeap (heapify order_of xs)
  unfolding heapify
  heapify-IsHeap [] = tt
  heapify-IsHeap (x ∷ xs) = heap_push-IsHeap x (heapify order_of xs) (heapify-IsHeap xs)

  pub count-heapify : (n : Str) (xs : List Str) → count n (heapify order_of xs) ≡ count n xs
  unfolding heapify
  count-heapify n [] = refl
  count-heapify n (x ∷ xs) =
      omega
        (arith, count-heap_push x n (heapify order_of xs), count-heapify n xs, count-cons n x xs)

  pub heap_pushes : Pushes (heap order_of) IsHeap
  heap_pushes = record { count-push = count-heap_push; push-Keeps = heap_push-IsHeap }

  heap_pop-none :
      (ready : List Str) → (heap order_of).pop ready ≡ none → (n : Str) → count n ready ≡ 0
  heap_pop-none [] e n = count-nil n
  heap_pop-none (x ∷ xs) e n = cc

  count-heap_pop :
      (ready rest : List Str) (x n : Str)
      → (heap order_of).pop ready ≡ some (x, rest)
      → count n ready ≡ (if str_eq x n then 1 else 0) + count n rest
  unfolding count
  count-heap_pop [] rest x n e = cc
  count-heap_pop (y ∷ ys) rest x n e = ground arith

  heap_pop-IsHeap :
      (ready rest : List Str) (x : Str)
      → (heap order_of).pop ready ≡ some (x, rest)
      → IsHeap ready
      → IsHeap rest
  heap_pop-IsHeap [] rest x e h = cc
  heap_pop-IsHeap (y ∷ ys) rest x e h = let same : ys ≡ rest = ground arith in subst IsHeap same h.1

  heap_pop-least :
      (ready rest : List Str) (x n : Str)
      → (heap order_of).pop ready ≡ some (x, rest)
      → IsHeap ready
      → 0 < count n ready
      → KeyLe x n
  heap_pop-least [] rest x n e h k = cc
  heap_pop-least (y ∷ ys) rest x n e h k =
      let same : y ≡ x = ground arith in
      subst (λ z. KeyLe z n) same (AllAfter-count y n (y ∷ ys) (KeyLe-refl y, h.0) k)

  pub heap_pops : Pops (heap order_of) IsHeap KeyLe
  heap_pops = record {
    pop-none = heap_pop-none;
    count-pop = count-heap_pop;
    pop-Keeps = heap_pop-IsHeap;
    pop-Before = heap_pop-least;
  }
