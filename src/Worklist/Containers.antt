-- ===== src/Worklist/Containers.antt =====
-- The two containers: the stack of `_assert_acyclic`, a Python list, and the heap of
-- `topological_actions`, whose pops are those of the list of ids in the order of their keys.
use snap_cook.Common.{
  Str, str_lt, Bool, ◌&&◌, ◌||◌, Option, none, some, List, [], ◌∷◌, ◌++◌, if◌then◌else◌,
}
use snap_cook.Common.Int.{ℤ, ltb_ℤ, eqb_ℤ}
use snap_cook.Worklist.{Container}

-- `ready.pop()`
unfoldable pub pop_last : List Str → Option (Str × List Str)
pop_last [] = none
pop_last (x ∷ xs) = elim (pop_last xs) [ none ↦ some (x, []) | some (y, ys) ↦ some (y, x ∷ ys) ]

abbrev pub stack : Container
stack = record { push = λ x ready. ready ++ x ∷ []; pop = pop_last }

module _ (order_of : Str → ℤ) where
  -- The tuples `(order, id)` compared.
  unfoldable pub key_lt : Str → Str → Bool
  key_lt a b = ltb_ℤ (order_of a) (order_of b) || (eqb_ℤ (order_of a) (order_of b) && str_lt a b)

  -- `heapq.heappush`
  unfoldable pub heap_push : Str → List Str → List Str
  heap_push x [] = x ∷ []
  heap_push x (y ∷ ys) = if key_lt y x then y ∷ heap_push x ys else x ∷ y ∷ ys

  -- `heapq.heapify`
  unfoldable pub heapify : List Str → List Str
  heapify [] = []
  heapify (x ∷ xs) = heap_push x (heapify xs)

  abbrev heap_pop : List Str → Option (Str × List Str)
  heap_pop [] = none
  heap_pop (x ∷ xs) = some (x, xs)

  abbrev pub heap : Container
  heap = record { push = heap_push; pop = heap_pop }
