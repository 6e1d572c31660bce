-- ===== src/Worklist/Run.antt =====
-- What a run of Kahn's algorithm promises, with no dictionary and no container: each emitted action
-- is one that was not emitted, waits for nothing, and precedes every other such action in `Before`.
use snap_cook.Common.{Str, ◌≡◌, true, false, List, [], ◌∷◌}
use snap_cook.Dict.{mem}
use snap_cook.Worklist.Edges.{Edges, waits}

module _ (Before : Str → Str → Type 0) (nodes : List Str) (es : Edges) where
  pub data Run : List Str → List Str → Type 0 where
    stop :
        {done : List Str}
        → ((n : Str) → mem n nodes ≡ true → waits done es n ≡ 0 → mem n done ≡ true)
        → Run done []
    step :
        {done out : List Str} {x : Str}
        → mem x nodes ≡ true
        → mem x done ≡ false
        → waits done es x ≡ 0
        → ((n : Str) → mem n nodes ≡ true → mem n done ≡ false → waits done es n ≡ 0 → Before x n)
        → Run (x ∷ done) out
        → Run done (x ∷ out)
