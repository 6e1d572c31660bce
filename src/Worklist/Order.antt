-- ===== src/Worklist/Order.antt =====
-- What follows from a run: its order respects the edges, it emits nothing twice, and it covers every
-- action if any order does.
use snap_cook.Common.{
  Str, str_eq, str_eq_iff, ◌+◌, ◌<◌, ◌≤◌, ◌≡◌, refl, true, List, [], ◌∷◌, arith, Bool-cases, inl,
  inr,
}
use snap_cook.Dict.{mem}
use snap_cook.Count.{count, not_mem-count}
use snap_cook.Worklist.Edges.{Edges, waits}
use snap_cook.Worklist.Run.{Run, stop, step}

-- Every id waits for nothing once those before it are done.
abbrev pub IsTopological : Edges → List Str → List Str → Type 0
IsTopological es done [] = Unit
IsTopological es done (x ∷ out) = (waits done es x ≡ 0) × IsTopological es (x ∷ done) out

module _ {Before : Str → Str → Type 0} {nodes : List Str} {es : Edges} where
  pub Run-IsTopological :
      {done out : List Str} → Run Before nodes es done out → IsTopological es done out
  Run-IsTopological (stop all) = tt
  Run-IsTopological (step known fresh free least rest) = (free, Run-IsTopological rest)

  -- Nothing is emitted twice, or after it was done.
  pub Run-count :
      {done out : List Str} (n : Str)
      → Run Before nodes es done out
      → count n done ≤ 1
      → count n out + count n done ≤ 1
  unfolding count mem
  Run-count n (stop all) h = omega arith
  Run-count n (step {done} {out} {x} known fresh free least rest) h =
      let ih = Run-count n rest (ground (arith, not_mem-count x done fresh, str_eq_iff x n)) in
      omega (arith, ih)

  -- Only actions are emitted.
  pub Run-mem :
      {done out : List Str} (n : Str)
      → Run Before nodes es done out
      → 0 < count n out
      → mem n nodes ≡ true
  unfolding count
  Run-mem n (stop all) h = absurd (omega arith)
  Run-mem n (step {done} {out} {x} known fresh free least rest) h = elim (Bool-cases (str_eq x n)) [
    | inl e ↦ ground (arith, str_eq_iff x n, known)
    | inr e ↦ Run-mem n rest (ground arith)
  ]

-- More that is done leaves no more to wait for.
pub waits_mono :
    (done fin : List Str) (es : Edges) (n : Str)
    → ((u : Str) → mem u done ≡ true → mem u fin ≡ true)
    → waits done es n ≡ 0
    → waits fin es n ≡ 0
unfolding waits
waits_mono done fin [] n sub h = refl
waits_mono done fin ((u, m) ∷ es) n sub h = ground (arith, sub u, waits_mono done fin es n sub)

-- What a stopped run has done.
abbrev pub IsStopped : List Str → Edges → List Str → Type 0
IsStopped nodes es fin = (n : Str) → mem n nodes ≡ true → waits fin es n ≡ 0 → mem n fin ≡ true

module _ (nodes : List Str) (es : Edges) (fin : List Str) (stopped : IsStopped nodes es fin) where
  -- A stopped run has done all of any topological order of actions.
  pub mem-stopped :
      (done out : List Str)
      → ((u : Str) → mem u done ≡ true → mem u fin ≡ true)
      → IsTopological es done out
      → ((n : Str) → mem n out ≡ true → mem n nodes ≡ true)
      → (n : Str) → mem n out ≡ true
      → mem n fin ≡ true
  unfolding mem
  mem-stopped done [] sub t known n h = cc
  mem-stopped done (x ∷ out) sub t known n h = elim (Bool-cases (str_eq x n)) [
    | inl e ↦ ground (arith, str_eq_iff x n, x_done)
    | inr e ↦ mem-stopped (x ∷ done) out sub' t.1 (λ m k. ground (arith, known m)) n (ground arith)
  ]
    where
      x_done : mem x fin ≡ true
      x_done =
          stopped x (ground (arith, known x, str_eq_iff x x)) (waits_mono done fin es x sub t.0)

      sub' : (u : Str) → mem u (x ∷ done) ≡ true → mem u fin ≡ true
      sub' u k = ground (arith, sub u, str_eq_iff x u, x_done)
