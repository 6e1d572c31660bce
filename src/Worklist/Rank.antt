-- ===== src/Worklist/Rank.antt =====
-- A run covers every action exactly if the edges have a rank that grows along each of them, which is
-- to say that the graph has no cycle.
use snap_cook.Common.{
  Str, str_eq, str_eq_iff, str_eq_refl, ℕ, zero, suc, ◌<◌, ◌≤◌, ◌≡◌, refl, sym, ◌∙◌, subst, true,
  false, List, [], ◌∷◌, ◌++◌, if◌then◌else◌, arith, length, Bool-cases, inl, inr,
}
use mathlib.Core.List.{append-nil}
use snap_cook.Dict.{mem, distinct}
use snap_cook.Count.{
  count, mem-nil, mem-append, mem-count, count-mem, not_mem-count, distinct-count,
  length-le_of_count, count-eq_of_length,
}
use snap_cook.Worklist.Edges.{Edges, waits, targets}
use snap_cook.Worklist.Run.{Run, stop, step}
use snap_cook.Worklist.Order.{IsStopped, IsTopological, waits_mono, Run-count, Run-mem}

abbrev pub IsEdge : Edges → Str → Str → Type 0
IsEdge es u n = 0 < count n (targets u es)

abbrev pub IsRanked : (Str → ℕ) → Edges → Type 0
IsRanked rank es = (u n : Str) → IsEdge es u n → rank u < rank n

-- With all sources done there is nothing to wait for.
waits-zero :
    (fin : List Str) (es : Edges) (n : Str)
    → ((u : Str) → IsEdge es u n → mem u fin ≡ true)
    → waits fin es n ≡ 0
unfolding waits targets count
waits-zero fin [] n h = refl
waits-zero fin ((u, m) ∷ es) n h =
    ground (arith, waits-zero fin es n (λ v k. h v (ground arith)), h u, str_eq_refl u)

-- What waits for nothing has its sources done.
pub source_done :
    (done : List Str) (es : Edges) (u n : Str)
    → waits done es n ≡ 0
    → IsEdge es u n
    → mem u done ≡ true
unfolding waits targets count
source_done done [] u n h k = absurd (omega arith)
source_done done ((v, m) ∷ es) u n h k = ground (arith, source_done done es u n, str_eq_iff u v)

mem-middle : (u x : Str) (out done : List Str) → mem u (out ++ x ∷ done) ≡ mem u (x ∷ out ++ done)
unfolding mem
mem-middle u x out done = ground (arith, mem-append u out (x ∷ done), mem-append u out done)

module _ (nodes : List Str) (es : Edges) where
  -- With a rank a stopped run has done every action.
  IsRanked-covers :
      (rank : Str → ℕ) (fin : List Str)
      → IsRanked rank es
      → ((u n : Str) → IsEdge es u n → mem u nodes ≡ true)
      → IsStopped nodes es fin
      → (k : ℕ) (n : Str) → rank n < k
      → mem n nodes ≡ true
      → mem n fin ≡ true
  IsRanked-covers rank fin ranked sources stopped zero n below known = absurd (omega arith)
  IsRanked-covers rank fin ranked sources stopped (suc k) n below known = stopped n known (
      waits-zero fin es n λ u edge.
        IsRanked-covers rank fin ranked sources stopped k u (omega (arith, ranked u n edge))
          (sources u n edge))

module _ {Before : Str → Str → Type 0} (nodes : List Str) (es : Edges) where
  pub Run-IsStopped :
      {done out : List Str} → Run Before nodes es done out → IsStopped nodes es (out ++ done)
  Run-IsStopped (stop all) = all
  Run-IsStopped (step {done} {out} {x} known fresh free least rest) = λ n n_known n_free.
      sym (mem-middle n x out done)
      ∙ (Run-IsStopped rest n n_known (
          waits_mono (x ∷ out ++ done) (out ++ x ∷ done) es n (λ u h. mem-middle u x out done ∙ h)
            n_free))

  -- A run that emits as many ids as there are actions emits them all.
  Run-count_le :
      {out : List Str} → Run Before nodes es [] out → (n : Str) → count n out ≤ count n nodes
  unfolding count
  Run-count_le {out} run n = elim (Bool-cases (mem n nodes)) [
    | inl e ↦ omega (arith, Run-count n run (omega arith), mem-count n nodes e)
    | inr e ↦ elim (Bool-cases (mem n out)) [
      | inl m ↦ cc (Run-mem n run (mem-count n out m))
      | inr m ↦ omega (arith, not_mem-count n out m)
    ]
  ]

  pub Run-covers :
      {out : List Str}
      → Run Before nodes es [] out
      → length nodes ≤ length out
      → (n : Str) → mem n nodes ≡ true
      → mem n out ≡ true
  Run-covers {out} run long n known = count-mem n out (
      omega
        (arith, mem-count n nodes known, count-eq_of_length out nodes (Run-count_le run) long n))

  -- And one that emits them all emits as many.
  pub Run-length :
      {out : List Str}
      → distinct nodes ≡ true
      → Run Before nodes es [] out
      → ((n : Str) → mem n nodes ≡ true → mem n out ≡ true)
      → length out ≡ length nodes
  Run-length {out} once run all = omega (
    arith,
    length-le_of_count out nodes (Run-count_le run),
    length-le_of_count nodes out λ n. elim (Bool-cases (mem n nodes)) [
      | inl e ↦ omega (arith, distinct-count n nodes once, mem-count n out (all n e))
      | inr e ↦ omega (arith, not_mem-count n nodes e)
    ],
  )

  pub Run-covers_of_rank :
      {out : List Str} (rank : Str → ℕ)
      → IsRanked rank es
      → ((u n : Str) → IsEdge es u n → mem u nodes ≡ true)
      → Run Before nodes es [] out
      → (n : Str) → mem n nodes ≡ true
      → mem n out ≡ true
  Run-covers_of_rank {out} rank ranked sources run n =
      IsRanked-covers nodes es rank out ranked sources
        (subst (IsStopped nodes es) (append-nil out) (Run-IsStopped run)) (suc (rank n)) n
        (omega arith)

-- The place of an id in a list.
pub place : Str → List Str → ℕ
place n [] = 0
place n (x ∷ xs) = if str_eq x n then 0 else suc (place n xs)

-- A topological order ranks the actions by their places.
place-lt :
    (es : Edges) (u n : Str) (done out : List Str)
    → IsEdge es u n
    → IsTopological es done out
    → mem n out ≡ true
    → mem u done ≡ false
    → place u out < place n out
unfolding place mem
place-lt es u n done [] edge top known fresh = cc
place-lt es u n done (x ∷ out) edge top known fresh = ground (
  arith,
  str_eq_iff x n,
  str_eq_iff x u,
  source_done done es u n,
  λ (h : mem n out ≡ true) (k : mem u (x ∷ done) ≡ false).
      place-lt es u n (x ∷ done) out edge top.1 h k,
)

pub place-IsRanked :
    (nodes : List Str) (es : Edges) (out : List Str)
    → IsTopological es [] out
    → ((u n : Str) → IsEdge es u n → mem n nodes ≡ true)
    → ((n : Str) → mem n nodes ≡ true → mem n out ≡ true)
    → IsRanked (λ n. place n out) es
place-IsRanked nodes es out top ends all u n edge =
    place-lt es u n [] out edge top (all n (ends u n edge)) (mem-nil u)
