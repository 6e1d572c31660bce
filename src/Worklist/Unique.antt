-- ===== src/Worklist/Unique.antt =====
-- A run is determined by the set of actions and by what each waits for.
use snap_cook.Common.{Str, ◌≡◌, refl, sym, ◌∙◌, List, ◌∷◌, subst}
use snap_cook.Dict.{mem}
use snap_cook.Worklist.Edges.{Edges, waits}
use snap_cook.Worklist.Run.{Run, stop, step}

module _ {Before : Str → Str → Type 0} (antisym : (a b : Str) → Before a b → Before b a → a ≡ b)
    {nodes nodes' : List Str} {es es' : Edges} (same_nodes : (n : Str) → mem n nodes ≡ mem n nodes')
    (same_waits : (done : List Str) (n : Str) → waits done es n ≡ waits done es' n) where
  pub Run-unique :
      {done out out' : List Str}
      → Run Before nodes es done out
      → Run Before nodes' es' done out'
      → out ≡ out'
  Run-unique (stop all) (stop all') = refl
  Run-unique (stop all) (step {done} {x = x'} known fresh free least rest) =
      cc (all x' (same_nodes x' ∙ known) (same_waits done x' ∙ free))
  Run-unique (step {done} {x = x} known fresh free least rest) (stop all') =
      cc (all' x (sym (same_nodes x) ∙ known) (sym (same_waits done x) ∙ free))
  Run-unique (step {done} {out} {x} known fresh free least rest)
        (step {out = out'} {x = x'} known' fresh' free' least' rest') =
      let same : x ≡ x' =
        antisym x x' (least x' (same_nodes x' ∙ known') fresh' (same_waits done x' ∙ free'))
          (least' x (sym (same_nodes x) ∙ known) fresh (sym (same_waits done x) ∙ free)) in
      let rest'' = subst (λ y. Run Before nodes' es' (y ∷ done) out') (sym same) rest' in
      cc (same, Run-unique rest rest'')
