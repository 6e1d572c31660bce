-- ===== src/Store/Walk.antt =====
-- The loop of `history` collects the stored versions that its frontier leads to, each once.
use snap_cook.Common.{
  some-injective, Str, str_eq, str_eq_iff, str_eq_refl, ℕ, zero, suc, ◌+◌, ◌<◌, ◌≡◌, refl, sym, ◌∙◌,
  ap, ◌⊎◌, ◌||◌, inl, inr, Bool, true, false, some, List, [], ◌∷◌, ◌++◌, length, length-append,
  Bool-cases, Option-cases, arith, subst,
}
use snap_cook.Errors.{ok}
use snap_cook.Dict.{Dict, get, mem, distinct}
use snap_cook.Count.{mem-append}
use snap_cook.Store.Frontier.{
  version_ids, is_none, pending, pending-seen, pending-drop, pop_last-none, length-pop_last,
  mem-rest, mem-last, last_or_rest,
}
use snap_cook.Store.Walked.{Walked, Walked-empty, Walked-seen, Walked-missing, is_done-collected}
use snap_cook.Store.{VersionRecord, walk}
use snap_cook.Worklist.Containers.{pop_last}

or_true : (b : Bool) → (b || true) ≡ true
or_true b = ground arith

module _ (d : Dict VersionRecord) where
  -- A stored version is collected, and its parents come to the frontier.
  Walked-collected :
      (seen frontier rest : List Str) (r : VersionRecord) (out : List VersionRecord)
      → pop_last frontier ≡ some (r.version_id, rest)
      → mem r.version_id seen ≡ false
      → get d r.version_id ≡ some r
      → Walked d (r.version_id ∷ seen) (rest ++ r.parents) out
      → Walked d seen frontier (r ∷ out)
  unfolding mem distinct
  Walked-collected seen frontier rest r out e unseen found w =
      let own : (v : Str)
          → mem v (version_ids (r ∷ out)) ≡ true
          → (r.version_id ≡ v) ⊎ (mem v (version_ids out) ≡ true) =
        λ v h. elim (Bool-cases (str_eq r.version_id v)) [
          | inl same ↦ inl ((str_eq_iff r.version_id v).0 same)
          | inr other ↦ inr (ground arith)
        ] in
      record {
        fresh = λ v h. elim (own v h) [
          | inl same ↦ subst (λ (x : Str). mem x seen ≡ false) same unseen
          | inr k ↦ ground (arith, w.fresh v k)
        ];
        once = elim (Bool-cases (mem r.version_id (version_ids out))) [
          | inl k ↦ ground (arith, w.fresh r.version_id k, str_eq_refl r.version_id)
          | inr k ↦ ground (arith, w.once)
        ];
        stored = λ v h. elim (own v h) [
          | inl same ↦
              subst (λ (x : Str). is_none (get d x) ≡ false) same (rw (found, is_none) refl)
          | inr k ↦ w.stored v k
        ];
        sound = λ P c h v m.
            let at : P r.version_id = h r.version_id (mem-last frontier rest r.version_id e) in
            elim (own v m) [
              | inl same ↦ subst P same at
              | inr k ↦
                  w.sound P c
                    (λ u l. elim (Bool-cases (mem u rest)) [
                      | inl in_rest ↦ h u (mem-rest frontier rest r.version_id u e in_rest)
                      | inr other ↦
                          c r.version_id u r at found (ground (arith, mem-append u rest r.parents))
                    ])
                    v k
            ];
        front = λ v h.
            sym (is_done-collected d seen v r out)
            ∙ elim (last_or_rest frontier rest r.version_id v e h) [
              | inl same ↦ rw (same, str_eq_refl v) refl
              | inr k ↦ w.front v (ground (arith, mem-append v rest r.parents))
            ];
        closed = λ v p q m f l. sym (is_done-collected d seen p r out) ∙ elim (own v m) [
          | inl same ↦
              let this : r ≡ q = some-injective (sym found ∙ ap (λ (x : Str). get d x) same ∙ f) in
              w.front p (
                mem-append p rest r.parents
                ∙ rw (ap (λ (x : VersionRecord). mem p x.parents) this, l) (or_true (mem p rest)))
          | inr k ↦ w.closed v p q k f l
        ];
      }

  module _ (keyed : (v : Str) (r : VersionRecord) → get d v ≡ some r → r.version_id ≡ v) where
    -- Fuel for the frontier and for what may still come to it is enough.
    pub walk_lem :
        (fuel : ℕ) (seen frontier : List Str)
        → length frontier + pending seen d < fuel
        → (out : List VersionRecord) × (walk (get d) fuel seen frontier ≡ ok out)
          × Walked d seen frontier out
    unfolding walk
    walk_lem zero seen frontier h = absurd (omega (arith, h))
    walk_lem (suc fuel) seen frontier h = elim (Option-cases (pop_last frontier)) [
      | inl e ↦ (
        [],
        rw (e, walk) refl,
        subst (λ (f : List Str). Walked d seen f []) (sym (pop_last-none frontier e))
            (Walked-empty d seen),
      )
      | inr ((current, rest), e) ↦
          let shorter = length-pop_last frontier rest current e in
          elim (Bool-cases (mem current seen)) [
            | inl known ↦
                let (out, runs, w) = walk_lem fuel seen rest (omega (arith, h, shorter)) in
                (
                  out,
                  rw (e, walk) (rw known runs),
                  Walked-seen d seen frontier rest current out e known w,
                )
            | inr unseen ↦ elim (Option-cases (get d current)) [
              | inl missing ↦
                  let (out, runs, w) =
                    walk_lem fuel (current ∷ seen) rest
                      (omega (arith, h, shorter, pending-seen current seen d)) in
                  (
                    out,
                    rw (e, walk) (rw unseen (rw missing runs)),
                    Walked-missing d seen frontier rest current out e (rw (missing, is_none) refl)
                        w,
                  )
              | inr (r, found) ↦
                  let (out, runs, w) = walk_lem fuel (current ∷ seen) (rest ++ r.parents) (
                    omega (
                      arith,
                      h,
                      shorter,
                      pending-drop current seen d r unseen found,
                      length-append rest r.parents,
                    )) in
                  (
                    r ∷ out,
                    rw (e, walk) (rw unseen (rw found (rw runs refl))),
                    subst
                        (λ (c : Str).
                          pop_last frontier ≡ some (c, rest)
                          → mem c seen ≡ false
                          → get d c ≡ some r
                          → Walked d (c ∷ seen) (rest ++ r.parents) out
                          → Walked d seen frontier (r ∷ out))
                        (keyed current r found) (Walked-collected seen frontier rest r out) e unseen
                        found w,
                  )
            ]
          ]
    ]
