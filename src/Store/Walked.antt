-- ===== src/Store/Walked.antt =====
-- What the loop of `history` has done for its frontier, as its rounds are counted back.
use snap_cook.Common.{
  Str, str_eq, str_eq_iff, str_eq_refl, ◌≡◌, refl, ap, ◌||◌, inl, inr, Bool, true, false, some,
  List, [], ◌∷◌, Bool-cases, arith, subst,
}
use snap_cook.Dict.{Dict, get, mem, distinct}
use snap_cook.Store.Frontier.{version_ids, is_none, mem-rest, last_or_rest}
use snap_cook.Store.{VersionRecord}
use snap_cook.Worklist.Containers.{pop_last}

-- An id that needs no more work: seen before, collected, or not stored.
abbrev pub is_done : Dict VersionRecord → List Str → List VersionRecord → Str → Bool
is_done d seen out v = mem v seen || mem v (version_ids out) || is_none (get d v)

module _ (d : Dict VersionRecord) where
  -- A set of ids that holds the parents of the stored versions in it.
  abbrev pub IsClosed : (Str → Type 0) → Type 0
  IsClosed P =
      (v p : Str) (r : VersionRecord) → P v → get d v ≡ some r → mem p r.parents ≡ true → P p

  pub record Walked (seen frontier : List Str) (out : List VersionRecord) : Type 1 where
    pub fresh : (v : Str) → mem v (version_ids out) ≡ true → mem v seen ≡ false
    pub once : distinct (version_ids out) ≡ true
    pub stored : (v : Str) → mem v (version_ids out) ≡ true → is_none (get d v) ≡ false
    pub sound :
        (P : Str → Type 0)
        → IsClosed P
        → ((v : Str) → mem v frontier ≡ true → P v)
        → (v : Str) → mem v (version_ids out) ≡ true
        → P v
    pub front : (v : Str) → mem v frontier ≡ true → is_done d seen out v ≡ true
    pub closed :
        (v p : Str) (r : VersionRecord)
        → mem v (version_ids out) ≡ true
        → get d v ≡ some r
        → mem p r.parents ≡ true
        → is_done d seen out p ≡ true

  pub Walked-empty : (seen : List Str) → Walked seen [] []
  unfolding mem distinct
  Walked-empty seen = record {
    fresh = λ v h. cc;
    once = refl;
    stored = λ v h. cc;
    sound = λ P c h v k. cc;
    front = λ v h. cc;
    closed = λ v p r h e k. cc;
  }

  -- An id that was seen before is dropped.
  pub Walked-seen :
      (seen frontier rest : List Str) (current : Str) (out : List VersionRecord)
      → pop_last frontier ≡ some (current, rest)
      → mem current seen ≡ true
      → Walked seen rest out
      → Walked seen frontier out
  Walked-seen seen frontier rest current out e known w = record {
    fresh = w.fresh;
    once = w.once;
    stored = w.stored;
    sound = λ P c h. w.sound P c (λ v k. h v (mem-rest frontier rest current v e k));
    front = λ v h. elim (last_or_rest frontier rest current v e h) [
      | inl same ↦ subst (λ (x : Str). is_done d seen out x ≡ true) same (rw (known, ◌||◌) refl)
      | inr k ↦ w.front v k
    ];
    closed = w.closed;
  }

  is_done-missing :
      (seen : List Str) (current v : Str) (out : List VersionRecord)
      → is_none (get d current) ≡ true
      → is_done d (current ∷ seen) out v ≡ true
      → is_done d seen out v ≡ true
  unfolding mem
  is_done-missing seen current v out e h = elim (Bool-cases (str_eq current v)) [
    | inl same ↦ ground (arith, ap (λ (x : Str). is_none (get d x)) ((str_eq_iff current v).0 same))
    | inr other ↦ ground arith
  ]

  -- An id that is not stored adds nothing.
  pub Walked-missing :
      (seen frontier rest : List Str) (current : Str) (out : List VersionRecord)
      → pop_last frontier ≡ some (current, rest)
      → is_none (get d current) ≡ true
      → Walked (current ∷ seen) rest out
      → Walked seen frontier out
  unfolding mem
  Walked-missing seen frontier rest current out e missing w = record {
    fresh = λ v h. ground (arith, w.fresh v h);
    once = w.once;
    stored = w.stored;
    sound = λ P c h. w.sound P c (λ v k. h v (mem-rest frontier rest current v e k));
    front = λ v h. elim (last_or_rest frontier rest current v e h) [
      | inl same ↦ is_done-missing seen current v out missing (rw (same, str_eq_refl v) refl)
      | inr k ↦ is_done-missing seen current v out missing (w.front v k)
    ];
    closed = λ v p r h k l. is_done-missing seen current p out missing (w.closed v p r h k l);
  }

  pub is_done-collected :
      (seen : List Str) (v : Str) (r : VersionRecord) (out : List VersionRecord)
      → is_done d (r.version_id ∷ seen) out v ≡ is_done d seen (r ∷ out) v
  unfolding mem
  is_done-collected seen v r out = ground arith
