-- ===== src/Store/History.antt =====
-- `RecipeStore.history` over the backend in memory: it ends, and it holds what HEAD descends from.
use snap_cook.Common.{
  Str, str_eq, str_lt, str_lt_trans, str_lt_irrefl, str_eq_iff, str_eq_refl, str_eq_comm, ℕ, suc,
  ◌≡◌, refl, sym, ◌∙◌, ap, ◌↔◌, ◌≢◌, ◌||◌, Bool, true, false, Option, none, some, List, [], ◌∷◌,
  subst, arith, Bool-cases, inl, inr,
}
use snap_cook.Errors.{ok}
use snap_cook.Dict.{Dict, get, mem, distinct}
use snap_cook.Store.{VersionRecord, head, history, newest_first, insert_newest}
use snap_cook.Store.Memory.{MemoryStore, versions_of, read_version, memory}
use snap_cook.Store.Laws.{IsIntact, head_cases}
use snap_cook.Store.Frontier.{version_ids, is_none, pending}
use snap_cook.Store.Walked.{Walked}
use snap_cook.Store.Walk.{walk_lem}

mem-insert_newest :
    (v : Str) (r : VersionRecord) (out : List VersionRecord)
    → mem v (version_ids (insert_newest r out)) ≡ (str_eq r.version_id v || mem v (version_ids out))
unfolding insert_newest mem
mem-insert_newest v r [] = refl
mem-insert_newest v r (q ∷ out) = ground (arith, mem-insert_newest v r out)

mem-newest_first :
    (v : Str) (out : List VersionRecord)
    → mem v (version_ids (newest_first out)) ≡ mem v (version_ids out)
unfolding newest_first mem
mem-newest_first v [] = refl
mem-newest_first v (r ∷ out) =
    mem-insert_newest v r (newest_first out)
    ∙ ap (λ (b : Bool). str_eq r.version_id v || b) (mem-newest_first v out)

distinct-insert_newest :
    (r : VersionRecord) (out : List VersionRecord)
    → mem r.version_id (version_ids out) ≡ false
    → distinct (version_ids out) ≡ true
    → distinct (version_ids (insert_newest r out)) ≡ true
unfolding insert_newest mem distinct
distinct-insert_newest r [] h k = refl
distinct-insert_newest r (q ∷ out) h k = ground (
  arith,
  distinct-insert_newest r out,
  mem-insert_newest q.version_id r out,
  str_eq_comm r.version_id q.version_id,
)

distinct-newest_first :
    (out : List VersionRecord)
    → distinct (version_ids out) ≡ true
    → distinct (version_ids (newest_first out)) ≡ true
unfolding newest_first distinct
distinct-newest_first [] h = refl
distinct-newest_first (r ∷ out) h =
    distinct-insert_newest r (newest_first out) (mem-newest_first r.version_id out ∙ ground arith)
      (distinct-newest_first out (ground arith))

-- No version stands before a newer one.
abbrev pub IsNewestFirst : List VersionRecord → Type 0
IsNewestFirst [] = Unit
IsNewestFirst (r ∷ []) = Unit
IsNewestFirst (r ∷ q ∷ out) = (str_lt r.created_at q.created_at ≡ false) × IsNewestFirst (q ∷ out)

-- The stored versions that a version descends from, itself included.
pub data Ancestor (d : Dict VersionRecord) (start : Str) : Str → Type 0 where
  itself : (r : VersionRecord) → get d start ≡ some r → Ancestor d start start
  parent :
      (v p : Str) (r q : VersionRecord)
      → Ancestor d start v
      → get d v ≡ some r
      → mem p r.parents ≡ true
      → get d p ≡ some q
      → Ancestor d start p

str_lt-asym : (s t : Str) → str_lt s t ≡ true → str_lt t s ≡ false
str_lt-asym s t h = ground (arith, str_lt_trans s t s, str_lt_irrefl s)

insert_newest-IsNewestFirst :
    (r : VersionRecord) (out : List VersionRecord)
    → IsNewestFirst out
    → IsNewestFirst (insert_newest r out)
unfolding insert_newest
insert_newest-IsNewestFirst r [] h = tt
insert_newest-IsNewestFirst r (q ∷ []) h = elim (Bool-cases (str_lt r.created_at q.created_at)) [
  | inl e ↦ rw e (str_lt-asym r.created_at q.created_at e, tt)
  | inr e ↦ rw e (e, tt)
]
insert_newest-IsNewestFirst r (q ∷ p ∷ out) h =
    let rest = insert_newest-IsNewestFirst r (p ∷ out) h.1 in
    elim (Bool-cases (str_lt r.created_at q.created_at)) [
      | inl e ↦ rw e (elim (Bool-cases (str_lt r.created_at p.created_at)) [
        | inl f ↦ rw f (h.0, rw f at rest)
        | inr f ↦ rw f (str_lt-asym r.created_at q.created_at e, rw f at rest)
      ])
      | inr e ↦ rw e (e, h)
    ]

newest_first-IsNewestFirst : (out : List VersionRecord) → IsNewestFirst (newest_first out)
unfolding newest_first
newest_first-IsNewestFirst [] = tt
newest_first-IsNewestFirst (r ∷ out) =
    insert_newest-IsNewestFirst r (newest_first out) (newest_first-IsNewestFirst out)

no_head : {x : VersionRecord} → ok none ≢ ok (some x)
no_head h = cc h

same_head : {A : Type 0} {x y : A} → ok (some x) ≡ ok (some y) → x ≡ y
same_head h = cc h

not_none : (o : Option VersionRecord) → is_none o ≡ false → (q : VersionRecord) × (o ≡ some q)
not_none none h = cc
not_none (some q) h = (q, refl)

module _ (d : Dict VersionRecord) (start : Str) (out : List VersionRecord)
    (w : Walked d [] (start ∷ []) out) where
  collected-Ancestor :
      (r : VersionRecord)
      → get d start ≡ some r
      → (v : Str) → mem v (version_ids out) ≡ true
      → Ancestor d start v
  unfolding mem
  collected-Ancestor r found v h =
      let (q, at) = not_none (get d v) (w.stored v h) in
      w.sound (λ u. (x : VersionRecord) → get d u ≡ some x → Ancestor d start u)
        (λ u p x line f m y g. parent u p x y (line x f) f m g)
        (λ u m x f.
          subst (λ (x : Str). Ancestor d start x) ((str_eq_iff start u).0 (ground arith))
            (itself r found))
        v h q at

  Ancestor-collected : (v : Str) → Ancestor d start v → mem v (version_ids out) ≡ true
  unfolding mem
  Ancestor-collected _ (itself r found) = ground (arith, w.front start, str_eq_refl start, found)
  Ancestor-collected _ (parent v p r q line found m at) =
      ground (arith, w.closed v p r (Ancestor-collected v line) found m, at)

pub head-found :
    (s : MemoryStore) (recipe_id : Str) (at : VersionRecord)
    → IsIntact memory s
    → head memory s recipe_id ≡ ok (some at)
    → get (versions_of s recipe_id) at.version_id ≡ some at
unfolding read_version
head-found s recipe_id at intact h = elim (head_cases memory s recipe_id intact) [
  | inl e ↦ absurd (no_head (sym e ∙ h))
  | inr (ref, r, points, found, e) ↦
      let same : r ≡ at = same_head (sym e ∙ h) in
      subst (λ (x : VersionRecord). get (versions_of s recipe_id) x.version_id ≡ some x) same
        (subst (λ (v : Str). get (versions_of s recipe_id) v ≡ some r)
          (sym (intact.stored recipe_id ref r found).0) found)
]

-- Enough rounds for any recipe of the store.
abbrev pub history_fuel : MemoryStore → Str → ℕ
history_fuel s recipe_id = suc (suc (pending [] (versions_of s recipe_id)))

-- The history of a recipe with HEAD `at`.
pub record Lineage (s : MemoryStore) (recipe_id : Str) (at : VersionRecord) : Type 0 where
  pub out : List VersionRecord
  pub runs : history memory (history_fuel s recipe_id) s recipe_id ≡ ok out
  pub once : distinct (version_ids out) ≡ true
  pub order : IsNewestFirst out
  pub members :
      (v : Str)
      → (mem v (version_ids out) ≡ true) ↔ Ancestor (versions_of s recipe_id) at.version_id v

-- For a recipe with a HEAD in an intact store in memory the history ends without an error; it
-- lists each version once, none before a newer one, and lists exactly the stored versions that
-- HEAD descends from through any of their parents, those of a merge included and not only the
-- first, HEAD among them.
pub history-Lineage :
    (s : MemoryStore) (recipe_id : Str) (at : VersionRecord)
    → IsIntact memory s
    → head memory s recipe_id ≡ ok (some at)
    → Lineage s recipe_id at
unfolding history read_version
history-Lineage s recipe_id at intact h =
    let d = versions_of s recipe_id in
    let found : get d at.version_id ≡ some at = head-found s recipe_id at intact h in
    let (out, runs, w) =
      walk_lem d (λ v r e. (intact.stored recipe_id v r e).0) (history_fuel s recipe_id) []
        (at.version_id ∷ []) (omega arith) in
    record {
      out = newest_first out;
      runs = rw (h, history) (rw runs refl);
      once = distinct-newest_first out w.once;
      order = newest_first-IsNewestFirst out;
      members = λ v. (
        λ m. collected-Ancestor d at.version_id out w at found v (sym (mem-newest_first v out) ∙ m),
        λ line. mem-newest_first v out ∙ Ancestor-collected d at.version_id out w v line,
      );
    }
