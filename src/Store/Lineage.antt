-- ===== src/Store/Lineage.antt =====
-- What a commit adds to the lineage of a recipe in the store in memory.
use snap_cook.Common.{
  Str, str_eq, str_eq_iff, str_eq_refl, ◌≡◌, ◌⊎◌, inl, inr, refl, sym, ◌∙◌, ap, subst, true, none,
  some, List, [], ◌∷◌, Bool-cases,
}
use snap_cook.Errors.{Result, ok, Result-cases, Holds, >>=-Holds, >>=-Holds_any, Holds-ok, ok-Holds}
use snap_cook.Dict.{Dict, get, mem}
use snap_cook.Schema.Recipe.{Recipe}
use snap_cook.Store.{
  VersionRecord, Commit, Backend, head, build_version_record, store_version, add_version, commit,
}
use snap_cook.Store.Laws.{IsIntact}
use snap_cook.Store.Effects.{Commits}
use snap_cook.Store.Commits.{returned-Commits}
use snap_cook.Store.Memory.{MemoryStore, versions_of, read_version, memory}
use snap_cook.Store.Memory.Laws.{memory-IsLawful}
use snap_cook.Store.History.{Ancestor, itself, parent, head-found}

-- Versions that stay stored keep their ancestors.
Ancestor-keep :
    (d d' : Dict VersionRecord) (start : Str)
    → ((v : Str) (q : VersionRecord) → get d v ≡ some q → get d' v ≡ some q)
    → (v : Str) → Ancestor d start v
    → Ancestor d' start v
Ancestor-keep d d' start keep _ (itself r e) = itself r (keep start r e)
Ancestor-keep d d' start keep _ (parent v p r q line e m f) =
    parent v p r q (Ancestor-keep d d' start keep v line) (keep v r e) m (keep p q f)

Ancestor-trans :
    (d : Dict VersionRecord) (new old : Str)
    → Ancestor d new old
    → (v : Str) → Ancestor d old v
    → Ancestor d new v
Ancestor-trans d new old first _ (itself r e) = first
Ancestor-trans d new old first _ (parent v p r q line e m f) =
    parent v p r q (Ancestor-trans d new old first v line) e m f

same_pair :
    {S : Type 0} {q r : VersionRecord} {s t : S}
    → ◌≡◌ {A = Result (VersionRecord × S)} (ok (q, s)) (ok (r, t))
    → (q ≡ r) × (s ≡ t)
same_pair h = (cc h, cc h)

pair_path :
    {S : Type 0} {q r : VersionRecord} {s t : S}
    → q ≡ r
    → s ≡ t
    → ◌≡◌ {A = VersionRecord × S} (q, s) (r, t)
pair_path h k = cc

mem_only : (x : Str) → mem x (x ∷ []) ≡ true
unfolding mem
mem_only x = rw str_eq_refl refl

module _ {S : Type 0} (b : Backend S) (content_hash : Recipe → Result Str)
    (version_id : Commit → Result Str) where
  build_version_record-parents :
      (recipe : Recipe) (parents : List Str) (author created_at message origin : Str)
      → Holds
          (λ r. r.parents ≡ parents)
          (build_version_record content_hash version_id recipe parents author created_at message
            origin)
  unfolding build_version_record
  build_version_record-parents recipe parents author created_at message origin =
      >>=-Holds_any (λ r. r.parents ≡ parents) (content_hash recipe) _
        (λ content.
          >>=-Holds_any (λ r. r.parents ≡ parents) (version_id _) _
            (λ vid. ok-Holds (λ r. r.parents ≡ parents) _ refl))

  add_version-parents :
      (s s' : S) (recipe : Recipe) (parents : List Str) (author created_at message origin : Str)
      (r : VersionRecord)
      → add_version b content_hash version_id s recipe parents author created_at message origin
        ≡ ok (r, s')
      → r.parents ≡ parents
  unfolding add_version
  add_version-parents s s' recipe parents author created_at message origin r h =
      let Q : VersionRecord × S → Type 0 = λ p. p.0.parents ≡ parents in
      Holds-ok Q h (
        >>=-Holds (λ r. r.parents ≡ parents) Q
          (build_version_record content_hash version_id recipe parents author created_at message
            origin)
          _ (build_version_record-parents recipe parents author created_at message origin)
          (λ q same. ok-Holds Q (q, store_version b q s) same))

  -- A commit that names no parents gives HEAD again, or a version on top of it.
  commit-parents :
      (s s' : S) (recipe : Recipe) (author created_at message origin : Str) (at r : VersionRecord)
      → head b s recipe.id ≡ ok (some at)
      → commit b content_hash version_id s recipe author created_at message origin none ≡ ok (r, s')
      → ((r ≡ at) × (s' ≡ s)) ⊎ (r.parents ≡ at.version_id ∷ [])
  unfolding commit
  commit-parents s s' recipe author created_at message origin at r h k =
      elim (Result-cases (content_hash recipe)) [
        | inl (raised, e) ↦ cc (rw (h, e, commit) at k)
        | inr (content, e) ↦ elim (Bool-cases (str_eq at.content_hash content)) [
          | inl same ↦ inl (same_pair (sym (rw (h, e, same, commit) at k)))
          | inr other ↦ inr (
              add_version-parents s s' recipe (at.version_id ∷ []) author created_at message origin
                r (rw (h, e, other, commit) at k))
        ]
      ]

module _ (content_hash : Recipe → Result Str) (version_id : Commit → Result Str) where
  -- The versions of the recipe after a commit, where its version is new to the store.
  stored_on :
      (s s' : MemoryStore) (recipe : Recipe) (r : VersionRecord)
      → Commits memory content_hash version_id s recipe r s'
      → (get (versions_of s recipe.id) r.version_id ≡ none)
        ⊎ (get (versions_of s recipe.id) r.version_id ≡ some r)
      → (v : Str) (q : VersionRecord) → get (versions_of s recipe.id) v ≡ some q
      → get (versions_of s' recipe.id) v ≡ some q
  unfolding read_version
  stored_on s s' recipe r c fresh v q e =
      c.read recipe.id v ∙ elim (Bool-cases (str_eq r.version_id v)) [
        | inl same ↦
            let here : get (versions_of s recipe.id) r.version_id ≡ some q =
              ap (λ (x : Str). get (versions_of s recipe.id) x) ((str_eq_iff r.version_id v).0 same)
              ∙ e in
            rw (str_eq_refl recipe.id, same)
              (elim fresh [ inl missing ↦ cc (sym missing ∙ here) | inr there ↦ sym there ∙ here ])
        | inr other ↦ rw (str_eq_refl recipe.id, other) e
      ]

  stored_new :
      (s s' : MemoryStore) (recipe : Recipe) (r : VersionRecord)
      → Commits memory content_hash version_id s recipe r s'
      → get (versions_of s' recipe.id) r.version_id ≡ some r
  unfolding read_version
  stored_new s s' recipe r c =
      c.read recipe.id r.version_id ∙ rw (str_eq_refl recipe.id, str_eq_refl r.version_id) refl

  -- In an intact store, a commit that names no parents keeps the lineage of the recipe: what the
  -- HEAD before it descends from, the new HEAD descends from, if the commit returns HEAD again or
  -- the id of its version is not that of a stored one.
  pub commit-Ancestor :
      (s s' : MemoryStore) (recipe : Recipe) (author created_at message origin : Str)
      (at r : VersionRecord)
      → IsIntact memory s
      → head memory s recipe.id ≡ ok (some at)
      → commit memory content_hash version_id s recipe author created_at message origin none
        ≡ ok (r, s')
      → (r ≡ at) ⊎ (get (versions_of s recipe.id) r.version_id ≡ none)
      → (v : Str) → Ancestor (versions_of s recipe.id) at.version_id v
      → Ancestor (versions_of s' recipe.id) r.version_id v
  commit-Ancestor s s' recipe author created_at message origin at r intact h k fresh v line =
      let d = versions_of s recipe.id in
      let d' = versions_of s' recipe.id in
      let c : Commits memory content_hash version_id s recipe r s' =
        returned-Commits memory content_hash version_id memory-IsLawful s s' recipe author
          created_at message origin none r intact k in
      let found : get d at.version_id ≡ some at = head-found s recipe.id at intact h in
      let stored : (get d r.version_id ≡ none) ⊎ (get d r.version_id ≡ some r) = elim fresh [
        | inl same ↦
            inr (subst (λ (x : VersionRecord). get d x.version_id ≡ some x) (sym same) found)
        | inr missing ↦ inl missing
      ] in
      let keep = stored_on s s' recipe r c stored in
      elim (commit-parents memory content_hash version_id s s' recipe author created_at message
        origin at r h k) [
          | inl (same, still) ↦
              subst (λ (x : VersionRecord). Ancestor d' x.version_id v) (sym same)
                (Ancestor-keep d d' at.version_id keep v line)
          | inr parents ↦
              let new : get d' r.version_id ≡ some r = stored_new s s' recipe r c in
              let above : mem at.version_id r.parents ≡ true =
                ap (λ (l : List Str). mem at.version_id l) parents ∙ mem_only at.version_id in
              Ancestor-trans d' r.version_id at.version_id
                (parent r.version_id at.version_id r at (itself r new) new above
                  (keep at.version_id at found))
                v (Ancestor-keep d d' at.version_id keep v line)
        ]
