-- ===== src/Store/Commits.antt =====
-- What `RecipeStore.commit` promises on any backend whose primitives read what was written last.
use snap_cook.Common.{
  if_true, Str, str_eq, str_eq_iff, str_eq_refl, ◌≡◌, refl, inl, inr, Option, none, some, List,
  Bool-cases, sym, ◌∙◌, ap, subst,
}
use snap_cook.Errors.{Result, ok, err, Result-cases}
use snap_cook.Schema.Recipe.{Recipe}
use snap_cook.Store.Laws.{IsLawful, IsIntact, head_cases}
use snap_cook.Store.{
  VersionRecord, Commit, Backend, head, build_version_record, commit, add_version,
}
use snap_cook.Store.Effects.{
  Commits, Committed, IsMadeFrom, commit_header, parents_of, default_parents_lem,
  store_version-Commits, unchanged-Commits, Commits-head, Commits-IsIntact,
}

module _ {S : Type 0} (b : Backend S) (content_hash : Recipe → Result Str)
    (version_id : Commit → Result Str) where
  module _ (laws : IsLawful b) where
    add_version-Committed :
        (s : S) (recipe : Recipe) (h : Option VersionRecord)
        (author created_at message origin : Str) (parents : Option (List Str))
        → head b s recipe.id ≡ ok h
        → Committed b content_hash version_id s recipe author created_at message origin parents (
            add_version b content_hash version_id s recipe
              (parents_of h parents)
              author
              created_at
              message
              origin)
    unfolding add_version build_version_record Committed IsMadeFrom
    add_version-Committed s recipe h author created_at message origin parents at =
        elim (Result-cases (content_hash recipe)) [
          | inl (raised, e) ↦ rw (e, add_version) (inl e)
          | inr (content, e) ↦
              let c : Commit =
                commit_header content (parents_of h parents) author created_at message origin in
              elim (Result-cases (version_id c)) [
                | inl (raised, f) ↦ rw (e, f, add_version) (inr (h, content, at, e, f))
                | inr (vid, f) ↦
                    rw (e, f, add_version)
                      (
                        store_version-Commits b content_hash version_id laws s recipe _ refl e,
                        (h, at, inr (refl, f)),
                      )
              ]
        ]

    -- Over a lawful backend, a commit to an intact store returns a version with the content hash of
    -- the recipe, or raises what one of the two hashes raises for it. In the store that it leaves that
    -- version is stored and HEAD of the recipe, and every other version and branch reads as before.
    -- Either the version was HEAD and the store is the same, or it is new: it holds the arguments of
    -- the call, its parents are those given or else the version at HEAD, if there is one, and its id
    -- is the version id of that commit.
    pub commit_lem :
        (s : S) (recipe : Recipe) (author created_at message origin : Str)
        (parents : Option (List Str))
        → IsIntact b s
        → Committed b content_hash version_id s recipe author created_at message origin parents
            (commit b content_hash version_id s recipe author created_at message origin parents)
    unfolding commit Committed IsMadeFrom
    commit_lem s recipe author created_at message origin parents intact =
        elim (head_cases b s recipe.id intact) [
          | inl e ↦
              rw (e, commit, default_parents_lem none parents)
                (add_version-Committed s recipe none author created_at message origin parents e)
          | inr (ref, r, at, found, e) ↦ elim (Result-cases (content_hash recipe)) [
            | inl (raised, f) ↦ rw (e, f, commit) (inl f)
            | inr (content, f) ↦ elim (Bool-cases (str_eq r.content_hash content)) [
              | inl same ↦
                  let here : content_hash recipe ≡ ok r.content_hash =
                    f ∙ ap ok (sym ((str_eq_iff r.content_hash content).0 same)) in
                  rw (e, f, same, commit)
                    (
                      unchanged-Commits b content_hash version_id laws s recipe ref r intact at
                          found here,
                      (some r, e, inl (refl, refl)),
                    )
              | inr other ↦
                  rw (e, f, other, commit, default_parents_lem (some r) parents)
                    (add_version-Committed s recipe (some r) author created_at message origin
                      parents e)
            ]
          ]
        ]

    pub returned-Commits :
        (s s' : S) (recipe : Recipe) (author created_at message origin : Str)
        (parents : Option (List Str)) (r : VersionRecord)
        → IsIntact b s
        → commit b content_hash version_id s recipe author created_at message origin parents
          ≡ ok (r, s')
        → Commits b content_hash version_id s recipe r s'
    unfolding Committed
    returned-Commits s s' recipe author created_at message origin parents r intact h =
        (subst
          (Committed b content_hash version_id s recipe author created_at message origin parents) h
          (commit_lem s recipe author created_at message origin parents intact)).0

    -- Over a lawful backend, `commit` on an intact store leaves an intact store.
    pub commit-IsIntact :
        (s s' : S) (recipe : Recipe) (author created_at message origin : Str)
        (parents : Option (List Str)) (r : VersionRecord)
        → IsIntact b s
        → commit b content_hash version_id s recipe author created_at message origin parents
          ≡ ok (r, s')
        → IsIntact b s'
    commit-IsIntact s s' recipe author created_at message origin parents r intact h =
        Commits-IsIntact b content_hash version_id laws s recipe r s' intact
          (returned-Commits s s' recipe author created_at message origin parents r intact h)

    -- With hashes that do not raise, the call returns.
    hashed-Commits :
        (s : S) (recipe : Recipe) (author created_at message origin : Str)
        (parents : Option (List Str)) (content : Str) (call : Result (VersionRecord × S))
        → content_hash recipe ≡ ok content
        → ((h : Option VersionRecord)
            → head b s recipe.id ≡ ok h
            → (vid : Str) × (version_id
                  (commit_header content (parents_of h parents) author created_at message origin)
                ≡ ok vid))
        → Committed b content_hash version_id s recipe author created_at message origin parents call
        → (r : VersionRecord) × (s' : S) × (call ≡ ok (r, s'))
          × Commits b content_hash version_id s recipe r s'
    unfolding Committed
    hashed-Commits s recipe author created_at message origin parents content (ok (r, s')) e names
          c =
        (r, s', refl, c.0)
    hashed-Commits s recipe author created_at message origin parents content (err raised) e names
          (inl f) =
        cc (e, f)
    hashed-Commits s recipe author created_at message origin parents content (err raised) e names
          (inr (h, content', at, f, g)) =
        let same : content' ≡ content = cc (e, f) in
        let (vid, named) = names h at in cc (g, named, same)

    -- Over a lawful backend, if the content hash of a recipe and the id of its commit, with the
    -- parents that the commit takes, do not raise, a commit to an intact store returns a version that
    -- is then HEAD and has that content hash; a second commit of the same recipe, with any author,
    -- time, message, origin and parents, returns that version again and leaves the store as it is.
    pub commit-commit :
        (s : S) (recipe : Recipe) (author created_at message origin : Str)
        (parents : Option (List Str)) (content : Str)
        → IsIntact b s
        → content_hash recipe ≡ ok content
        → ((h : Option VersionRecord)
            → head b s recipe.id ≡ ok h
            → (vid : Str) × (version_id
                  (commit_header content (parents_of h parents) author created_at message origin)
                ≡ ok vid))
        → (r : VersionRecord) × (s' : S) × (commit b content_hash version_id s recipe author
              created_at message origin parents
            ≡ ok (r, s'))
          × (head b s' recipe.id ≡ ok (some r))
          × (r.content_hash ≡ content)
          × ((author' created_at' message' origin' : Str) (parents' : Option (List Str))
              → commit b content_hash version_id s' recipe author' created_at' message' origin'
                  parents'
                ≡ ok (r, s'))
    unfolding commit
    commit-commit s recipe author created_at message origin parents content intact hashed names =
        let (r, s', runs, c) =
          hashed-Commits s recipe author created_at message origin parents content _ hashed names
            (commit_lem s recipe author created_at message origin parents intact) in
        let at : head b s' recipe.id ≡ ok (some r) =
          Commits-head b content_hash version_id laws s recipe r s' c in
        (
          r,
          s',
          runs,
          at,
          cc (c.content, hashed),
          λ author' created_at' message' origin' parents'.
              rw (at, c.content, commit) (if_true _ _ (str_eq_refl r.content_hash)),
        )
