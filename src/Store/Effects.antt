-- ===== src/Store/Effects.antt =====
-- What one call of `RecipeStore.commit` (store/base.py) does to a store, as a relation, with the
-- consequences of it.
use snap_cook.Common.{
  some-injective, Str, str_eq, str_eq_iff, str_eq_refl, ◌≡◌, refl, ◌&&◌, inl, inr, Bool, true,
  Option, none, some, List, [], ◌∷◌, if◌then◌else◌, arith, Bool-cases, sym, ◌∙◌, ap, subst, ◌⊎◌,
}
use snap_cook.Errors.{Result, ok, err}
use snap_cook.Schema.Recipe.{Recipe}
use snap_cook.Store.Laws.{IsLawful, IsIntact}
use snap_cook.Store.{
  VersionRecord, Commit, Backend, head, default_parents, store_version, format_version,
}

both_true : (a b : Bool) → (a && b) ≡ true → (a ≡ true) × (b ≡ true)
both_true a b h = ground arith

-- Writing the value that is there changes nothing.
kept :
    {A : Type 0} (f : Str → Option A) (i j : Str) {x : Option A}
    → f i ≡ x
    → f j ≡ (if str_eq i j then x else f j)
kept f i j h = elim (Bool-cases (str_eq i j)) [
  | inl e ↦ rw e (rw (sym ((str_eq_iff i j).0 e)) h)
  | inr e ↦ rw e
]

kept_pair :
    {A : Type 0} (f : Str → Str → Option A) (i k j v : Str) {x : Option A}
    → f i k ≡ x
    → f j v ≡ (if str_eq i j && str_eq k v then x else f j v)
kept_pair f i k j v {x} h = elim (Bool-cases (str_eq i j)) [
  | inl e ↦ rw (e, sym ((str_eq_iff i j).0 e)) (kept (f i) k v h)
  | inr e ↦ rw e
]

-- The commit that is hashed for a version, and the parents that it should have.
abbrev pub commit_header : Str → List Str → (author created_at message origin : Str) → Commit
commit_header content parents author created_at message origin = record {
  schema_version = format_version;
  content_hash = content;
  parents = parents;
  author = author;
  created_at = created_at;
  message = message;
  origin = origin;
}

abbrev pub parents_of : Option VersionRecord → Option (List Str) → List Str
parents_of h (some given) = given
parents_of none none = []
parents_of (some at) none = at.version_id ∷ []

pub default_parents_lem :
    (h : Option VersionRecord) (parents : Option (List Str))
    → default_parents h parents ≡ parents_of h parents
default_parents_lem h (some given) = refl
default_parents_lem none none = refl
default_parents_lem (some at) none = refl

module _ {S : Type 0} (b : Backend S) (content_hash : Recipe → Result Str)
    (version_id : Commit → Result Str) where
  -- The store `s'` that a commit leaves: `r` is there, `r` is HEAD of the recipe, and all else is
  -- as it was.
  pub record Commits (s : S) (recipe : Recipe) (r : VersionRecord) (s' : S) : Type 0 where
    pub content : content_hash recipe ≡ ok r.content_hash
    pub owner : r.recipe.id ≡ recipe.id
    pub read :
        (j v : Str)
        → b.read_version s' j v
          ≡ (if str_eq recipe.id j && str_eq r.version_id v then some r else b.read_version s j v)
    pub ref :
        (j : Str)
        → b.read_head_ref s' j
          ≡ (if str_eq recipe.id j then some r.version_id else b.read_head_ref s j)

  -- Where the version that a commit returns comes from: it is HEAD, and nothing is written, or it is
  -- new and holds the arguments of the call, on the parents that the call takes, under their id.
  unfoldable pub IsMadeFrom :
      S
      → Recipe
      → (author created_at message origin : Str) → Option (List Str)
      → VersionRecord
      → S
      → Type 0
  IsMadeFrom s recipe author created_at message origin parents r s' =
      (h : Option VersionRecord) × (head b s recipe.id ≡ ok h)
      × (((h ≡ some r) × (s' ≡ s))
          ⊎ ((r ≡ record {
            version_id = r.version_id;
            content_hash = r.content_hash;
            schema_version = format_version;
            parents = parents_of h parents;
            author = author;
            created_at = created_at;
            message = message;
            origin = origin;
            recipe = recipe;
          })
              × (version_id (
                    commit_header r.content_hash (parents_of h parents) author created_at message
                      origin)
                  ≡ ok r.version_id)))

  -- What a commit gives: such a store and its version, or an exception of one of the two hashes.
  unfoldable pub Committed :
      S
      → Recipe
      → (author created_at message origin : Str) → Option (List Str)
      → Result (VersionRecord × S)
      → Type 0
  Committed s recipe author created_at message origin parents (ok (r, s')) =
      Commits s recipe r s' × IsMadeFrom s recipe author created_at message origin parents r s'
  Committed s recipe author created_at message origin parents (err raised) =
      (content_hash recipe ≡ err raised)
      ⊎ ((h : Option VersionRecord) × (content : Str) × (head b s recipe.id ≡ ok h)
          × (content_hash recipe ≡ ok content)
          × (version_id
                (commit_header content (parents_of h parents) author created_at message origin)
              ≡ err raised))

  module _ (laws : IsLawful b) where
    pub store_version-Commits :
        (s : S) (recipe : Recipe) (r : VersionRecord)
        → r.recipe ≡ recipe
        → content_hash recipe ≡ ok r.content_hash
        → Commits s recipe r (store_version b r s)
    unfolding store_version
    store_version-Commits s recipe r same content = record {
      content = content;
      owner = ap (λ (q : Recipe). q.id) same;
      read = λ j v.
          laws.read_write r.recipe.id r.version_id (b.put_version r.recipe.id r s) j v
          ∙ laws.read_put r.recipe.id r s j v
          ∙ ap
              (λ (q : Recipe).
                if str_eq q.id j && str_eq r.version_id v then some r else b.read_version s j v)
              same;
      ref = λ j.
          laws.ref_write r.recipe.id r.version_id (b.put_version r.recipe.id r s) j
          ∙ rw (laws.ref_put r.recipe.id r s j) (
              ap (λ (q : Recipe). if str_eq q.id j then some r.version_id else b.read_head_ref s j)
                same);
    }

    pub unchanged-Commits :
        (s : S) (recipe : Recipe) (ref : Str) (r : VersionRecord)
        → IsIntact b s
        → b.read_head_ref s recipe.id ≡ some ref
        → b.read_version s recipe.id ref ≡ some r
        → content_hash recipe ≡ ok r.content_hash
        → Commits s recipe r s
    unchanged-Commits s recipe ref r intact at found content =
        let (own, of) = intact.stored recipe.id ref r found in
        record {
          content = content;
          owner = of;
          read = λ j v.
              kept_pair (b.read_version s) recipe.id r.version_id j v
                (subst (λ (v : Str). b.read_version s recipe.id v ≡ some r) (sym own) found);
          ref = λ j. kept (b.read_head_ref s) recipe.id j (at ∙ ap some (sym own));
        }

    pub Commits-head :
        (s : S) (recipe : Recipe) (r : VersionRecord) (s' : S)
        → Commits s recipe r s'
        → head b s' recipe.id ≡ ok (some r)
    unfolding head
    Commits-head s recipe r s' c =
        let at : b.read_head_ref s' recipe.id ≡ some r.version_id =
          c.ref recipe.id ∙ rw str_eq_refl refl in
        let found : b.read_version s' recipe.id r.version_id ≡ some r =
          c.read recipe.id r.version_id
          ∙ rw (str_eq_refl recipe.id, str_eq_refl r.version_id) refl in
        rw (at, head) (rw found refl)

    pub Commits-IsIntact :
        (s : S) (recipe : Recipe) (r : VersionRecord) (s' : S)
        → IsIntact b s
        → Commits s recipe r s'
        → IsIntact b s'
    Commits-IsIntact s recipe r s' intact c = record {
      refs = λ i ref at. elim (Bool-cases (str_eq recipe.id i)) [
        | inl e ↦
            let same : r.version_id ≡ ref = some-injective (sym (c.ref i ∙ rw e refl) ∙ at) in
            (r, c.read i ref ∙ rw (e, sym same, str_eq_refl r.version_id) refl)
        | inr e ↦
            let (q, found) = intact.refs i ref (sym (c.ref i ∙ rw e refl) ∙ at) in
            (q, c.read i ref ∙ rw e found)
      ];
      stored = λ i v q found. elim (Bool-cases (str_eq recipe.id i && str_eq r.version_id v)) [
        | inl e ↦
            let (own, of) = both_true (str_eq recipe.id i) (str_eq r.version_id v) e in
            let same : r ≡ q = some-injective (sym (c.read i v ∙ rw e refl) ∙ found) in
            subst (λ (x : VersionRecord). (x.version_id ≡ v) × (x.recipe.id ≡ i)) same
              ((str_eq_iff r.version_id v).0 of, c.owner ∙ (str_eq_iff recipe.id i).0 own)
        | inr e ↦ intact.stored i v q (sym (c.read i v ∙ rw e refl) ∙ found)
      ];
    }
