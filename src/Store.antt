-- ===== src/Store.antt =====
-- packages/snapcook-core/src/snapcook_core/store/base.py: versions, and the rules of the version
-- store over the primitives that a backend provides. The two hashes are parameters, which may raise.
pub mod Memory
pub mod Laws
pub mod Effects
pub mod Commits
pub mod Frontier
pub mod Walked
pub mod Walk
pub mod History
pub mod Lineage
use snap_cook.Common.{
  Str, str_eq, str_lt, ℕ, zero, suc, ◌&&◌, Bool, true, false, Option, none, some, List, [], ◌∷◌,
  ◌++◌, if◌then◌else◌,
}
use snap_cook.Errors.{Result, ok, err, ◌>>=◌, ◌>>◌, object_not_found, ref_not_found, out_of_fuel}
use snap_cook.Dict.{mem}
use snap_cook.Schema.Recipe.{Recipe}
use snap_cook.Worklist.Containers.{pop_last}

pub record VersionRecord : Type 0 where
  pub version_id : Str
  pub content_hash : Str
  pub schema_version : ℕ
  pub parents : List Str
  pub author : Str
  pub created_at : Str
  pub message : Str
  pub origin : Str
  pub recipe : Recipe

-- The keyword arguments of `version_id` (canonical/hashing.py).
pub record Commit : Type 0 where
  pub schema_version : ℕ
  pub content_hash : Str
  pub parents : List Str
  pub author : Str
  pub created_at : Str
  pub message : Str
  pub origin : Str

-- The primitives of `RecipeStore`, on the state of a backend.
pub record Backend (S : Type 0) : Type 0 where
  pub put_version : Str → VersionRecord → S → S
  pub read_version : S → Str → Str → Option VersionRecord
  pub read_head_ref : S → Str → Option Str
  pub write_head_ref : Str → Str → S → S

-- `out.sort(key=created_at, reverse=True)`: versions of one time keep their order.
unfoldable pub insert_newest : VersionRecord → List VersionRecord → List VersionRecord
insert_newest r [] = r ∷ []
insert_newest r (q ∷ qs) =
    if str_lt r.created_at q.created_at then q ∷ insert_newest r qs else r ∷ q ∷ qs

unfoldable pub newest_first : List VersionRecord → List VersionRecord
unfolding insert_newest
newest_first [] = []
newest_first (r ∷ rs) = insert_newest r (newest_first rs)

-- The loop of `history`: `frontier` is a stack, its last id comes first.
unfoldable pub walk :
    (Str → Option VersionRecord) → ℕ → List Str → List Str → Result (List VersionRecord)
walk stored zero seen frontier = err out_of_fuel
walk stored (suc fuel) seen frontier = elim (pop_last frontier) [
  | none ↦ ok []
  | some (current, rest) ↦ elim (mem current seen) [
    | true ↦ walk stored fuel seen rest
    | false ↦ elim (stored current) [
      | none ↦ walk stored fuel (current ∷ seen) rest
      | some r ↦ do out ← walk stored fuel (current ∷ seen) (rest ++ r.parents); ok (r ∷ out)
    ]
  ]
]

abbrev pub format_version : ℕ
format_version = 1

module _ (content_hash : Recipe → Result Str) (version_id : Commit → Result Str) where
  -- `build_version_record`, with the schema version left at its default
  unfoldable pub build_version_record :
      Recipe → List Str → (author created_at message origin : Str) → Result VersionRecord
  build_version_record recipe parents author created_at message origin = do
    content ← content_hash recipe
    vid ← version_id (record {
      schema_version = format_version;
      content_hash = content;
      parents = parents;
      author = author;
      created_at = created_at;
      message = message;
      origin = origin;
    })
    ok (record {
      version_id = vid;
      content_hash = content;
      schema_version = format_version;
      parents = parents;
      author = author;
      created_at = created_at;
      message = message;
      origin = origin;
      recipe = recipe;
    })

-- The parents of a commit that names none: the version at HEAD.
abbrev pub default_parents : Option VersionRecord → Option (List Str) → List Str
default_parents h (some parents) = parents
default_parents none none = []
default_parents (some r) none = r.version_id ∷ []

module _ {S : Type 0} (b : Backend S) where
  unfoldable pub head : S → Str → Result (Option VersionRecord)
  head s recipe_id = elim (b.read_head_ref s recipe_id) [
    | none ↦ ok none
    | some ref ↦ elim (b.read_version s recipe_id ref) [
      | none ↦ err object_not_found
      | some r ↦ ok (some r)
    ]
  ]

  unfoldable pub head_recipe : S → Str → Result Recipe
  unfolding head
  head_recipe s recipe_id = do
    h ← head s recipe_id
    elim h [ none ↦ err ref_not_found | some r ↦ ok r.recipe ]

  unfoldable pub get_version : S → Str → Str → Result VersionRecord
  get_version s recipe_id version = elim (b.read_version s recipe_id version) [
    | none ↦ err object_not_found
    | some r ↦ ok r
  ]

  unfoldable pub history : ℕ → S → Str → Result (List VersionRecord)
  unfolding head walk newest_first
  history fuel s recipe_id = do
    h ← head s recipe_id
    elim h [
      | none ↦ ok []
      | some r ↦ do
        out ← walk (b.read_version s recipe_id) fuel [] (r.version_id ∷ [])
        ok (newest_first out)
    ]

  unfoldable pub exists : S → Str → Bool
  exists s recipe_id = elim (b.read_head_ref s recipe_id) [ none ↦ false | some ref ↦ true ]

  -- A new version is written, and the branch moves to it.
  unfoldable pub store_version : VersionRecord → S → S
  store_version r s = b.write_head_ref r.recipe.id r.version_id (b.put_version r.recipe.id r s)

  module _ (content_hash : Recipe → Result Str) (version_id : Commit → Result Str) where
    -- The new version of a commit, and the store that it leaves.
    unfoldable pub add_version :
        S
        → Recipe
        → List Str
        → (author created_at message origin : Str) → Result (VersionRecord × S)
    add_version s recipe parents author created_at message origin = do
      r ←
          build_version_record content_hash version_id recipe parents author created_at message
            origin
      ok (r, store_version r s)

    -- `commit` returns the version and the store that it leaves.
    unfoldable pub commit :
        S
        → Recipe
        → (author created_at message origin : Str) → Option (List Str)
        → Result (VersionRecord × S)
    commit s recipe author created_at message origin parents = do
      h ← head s recipe.id
      elim h [
        | none ↦
            add_version s recipe (default_parents none parents) author created_at message origin
        | some at ↦ do
          content ← content_hash recipe
          if str_eq at.content_hash content
              then ok (at, s)
              else add_version s recipe (default_parents (some at) parents) author created_at
                  message origin
      ]
