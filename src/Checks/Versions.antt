-- ===== src/Checks/Versions.antt =====
-- The version store in memory.
use snap_cook.Common.{
  inr, Str, codes, str_eq, str_lt, ◌≡◌, refl, Option, none, some, List, [], ◌∷◌, ◌++◌,
}
use snap_cook.Common.Int.{pos}
use snap_cook.Errors.{Result, ok, err, canonicalization_error}
use snap_cook.Dict.{get, set, mem}
use snap_cook.Schema.Provenance.{authored}
use snap_cook.Schema.Recipe.{Recipe, private}
use snap_cook.Store.{
  VersionRecord, Commit, build_version_record, head, history, walk, newest_first, insert_newest,
  store_version, add_version, commit,
}
use snap_cook.Store.Memory.{
  MemoryStore, versions_of, put_version, read_version, read_head_ref, write_head_ref, memory,
}
use snap_cook.Store.{exists}
use snap_cook.Store.Memory.{list_recipe_ids}
use snap_cook.Store.Memory.Listing.{mem-list_recipe_ids}
use snap_cook.Store.Lineage.{commit-Ancestor}
use snap_cook.Store.Memory.Laws.{memory-IsLawful}
use snap_cook.Store.Laws.{IsIntact}
use snap_cook.Store.Effects.{Committed}
use snap_cook.Store.Commits.{commit-IsIntact, commit-commit, commit_lem}
use snap_cook.Store.Frontier.{pending}
use snap_cook.Store.History.{Lineage, history_fuel, history-Lineage, Ancestor, itself}
use snap_cook.Worklist.Containers.{pop_last}
use snap_cook.Checks.Soup.{soup}

-- A recipe for more servings than a double counts has no canonical bytes.
abbrev hash : Recipe → Result Str
hash recipe = elim recipe.servings [
  | none ↦ ok (recipe.title.source ++ recipe.id)
  | some servings ↦ err canonicalization_error
]

abbrev commit_id : Commit → Result Str
commit_id c = ok (c.content_hash ++ c.created_at)

abbrev recipe : Recipe
recipe = record {
  id = codes "r1";
  source_lang = codes "en";
  title = record { source = codes "soup"; values = []; stale_against = [] };
  description = none;
  servings = none;
  visibility = private;
  tags = [];
  actions = soup;
  provenance = record {
    origin = authored;
    source_url = none;
    source_title = none;
    author = none;
    license_spdx = none;
    attribution = none;
    notes = none;
    retrieved_at = none;
    importer = none;
  };
}

abbrev recipe' : Recipe
recipe' = record recipe {
  tags = codes "quick" ∷ [];
  title = record { source = codes "stew"; values = []; stale_against = [] };
}

abbrev empty : MemoryStore
empty = record { versions = []; heads = [] }

abbrev first : VersionRecord
first = record {
  version_id = codes "soupr1t1";
  content_hash = codes "soupr1";
  schema_version = 1;
  parents = [];
  author = codes "ann";
  created_at = codes "t1";
  message = [];
  origin = codes "authored";
  recipe = recipe;
}

abbrev second : VersionRecord
second = record {
  version_id = codes "stewr1t2";
  content_hash = codes "stewr1";
  schema_version = 1;
  parents = codes "soupr1t1" ∷ [];
  author = codes "ann";
  created_at = codes "t2";
  message = [];
  origin = codes "authored";
  recipe = recipe';
}

abbrev once : MemoryStore
once = record {
  versions = (codes "r1", (codes "soupr1t1", first) ∷ []) ∷ [];
  heads = (codes "r1", codes "soupr1t1") ∷ [];
}

abbrev twice : MemoryStore
twice = record {
  versions = (codes "r1", (codes "soupr1t1", first) ∷ (codes "stewr1t2", second) ∷ []) ∷ [];
  heads = (codes "r1", codes "stewr1t2") ∷ [];
}

empty-IsIntact : IsIntact memory empty
unfolding read_version read_head_ref versions_of get
empty-IsIntact = record { refs = λ i ref h. cc; stored = λ i v r h. cc }

commit-first :
    commit memory hash commit_id empty recipe (codes "ann") (codes "t1") [] (codes "authored") none
    ≡ ok (first, once)
unfolding commit add_version head build_version_record store_version put_version read_version
    read_head_ref write_head_ref versions_of get set
commit-first = refl

commit-second :
    commit memory hash commit_id once recipe' (codes "ann") (codes "t2") [] (codes "authored") none
    ≡ ok (second, twice)
unfolding commit add_version head build_version_record store_version put_version read_version
    read_head_ref write_head_ref versions_of get set str_eq
commit-second = refl

once-IsIntact : IsIntact memory once
once-IsIntact =
    commit-IsIntact memory hash commit_id memory-IsLawful empty once recipe (codes "ann")
      (codes "t1") [] (codes "authored") none first empty-IsIntact commit-first

twice-head : head memory twice (codes "r1") ≡ ok (some second)
unfolding head read_version read_head_ref versions_of get str_eq
twice-head = refl

twice-history :
    history memory (history_fuel twice (codes "r1")) twice (codes "r1") ≡ ok (second ∷ first ∷ [])
unfolding history head read_version read_head_ref versions_of get str_eq walk newest_first
    insert_newest pop_last mem str_lt pending
twice-history = refl

commit-IsIntact_example : IsIntact memory twice
commit-IsIntact_example =
    commit-IsIntact memory hash commit_id memory-IsLawful once twice recipe' (codes "ann")
      (codes "t2") [] (codes "authored") none second once-IsIntact commit-second

commit-commit_example :
    (r : VersionRecord) × (s' : MemoryStore) × (commit memory hash commit_id once recipe'
        (codes "ann")
        (codes "t2")
        []
        (codes "authored")
        none
      ≡ ok (r, s'))
    × (head memory s' (codes "r1") ≡ ok (some r))
    × (r.content_hash ≡ codes "stewr1")
    × ((author' created_at' message' origin' : Str) (parents' : Option (List Str))
        → commit memory hash commit_id s' recipe' author' created_at' message' origin' parents'
          ≡ ok (r, s'))
commit-commit_example =
    commit-commit memory hash commit_id memory-IsLawful once recipe' (codes "ann") (codes "t2") []
      (codes "authored") none (codes "stewr1") once-IsIntact refl (λ h at. (_, refl))

twice-IsIntact : IsIntact memory twice
twice-IsIntact =
    commit-IsIntact memory hash commit_id memory-IsLawful once twice recipe' (codes "ann")
      (codes "t2") [] (codes "authored") none second once-IsIntact commit-second

history-Lineage_example : Lineage twice (codes "r1") second
history-Lineage_example = history-Lineage twice (codes "r1") second twice-IsIntact twice-head

mem-list_recipe_ids_example :
    mem (codes "r1") (list_recipe_ids twice) ≡ exists memory twice (codes "r1")
mem-list_recipe_ids_example = mem-list_recipe_ids twice (codes "r1")

commit_lem_example :
    Committed memory hash commit_id once recipe'
      (codes "ann")
      (codes "t2")
      []
      (codes "authored")
      none
      (commit memory hash commit_id once recipe'
        (codes "ann")
        (codes "t2")
        []
        (codes "authored")
        none)
commit_lem_example =
    commit_lem memory hash commit_id memory-IsLawful once recipe' (codes "ann") (codes "t2") []
      (codes "authored") none once-IsIntact

-- The exception of the content hash passes through, and nothing is written.
commit_raises :
    commit memory hash commit_id once
      (record recipe' { servings = some (pos 4) })
      (codes "ann")
      (codes "t2")
      []
      (codes "authored")
      none
    ≡ err canonicalization_error
unfolding commit add_version head build_version_record read_version read_head_ref versions_of get
    str_eq
commit_raises = refl

once-head : head memory once (codes "r1") ≡ ok (some first)
unfolding head read_version read_head_ref versions_of get str_eq
once-head = refl

new_id : get (versions_of once (codes "r1")) (codes "stewr1t2") ≡ none
unfolding versions_of get str_eq
new_id = refl

first_stored : get (versions_of once (codes "r1")) (codes "soupr1t1") ≡ some first
unfolding versions_of get str_eq
first_stored = refl

commit-Ancestor_example :
    Ancestor (versions_of twice (codes "r1")) (codes "stewr1t2") (codes "soupr1t1")
commit-Ancestor_example =
    commit-Ancestor hash commit_id once twice recipe' (codes "ann") (codes "t2") []
      (codes "authored") first second once-IsIntact once-head commit-second (inr new_id)
      (codes "soupr1t1") (itself first first_stored)
