-- ===== src/Store/Memory.antt =====
-- packages/snapcook-core/src/snapcook_core/store/memory.py: the backend in memory.
pub mod Laws
pub mod Listing
use snap_cook.Common.{Str, Option, none, some, List, []}
use snap_cook.Dict.{Dict, get, set, keys, keys}
use snap_cook.Sort.{sorted}
use snap_cook.Store.{VersionRecord, Backend}

pub record MemoryStore : Type 0 where
  -- recipe_id -> {version_id -> record}
  pub versions : Dict (Dict VersionRecord)
  -- recipe_id -> HEAD version_id
  pub heads : Dict Str

-- The default of `.get(recipe_id, {})` and of `.setdefault(recipe_id, {})`.
abbrev pub or_empty : Option (Dict VersionRecord) → Dict VersionRecord
or_empty none = []
or_empty (some d) = d

-- `self._versions.get(recipe_id, {})`
unfoldable pub versions_of : MemoryStore → Str → Dict VersionRecord
versions_of s recipe_id = or_empty (get s.versions recipe_id)

unfoldable pub put_version : Str → VersionRecord → MemoryStore → MemoryStore
unfolding versions_of
put_version recipe_id r s = record {
  versions = set recipe_id (set r.version_id r (versions_of s recipe_id)) s.versions;
  heads = s.heads;
}

unfoldable pub read_version : MemoryStore → Str → Str → Option VersionRecord
unfolding versions_of
read_version s recipe_id version = get (versions_of s recipe_id) version

unfoldable pub read_head_ref : MemoryStore → Str → Option Str
read_head_ref s recipe_id = get s.heads recipe_id

unfoldable pub write_head_ref : Str → Str → MemoryStore → MemoryStore
write_head_ref recipe_id version s = record {
  versions = s.versions;
  heads = set recipe_id version s.heads;
}

abbrev pub memory : Backend MemoryStore
memory = record {
  put_version = put_version;
  read_version = read_version;
  read_head_ref = read_head_ref;
  write_head_ref = write_head_ref;
}

unfoldable pub list_recipe_ids : MemoryStore → List Str
list_recipe_ids s = sorted (keys s.heads)
