-- ===== src/Ids.antt =====
-- packages/snapcook-core/src/snapcook_core/ids.py: the type prefix of an id. Whether a text is a
-- ULID is what `ULID.from_str` says, a parameter.
pub mod Minted
use snap_cook.Common.{
  Str, codes, str_eq, ◌==◌, Bool, true, false, ◌&&◌, Option, none, some, List, [], ◌∷◌, ◌++◌,
  if◌then◌else◌,
}
use snap_cook.Dict.{mem}

abbrev pub all_prefixes : List Str
all_prefixes =
    codes "rcp"
    ∷ codes "ing"
    ∷ codes "iuse"
    ∷ codes "nod"
    ∷ codes "act"
    ∷ codes "cwu"
    ∷ codes "sec"
    ∷ []

-- `value.partition("_")`: the text before the first underscore, and what stands behind it, if there is one
unfoldable pub partition_underscore : Str → Str × Option Str
partition_underscore [] = ([], none)
partition_underscore (c ∷ s) =
    let rest = partition_underscore s in if c == 95 then ([], some s) else (c ∷ rest.0, rest.1)

abbrev pub known_prefix : Str × Option Str → Option Str
known_prefix (head, none) = none
known_prefix (head, some body) = if mem head all_prefixes then some head else none

unfoldable pub prefix_of : Str → Option Str
unfolding partition_underscore
prefix_of value = known_prefix (partition_underscore value)

module _ (is_ulid : Str → Bool) where
  abbrev pub has_form : Str → Str × Option Str → Bool
  has_form prefix (head, none) = false
  has_form prefix (head, some body) = str_eq head prefix && is_ulid body

  unfoldable pub is_id_of : Str → Str → Bool
  unfolding partition_underscore
  is_id_of value prefix = has_form prefix (partition_underscore value)

-- `_mint`, on the ULID that is drawn
unfoldable pub mint : (prefix ulid : Str) → Str
mint prefix ulid = prefix ++ 95 ∷ ulid
