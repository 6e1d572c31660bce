-- ===== src/Canonical/Hashing.antt =====
-- canonical/hashing.py: the identity of content and of a commit. The serialisation of rfc8785 with
-- sha256 behind it is a parameter: the lower-case hex digest of a document's bytes, or none where
-- rfc8785 raises TypeError or ValueError, as for an integer that no double holds.
pub mod Parents
use snap_cook.Common.{
  Str, codes, str_eq, str_lt, ℕ, leb, ltb, ◌==◌, Bool, true, false, ◌&&◌, ◌||◌, not, List, [], ◌∷◌,
  ◌++◌, map, length, if◌then◌else◌, Option, none, some,
}
use snap_cook.Common.Int.{pos}
use snap_cook.Errors.{Result, ok, err, ◌>>=◌, ◌>>◌, canonicalization_error}
use snap_cook.Canonical.{
  Value, integer, text, array, dict, model, Values, nil, cons, Entries, end, entry, Fields,
  encode_fields, assert_no_floats,
}
use snap_cook.Sort.{sorted}
use snap_cook.Store.{Commit}

abbrev pub hash_algo_prefix : Str
hash_algo_prefix = codes "sc1"

abbrev pub texts : List Str → Values
texts [] = nil
texts (s ∷ l) = cons (text s) (texts l)

-- The header of a commit, on its sorted parents.
unfoldable pub header : (nfc : Str → Str) → Commit → List Str → Value
header nfc c parents = dict (
    entry (some (codes "schema_version")) (integer (pos c.schema_version)) (
      entry (some (codes "content_hash")) (text c.content_hash) (
        entry (some (codes "parents")) (array (texts parents)) (
          entry (some (codes "author")) (text (nfc c.author)) (
            entry (some (codes "created_at")) (text c.created_at) (
              entry (some (codes "message")) (text (nfc c.message))
                (entry (some (codes "origin")) (text c.origin) end)))))))

-- The hash of a document, `hash_bytes(dumps(…))`.
module _ (hexdigest : Value → Option Str) where
  unfoldable pub hash_document : Value → Result Str
  hash_document doc = do
    assert_no_floats doc
    elim (hexdigest doc) [
      | none ↦ err canonicalization_error
      | some digest ↦ ok (hash_algo_prefix ++ codes ":" ++ digest)
    ]

  -- `content_hash` of a model
  unfoldable pub content_hash : (nfc : Str → Str) → Fields → Result Str
  unfolding hash_document
  content_hash nfc fields = do out ← encode_fields nfc fields end; hash_document (dict out)

  unfoldable pub version_id : (nfc : Str → Str) → Commit → Result Str
  unfolding hash_document sorted header
  version_id nfc c = hash_document (header nfc c (sorted c.parents))

-- `c in "0123456789abcdef"`
abbrev pub is_hex : ℕ → Bool
is_hex c = (leb 48 c && leb c 57) || (leb 97 c && leb c 102)

unfoldable pub all_hex : Str → Bool
all_hex [] = true
all_hex (c ∷ s) = is_hex c && all_hex s

-- `value.partition(":")`: the text before the first colon, and what stands behind it, if there is one
unfoldable pub partition_colon : Str → Str × Option Str
partition_colon [] = ([], none)
partition_colon (c ∷ s) =
    let rest = partition_colon s in if c == 58 then ([], some s) else (c ∷ rest.0, rest.1)

abbrev pub well_formed : Str × Option Str → Bool
well_formed (prefix, none) = false
well_formed (prefix, some digest) =
    str_eq prefix hash_algo_prefix && (length digest == 64) && all_hex digest

-- `is_hash`
unfoldable pub is_hash : Str → Bool
unfolding partition_colon all_hex
is_hash value = well_formed (partition_colon value)
