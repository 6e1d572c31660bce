-- ===== src/Canonical/Hashing/Parents.antt =====
-- The identity of a commit does not depend on the order of its parents.
use mathlib.Core.List.{Permᴰ}
use snap_cook.Common.{
  Str, codes, str_eq, ==_iff, ◌≡◌, refl, ap, true, some, none, Option, List, [], ◌∷◌, ◌++◌, length,
  arith,
}
use snap_cook.Errors.{ok, err, canonicalization_error}
use snap_cook.Canonical.{Value, assert_no_floats, assert_no_floats_values}
use snap_cook.Store.{Commit}
use snap_cook.Sort.{sorted}
use snap_cook.Sort.Perms.{sorted-perm}
use snap_cook.Canonical.Hashing.{
  header, texts, hash_document, version_id, is_hash, all_hex, partition_colon, hash_algo_prefix,
}

texts-no_floats : (l : List Str) → assert_no_floats_values (texts l) ≡ ok tt
unfolding assert_no_floats
texts-no_floats [] = refl
texts-no_floats (s ∷ l) = texts-no_floats l

header-no_floats :
    (nfc : Str → Str) (c : Commit) (l : List Str) → assert_no_floats (header nfc c l) ≡ ok tt
unfolding assert_no_floats header
header-no_floats nfc c l = rw (texts-no_floats l) refl

prefixed-is_hash :
    (digest : Str)
    → length digest ≡ 64
    → all_hex digest ≡ true
    → is_hash (hash_algo_prefix ++ codes ":" ++ digest) ≡ true
unfolding is_hash partition_colon str_eq
prefixed-is_hash digest long hex = ground (arith, ==_iff (length digest) 64)

module _ (hexdigest : Value → Option Str) (nfc : Str → Str) where
  -- Two commits that differ in the order of their parents have one identity.
  pub version_id-perm :
      (c : Commit) (parents : List Str)
      → Permᴰ c.parents parents
      → version_id hexdigest nfc c ≡ version_id hexdigest nfc (record c { parents = parents })
  unfolding version_id
  version_id-perm c parents p =
      ap (λ (l : List Str). hash_document hexdigest (header nfc c l)) (sorted-perm p)

  -- Where the header of a commit serialises, with a digest of 64 hexadecimal digits, the commit has an
  -- identity in the form of a hash.
  pub version_id-is_hash :
      (c : Commit) (digest : Str)
      → hexdigest (header nfc c (sorted c.parents)) ≡ some digest
      → length digest ≡ 64
      → all_hex digest ≡ true
      → (id : Str) × (version_id hexdigest nfc c ≡ ok id) × (is_hash id ≡ true)
  unfolding version_id hash_document
  version_id-is_hash c digest serialised long hex = (
    hash_algo_prefix ++ codes ":" ++ digest,
    rw (header-no_floats nfc c (sorted c.parents), serialised) refl,
    prefixed-is_hash digest long hex,
  )

  version_id-refused :
      (c : Commit)
      → hexdigest (header nfc c (sorted c.parents)) ≡ none
      → version_id hexdigest nfc c ≡ err canonicalization_error
  unfolding version_id hash_document
  version_id-refused c refused = rw (header-no_floats nfc c (sorted c.parents), refused) refl
