-- ===== src/Web/Tokens.antt =====
-- apps/web/accounts/models.py (`ApiToken`) and apps/web/api/auth.py (`PatAuth`): personal access
-- tokens. The table is in the order of Meta: the newest token comes first. Times are numbers;
-- the hash of the server's pepper and a secret is a parameter, since sha256 stands behind it.
pub mod Split
pub mod Issued
pub mod Expiry
use snap_cook.Common.{
  Str, str_eq, codes, ℕ, ltb, ◌==◌, Bool, true, false, ◌&&◌, not, Option, none, some, List, [], ◌∷◌,
  ◌++◌, length, if◌then◌else◌,
}
use snap_cook.Errors.{Result, ok, err, ◌>>=◌, type_error}

pub record ApiToken : Type 0 where
  pub pk : ℕ
  pub user : Str
  pub name : Str
  pub prefix : Str
  pub token_hash : Str
  pub scopes : List Str
  pub last_used_at : Option ℕ
  pub expires_at : Option ℕ
  pub revoked_at : Option ℕ

abbrev pub pat_prefix : Str
pat_prefix = codes "snck_pat"

abbrev pub underscore : ℕ
underscore = 95

abbrev pub cons_first : ℕ → List Str → List Str
cons_first x [] = (x ∷ []) ∷ []
cons_first x (p ∷ ps) = (x ∷ p) ∷ ps

-- `token.split("_")`
unfoldable pub split_on : ℕ → Str → List Str
split_on c [] = [] ∷ []
split_on c (x ∷ s) = let rest = split_on c s in if x == c then [] ∷ rest else cons_first x rest

-- `hmac.compare_digest` of two texts, which refuses text that is not ASCII
unfoldable pub is_ascii : Str → Bool
is_ascii [] = true
is_ascii (x ∷ s) = ltb x 128 && is_ascii s

unfoldable pub compare_digest : Str → Str → Result Bool
unfolding is_ascii
compare_digest a b = if is_ascii a && is_ascii b then ok (str_eq a b) else err type_error

abbrev pub is_unset : Option ℕ → Bool
is_unset none = true
is_unset (some t) = false

-- `expires_at__lt=now`, which no row without a time satisfies
abbrev pub is_before : Option ℕ → ℕ → Bool
is_before none now = false
is_before (some t) now = ltb t now

-- A row of `ApiTokenQuerySet.active`
unfoldable pub is_listed_active : ℕ → ApiToken → Bool
is_listed_active now row = is_unset row.revoked_at && not (is_before row.expires_at now)

-- `ApiToken.is_active`
unfoldable pub is_active : ℕ → ApiToken → Bool
is_active now row =
    if is_unset row.revoked_at
    then elim row.expires_at [ none ↦ true | some t ↦ ltb now t ]
    else false

-- `.active().filter(prefix=prefix).first()`
unfoldable pub first_active : ℕ → Str → List ApiToken → Option ApiToken
unfolding is_listed_active
first_active now prefix [] = none
first_active now prefix (row ∷ rows) =
    if is_listed_active now row && str_eq row.prefix prefix
    then some row
    else first_active now prefix rows

-- `.filter(pk=pk).update(last_used_at=now)`
unfoldable pub touch : ℕ → ℕ → List ApiToken → List ApiToken
touch now pk [] = []
touch now pk (row ∷ rows) =
    (if row.pk == pk then record row { last_used_at = some now } else row) ∷ touch now pk rows

-- `scopes or [cls.Scope.RECIPES_READ]`
abbrev pub or_read : List Str → List Str
or_read [] = codes "recipes:read" ∷ []
or_read (s ∷ scopes) = s ∷ scopes

module _ (hash_secret : Str → Str) where
  -- The token is looked up by its prefix, and its secret compared by hash.
  unfoldable pub check_parts : ℕ → List Str → List ApiToken → Result (Option (Str × List ApiToken))
  unfolding first_active compare_digest touch
  check_parts now (a ∷ b ∷ prefix ∷ secret ∷ []) rows =
      if str_eq (a ++ underscore ∷ b) pat_prefix
      then elim (first_active now prefix rows) [
        | none ↦ ok none
        | some candidate ↦ do
          same ← compare_digest candidate.token_hash (hash_secret secret)
          ok (if same then some (candidate.user, touch now candidate.pk rows) else none)
      ]
      else ok none
  check_parts now parts rows = ok none

  -- `PatAuth.authenticate`, with the user that it returns and the table that it leaves
  unfoldable pub authenticate : ℕ → Str → List ApiToken → Result (Option (Str × List ApiToken))
  unfolding split_on check_parts
  authenticate now token rows = check_parts now (split_on underscore token) rows

  -- `ApiToken.issue`, on the key of the new row and the two random texts: the row and the plaintext
  unfoldable pub issue : ℕ → (prefix secret user name : Str) → List Str → Option ℕ → ApiToken × Str
  issue pk prefix secret user name scopes expires_at = (
    record {
      pk = pk;
      user = user;
      name = name;
      prefix = prefix;
      token_hash = hash_secret secret;
      scopes = or_read scopes;
      last_used_at = none;
      expires_at = expires_at;
      revoked_at = none;
    },
    pat_prefix ++ underscore ∷ prefix ++ underscore ∷ secret,
  )
