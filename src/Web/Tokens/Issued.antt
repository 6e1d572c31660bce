-- ===== src/Web/Tokens/Issued.antt =====
-- Which tokens `PatAuth.authenticate` lets in.
use mathlib.Core.Path.{ap₂}
use snap_cook.Common.{
  ◌≢◌, ◌==◌, if_true, if_false, Str, codes, str_eq, str_eq_refl, ℕ, ◌≤◌, ◌≡◌, refl, ◌∙◌, ap, true,
  false, Option, none, some, List, [], ◌∷◌, ◌++◌, length, arith,
}
use snap_cook.Errors.{ok}
use snap_cook.Web.Tokens.{
  ApiToken, pat_prefix, underscore, split_on, is_ascii, compare_digest, is_before, is_listed_active,
  first_active, touch, check_parts, authenticate, issue,
}
use snap_cook.Web.Tokens.Split.{has_char, split_on-none, split_on-append, length-split_on_has}

compare_digest_self : (s : Str) → is_ascii s ≡ true → compare_digest s s ≡ ok true
unfolding compare_digest
compare_digest_self s h = ground (arith, str_eq_refl s)

-- The plaintext of a token, cut at its first underscores.
split_on-plaintext :
    (prefix secret : Str)
    → has_char underscore prefix ≡ false
    → split_on underscore (pat_prefix ++ underscore ∷ prefix ++ underscore ∷ secret)
      ≡ codes "snck" ∷ codes "pat" ∷ prefix ∷ split_on underscore secret
unfolding has_char
split_on-plaintext prefix secret h =
    split_on-append underscore (codes "snck")
      (codes "pat" ++ underscore ∷ prefix ++ underscore ∷ secret) refl
    ∙ ap (λ (l : List Str). codes "snck" ∷ l)
        (split_on-append underscore (codes "pat") (prefix ++ underscore ∷ secret) refl
          ∙ ap (λ (l : List Str). codes "pat" ∷ l) (split_on-append underscore prefix secret h))

first_active-new :
    (now : ℕ) (row : ApiToken) (rows : List ApiToken)
    → is_listed_active now row ≡ true
    → first_active now row.prefix (row ∷ rows) ≡ some row
unfolding first_active
first_active-new now row rows h = ground (arith, str_eq_refl row.prefix)

-- No row has this key.
abbrev pub IsNewKey : ℕ → List ApiToken → Type 0
IsNewKey pk [] = Unit
IsNewKey pk (row ∷ rows) = (row.pk ≢ pk) × IsNewKey pk rows

other_key : (j k : ℕ) → j ≢ k → (j == k) ≡ false
other_key j k h = ground arith

same_key : (k : ℕ) → (k == k) ≡ true
same_key k = ground arith

touch-others : (now pk : ℕ) (rows : List ApiToken) → IsNewKey pk rows → touch now pk rows ≡ rows
unfolding touch
touch-others now pk [] h = refl
touch-others now pk (row ∷ rows) h =
    ap₂ (λ (r : ApiToken) (l : List ApiToken). r ∷ l) (if_false _ _ (other_key row.pk pk h.0))
      (touch-others now pk rows h.1)

touch-first :
    (now : ℕ) (row : ApiToken) (rows : List ApiToken)
    → IsNewKey row.pk rows
    → touch now row.pk (row ∷ rows) ≡ record row { last_used_at = some now } ∷ rows
unfolding touch
touch-first now row rows h =
    ap₂ (λ (r : ApiToken) (l : List ApiToken). r ∷ l) (if_true _ _ (same_key row.pk))
      (touch-others now row.pk rows h)

module _ (hash_secret : Str → Str) where
  -- A text of more than four parts is no token.
  check_parts-long :
      (now : ℕ) (a b prefix : Str) (rest : List Str) (rows : List ApiToken)
      → 2 ≤ length rest
      → check_parts hash_secret now (a ∷ b ∷ prefix ∷ rest) rows ≡ ok none
  unfolding check_parts
  check_parts-long now a b prefix [] rows h = absurd (omega (arith, h))
  check_parts-long now a b prefix (x ∷ []) rows h = absurd (omega (arith, h))
  check_parts-long now a b prefix (x ∷ y ∷ rest) rows h = refl

  check_parts-found :
      (now : ℕ) (secret : Str) (row : ApiToken) (rows : List ApiToken)
      → first_active now row.prefix rows ≡ some row
      → row.token_hash ≡ hash_secret secret
      → is_ascii (hash_secret secret) ≡ true
      → check_parts hash_secret now (codes "snck" ∷ codes "pat" ∷ row.prefix ∷ secret ∷ []) rows
        ≡ ok (some (row.user, touch now row.pk rows))
  unfolding check_parts str_eq
  check_parts-found now secret row rows found same ascii =
      rw (found, check_parts)
        (rw
          (ap (λ (h : Str). compare_digest h (hash_secret secret)) same
            ∙ compare_digest_self (hash_secret secret) ascii)
          refl)

  -- A token with no underscore in its two random parts, whose hash is ASCII, whose time is not over,
  -- whose key is new and that stands first in the table lets its user in; the time of its last use is
  -- then now, and no other row changes.
  pub authenticate-issue :
      (now pk : ℕ) (prefix secret user name : Str) (scopes : List Str) (expires_at : Option ℕ)
      (rows : List ApiToken)
      → is_ascii (hash_secret secret) ≡ true
      → has_char underscore prefix ≡ false
      → has_char underscore secret ≡ false
      → is_before expires_at now ≡ false
      → IsNewKey pk rows
      → let token = issue hash_secret pk prefix secret user name scopes expires_at in
        authenticate hash_secret now token.1 (token.0 ∷ rows)
        ≡ ok (some (user, record token.0 { last_used_at = some now } ∷ rows))
  unfolding authenticate issue check_parts is_listed_active
  authenticate-issue now pk prefix secret user name scopes expires_at rows ascii plain safe lasts
        new =
      let row = (issue hash_secret pk prefix secret user name scopes expires_at).0 in
      ap (λ (l : List Str). check_parts hash_secret now l (row ∷ rows))
        (split_on-plaintext prefix secret plain
          ∙ ap (λ (l : List Str). codes "snck" ∷ codes "pat" ∷ prefix ∷ l)
              (split_on-none underscore secret safe))
      ∙ check_parts-found now secret row (row ∷ rows)
          (first_active-new now row rows (rw (lasts, is_listed_active) refl)) refl ascii
      ∙ ap (λ (l : List ApiToken). ok (some (user, l))) (touch-first now row rows new)

  -- A token with an underscore in its secret and none in its prefix is refused, whatever the table
  -- holds.
  pub authenticate-underscore :
      (now pk : ℕ) (prefix secret user name : Str) (scopes : List Str) (expires_at : Option ℕ)
      (rows : List ApiToken)
      → has_char underscore prefix ≡ false
      → has_char underscore secret ≡ true
      → authenticate hash_secret now
          (issue hash_secret pk prefix secret user name scopes expires_at).1
          rows
        ≡ ok none
  unfolding authenticate issue
  authenticate-underscore now pk prefix secret user name scopes expires_at rows plain cut =
      ap (λ (l : List Str). check_parts hash_secret now l rows)
        (split_on-plaintext prefix secret plain)
      ∙ check_parts-long now (codes "snck") (codes "pat") prefix (split_on underscore secret) rows
          (length-split_on_has underscore secret cut)
