-- ===== src/Checks/Web.antt =====
-- Rows and tokens of the web application.
use snap_cook.Dict.{get}
use snap_cook.Web.Views.{options_from_request}
use snap_cook.Web.Views.Scale.{Offered, reads_nan, options_from_request-Offered}
use snap_cook.Common.{
  arith, Str, codes, str_eq, ◌≡◌, ◌↔◌, ◌⊎◌, refl, Bool, true, false, ◌||◌, none, some, List, [],
  ◌∷◌, ◌++◌, if◌then◌else◌,
}
use snap_cook.Errors.{Result, ok, err, http404}
use snap_cook.Dict.{distinct, mem}
use snap_cook.Schema.Recipe.{Visibility, private, unlisted}
use snap_cook.Web.Access.{
  User, anonymous, authenticated, Row, is_reachable, owns, filter, visible_recipes,
  addressable_recipes, get_recipe_or_404, can_edit,
}
use snap_cook.Web.Access.Leaks.{
  slugs, hidden_row-unseen, get_recipe_or_404_lem, can_edit-get_recipe,
}
use snap_cook.Web.Tokens.{compare_digest, ApiToken, underscore, is_ascii, issue, authenticate}
use snap_cook.Web.Gate.{
  Request, session, token, LogEntry, entry, staff_key, require_ops_access, check_ops_token,
  partition_space,
}
use snap_cook.Web.Gate.{
  handled, login_gate, is_exempt, starts_with, starts_with_any, is_authenticated, exempt_prefixes,
}
use snap_cook.Web.Gate.Login.{Continues, login_gate_iff}
use snap_cook.Web.Tokens.{is_active, is_listed_active}
use snap_cook.Web.Tokens.Expiry.{is_active-is_listed_active}
use snap_cook.Web.Gate.Ops.{Presents, granted, require_ops_access-granted}
use snap_cook.Web.Tokens.Split.{has_char}
use snap_cook.Web.Tokens.Issued.{IsNewKey, authenticate-issue, authenticate-underscore}

abbrev row : Str → Str → Visibility → Row
row slug owner visibility = record {
  recipe_id = slug;
  slug = slug;
  owner_id = owner;
  title = slug;
  visibility = visibility;
  head_version_id = slug;
  head_content_hash = slug;
}

abbrev ann : User
ann = authenticated (codes "ann") false

abbrev soup_row : Row
soup_row = row (codes "soup") (codes "ann") private

abbrev cake_row : Row
cake_row = row (codes "cake") (codes "bob") private

abbrev tart_row : Row
tart_row = row (codes "tart") (codes "bob") unlisted

abbrev table : List Row
table = cake_row ∷ soup_row ∷ tart_row ∷ []

table_listing : visible_recipes ann table ≡ soup_row ∷ []
unfolding visible_recipes filter str_eq
table_listing = refl

tart_found : get_recipe_or_404 anonymous (codes "tart") table ≡ ok tart_row
unfolding get_recipe_or_404 addressable_recipes filter str_eq
tart_found = refl

table-slugs : distinct (slugs table) ≡ true
unfolding distinct mem str_eq
table-slugs = refl

not_ann : owns ann cake_row ≡ false
unfolding str_eq
not_ann = refl

ann_edits : can_edit ann soup_row ≡ true
unfolding can_edit str_eq
ann_edits = refl

hidden_row-unseen_example :
    (visible_recipes ann table ≡ visible_recipes ann (soup_row ∷ tart_row ∷ []))
    × (get_recipe_or_404 ann (codes "cake") table
        ≡ get_recipe_or_404 ann (codes "cake") (soup_row ∷ tart_row ∷ []))
hidden_row-unseen_example =
    hidden_row-unseen ann [] (soup_row ∷ tart_row ∷ []) cake_row (codes "cake") (refl, not_ann)

get_recipe_or_404_example :
    get_recipe_or_404 ann (codes "tart") table
    ≡ (if is_reachable unlisted || owns ann tart_row then ok tart_row else err http404)
get_recipe_or_404_example =
    get_recipe_or_404_lem ann (cake_row ∷ soup_row ∷ []) [] tart_row table-slugs

can_edit-get_recipe_example :
    (get_recipe_or_404 ann (codes "soup") table ≡ ok soup_row)
    × (visible_recipes ann table
        ≡ visible_recipes ann (cake_row ∷ []) ++ soup_row ∷ visible_recipes ann (tart_row ∷ []))
can_edit-get_recipe_example =
    can_edit-get_recipe ann (cake_row ∷ []) (tart_row ∷ []) soup_row table-slugs ann_edits

abbrev digest : Str → Str
digest secret = codes "9f" ++ secret

abbrev issued : Str → ApiToken × Str
issued secret = issue digest 4 (codes "0a1b2c3d") secret (codes "ann") (codes "cli") [] (some 50)

digest_ascii : is_ascii (digest (codes "s3cr")) ≡ true
unfolding is_ascii
digest_ascii = refl

plain_prefix : has_char underscore (codes "0a1b2c3d") ≡ false
unfolding has_char
plain_prefix = refl

plain_secret : has_char underscore (codes "s3cr") ≡ false
unfolding has_char
plain_secret = refl

cut_secret : has_char underscore (codes "s3_r") ≡ true
unfolding has_char
cut_secret = refl

abbrev older : ApiToken
older = record (issued (codes "old")).0 { pk = 3 }

older_key : IsNewKey 4 (older ∷ [])
older_key = (λ e. omega (arith, e), tt)

authenticate-issue_example :
    authenticate digest 20 (issued (codes "s3cr")).1 ((issued (codes "s3cr")).0 ∷ older ∷ [])
    ≡ ok (
        some
          (codes "ann", record (issued (codes "s3cr")).0 { last_used_at = some 20 } ∷ older ∷ []))
authenticate-issue_example =
    authenticate-issue digest 20 4 (codes "0a1b2c3d") (codes "s3cr") (codes "ann") (codes "cli") []
      (some 50) (older ∷ []) digest_ascii plain_prefix plain_secret refl older_key

authenticate-underscore_example :
    authenticate digest 20 (issued (codes "s3_r")).1 ((issued (codes "s3_r")).0 ∷ []) ≡ ok none
authenticate-underscore_example =
    authenticate-underscore digest 20 4 (codes "0a1b2c3d") (codes "s3_r") (codes "ann")
      (codes "cli") [] (some 50) ((issued (codes "s3_r")).0 ∷ []) plain_prefix cut_secret

abbrev staff_request : Request
staff_request = record {
  user = some (authenticated (codes "ann") false);
  path = codes "/ops/api/";
  authorization = codes "Bearer t0k";
}

ops_granted :
    ◌≡◌ {A = Result (Bool × List LogEntry)}
      (require_ops_access (codes "t0k") staff_request [])
      (ok (true, entry token true ∷ []))
unfolding require_ops_access check_ops_token partition_space compare_digest is_ascii str_eq
ops_granted = refl

require_ops_access-granted_example :
    ((pk : Str) × (staff_key staff_request.user ≡ some pk)
      × (◌≡◌ {A = List LogEntry} (entry token true ∷ []) (granted (session pk) true [])))
    ⊎ (Presents (codes "t0k") staff_request
        × (◌≡◌ {A = List LogEntry} (entry token true ∷ []) (granted token true [])))
require_ops_access-granted_example =
    require_ops_access-granted (codes "t0k") staff_request [] (entry token true ∷ []) ops_granted

login_gate_iff_example :
    (login_gate staff_request ≡ handled)
    ↔ ((is_authenticated staff_request.user ≡ true) ⊎ Continues exempt_prefixes staff_request.path)
login_gate_iff_example = login_gate_iff staff_request

is_active-is_listed_active_example :
    (is_active 50 (issued (codes "s3cr")).0 ≡ true
      → is_listed_active 50 (issued (codes "s3cr")).0 ≡ true)
    × (is_listed_active 50 (issued (codes "s3cr")).0 ≡ true
        → is_active 50 (issued (codes "s3cr")).0 ≡ false
        → (issued (codes "s3cr")).0.expires_at ≡ some 50)
is_active-is_listed_active_example = is_active-is_listed_active 50 (issued (codes "s3cr")).0

-- At the time that it expires.
expires_now :
    (is_listed_active 50 (issued (codes "s3cr")).0 ≡ true)
    × (is_active 50 (issued (codes "s3cr")).0 ≡ false)
unfolding is_listed_active is_active issue
expires_now = (refl, refl)

-- A path outside the documented ones that starts with the health probe's.
upload_handled :
    login_gate (record staff_request { user = some anonymous; path = codes "/uploads" }) ≡ handled
unfolding login_gate is_exempt starts_with_any starts_with
upload_handled = refl

options_from_request-Offered_example :
    Offered
      (reads_nan (get ((codes "scale", codes "2.5") ∷ []) (codes "scale")))
      (options_from_request none ((codes "scale", codes "2.5") ∷ []))
options_from_request-Offered_example =
    options_from_request-Offered none ((codes "scale", codes "2.5") ∷ [])
