-- ===== src/Web/Access.antt =====
-- apps/web/catalog/access.py: the funnel through which recipes are read. A table is the list of its
-- rows in the order of the model's Meta, a query set the list of the rows it selects.
pub mod Leaks
use snap_cook.Common.{Str, str_eq, Bool, true, false, ◌&&◌, ◌||◌, List, [], ◌∷◌, if◌then◌else◌}
use snap_cook.Errors.{Result, ok, err, http404, multiple_objects_returned}
use snap_cook.Schema.Recipe.{Visibility, private, unlisted, public}

-- `request.user`; an anonymous user has no key.
pub data User : Type 0 where
  anonymous : User
  authenticated : (pk : Str) (is_staff : Bool) → User

pub record Row : Type 0 where
  pub recipe_id : Str
  pub slug : Str
  pub owner_id : Str
  pub title : Str
  pub visibility : Visibility
  pub head_version_id : Str
  pub head_content_hash : Str

abbrev pub is_public : Visibility → Bool
is_public private = false
is_public unlisted = false
is_public public = true

-- `visibility__in=[PUBLIC, UNLISTED]`
abbrev pub is_reachable : Visibility → Bool
is_reachable private = false
is_reachable unlisted = true
is_reachable public = true

-- `Q(owner=user)`, where the user is authenticated
abbrev pub owns : User → Row → Bool
owns anonymous row = false
owns (authenticated pk is_staff) row = str_eq row.owner_id pk

unfoldable pub filter : (Row → Bool) → List Row → List Row
filter p [] = []
filter p (row ∷ rows) = if p row then row ∷ filter p rows else filter p rows

unfoldable pub visible_recipes : User → List Row → List Row
unfolding filter
visible_recipes user = filter (λ row. is_public row.visibility || owns user row)

unfoldable pub addressable_recipes : User → List Row → List Row
unfolding filter
addressable_recipes user = filter (λ row. is_reachable row.visibility || owns user row)

-- `.get(…)` on the rows that are selected
abbrev pub only : List Row → Result Row
only [] = err http404
only (row ∷ []) = ok row
only (row ∷ other ∷ rows) = err multiple_objects_returned

unfoldable pub get_recipe_or_404 : User → Str → List Row → Result Row
unfolding addressable_recipes filter
get_recipe_or_404 user slug rows =
    only (filter (λ row. str_eq row.slug slug) (addressable_recipes user rows))

-- `can_edit`
unfoldable pub can_edit : User → Row → Bool
can_edit anonymous row = false
can_edit (authenticated pk is_staff) row = str_eq row.owner_id pk
