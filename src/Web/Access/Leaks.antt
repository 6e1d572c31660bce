-- ===== src/Web/Access/Leaks.antt =====
-- What the funnel of apps/web/catalog/access.py lets through.
use snap_cook.Common.{
  Str, str_eq, str_eq_iff, str_eq_refl, ◌≡◌, refl, sym, ◌∙◌, ap, inl, inr, Bool, true, false, ◌||◌,
  List, [], ◌∷◌, ◌++◌, map, if◌then◌else◌, arith, Bool-cases,
}
use snap_cook.Errors.{ok, err, http404}
use snap_cook.Dict.{mem, distinct}
use snap_cook.Schema.Recipe.{Visibility, private}
use snap_cook.Web.Access.{
  User, anonymous, authenticated, Row, is_public, is_reachable, owns, filter, visible_recipes,
  addressable_recipes, get_recipe_or_404, can_edit, only,
}

-- A row that a user must not learn of: private, and somebody else's.
abbrev pub IsHidden : User → Row → Type 0
IsHidden user row = (row.visibility ≡ private) × (owns user row ≡ false)

filter-skip :
    (p : Row → Bool) (before after : List Row) (row : Row)
    → p row ≡ false
    → filter p (before ++ row ∷ after) ≡ filter p (before ++ after)
unfolding filter
filter-skip p [] after row h = ground arith
filter-skip p (r ∷ before) after row h = ground (arith, filter-skip p before after row h)

hidden-fails :
    (p : Visibility → Bool) (user : User) (row : Row)
    → row.visibility ≡ private
    → owns user row ≡ false
    → p private ≡ false
    → (p row.visibility || owns user row) ≡ false
hidden-fails p user row hidden foreign h = ground (arith, ap p hidden)

-- Whether a hidden row is in the table or not, the user's listing and the answer to each slug,
-- also to the row's own, are the same.
pub hidden_row-unseen :
    (user : User) (before after : List Row) (row : Row) (slug : Str)
    → IsHidden user row
    → (visible_recipes user (before ++ row ∷ after) ≡ visible_recipes user (before ++ after))
      × (get_recipe_or_404 user slug (before ++ row ∷ after)
          ≡ get_recipe_or_404 user slug (before ++ after))
unfolding visible_recipes addressable_recipes get_recipe_or_404
hidden_row-unseen user before after row slug (hidden, foreign) = (
  filter-skip (λ r. is_public r.visibility || owns user r) before after row
      (hidden-fails is_public user row hidden foreign refl),
  ap (λ (rows : List Row). only (filter (λ r. str_eq r.slug slug) rows))
      (filter-skip (λ r. is_reachable r.visibility || owns user r) before after row
        (hidden-fails is_reachable user row hidden foreign refl)),
)

abbrev pub slugs : List Row → List Str
slugs rows = map (λ (r : Row). r.slug) rows

filter-append :
    (p : Row → Bool) (rows more : List Row)
    → filter p (rows ++ more) ≡ filter p rows ++ filter p more
unfolding filter
filter-append p [] more = refl
filter-append p (r ∷ rows) more = ground (arith, filter-append p rows more)

-- No row has the slug.
filter-no_slug :
    (p : Row → Bool) (slug : Str) (rows : List Row)
    → mem slug (slugs rows) ≡ false
    → filter (λ r. str_eq r.slug slug) (filter p rows) ≡ []
unfolding filter mem
filter-no_slug p slug [] h = refl
filter-no_slug p slug (r ∷ rows) h = ground (arith, filter-no_slug p slug rows)

own_slug :
    (before after : List Row) (row : Row) → mem row.slug (slugs (before ++ row ∷ after)) ≡ true
unfolding mem
own_slug [] after row = rw str_eq_refl refl
own_slug (r ∷ before) after row = ground (arith, own_slug before after row)

distinct-middle :
    (before after : List Row) (row : Row)
    → distinct (slugs (before ++ row ∷ after)) ≡ true
    → (mem row.slug (slugs before) ≡ false) × (mem row.slug (slugs after) ≡ false)
unfolding distinct mem
distinct-middle [] after row h = (refl, ground arith)
distinct-middle (r ∷ before) after row h =
    let rest = distinct-middle before after row (ground arith) in
    (
      elim (Bool-cases (str_eq r.slug row.slug)) [
        | inl e ↦ ground (arith, own_slug before after row, (str_eq_iff r.slug row.slug).0 e)
        | inr e ↦ ground (arith, rest.0)
      ],
      rest.1,
    )

-- Among rows with different slugs, the answer to the slug of a row: the row if it is public or
-- unlisted or the user's own, and otherwise what a slug that is not there gives.
pub get_recipe_or_404_lem :
    (user : User) (before after : List Row) (row : Row)
    → distinct (slugs (before ++ row ∷ after)) ≡ true
    → get_recipe_or_404 user row.slug (before ++ row ∷ after)
      ≡ (if is_reachable row.visibility || owns user row then ok row else err http404)
unfolding get_recipe_or_404 addressable_recipes filter
get_recipe_or_404_lem user before after row once =
    let p : Row → Bool = λ r. is_reachable r.visibility || owns user r in
    let own : Row → Bool = λ r. str_eq r.slug row.slug in
    let (b, a) = distinct-middle before after row once in
    ap (λ (l : List Row). only (filter own l)) (filter-append p before (row ∷ after))
    ∙ ap only (filter-append own (filter p before) (filter p (row ∷ after)))
    ∙ ap (λ (l : List Row). only (l ++ filter own (filter p (row ∷ after))))
        (filter-no_slug p row.slug before b)
    ∙ elim (Bool-cases (p row)) [
      | inl e ↦ ground (arith, str_eq_refl row.slug, filter-no_slug p row.slug after a)
      | inr e ↦ ground (arith, filter-no_slug p row.slug after a)
    ]

can_edit-owns : (user : User) (row : Row) → can_edit user row ≡ owns user row
unfolding can_edit
can_edit-owns anonymous row = refl
can_edit-owns (authenticated pk is_staff) row = refl

-- Among rows with different slugs, who may edit a row gets it by its slug and has it in the listing.
pub can_edit-get_recipe :
    (user : User) (before after : List Row) (row : Row)
    → distinct (slugs (before ++ row ∷ after)) ≡ true
    → can_edit user row ≡ true
    → (get_recipe_or_404 user row.slug (before ++ row ∷ after) ≡ ok row)
      × (visible_recipes user (before ++ row ∷ after)
          ≡ visible_recipes user before ++ row ∷ visible_recipes user after)
unfolding visible_recipes filter
can_edit-get_recipe user before after row once h =
    let mine : owns user row ≡ true = sym (can_edit-owns user row) ∙ h in
    (
      get_recipe_or_404_lem user before after row once ∙ ground (arith, mine),
      filter-append (λ r. is_public r.visibility || owns user r) before (row ∷ after)
          ∙ ground (arith, mine),
    )
