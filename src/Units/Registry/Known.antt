-- ===== src/Units/Registry/Known.antt =====
-- The unit that an author's word resolves to is one of the table.
use snap_cook.Common.{
  Str, codes, str_eq, str_eq_refl, ◌≡◌, sym, ◌∙◌, true, ◌&&◌, not, Option, none, some, List, [],
  ◌∷◌, ◌++◌, Bool-cases, Option-cases, inl, inr, some-injective, subst, if_true, if_false,
}
use snap_cook.Dict.{mem}
use snap_cook.Units.Registry.{
  UnitDef, unit_defs, find_unit, unit_def, by_alias, is_cup, lower, strip_left, strip_right,
  locale_unit, resolve_unit,
}

-- A unit whose word is asked for stands in the table under its id.
by_alias-known :
    (ds : List UnitDef) (key unit_id : Str)
    → by_alias ds key ≡ some unit_id
    → (d : UnitDef) × (find_unit ds unit_id ≡ some d)
unfolding by_alias find_unit
by_alias-known [] key unit_id h = cc
by_alias-known (d ∷ ds) key unit_id h = elim (Bool-cases (str_eq d.id unit_id)) [
  | inl e ↦ (d, if_true _ _ e)
  | inr e ↦ elim (Bool-cases (mem key d.aliases && not (is_cup key))) [
    | inl f ↦
        let same : d.id ≡ unit_id = some-injective (sym (if_true _ _ f) ∙ h) in
        (d, if_true _ _ (subst (λ (u : Str). str_eq d.id u ≡ true) same (str_eq_refl d.id)))
    | inr f ↦
        let (q, found) = by_alias-known ds key unit_id (sym (if_false _ _ f) ∙ h) in
        (q, if_false _ _ e ∙ found)
  ]
]

locale_unit-known :
    (locale : Option Str) (unit_id : Str)
    → locale_unit locale ≡ some unit_id
    → (d : UnitDef) × (unit_def unit_id ≡ some d)
locale_unit-known none unit_id h = cc
locale_unit-known (some []) unit_id h = cc
locale_unit-known (some (c ∷ s)) unit_id h =
    let candidate : Str = codes "unit:cup." ++ lower (c ∷ s) in
    elim (Option-cases (unit_def candidate)) [
      | inl e ↦ cc (rw (e, locale_unit) at h)
      | inr (d, e) ↦
          let same : candidate ≡ unit_id = some-injective (rw (e, locale_unit) at h) in
          (d, subst (λ (u : Str). unit_def u ≡ some d) same e)
    ]

-- Whatever the word and the locale, a unit id that `resolve_unit` gives has a definition.
pub resolve_unit-known :
    (surface : Str) (locale : Option Str) (unit_id : Str)
    → resolve_unit surface locale ≡ some unit_id
    → (d : UnitDef) × (unit_def unit_id ≡ some d)
unfolding resolve_unit
resolve_unit-known surface locale unit_id h =
    let key : Str = lower (strip_right (strip_left surface)) in
    elim (Option-cases (by_alias unit_defs key)) [
      | inl e ↦ elim (Bool-cases (is_cup key)) [
        | inl f ↦ locale_unit-known locale unit_id (sym (if_true _ _ f) ∙ rw (e, resolve_unit) at h)
        | inr f ↦ cc (sym (if_false _ _ f) ∙ rw (e, resolve_unit) at h)
      ]
      | inr (u, e) ↦
          let same : u ≡ unit_id = some-injective (rw (e, resolve_unit) at h) in
          let (d, found) = by_alias-known unit_defs key u e in
          (d, subst (λ (x : Str). unit_def x ≡ some d) same (unfold unit_def in found))
    ]
