-- ===== src/Canonical/Json.antt =====
-- The documents that `_encode` (canonical/encode.py) gives: JSON values, with no absent member, that
-- the check for floats of canonical/jcs.py lets through.
use snap_cook.Common.{
  Str, str_eq, Bool-cases, inl, inr, ◌≡◌, refl, sym, ap, Bool, true, false, ◌&&◌, not, none, some,
  if◌then◌else◌, arith,
}
use snap_cook.Errors.{ok}
use snap_cook.Canonical.{
  Value, null, float, other, boolean, decimal, integer, text, enum, array, dict, model, Values, nil,
  cons, Entries, end, entry, is_absent, set_entry, assert_no_floats, assert_no_floats_values,
  assert_no_floats_entries,
}

-- A document of JSON values in which no member of an object is absent.
unfoldable mutual
  pub is_canonical : Value → Bool
  is_canonical null = true
  is_canonical (boolean b) = true
  is_canonical (integer n) = true
  is_canonical (text s) = true
  is_canonical (array vs) = are_canonical vs
  is_canonical (dict es) = entries_canonical es
  is_canonical v = false

  pub are_canonical : Values → Bool
  are_canonical nil = true
  are_canonical (cons v vs) = is_canonical v && are_canonical vs

  pub entries_canonical : Entries → Bool
  entries_canonical end = true
  entries_canonical (entry none v es) = false
  entries_canonical (entry (some k) v es) =
      is_canonical v && not (is_absent v) && entries_canonical es

pub and_intro : {a b : Bool} → a ≡ true → b ≡ true → (a && b) ≡ true
and_intro h k = rw (h, k) refl

and_elim : (a b : Bool) → (a && b) ≡ true → (a ≡ true) × (b ≡ true)
and_elim a b h = ground arith

negated : {a : Bool} → a ≡ false → not a ≡ true
negated h = rw h refl

set_entry-canonical :
    (k : Str) (v : Value) (es : Entries)
    → is_canonical v ≡ true
    → is_absent v ≡ false
    → entries_canonical es ≡ true
    → entries_canonical (set_entry k v es) ≡ true
unfolding set_entry entries_canonical
set_entry-canonical k v end c p h = and_intro (and_intro c (negated p)) refl
set_entry-canonical k v (entry none w es) c p h = cc
set_entry-canonical k v (entry (some j) w es) c p h =
    let (head, ces) = and_elim (is_canonical w && not (is_absent w)) _ h in
    elim (Bool-cases (str_eq j k)) [
      | inl e ↦
          rw
            (sym (
              ap
                (λ (b : Bool).
                  if b then entry (some j) v es else entry (some j) w (set_entry k v es))
                (sym e)))
            (and_intro (and_intro c (negated p)) ces)
      | inr e ↦ rw e (and_intro head (set_entry-canonical k v es c p ces))
    ]

pub put_entry-canonical :
    (k : Str) (v : Value) (es : Entries)
    → is_canonical v ≡ true
    → entries_canonical es ≡ true
    → entries_canonical (if is_absent v then es else set_entry k v es) ≡ true
put_entry-canonical k v es c h = ground (arith, set_entry-canonical k v es c)

-- The members of a document carry no float.
mutual
  unfolding assert_no_floats is_canonical

  pub canonical-no_floats : (v : Value) → is_canonical v ≡ true → assert_no_floats v ≡ ok tt
  canonical-no_floats null h = refl
  canonical-no_floats float h = cc
  canonical-no_floats other h = cc
  canonical-no_floats (boolean b) h = refl
  canonical-no_floats (decimal d) h = cc
  canonical-no_floats (integer n) h = refl
  canonical-no_floats (text s) h = refl
  canonical-no_floats (enum v) h = cc
  canonical-no_floats (array vs) h = values-no_floats vs h
  canonical-no_floats (dict es) h = entries-no_floats es h
  canonical-no_floats (model fs) h = cc

  values-no_floats : (vs : Values) → are_canonical vs ≡ true → assert_no_floats_values vs ≡ ok tt
  values-no_floats nil h = refl
  values-no_floats (cons v vs) h =
      let (c, cs) = and_elim (is_canonical v) _ h in
      rw (canonical-no_floats v c) (values-no_floats vs cs)

  entries-no_floats :
      (es : Entries) → entries_canonical es ≡ true → assert_no_floats_entries es ≡ ok tt
  entries-no_floats end h = refl
  entries-no_floats (entry none v es) h = cc
  entries-no_floats (entry (some k) v es) h =
      let (head, cs) = and_elim (is_canonical v && not (is_absent v)) _ h in
      let (c, p) = and_elim (is_canonical v) _ head in
      rw (canonical-no_floats v c) (entries-no_floats es cs)
