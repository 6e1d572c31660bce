-- ===== src/Canonical/Documents.antt =====
-- The documents that `_encode` gives: which values have one, and what it holds.
use snap_cook.Common.{
  Str, inl, inr, ◌⊎◌, ◌≡◌, refl, sym, subst, Bool, true, false, ◌&&◌, none, some, if◌then◌else◌,
}
use snap_cook.Errors.{Result, ok, err, ◌>>=◌, float_error, canonicalization_error}
use snap_cook.Canonical.Json.{
  is_canonical, are_canonical, entries_canonical, and_intro, put_entry-canonical,
  canonical-no_floats,
}
use snap_cook.Canonical.Numbers.{AnyDecimal, encode_decimal}
use snap_cook.Canonical.{
  Value, null, float, other, boolean, decimal, integer, text, enum, array, dict, model, Values, nil,
  cons, Entries, end, entry, Fields, done, field, is_absent, set_entry, encode, encode_all,
  encode_entries, encode_fields, assert_no_floats,
}

-- No float, no Decimal that is not finite, no value of an unknown type and no key that is not a
-- text, outside the fields that are not semantic.
unfoldable mutual
  pub is_encodable : Value → Bool
  is_encodable float = false
  is_encodable other = false
  is_encodable (decimal AnyDecimal.non_finite) = false
  is_encodable (enum v) = is_encodable v
  is_encodable (array vs) = are_encodable vs
  is_encodable (dict es) = entries_encodable es
  is_encodable (model fs) = fields_encodable fs
  is_encodable v = true

  pub are_encodable : Values → Bool
  are_encodable nil = true
  are_encodable (cons v vs) = is_encodable v && are_encodable vs

  pub entries_encodable : Entries → Bool
  entries_encodable end = true
  entries_encodable (entry none v es) = false
  entries_encodable (entry (some k) v es) = is_encodable v && entries_encodable es

  pub fields_encodable : Fields → Bool
  fields_encodable done = true
  fields_encodable (field k false v fs) = fields_encodable fs
  fields_encodable (field k true v fs) = is_encodable v && fields_encodable fs

-- What a call of the encoder gives: a result that passes the test `good` where the argument passes
-- its own, else one of the two exceptions of the encoder.
Answers : {A : Type 0} → Bool → (good : A → Bool) → Result A → Type 0
Answers admitted good (ok a) = (admitted ≡ true) × (good a ≡ true)
Answers admitted good (err raised) =
    (admitted ≡ false) × ((raised ≡ float_error) ⊎ (raised ≡ canonicalization_error))

-- A call whose result is used by a further call.
bind-Answers :
    {A B : Type 0} (a b : Bool) (good : A → Bool) (fine : B → Bool) (f : A → Result B)
    (r : Result A)
    → Answers a good r
    → ((x : A) → good x ≡ true → Answers b fine (f x))
    → Answers (a && b) fine (r >>= f)
unfolding Answers
bind-Answers a b good fine f (ok x) (admitted, g) next =
    subst (λ (t : Bool). Answers (t && b) fine (f x)) (sym admitted) (next x g)
bind-Answers a b good fine f (err raised) (refused, e) next = (rw refused refl, e)

-- A call whose result is wrapped up.
wrap-Answers :
    {A B : Type 0} (a : Bool) (good : A → Bool) (fine : B → Bool) (f : A → B) (r : Result A)
    → Answers a good r
    → ((x : A) → good x ≡ true → fine (f x) ≡ true)
    → Answers a fine (r >>= λ x. ok (f x))
unfolding Answers
wrap-Answers a good fine f (ok x) (admitted, g) fits = (admitted, fits x g)
wrap-Answers a good fine f (err raised) refused fits = refused

-- What `_encode` gives for a value.
pub Encoded : Value → Result Value → Type 0
Encoded v (ok w) = (is_encodable v ≡ true) × (is_canonical w ≡ true) × (assert_no_floats w ≡ ok tt)
Encoded v (err raised) =
    (is_encodable v ≡ false) × ((raised ≡ float_error) ⊎ (raised ≡ canonicalization_error))

Answers-Encoded :
    (v : Value) (r : Result Value) → Answers (is_encodable v) is_canonical r → Encoded v r
unfolding Answers Encoded
Answers-Encoded v (ok w) (e, c) = (e, c, canonical-no_floats w c)
Answers-Encoded v (err raised) refused = refused

module _ (nfc : Str → Str) where
  mutual
    unfolding encode is_encodable is_canonical encode_decimal Answers

    encode-Answers : (v : Value) → Answers (is_encodable v) is_canonical (encode nfc v)
    encode-Answers null = (refl, refl)
    encode-Answers float = (refl, inl refl)
    encode-Answers other = (refl, inr refl)
    encode-Answers (boolean b) = (refl, refl)
    encode-Answers (decimal (AnyDecimal.finite d)) = (refl, refl)
    encode-Answers (decimal AnyDecimal.non_finite) = (refl, inr refl)
    encode-Answers (integer n) = (refl, refl)
    encode-Answers (text s) = (refl, refl)
    encode-Answers (enum v) = encode-Answers v
    encode-Answers (array vs) =
        wrap-Answers (are_encodable vs) are_canonical is_canonical array (encode_all nfc vs)
          (encode_all-Answers vs) (λ ws c. c)
    encode-Answers (dict es) =
        wrap-Answers (entries_encodable es) entries_canonical is_canonical dict
          (encode_entries nfc es end) (encode_entries-Answers es end refl) (λ out c. c)
    encode-Answers (model fs) =
        wrap-Answers (fields_encodable fs) entries_canonical is_canonical dict
          (encode_fields nfc fs end) (encode_fields-Answers fs end refl) (λ out c. c)

    encode_all-Answers :
        (vs : Values) → Answers (are_encodable vs) are_canonical (encode_all nfc vs)
    encode_all-Answers nil = (refl, refl)
    encode_all-Answers (cons v vs) =
        bind-Answers (is_encodable v) (are_encodable vs) is_canonical are_canonical _ (encode nfc v)
          (encode-Answers v)
          (λ w c.
            wrap-Answers (are_encodable vs) are_canonical are_canonical (cons w) (encode_all nfc vs)
              (encode_all-Answers vs) (λ ws cs. and_intro c cs))

    encode_entries-Answers :
        (es out : Entries)
        → entries_canonical out ≡ true
        → Answers (entries_encodable es) entries_canonical (encode_entries nfc es out)
    encode_entries-Answers end out c = (refl, c)
    encode_entries-Answers (entry none v es) out c = (refl, inr refl)
    encode_entries-Answers (entry (some k) v es) out c =
        bind-Answers (is_encodable v) (entries_encodable es) is_canonical entries_canonical _
          (encode nfc v) (encode-Answers v)
          (λ w cw.
            encode_entries-Answers es (if is_absent w then out else set_entry (nfc k) w out)
              (put_entry-canonical (nfc k) w out cw c))

    encode_fields-Answers :
        (fs : Fields) (out : Entries)
        → entries_canonical out ≡ true
        → Answers (fields_encodable fs) entries_canonical (encode_fields nfc fs out)
    encode_fields-Answers done out c = (refl, c)
    encode_fields-Answers (field k false v fs) out c = encode_fields-Answers fs out c
    encode_fields-Answers (field k true v fs) out c =
        bind-Answers (is_encodable v) (fields_encodable fs) is_canonical entries_canonical _
          (encode nfc v) (encode-Answers v)
          (λ w cw.
            encode_fields-Answers fs (if is_absent w then out else set_entry k w out)
              (put_entry-canonical k w out cw c))

  -- A value has a document exactly if it is without a float, a Decimal that is not finite, a value of
  -- an unknown type and a key that is no text, all outside the fields that are not semantic. The
  -- document is JSON, no member of an object in it is absent, and the check for floats before
  -- serialisation passes on it. Any other value raises one of the two exceptions of the encoder.
  pub encode-IsDocument : (v : Value) → Encoded v (encode nfc v)
  encode-IsDocument v = Answers-Encoded v (encode nfc v) (encode-Answers v)
