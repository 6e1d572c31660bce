-- ===== src/Canonical.antt =====
-- packages/snapcook-core/src/snapcook_core/canonical: encode.py, and the check of jcs.py. A value is
-- what `_encode` tells apart by type; the NFC normalisation of unicodedata is a parameter.
pub mod Numbers
pub mod Documents
pub mod Json
pub mod Hashing
use snap_cook.Common.{
  Str, str_eq, Bool, true, false, ◌&&◌, ◌||◌, not, Option, none, some, if◌then◌else◌,
}
use snap_cook.Common.Int.{ℤ}
use snap_cook.Errors.{Result, ok, err, ◌>>=◌, ◌>>◌, float_error, canonicalization_error}
use snap_cook.Canonical.Numbers.{AnyDecimal, encode_decimal}

mutual
  pub data Value : Type 0 where
    null float other : Value
    boolean : Bool → Value
    decimal : AnyDecimal → Value
    integer : ℤ → Value
    text : Str → Value
    enum : Value → Value
    array : Values → Value
    dict : Entries → Value
    model : Fields → Value

  pub data Values : Type 0 where
    nil : Values
    cons : Value → Values → Values

  -- A key that is no text is `none`.
  pub data Entries : Type 0 where
    end : Entries
    entry : Option Str → Value → Entries → Entries

  -- The fields of a model, with whether they are semantic.
  pub data Fields : Type 0 where
    done : Fields
    field : Str → (semantic : Bool) → Value → Fields → Fields

abbrev pub is_absent : Value → Bool
is_absent null = true
is_absent (array nil) = true
is_absent (dict end) = true
is_absent v = false

abbrev pub same_key : Option Str → Str → Bool
same_key none k = false
same_key (some j) k = str_eq j k

-- `out[key] = encoded`
unfoldable pub set_entry : Str → Value → Entries → Entries
set_entry k v end = entry (some k) v end
set_entry k v (entry j w es) = if same_key j k then entry j v es else entry j w (set_entry k v es)

module _ (nfc : Str → Str) where
  unfoldable mutual
    unfolding set_entry

    -- `_encode`
    pub encode : Value → Result Value
    encode null = ok null
    encode float = err float_error
    encode other = err canonicalization_error
    encode (boolean b) = ok (boolean b)
    encode (decimal d) = do s ← encode_decimal d; ok (text s)
    encode (integer n) = ok (integer n)
    encode (text s) = ok (text (nfc s))
    encode (enum v) = encode v
    encode (array vs) = do ws ← encode_all vs; ok (array ws)
    encode (dict es) = do out ← encode_entries es end; ok (dict out)
    encode (model fs) = do out ← encode_fields fs end; ok (dict out)

    pub encode_all : Values → Result Values
    encode_all nil = ok nil
    encode_all (cons v vs) = do w ← encode v; ws ← encode_all vs; ok (cons w ws)

    pub encode_entries : Entries → Entries → Result Entries
    encode_entries end out = ok out
    encode_entries (entry none v es) out = err canonicalization_error
    encode_entries (entry (some k) v es) out = do
      w ← encode v
      encode_entries es (if is_absent w then out else set_entry (nfc k) w out)

    -- `_encode_model`
    pub encode_fields : Fields → Entries → Result Entries
    encode_fields done out = ok out
    encode_fields (field k false v fs) out = encode_fields fs out
    encode_fields (field k true v fs) out = do
      w ← encode v
      encode_fields fs (if is_absent w then out else set_entry k w out)

unfoldable mutual
  -- `_assert_no_floats` of jcs.py
  pub assert_no_floats : Value → Result (Unit {0})
  assert_no_floats float = err float_error
  assert_no_floats (dict es) = assert_no_floats_entries es
  assert_no_floats (array vs) = assert_no_floats_values vs
  assert_no_floats v = ok tt

  pub assert_no_floats_values : Values → Result (Unit {0})
  assert_no_floats_values nil = ok tt
  assert_no_floats_values (cons v vs) = do assert_no_floats v; assert_no_floats_values vs

  pub assert_no_floats_entries : Entries → Result (Unit {0})
  assert_no_floats_entries end = ok tt
  assert_no_floats_entries (entry k v es) = do assert_no_floats v; assert_no_floats_entries es
