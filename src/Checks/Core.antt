-- ===== src/Checks/Core.antt =====
-- Units, quantities, texts and documents.
use snap_cook.Common.{
  length, Str, codes, str_eq, ◌≡◌, ◌⊎◌, refl, true, false, ◌||◌, none, some, [], ◌∷◌,
}
use snap_cook.Common.Int.{negsuc}
use snap_cook.Errors.{ok, err, canonicalization_error, no_density, incompatible_dimensions}
use snap_cook.Dict.{mem}
use snap_cook.Decimal.{Decimal, of_nat, mul, less, equal, finish, half_even, digits_on}
use snap_cook.Schema.I18n.{LocalizedText, source_is_present}
use snap_cook.Schema.I18n.Fallback.{Resolved, resolve-Resolved}
use snap_cook.Schema.Quantity.{QuantitySpec, ScalingPolicy, manual, scalar}
use snap_cook.Units.Scaling.Policy.{Scaled, scale_spec-Scaled}
use snap_cook.Units.Registry.{
  UnitDef, find_unit, unit_def, same_dimension, resolve_unit, by_alias, strip_left, strip_right,
}
use snap_cook.Units.Registry.Known.{resolve_unit-known}
use snap_cook.Units.Density.{Pint, resolve_density_g_per_ml, convert_value}
use snap_cook.Units.Density.Refusal.{convert_value-no_guess}
use snap_cook.Canonical.{Value, decimal, text, array, cons, model, nil, done, field, encode}
use mathlib.Core.List.{Permᴰ}
use snap_cook.Store.{Commit}
use snap_cook.Canonical.Hashing.{version_id, all_hex}
use snap_cook.Canonical.Hashing.Parents.{version_id-perm}
use snap_cook.Ids.{all_prefixes}
use snap_cook.Canonical.Numbers.{
  AnyDecimal, encode_decimal, encode_finite, normalize, strip_zeros, text_of, last_digits,
}
use snap_cook.Canonical.Documents.{Encoded, is_encodable, encode-IsDocument}

abbrev no_message : ScalingPolicy → Decimal → Str
no_message p factor = codes "check"

abbrev baked : QuantitySpec
baked = record { quantity = scalar (record { value = of_nat 40; unit = none }); scaling = manual }

two_positive : (less (of_nat 2) (of_nat 0) || equal (of_nat 2) (of_nat 0)) ≡ false
unfolding less equal
two_positive = refl

-- 1.5 times 0.5
product :
    mul
      (record { neg = false; coeff = 15; exp = negsuc 0 })
      (record { neg = false; coeff = 5; exp = negsuc 0 })
    ≡ record { neg = false; coeff = 75; exp = negsuc 1 }
unfolding mul finish half_even digits_on
product = refl

-- 1.50
encoded_number : encode_finite (record { neg = true; coeff = 150; exp = negsuc 1 }) ≡ codes "-1.5"
unfolding encode_finite normalize strip_zeros finish half_even digits_on text_of last_digits
encoded_number = refl

scale_spec-Scaled_example : Scaled no_message baked (of_nat 2) (some []) none
scale_spec-Scaled_example =
    scale_spec-Scaled no_message baked (of_nat 2) (some []) none two_positive

abbrev greeting : LocalizedText
greeting = record {
  source = codes "en";
  values = (codes "en", codes "stir") ∷ (codes "de", codes "umrühren") ∷ [];
  stale_against = [];
}

greeting_source : source_is_present greeting ≡ true
unfolding source_is_present mem str_eq
greeting_source = refl

resolve-Resolved_example : Resolved greeting (codes "de-CH") (some (codes "en"))
resolve-Resolved_example =
    resolve-Resolved greeting (codes "de-CH") (some (codes "en")) greeting_source

us_cup : resolve_unit (codes " Cups ") (some (codes "US")) ≡ some (codes "unit:cup.us")
unfolding resolve_unit by_alias strip_left strip_right unit_def find_unit mem str_eq
us_cup = refl

resolve_unit-known_example : (d : UnitDef) × (unit_def (codes "unit:cup.us") ≡ some d)
resolve_unit-known_example =
    resolve_unit-known (codes " Cups ") (some (codes "US")) (codes "unit:cup.us") us_cup

abbrev pint : Pint
pint = record { to = λ v a b. ok v; to_with = λ d v a b. ok (mul d v) }

convert_value-no_guess_example :
    (same_dimension (codes "unit:g") (codes "unit:ml") ≡ true
      → convert_value pint (of_nat 5) (codes "unit:g") (codes "unit:ml") none
        ≡ convert_value pint (of_nat 5) (codes "unit:g") (codes "unit:ml") none)
    × (same_dimension (codes "unit:g") (codes "unit:ml") ≡ false
        → resolve_density_g_per_ml none ≡ none
        → (convert_value pint (of_nat 5) (codes "unit:g") (codes "unit:ml") none ≡ err no_density)
          ⊎ (convert_value pint (of_nat 5) (codes "unit:g") (codes "unit:ml") none
              ≡ err incompatible_dimensions))
convert_value-no_guess_example =
    convert_value-no_guess pint (of_nat 5) (codes "unit:g") (codes "unit:ml") none none

abbrev document : Value
document = model (
    field (codes "name") true (text (codes "flour")) (
      field (codes "amount") true (decimal (AnyDecimal.finite (of_nat 5))) (
        field (codes "tags") true (array nil)
          (field (codes "retrieved_at") false Value.float done))))

document_encodable : is_encodable document ≡ true
unfolding is_encodable
document_encodable = refl

non_finite_raises :
    encode (λ s. s) (array (cons (decimal AnyDecimal.non_finite) nil)) ≡ err canonicalization_error
unfolding encode encode_decimal
non_finite_raises = refl

encode-IsDocument_example : Encoded document (encode (λ s. s) document)
encode-IsDocument_example = encode-IsDocument (λ s. s) document

abbrev sixty_four : Str
sixty_four = codes "0123456789abcdef0123456789abcdef0123456789abcdef0123456789abcdef"

abbrev merge : Commit
merge = record {
  schema_version = 1;
  content_hash = codes "sc1:00";
  parents = codes "sc1:bb" ∷ codes "sc1:aa" ∷ [];
  author = codes "ann";
  created_at = codes "t3";
  message = [];
  origin = codes "authored";
}

version_id-perm_example :
    version_id (λ doc. some sixty_four) (λ s. s) merge
    ≡ version_id
        (λ doc. some sixty_four)
        (λ s. s)
        (record merge { parents = codes "sc1:aa" ∷ codes "sc1:bb" ∷ [] })
version_id-perm_example =
    version_id-perm (λ doc. some sixty_four) (λ s. s) merge (codes "sc1:aa" ∷ codes "sc1:bb" ∷ [])
      (Permᴰ.swap refl refl)

sixty_four_digits : (length sixty_four ≡ 64) × (all_hex sixty_four ≡ true)
unfolding all_hex
sixty_four_digits = (refl, refl)

known_action : mem (codes "act") all_prefixes ≡ true
unfolding mem str_eq
known_action = refl
