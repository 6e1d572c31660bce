-- ===== src/Checks/Cooklang.antt =====
-- The notation of the recipes.
use snap_cook.Common.{
  Str, ◌∷◌, List, map, arith, codes, str_eq, ◌≡◌, refl, true, false, some, none, [], ◌++◌,
}
use snap_cook.Common.Int.{negsuc}
use snap_cook.Errors.{Result, ok, err}
use snap_cook.Decimal.{Decimal, finish, half_even, digits_on}
use snap_cook.Canonical.Numbers.{
  AnyDecimal, encode_decimal, encode_finite, normalize, strip_zeros, text_of, last_digits,
}
use snap_cook.Schema.Quantity.{QuantitySpec, scalar, linear}
use snap_cook.Schema.Ingredient.{IngredientUse}
use snap_cook.Schema.Graph.{TextChunk, Action}
use snap_cook.Registry.{IngredientRegistry}
use snap_cook.Units.Registry.{strip_left, strip_right, lower}
use snap_cook.Cooklang.Numbers.{read, finite}
use snap_cook.Cooklang.Numbers.Plain.{canonical, by_digits}
use snap_cook.Cooklang.Numbers.RoundTrip.{read-encode_decimal}
use snap_cook.Cooklang.Quantities.{parse_quantity, quantity_body, bare_quantity_body, size_of}
use snap_cook.Cooklang.Quantities.RoundTrip.{unit_of}
use snap_cook.Cooklang.Quantities.Places.{Printed, again}
use snap_cook.Cooklang.Quantities.Printed.{parse_quantity-quantity_body}
use snap_cook.Cooklang.Safe.{Safe}
use snap_cook.Cooklang.Scanner.Kept.{Consistent}
use snap_cook.Cooklang.Scanner.Scan.{run-Safe}
use snap_cook.Cooklang.Steps.{parse_steps}
use snap_cook.Cooklang.Steps.Safe.{nothing_yet-Consistent, AllChecked, parse_steps-Safe}
use snap_cook.Cooklang.Scanner.{run, nothing_yet, use_id, add_ingredient, try_token}
use snap_cook.Cooklang.Scanner.Printed.{PrintedAmount, amount_again, try_token-ingredient_text}
use snap_cook.Cooklang.Printer.{is_invariant, printed_name, ingredient_text}
use snap_cook.Cooklang.Numbers.{
  digits_value, break_at, exponent, mantissa, unsigned, drop_prefix, is_special, read, is_number,
  field_value, field_values,
}
use snap_cook.Cooklang.Quantities.{
  size_of, approx_tokens, parse_with_unit, parse_counts, token_of, parse_bare, parse_body,
  parse_quantity, bare_quantity_body, quantity_body,
}
use snap_cook.Cooklang.Scanner.{
  braced, name_and_body, modifiers, timer_quantity_of, temperature_unit, use_id, flush, state_token,
  add_ingredient, ingredient_token, add_cookware, cookware_token, timer_token, temperature_token,
  try_token, run,
}
use snap_cook.Cooklang.Steps.{
  break_length, split_blank, split_steps, is_plain, find_produce, dashed, strip_dashes_left,
  strip_dashes_right, slug, produced, split_produce, parse_step, parse_steps,
}
use snap_cook.Registry.{
  bind_candidate, find_any, find_name, first_bound, resolve_name, singular_candidates,
  singular_forms, without_end,
}
use snap_cook.Schema.Graph.{
  check_chunks, check_text, chunk_resolves, in_range, internal_references_resolve,
}
use snap_cook.Schema.Quantity.{approx_spec}
use snap_cook.Units.Registry.{by_alias, resolve_unit, unit_def, strip_left, strip_right}
use snap_cook.Dict.{distinct, get, mem, set}
use snap_cook.Canonical.Numbers.{last_digits, text_of}
use snap_cook.Common.{str_eq}
use snap_cook.Decimal.{digits_on}

-- 2.50
abbrev two_and_a_half : Decimal
two_and_a_half = record { neg = false; coeff = 250; exp = negsuc 1 }

read-encode_decimal_example :
    (s : Str) × (encode_decimal (AnyDecimal.finite two_and_a_half) ≡ ok s)
    × (read s ≡ finite (canonical two_and_a_half))
read-encode_decimal_example = read-encode_decimal two_and_a_half

two_and_a_half_text : encode_finite two_and_a_half ≡ codes "2.5"
unfolding encode_finite normalize strip_zeros text_of last_digits finish half_even digits_on
two_and_a_half_text = refl

two_and_a_half_again : canonical two_and_a_half ≡ record { neg = false; coeff = 25; exp = negsuc 0 }
unfolding canonical by_digits normalize strip_zeros finish half_even digits_on
two_and_a_half_again = refl

abbrev of_milk : QuantitySpec
of_milk = record {
  quantity = scalar (record { value = two_and_a_half; unit = some (unit_of (codes "dl")) });
  scaling = linear;
}

of_milk-Printed : Printed lower of_milk.quantity linear
unfolding Printed strip_left strip_right size_of str_eq
of_milk-Printed = (refl, (refl, refl, refl), tt)

parse_quantity-quantity_body_example :
    parse_quantity lower (quantity_body (some of_milk)) (is_invariant (some of_milk))
    ≡ ok (some (record { quantity = again of_milk.quantity; scaling = of_milk.scaling }))
parse_quantity-quantity_body_example = parse_quantity-quantity_body lower of_milk of_milk-Printed

milk_text : quantity_body (some of_milk) ≡ codes "2.5%dl"
unfolding quantity_body bare_quantity_body encode_finite normalize strip_zeros text_of last_digits
    finish half_even digits_on
milk_text = refl

abbrev milk : IngredientUse
milk = record {
  id = codes "iuse_1_1";
  name = codes "milk";
  ingredient_id = none;
  quantity = some of_milk;
  optional = true;
  prep = none;
  notes = none;
}

abbrev nobody : IngredientRegistry
nobody = record { ingredients = []; by_name = [] }

milk_token :
    ingredient_text (codes "en") (codes "en") nobody milk ++ codes " in."
    ≡ codes "@?milk{2.5%dl} in."
unfolding ingredient_text printed_name str_eq quantity_body bare_quantity_body encode_finite
    normalize strip_zeros text_of last_digits finish half_even digits_on
milk_token = refl

try_token-ingredient_text_example :
    try_token lower 1 (codes "en") nobody [] 64 (codes "?milk{2.5%dl} in.") nothing_yet
    ≡ ok (
        some (
          TextChunk.ingredient (codes "iuse_" ++ text_of 1 ++ codes "_" ++ text_of 1),
          codes " in.",
          record nothing_yet {
            counter = 1;
            ingredients =
                record {
                  id = codes "iuse_" ++ text_of 1 ++ codes "_" ++ text_of 1;
                  name = printed_name (codes "en") (codes "en") nobody milk;
                  ingredient_id =
                      resolve_name lower nobody
                        (printed_name (codes "en") (codes "en") nobody milk)
                        (some (codes "en"));
                  quantity = amount_again (some of_milk);
                  optional = true;
                  prep = none;
                  notes = none;
                }
                ∷ [];
          },
        ))
unfolding PrintedAmount printed_name str_eq quantity_body bare_quantity_body encode_finite normalize
    strip_zeros text_of last_digits finish half_even digits_on
try_token-ingredient_text_example =
    try_token-ingredient_text lower 1 (codes "en") (codes "en") nobody [] milk
      (codes "?milk{2.5%dl} in.") (codes " in.") nothing_yet milk_token refl
      (refl, refl, (refl, (refl, (refl, (refl, tt))))) of_milk-Printed
      (refl, (refl, (refl, (refl, (refl, (refl, tt))))))

run-Safe_example :
    Safe
      (Consistent 1)
      (run lower 1 (codes "en") nobody [] 13 (codes "Mix @milk{2}.") [] nothing_yet)
run-Safe_example =
    run-Safe lower 1 (codes "en") nobody [] 13 (codes "Mix @milk{2}.") [] nothing_yet (omega arith)
      (nothing_yet-Consistent 1)

abbrev blocks : List Str
blocks = codes "Mix @milk{2%dl} and @flour{} => batter" ∷ codes "Fry @&{batter} for ~{5%min}." ∷ []

parse_steps-Safe_example : Safe AllChecked (parse_steps lower blocks 1 (codes "en") nobody [])
parse_steps-Safe_example = parse_steps-Safe lower blocks 1 (codes "en") nobody []

-- The states that each step uses, and the ids of its ingredients.
abbrev uses_and_ids : Result (List Action) → List (List Str × List Str)
uses_and_ids (err raised) = []
uses_and_ids (ok actions) =
    map (λ (a : Action). (a.uses, map (λ (u : IngredientUse). u.id) a.ingredients)) actions

blocks_parsed :
    uses_and_ids (parse_steps lower blocks 1 (codes "en") nobody [])
    ≡ ([], codes "iuse_1_1" ∷ codes "iuse_1_2" ∷ []) ∷ (codes "nod_1_batter" ∷ [], []) ∷ []
unfolding digits_value break_at exponent mantissa unsigned drop_prefix is_special read is_number
    field_value field_values size_of approx_tokens parse_with_unit parse_counts token_of parse_bare
    parse_body parse_quantity bare_quantity_body quantity_body braced name_and_body modifiers
    timer_quantity_of temperature_unit use_id flush state_token add_ingredient ingredient_token
    add_cookware cookware_token timer_token temperature_token try_token run break_length split_blank
    split_steps is_plain find_produce dashed strip_dashes_left strip_dashes_right slug produced
    split_produce parse_step parse_steps bind_candidate find_any find_name first_bound resolve_name
    singular_candidates singular_forms without_end check_chunks check_text chunk_resolves in_range
    internal_references_resolve approx_spec by_alias resolve_unit unit_def strip_left strip_right
    distinct get mem set last_digits text_of str_eq digits_on
blocks_parsed = refl
