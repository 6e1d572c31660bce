-- ===== src/Cooklang/Scanner/Printed.antt =====
-- cooklang/parse.py reads the tokens that cooklang/print_.py writes.
use snap_cook.Common.{
  Str, codes, ℕ, suc, ◌==◌, ◌≡◌, refl, sym, ap, ◌∙◌, Bool, true, false, Option, none, some, [], ◌∷◌,
  ◌++◌, if_false,
}
use mathlib.Core.List.{append_assoc}
use snap_cook.Errors.{ok, >>=-ok}
use snap_cook.Dict.{Dict}
use snap_cook.Schema.Quantity.{QuantitySpec}
use snap_cook.Schema.Ingredient.{IngredientUse}
use snap_cook.Schema.Graph.{TextChunk}
use snap_cook.Registry.{IngredientRegistry, resolve_name}
use snap_cook.Canonical.Numbers.{text_of}
use snap_cook.Cooklang.Numbers.{break_at}
use snap_cook.Cooklang.Numbers.Digits.{All, break_at-behind, differs}
use snap_cook.Units.Registry.{strip_left, strip_right}
use snap_cook.Cooklang.Numbers.Plain.{append_mark}
use snap_cook.Cooklang.Quantities.{parse_quantity, quantity_body}
use snap_cook.Cooklang.Quantities.Places.{Printed, again}
use snap_cook.Cooklang.Quantities.Printed.{parse_quantity-quantity_body}
use snap_cook.Cooklang.Printer.{is_invariant, mark, in_braces, printed_name, ingredient_text}
use snap_cook.Cooklang.Scanner.{
  Parsed, name_and_body, modifiers, use_id, add_ingredient, ingredient_token, is_state, try_token,
}

-- An amount that comes back from its text; without one nothing is written.
unfoldable pub PrintedAmount : (lower : Str → Str) → Option QuantitySpec → Type 0
PrintedAmount lower none = Unit
PrintedAmount lower (some spec) = Printed lower spec.quantity spec.scaling

unfoldable pub amount_again : Option QuantitySpec → Option QuantitySpec
amount_again none = none
amount_again (some spec) = some (record { quantity = again spec.quantity; scaling = spec.scaling })

blank : (lower : Str → Str) → parse_quantity lower [] false ≡ ok none
unfolding parse_quantity strip_left strip_right
blank lower = refl

parse_quantity-amount :
    (lower : Str → Str) (amount : Option QuantitySpec)
    → PrintedAmount lower amount
    → parse_quantity lower (quantity_body amount) (is_invariant amount) ≡ ok (amount_again amount)
unfolding PrintedAmount amount_again quantity_body
parse_quantity-amount lower none h = blank lower
parse_quantity-amount lower (some spec) h = parse_quantity-quantity_body lower spec h

-- A name that starts with no mark and has no brace.
abbrev pub PlainName : Str → Type 0
PlainName [] = Unit
PlainName (c ∷ s) = ((c == 63) ≡ false) × ((c == 61) ≡ false) × All (differs 123) (c ∷ s)

no_brace : (name : Str) → PlainName name → All (differs 123) name
no_brace [] h = tt
no_brace (c ∷ s) h = h.2

modifiers-name :
    (name rest : Str)
    → PlainName name
    → modifiers (name ++ codes "{" ++ rest) ≡ (false, false, name ++ codes "{" ++ rest)
unfolding modifiers
modifiers-name [] rest h = refl
modifiers-name (c ∷ s) rest h = rw (h.0, h.1) refl

modifiers-marks :
    (optional inv : Bool) (name rest : Str)
    → PlainName name
    → modifiers (mark optional (codes "?") ++ mark inv (codes "=") ++ name ++ codes "{" ++ rest)
      ≡ (optional, inv, name ++ codes "{" ++ rest)
unfolding modifiers
modifiers-marks false false name rest h = modifiers-name name rest h
modifiers-marks false true name rest h = rw (modifiers-name name rest h, modifiers) refl
modifiers-marks true false name rest h = rw (modifiers-name name rest h, modifiers) refl
modifiers-marks true true name rest h = rw (modifiers-name name rest h, modifiers) refl

-- The text of the token, from behind its mark on.
closed :
    (name body rest : Str)
    → PlainName name
    → All (differs 125) body
    → name_and_body (name ++ codes "{" ++ (body ++ codes "}" ++ rest)) ≡ some (name, body, rest)
unfolding name_and_body
closed name body rest h k =
    rw
      (
        ap (break_at 123) (append_mark name (body ++ codes "}" ++ rest) 123)
            ∙ break_at-behind 123 name (body ++ codes "}" ++ rest) (no_brace name h),
        ap (break_at 125) (append_mark body rest 125) ∙ break_at-behind 125 body rest k,
        name_and_body,
      )
      refl

-- The name and the amount in its braces, in front of another text.
text_before :
    (name body rest : Str)
    → name ++ in_braces body ++ rest ≡ name ++ codes "{" ++ (body ++ codes "}" ++ rest)
text_before name body rest =
    append_assoc name (in_braces body) rest ∙ sym (append_mark name (body ++ codes "}" ++ rest) 123)

marked_before :
    (optional inv : Bool) (name body rest : Str)
    → mark optional (codes "?") ++ mark inv (codes "=") ++ name ++ in_braces body ++ rest
      ≡ mark optional (codes "?")
        ++ mark inv (codes "=")
        ++ name
        ++ codes "{"
        ++ (body ++ codes "}" ++ rest)
marked_before true true name body rest = ap (λ s. 63 ∷ 61 ∷ s) (text_before name body rest)
marked_before true false name body rest = ap (λ s. 63 ∷ s) (text_before name body rest)
marked_before false true name body rest = ap (λ s. 61 ∷ s) (text_before name body rest)
marked_before false false name body rest = text_before name body rest

ingredient_token-again :
    (lower : Str → Str) (index : ℕ) (lang : Str) (registry : IngredientRegistry) (names : Dict Str)
    (s : Str) (optional inv : Bool) (name body rest : Str) (quantity : Option QuantitySpec)
    (p : Parsed)
    → modifiers s ≡ (optional, inv, name ++ codes "{" ++ (body ++ codes "}" ++ rest))
    → PlainName name
    → All (differs 125) body
    → parse_quantity lower body inv ≡ ok quantity
    → ingredient_token lower index lang registry names s p
      ≡ ok (
          some (
            TextChunk.ingredient (use_id (codes "iuse") index (suc p.counter)),
            rest,
            add_ingredient lower index lang registry names optional name quantity p,
          ))
unfolding ingredient_token
ingredient_token-again lower index lang registry names s optional inv name body rest quantity p hm
      hn hb hq =
    rw (ap (λ m. name_and_body m.2) hm ∙ closed name body rest hn hb, ingredient_token)
      (>>=-ok _ (ap (λ m. parse_quantity lower body m.1) hm ∙ hq)
        ∙ ap
            (λ m. ok (
              some (
                TextChunk.ingredient (use_id (codes "iuse") index (suc p.counter)),
                rest,
                add_ingredient lower index lang registry names m.0 name quantity p,
              )))
            hm)

abbrev behind_first : Str → Str
behind_first [] = []
behind_first (c ∷ s) = s

-- The text behind the mark of an ingredient's token.
tail_text :
    (source_lang lang : Str) (registry : IngredientRegistry) (item : IngredientUse) (rest : Str)
    → ingredient_text source_lang lang registry item ++ rest
      ≡ 64
        ∷ (mark item.optional (codes "?")
            ++ mark (is_invariant item.quantity) (codes "=")
            ++ printed_name source_lang lang registry item
            ++ codes "{"
            ++ (quantity_body item.quantity ++ codes "}" ++ rest))
unfolding ingredient_text
tail_text source_lang lang registry item rest =
    ap (λ s. 64 ∷ s)
      (marked_before item.optional (is_invariant item.quantity)
        (printed_name source_lang lang registry item) (quantity_body item.quantity) rest)

-- The token that is written for an ingredient, in front of any text, is read as one new use behind
-- those so far, with the next id, the printed name and what the registry binds it to, the amount as
-- it comes back, the flag, and neither preparation nor notes; the chunk refers to that id, the counter
-- is one further, nothing else that was collected changes, and the position is that behind the token;
-- if the token does not read as the token of a state, its name starts with no mark and has no
-- opening brace, and its amount comes back from its text, which has no closing brace.
pub try_token-ingredient_text :
    (lower : Str → Str) (index : ℕ) (source_lang lang : Str) (registry : IngredientRegistry)
    (names : Dict Str) (item : IngredientUse) (s rest : Str) (p : Parsed)
    → ingredient_text source_lang lang registry item ++ rest ≡ 64 ∷ s
    → is_state s ≡ false
    → PlainName (printed_name source_lang lang registry item)
    → PrintedAmount lower item.quantity
    → All (differs 125) (quantity_body item.quantity)
    → try_token lower index lang registry names 64 s p
      ≡ ok (
          some (
            TextChunk.ingredient
                (codes "iuse_" ++ text_of index ++ codes "_" ++ text_of (suc p.counter)),
            rest,
            record p {
              counter = suc p.counter;
              ingredients =
                  p.ingredients
                  ++ record {
                    id = codes "iuse_" ++ text_of index ++ codes "_" ++ text_of (suc p.counter);
                    name = printed_name source_lang lang registry item;
                    ingredient_id =
                        resolve_name lower registry
                          (printed_name source_lang lang registry item)
                          (some lang);
                    quantity = amount_again item.quantity;
                    optional = item.optional;
                    prep = none;
                    notes = none;
                  }
                    ∷ [];
            },
          ))
unfolding try_token add_ingredient use_id
try_token-ingredient_text lower index source_lang lang registry names item s rest p text no_state
      name amount brace =
    if_false _ _ no_state
    ∙ ingredient_token-again lower index lang registry names s item.optional
        (is_invariant item.quantity) (printed_name source_lang lang registry item)
        (quantity_body item.quantity) rest (amount_again item.quantity) p
        (ap (λ t. modifiers (behind_first t))
            (sym text ∙ tail_text source_lang lang registry item rest)
          ∙ modifiers-marks item.optional (is_invariant item.quantity)
              (printed_name source_lang lang registry item)
              (quantity_body item.quantity ++ codes "}" ++ rest) name)
        name brace (parse_quantity-amount lower item.quantity amount)
