-- ===== src/Units/Rounding/Visible.antt =====
-- No number that is not zero reads as zero.
use snap_cook.Common.{
  Str, codes, ℕ, zero, suc, ◌+◌, ◌*◌, ◌/◌, ◌^◌, ◌<◌, ◌==◌, ◌≡◌, ◌≢◌, refl, sym, ap, ◌∙◌, subst,
  Bool, true, false, ◌&&◌, ◌||◌, Option, none, some, List, [], ◌∷◌, ◌++◌, length, length-append,
  if◌then◌else◌, if_false, some-injective, arith,
}
use snap_cook.Common.Int.{ℤ, pos, negsuc, pos_part}
use snap_cook.Errors.{Result, ok, err, ◌>>=◌, invalid_operation}
use snap_cook.Decimal.{Decimal, digits, mul, less, of_nat}
use snap_cook.Decimal.Digits.{pow_positive, digits_on-positive, digits_on_upper, normalize-nonzero}
use snap_cook.Decimal.Arith.{div}
use snap_cook.Canonical.Numbers.{normalize, text_of, sign_of, plain, last_digits}
use snap_cook.Units.Rounding.{
  Fraction, RoundingProfile, strip, fixed, round_significant, snap_metric, settle, carry,
  mixed_text, to_mixed_number, format_number, format_count, format_whole, ladder_for, metric_bands,
}
use snap_cook.Units.Rounding.Nonzero.{
  IsNonzero, quantize->>=, IsNonzero-ok, nonzero_test, snap_metric-IsNonzero,
  round_significant-nonzero,
}

-- A text that is not "0", or that exception.
unfoldable pub IsVisible : Result Str → Type 0
IsVisible (err raised) = raised ≡ invalid_operation
IsVisible (ok text) = text ≢ codes "0"

length-last_digits : (k n : ℕ) → length (last_digits k n) ≡ k
unfolding last_digits
length-last_digits zero n = refl
length-last_digits (suc k) n =
    length-append (last_digits k (n / 10)) _ ∙ omega (arith, length-last_digits k (n / 10))

by_length : (s : Str) → length s ≢ 1 → s ≢ codes "0"
by_length s h e = h (ap length e)

head_of : {c d : ℕ} → ◌≡◌ {A = Str} (c ∷ []) (d ∷ []) → c ≡ d
head_of e = cc e

-- The only number whose digits are "0" is zero.
last_digits-zero : (k n : ℕ) → n < 10 ^ k → last_digits k n ≡ codes "0" → n ≡ 0
unfolding last_digits
last_digits-zero zero n h e = omega arith
last_digits-zero (suc zero) n h e = omega (arith, head_of e)
last_digits-zero (suc (suc k)) n h e =
    omega (arith, ap length e, length-last_digits (suc (suc k)) n)

text_of-zero : (n : ℕ) → text_of n ≡ codes "0" → n ≡ 0
unfolding text_of
text_of-zero n e = last_digits-zero (digits n) n (digits_on_upper n n (omega arith)) e

length-text_of : (n : ℕ) → length (text_of n) ≡ digits n
unfolding text_of
length-text_of n = length-last_digits (digits n) n

times_power : (n k : ℕ) → n ≢ 0 → n * 10 ^ k ≢ 0
times_power n k h e = grind (arith, pow_positive k, h, e)

-- Text around a mark has two characters or more.
around : (s t : Str) (c : ℕ) → 0 < length s → (s ++ (c ∷ []) ++ t) ≢ codes "0"
around s t c h =
    by_length _
      (λ e. omega (arith, e, h, length-append (s ++ (c ∷ [])) t, length-append s (c ∷ [])))

text_of-positive : (n : ℕ) → 0 < length (text_of n)
text_of-positive n = omega (arith, length-text_of n, digits_on-positive n n)

plain-visible : (n : ℕ) (e : ℤ) → n ≢ 0 → plain n e ≢ codes "0"
plain-visible n (pos k) h = λ e. times_power n k h (text_of-zero (n * 10 ^ k) e)
plain-visible n (negsuc k) h = around _ _ 46 (text_of-positive (n / 10 ^ suc k))

abbrev first : Str → ℕ
first [] = 0
first (c ∷ s) = c

signed-visible : (neg : Bool) (s : Str) → s ≢ codes "0" → (sign_of neg ++ s) ≢ codes "0"
signed-visible true s h = λ e. omega (arith, ap first e)
signed-visible false s h = h

strip-visible : (d : Decimal) → d.coeff ≢ 0 → strip d ≢ codes "0"
unfolding strip fixed
strip-visible d h =
    subst (λ s. s ≢ codes "0") (sym (if_false _ _ (nonzero_test d.coeff h)))
      (signed-visible (normalize d).neg _
        (plain-visible _ (normalize d).exp (normalize-nonzero d h)))

-- On both branches of a test.
branch :
    (c : Bool) {x y : Str}
    → (c ≡ true → x ≢ codes "0")
    → (c ≡ false → y ≢ codes "0")
    → (if c then x else y) ≢ codes "0"
branch true h k = h refl
branch false h k = k refl

mixed_text-visible :
    (whole : ℕ) (best : Fraction)
    → ((whole == 0) && (best.numerator == 0)) ≡ false
    → mixed_text whole best ≢ codes "0"
unfolding mixed_text
mixed_text-visible whole best h =
    branch (best.numerator == 0) (λ none_left e. ground (arith, text_of-zero whole e))
      (λ left.
        branch (whole == 0) (λ no_whole. around _ _ 47 (text_of-positive best.numerator))
          (λ some_whole. around _ _ 32 (text_of-positive whole)))

let_through :
    (c : Bool) {x text : Str}
    → ◌≡◌ {A = Option Str} (if c then none else some x) (some text)
    → (c ≡ false) × (x ≡ text)
let_through true h = cc
let_through false h = (refl, some-injective h)

or_right : (a b : Bool) → (a || b) ≡ false → b ≡ false
or_right a b h = ground arith

-- What the test for a vanishing number lets through is not "0".
settle-visible :
    (negative : Bool) (whole : ℕ) (best : Fraction) (is_far : Bool) (text : Str)
    → settle negative whole best is_far ≡ some text
    → text ≢ codes "0"
unfolding settle
settle-visible negative whole best is_far text gives =
    let passed =
      let_through (is_far || (((carry whole best).0 == 0) && ((carry whole best).1.numerator == 0)))
        gives in
    subst (λ t. t ≢ codes "0") passed.1
      (signed-visible negative _ (mixed_text-visible _ _ (or_right is_far _ passed.0)))

to_mixed_number-visible :
    (value : Decimal) (ladder : List Fraction) (tolerance : Decimal) (text : Str)
    → value.coeff ≢ 0
    → to_mixed_number value ladder tolerance ≡ some text
    → text ≢ codes "0"
unfolding to_mixed_number
to_mixed_number-visible value ladder tolerance text h gives =
    settle-visible _ _ _ _ text (sym (if_false _ _ (nonzero_test value.coeff h)) ∙ gives)

strip->>= : (r : Result Decimal) → IsNonzero r → IsVisible (r >>= λ d. ok (strip d))
unfolding IsNonzero IsVisible
strip->>= (err raised) h = h
strip->>= (ok d) h = strip-visible d h

or_else-IsVisible :
    {A : Type 0} (o : Option A) (r : Result Str) (next : A → Result Str)
    → IsVisible r
    → ((a : A) → o ≡ some a → IsVisible (next a))
    → IsVisible (elim o [ none ↦ r | some a ↦ next a ])
or_else-IsVisible none r next h k = h
or_else-IsVisible (some a) r next h k = k a refl

-- A number that is not zero never reads "0", whatever the unit and the profile; the only exception
-- is that of a number with too many digits for the context.
pub format_number-IsVisible :
    (value : Decimal) (unit_id : Option Str) (profile : RoundingProfile)
    → value.coeff ≢ 0
    → IsVisible (format_number value unit_id profile)
unfolding format_number IsVisible
format_number-IsVisible value unit_id profile h =
    or_else-IsVisible (ladder_for profile unit_id) _ _ snapped (λ ladder found.
      or_else-IsVisible (to_mixed_number value ladder profile.fraction_tolerance) _ _ snapped
        (λ mixed gives. to_mixed_number-visible value ladder _ mixed h gives))
  where
    snapped : IsVisible (snap_metric value metric_bands >>= λ d. ok (strip d))
    snapped = strip->>= (snap_metric value metric_bands) (snap_metric-IsNonzero value h)

nothing_left : (n p : ℕ) → n ≡ 0 → n * p ≡ 0
nothing_left n p e = rw e (omega arith)

positive-nonzero : (value : Decimal) → less (of_nat 0) value ≡ true → value.coeff ≢ 0
unfolding less
positive-nonzero value h e =
    let apart = nothing_left value.coeff (10 ^ (pos_part value.exp + 0)) e in ground (arith, apart)

settled :
    (value : Decimal) (c : Bool) (d : Decimal) (next : Result Str)
    → less (of_nat 0) value ≡ true
    → IsVisible next
    → (c ≡ false → d.coeff ≢ 0)
    → IsVisible (if c && less (of_nat 0) value then next else ok (strip d))
unfolding IsVisible
settled value true d next p h k = rw p h
settled value false d next p h k = strip-visible d (k refl)

test_nonzero : (n : ℕ) → (n == 0) ≡ false → n ≢ 0
test_nonzero n h = ground arith

at_least_one :
    (c b : Bool) (d : Decimal)
    → b ≡ true
    → (c ≡ false → d.coeff ≢ 0)
    → (if c && b then of_nat 1 else d).coeff ≢ 0
at_least_one true b d p k = rw p (λ e. omega arith)
at_least_one false b d p k = k refl

-- A positive piece count never reads "0", whether or not the ingredient comes whole; the only
-- exception is that of a number with too many digits for the context.
pub format_count-IsVisible :
    (value : Decimal) (divisible : Bool)
    → less (of_nat 0) value ≡ true
    → IsVisible (format_count value divisible)
unfolding format_count format_whole IsVisible
format_count-IsVisible value false h =
    quantize->>= IsVisible value (pos 0) _ refl
      (λ d. strip-visible _ (at_least_one (d.coeff == 0) _ d h (λ other. test_nonzero _ other)))
format_count-IsVisible value true h =
    let r = round_significant-nonzero value (positive-nonzero value h) in
    quantize->>= IsVisible (mul value (of_nat 2)) (pos 0) _ refl (λ d.
      settled value ((div d (of_nat 2)).coeff == 0) (div d (of_nat 2)) _ h
        (strip->>= (round_significant value) (IsNonzero-ok r.1 r.2))
        (λ other. test_nonzero _ other))
