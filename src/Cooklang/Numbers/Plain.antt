-- ===== src/Cooklang/Numbers/Plain.antt =====
-- The digits of a number with their point, read again.
use snap_cook.Common.{
  Str, ℕ, zero, suc, ◌+◌, ◌*◌, ◌/◌, ◌%◌, ◌^◌, ◌<◌, ◌==◌, ◌≡◌, refl, ap, ◌∙◌, Bool, true, ◌||◌,
  Option, none, some, [], ◌∷◌, ◌++◌, length, length-append, if◌then◌else◌, arith,
}
use snap_cook.Common.Int.{ℤ, pos, negsuc, ◌-ℤ◌}
use snap_cook.Decimal.{Decimal, digits, of_nat}
use snap_cook.Decimal.Digits.{pow_positive, digits_on-positive}
use snap_cook.Canonical.Numbers.{normalize, last_digits, text_of, plain}
use snap_cook.Cooklang.Numbers.{is_digit, digits_value, break_at, coefficient, mantissa, unsigned}
use snap_cook.Cooklang.Numbers.Digits.{
  All, All-append, All-map, last_digits-All, text_of-All, digits_value-text_of,
  digits_value-last_digits, digits_value-append, break_at-All, break_at-behind, differs, and_then,
}

-- The number with the coefficient and exponent that its digits have.
unfoldable pub by_digits : Bool → ℕ → ℤ → Decimal
by_digits neg coeff (pos k) = record { neg = neg; coeff = coeff * 10 ^ k; exp = pos 0 }
by_digits neg coeff (negsuc k) = record { neg = neg; coeff = coeff; exp = negsuc k }

unfoldable pub canonical : Decimal → Decimal
canonical d =
    if d.coeff == 0 then of_nat 0 else by_digits d.neg (normalize d).coeff (normalize d).exp

-- The characters of a number that is written.
abbrev pub is_numeric : ℕ → Bool
is_numeric c = is_digit c || (c == 46) || (c == 45)

no_exponent : (c : ℕ) → (is_digit c || (c == 46)) ≡ true → differs 101 c ≡ true
no_exponent c h = ground arith

no_point : (c : ℕ) → is_digit c ≡ true → differs 46 c ≡ true
no_point c h = ground arith

pub dotted : (c : ℕ) → is_digit c ≡ true → (is_digit c || (c == 46)) ≡ true
dotted c h = ground arith

filled :
    (l : Str) (n : ℕ) (make : ℕ → Decimal)
    → 0 < length l
    → digits_value 0 l ≡ some n
    → ◌≡◌ {A = Option Decimal}
        (elim l [
          | [] ↦ none
          | c ∷ rest ↦ elim (digits_value 0 (c ∷ rest)) [ none ↦ none | some m ↦ some (make m) ]
        ])
        (some (make n))
filled [] n make p h = absurd (omega (arith, p))
filled (c ∷ l) n make p h = rw h refl

coefficient_lem :
    (neg : Bool) (whole fraction : Str) (exp : ℤ) (n : ℕ)
    → 0 < length (whole ++ fraction)
    → digits_value 0 (whole ++ fraction) ≡ some n
    → coefficient neg whole fraction exp
      ≡ some (record { neg = neg; coeff = n; exp = exp -ℤ pos (length fraction) })
coefficient_lem neg whole fraction exp n p h = filled (whole ++ fraction) n _ p h

pub append_mark : (s t : Str) (c : ℕ) → s ++ (c ∷ []) ++ t ≡ s ++ (c ∷ t)
append_mark [] t c = refl
append_mark (d ∷ s) t c = ap (λ l. d ∷ l) (append_mark s t c)

length-last_digits : (k n : ℕ) → length (last_digits k n) ≡ k
unfolding last_digits
length-last_digits zero n = refl
length-last_digits (suc k) n =
    length-append (last_digits k (n / 10)) _ ∙ omega (arith, length-last_digits k (n / 10))

pub text_of-some : (n : ℕ) → 0 < length (text_of n)
unfolding text_of
text_of-some n = omega (arith, length-last_digits (digits n) n, digits_on-positive n n)

pub plain-All : (c : ℕ) (e : ℤ) → All (λ d. is_digit d || (d == 46)) (plain c e)
plain-All c (pos k) = All-map (text_of (c * 10 ^ k)) dotted (text_of-All (c * 10 ^ k))
plain-All c (negsuc k) =
    All-append _ _ _
      (All-append _ (text_of (c / 10 ^ suc k)) _
        (All-map (text_of (c / 10 ^ suc k)) dotted (text_of-All (c / 10 ^ suc k))) (refl, tt))
      (All-map (last_digits (suc k) (c % 10 ^ suc k)) dotted (last_digits-All (suc k) _))

below_mod : (c U : ℕ) → 0 < U → c % U < U
below_mod c U h = grind arith

ended : {o : Option ℕ} {n : ℕ} → o ≡ some n → and_then o [] ≡ some n
unfolding and_then digits_value
ended e = rw e refl

joined : (c U : ℕ) → c / U * U + c % U ≡ c
joined c U = grind arith

point_exponent : (k : ℕ) → pos 0 -ℤ pos (suc k) ≡ negsuc k
point_exponent k = ground arith

whole_exponent : {k m : ℕ} → m ≡ suc k → pos 0 -ℤ pos m ≡ negsuc k
whole_exponent {k} e = rw e (point_exponent k)

unsigned-mantissa :
    (neg : Bool) (s : Str) → break_at 101 s ≡ none → unsigned neg s ≡ mantissa neg s (pos 0)
unfolding unsigned
unsigned-mantissa neg s h = rw (h, unsigned) refl

mantissa-whole :
    (neg : Bool) (s : Str) (e : ℤ)
    → break_at 46 s ≡ none
    → mantissa neg s e ≡ coefficient neg s [] e
unfolding mantissa
mantissa-whole neg s e h = rw (h, mantissa) refl

mantissa-point :
    (neg : Bool) (s w f : Str) (e : ℤ)
    → break_at 46 s ≡ some (w, f)
    → mantissa neg s e ≡ coefficient neg w f e
unfolding mantissa
mantissa-point neg s w f e h = rw (h, mantissa) refl

-- The digits of a number, with the point that its exponent asks for, are read as that number.
pub unsigned-plain :
    (neg : Bool) (c : ℕ) (e : ℤ) → unsigned neg (plain c e) ≡ some (by_digits neg c e)
unfolding by_digits and_then digits_value
unsigned-plain neg c (pos k) =
    let s = text_of (c * 10 ^ k) in
    unsigned-mantissa neg s (
      break_at-All 101 s (All-map s (λ d h. no_exponent d (dotted d h)) (text_of-All (c * 10 ^ k))))
    ∙ mantissa-whole neg s (pos 0)
        (break_at-All 46 s (All-map s no_point (text_of-All (c * 10 ^ k))))
    ∙ coefficient_lem neg s [] (pos 0) (c * 10 ^ k)
        (omega (arith, length-append s [], text_of-some (c * 10 ^ k)))
        (digits_value-append 0 s [] ∙ ended (digits_value-text_of (c * 10 ^ k)))
unsigned-plain neg c (negsuc k) =
    let w = text_of (c / 10 ^ suc k) in
    let f = last_digits (suc k) (c % 10 ^ suc k) in
    unsigned-mantissa neg (w ++ (46 ∷ []) ++ f)
      (break_at-All 101 _ (All-map (w ++ (46 ∷ []) ++ f) no_exponent (plain-All c (negsuc k))))
    ∙ mantissa-point neg _ w f (pos 0) (
        ap (break_at 46) (append_mark w f 46)
        ∙ break_at-behind 46 w f (All-map w no_point (text_of-All (c / 10 ^ suc k))))
    ∙ coefficient_lem neg w f (pos 0) c
        (omega (arith, length-append w f, text_of-some (c / 10 ^ suc k)))
        (digits_value-append 0 w f
          ∙ ap (λ o. and_then o f) (digits_value-text_of (c / 10 ^ suc k))
          ∙ digits_value-last_digits (suc k) (c / 10 ^ suc k) (c % 10 ^ suc k)
              (below_mod c (10 ^ suc k) (pow_positive (suc k)))
          ∙ ap some (joined c (10 ^ suc k)))
    ∙ ap (λ e. some (record { neg = neg; coeff = c; exp = e }))
        (whole_exponent (length-last_digits (suc k) (c % 10 ^ suc k)))
