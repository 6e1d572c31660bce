-- ===== src/Cooklang/Numbers/Digits.antt =====
-- The digits of a number, read again.
use snap_cook.Common.{
  Str, ℕ, zero, suc, ◌+◌, ◌-◌, ◌*◌, ◌/◌, ◌%◌, ◌^◌, ◌<◌, ◌==◌, ◌≡◌, refl, sym, ap, ◌∙◌, Bool, true,
  false, not, Option, none, some, some-injective, [], ◌∷◌, ◌++◌, if_true, if_false, arith,
  Bool-cases, inl, inr,
}
use snap_cook.Decimal.{digits}
use snap_cook.Decimal.Digits.{pow_suc, digits_on_upper}
use snap_cook.Canonical.Numbers.{last_digits, text_of}
use snap_cook.Cooklang.Numbers.{is_digit, digits_value, break_at}

abbrev pub All : (ℕ → Bool) → Str → Type 0
All test [] = Unit
All test (c ∷ s) = (test c ≡ true) × All test s

pub All-append : (test : ℕ → Bool) (s t : Str) → All test s → All test t → All test (s ++ t)
All-append test [] t h k = k
All-append test (c ∷ s) t h k = (h.0, All-append test s t h.1 k)

pub All-map : {p q : ℕ → Bool} (s : Str) → ((c : ℕ) → p c ≡ true → q c ≡ true) → All p s → All q s
All-map [] h all = tt
All-map (c ∷ s) h all = (h c all.0, All-map s h all.1)

digit_again : (n : ℕ) → is_digit (48 + n % 10) ≡ true
digit_again n = ground arith

pub last_digits-All : (k n : ℕ) → All is_digit (last_digits k n)
unfolding last_digits
last_digits-All zero n = tt
last_digits-All (suc k) n =
    All-append is_digit (last_digits k (n / 10)) _ (last_digits-All k (n / 10)) (digit_again n, tt)

unfoldable pub and_then : Option ℕ → Str → Option ℕ
and_then none t = none
and_then (some n) t = digits_value n t

pub digits_value-append :
    (n : ℕ) (s t : Str) → digits_value n (s ++ t) ≡ and_then (digits_value n s) t
unfolding digits_value and_then
digits_value-append n [] t = refl
digits_value-append n (c ∷ s) t = elim (Bool-cases (is_digit c)) [
  | inl e ↦ rw e (digits_value-append (n * 10 + (c - 48)) s t)
  | inr e ↦ rw e refl
]

digits_value-one : (n d : ℕ) → digits_value n ((48 + d % 10) ∷ []) ≡ some (n * 10 + d % 10)
unfolding digits_value
digits_value-one n d = if_true _ _ (digit_again d) ∙ ap some (omega arith)

shifted : (a n P : ℕ) → (a * P + n / 10) * 10 + n % 10 ≡ a * (10 * P) + n
shifted a n P = grind arith

-- Digits behind others are a number behind another.
pub digits_value-last_digits :
    (k a n : ℕ) → n < 10 ^ k → digits_value a (last_digits k n) ≡ some (a * 10 ^ k + n)
unfolding last_digits digits_value and_then
digits_value-last_digits zero a n h = ap some (omega arith)
digits_value-last_digits (suc k) a n h =
    digits_value-append a (last_digits k (n / 10)) _
    ∙ ap (λ o. and_then o ((48 + n % 10) ∷ []))
        (digits_value-last_digits k a (n / 10) (omega (arith, pow_suc k, h)))
    ∙ digits_value-one (a * 10 ^ k + n / 10) n
    ∙ ap some (shifted a n (10 ^ k) ∙ ap (λ P. a * P + n) (sym (pow_suc k)))

pub digits_value-text_of : (n : ℕ) → digits_value 0 (text_of n) ≡ some n
unfolding text_of
digits_value-text_of n =
    digits_value-last_digits (digits n) 0 n (digits_on_upper n n (omega arith))
    ∙ ap some (omega arith)

-- Different numbers have different texts.
pub text_of-injective : (m n : ℕ) → text_of m ≡ text_of n → m ≡ n
text_of-injective m n e =
    some-injective (sym (digits_value-text_of m) ∙ ap (digits_value 0) e ∙ digits_value-text_of n)

pub text_of-All : (n : ℕ) → All is_digit (text_of n)
unfolding text_of
text_of-All n = last_digits-All (digits n) n

abbrev pub differs : ℕ → ℕ → Bool
differs mark c = not (c == mark)

same_mark : (mark : ℕ) → (mark == mark) ≡ true
same_mark mark = ground arith

other_mark : (mark c : ℕ) → differs mark c ≡ true → (c == mark) ≡ false
other_mark mark c h = ground arith

-- A mark that is not in a text is not found, and a mark behind such a text is.
pub break_at-All : (mark : ℕ) (s : Str) → All (differs mark) s → break_at mark s ≡ none
unfolding break_at
break_at-All mark [] h = refl
break_at-All mark (c ∷ s) h = ground (arith, h.0, break_at-All mark s h.1)

pub break_at-behind :
    (mark : ℕ) (s t : Str) → All (differs mark) s → break_at mark (s ++ mark ∷ t) ≡ some (s, t)
unfolding break_at
break_at-behind mark [] t h = if_true _ _ (same_mark mark)
break_at-behind mark (c ∷ s) t h =
    if_false _ _ (other_mark mark c h.0)
    ∙ ap (λ (o : Option (Str × Str)). elim o [ none ↦ none | some p ↦ some (c ∷ p.0, p.1) ])
        (break_at-behind mark s t h.1)
