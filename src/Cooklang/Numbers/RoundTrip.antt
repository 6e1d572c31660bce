-- ===== src/Cooklang/Numbers/RoundTrip.antt =====
-- A number that is written is read again, in its canonical form.
use snap_cook.Common.{
  Str, codes, str_eq, ℕ, suc, ◌*◌, ◌/◌, ◌%◌, ◌^◌, ◌<◌, ◌==◌, ◌≡◌, refl, sym, ap, ◌∙◌, Bool, true,
  false, ◌||◌, Option, none, some, [], ◌∷◌, ◌++◌, map, length, if◌then◌else◌, if_true, if_false,
  arith, Bool-cases, inl, inr, subst,
}
use mathlib.Core.Path.{ap₂}
use snap_cook.Common.Int.{ℤ, pos, negsuc}
use snap_cook.Decimal.{Decimal, of_nat}
use snap_cook.Errors.{ok}
use snap_cook.Canonical.Numbers.{
  AnyDecimal, encode_decimal, encode_finite, normalize, last_digits, text_of, plain, sign_of,
}
use snap_cook.Units.Registry.{lower_char, strip_left, strip_right, is_space}
use snap_cook.Cooklang.Numbers.{
  Reading, finite, special, unreadable, is_digit, digits_value, break_at, without_underscores,
  signed, mantissa, unsigned, is_special, is_nan, read, drop_prefix,
}
use snap_cook.Cooklang.Numbers.Digits.{All, All-map, text_of-All}
use snap_cook.Cooklang.Numbers.Plain.{
  by_digits, canonical, is_numeric, text_of-some, plain-All, unsigned-plain,
}

-- What starts with a digit.
abbrev Starts : Str → Type 0
Starts s = (c : ℕ) × (rest : Str) × (s ≡ c ∷ rest) × (is_digit c ≡ true)

whole-Starts : (s : Str) → 0 < length s → All is_digit s → Starts s
whole-Starts [] p h = absurd (omega (arith, p))
whole-Starts (c ∷ s) p h = (c, s, refl, h.0)

append-Starts : (s t : Str) → Starts s → Starts (s ++ t)
append-Starts s t (c, rest, e, h) = (c, rest ++ t, ap (λ s. s ++ t) e, h)

plain-Starts : (c : ℕ) (e : ℤ) → Starts (plain c e)
plain-Starts c (pos k) = whole-Starts _ (text_of-some (c * 10 ^ k)) (text_of-All (c * 10 ^ k))
plain-Starts c (negsuc k) =
    let w = text_of (c / 10 ^ suc k) in
    append-Starts (w ++ (46 ∷ [])) (last_digits (suc k) (c % 10 ^ suc k)) (
      append-Starts w (46 ∷ [])
        (whole-Starts w (text_of-some (c / 10 ^ suc k)) (text_of-All (c / 10 ^ suc k))))

digit-other : (c k : ℕ) → is_digit c ≡ true → 57 < k → ((c == k) ≡ false) × ((k == c) ≡ false)
digit-other c k h l = (ground arith, ground arith)

other_start : (c k : ℕ) (s t : Str) → (c == k) ≡ false → str_eq (c ∷ s) (k ∷ t) ≡ false
unfolding str_eq
other_start c k s t e = rw e refl

other_prefix : (c k : ℕ) (s t : Str) → (k == c) ≡ false → is_nan (k ∷ t) (c ∷ s) ≡ false
unfolding drop_prefix
other_prefix c k s t e = rw (e, is_nan) refl

none_of :
    {p q r t : Bool} → p ≡ false → q ≡ false → r ≡ false → t ≡ false → (p || q || r || t) ≡ false
none_of hp hq hr ht = ground arith

digit-special : (c : ℕ) (s : Str) → is_digit c ≡ true → is_special (c ∷ s) ≡ false
unfolding is_special
digit-special c s h =
    none_of (other_start c 105 s _ (digit-other c 105 h (omega arith)).0)
      (other_start c 105 s _ (digit-other c 105 h (omega arith)).0)
      (other_prefix c 110 s _ (digit-other c 110 h (omega arith)).1)
      (other_prefix c 115 s _ (digit-other c 115 h (omega arith)).1)

Starts-special : (s : Str) → Starts s → is_special s ≡ false
Starts-special s (c, rest, e, h) =
    subst (λ s. is_special s ≡ false) (sym e) (digit-special c rest h)

digit-signed : (c : ℕ) (s : Str) → is_digit c ≡ true → signed (c ∷ s) ≡ (false, c ∷ s)
digit-signed c s h = ground arith

Starts-signed : (s : Str) → Starts s → signed s ≡ (false, s)
Starts-signed s (c, rest, e, h) = subst (λ s. signed s ≡ (false, s)) (sym e) (digit-signed c rest h)

pub numeric-space : (c : ℕ) → is_numeric c ≡ true → is_space c ≡ false
numeric-space c h = ground arith

pub strip_left-All : (s : Str) → All is_numeric s → strip_left s ≡ s
unfolding strip_left
strip_left-All [] h = refl
strip_left-All (c ∷ s) h = rw (numeric-space c h.0) refl

pub strip_right-All : (s : Str) → All is_numeric s → strip_right s ≡ s
unfolding strip_right
strip_right-All [] h = refl
strip_right-All (c ∷ []) h = rw (numeric-space c h.0) refl
strip_right-All (c ∷ (d ∷ s)) h = rw (strip_right-All (d ∷ s) h.1, strip_right) refl

numeric-lower : (c : ℕ) → is_numeric c ≡ true → lower_char c ≡ c
numeric-lower c h = ground arith

map-lower : (s : Str) → All is_numeric s → map lower_char s ≡ s
map-lower [] h = refl
map-lower (c ∷ s) h = ap₂ (λ c s. c ∷ s) (numeric-lower c h.0) (map-lower s h.1)

numeric-underscore : (c : ℕ) → is_numeric c ≡ true → (c == 95) ≡ false
numeric-underscore c h = ground arith

without_underscores-All : (s : Str) → All is_numeric s → without_underscores s ≡ s
without_underscores-All [] h = refl
without_underscores-All (c ∷ s) h =
    if_false _ _ (numeric-underscore c h.0) ∙ ap (λ s. c ∷ s) (without_underscores-All s h.1)

cleaned :
    (s : Str)
    → All is_numeric s
    → map lower_char (without_underscores (strip_right (strip_left s))) ≡ s
cleaned s h =
    ap (λ t. map lower_char (without_underscores (strip_right t))) (strip_left-All s h)
    ∙ ap (λ t. map lower_char (without_underscores t)) (strip_right-All s h)
    ∙ ap (map lower_char) (without_underscores-All s h)
    ∙ map-lower s h

dotted-numeric : (c : ℕ) → (is_digit c || (c == 46)) ≡ true → is_numeric c ≡ true
dotted-numeric c h = ground arith

printed-All : (neg : Bool) (c : ℕ) (e : ℤ) → All is_numeric (sign_of neg ++ plain c e)
printed-All true c e = (refl, All-map (plain c e) dotted-numeric (plain-All c e))
printed-All false c e = All-map (plain c e) dotted-numeric (plain-All c e)

printed-signed : (neg : Bool) (s : Str) → Starts s → signed (sign_of neg ++ s) ≡ (neg, s)
printed-signed true s h = refl
printed-signed false s h = Starts-signed s h

-- A text is read by its sign and what is behind it.
read-signed :
    (s t : Str) (neg : Bool) (d : Decimal)
    → All is_numeric s
    → signed s ≡ (neg, t)
    → is_special t ≡ false
    → unsigned neg t ≡ some d
    → read s ≡ finite d
unfolding read
read-signed s t neg d all hs ht hd =
    ap reading (ap signed (cleaned s all) ∙ hs) ∙ if_false _ _ ht ∙ ap taken hd
  where
    taken : Option Decimal → Reading
    taken o = elim o [ none ↦ unreadable | some d ↦ finite d ]

    reading : Bool × Str → Reading
    reading p =
        if is_special p.1
        then special
        else elim (unsigned p.0 p.1) [ none ↦ unreadable | some d ↦ finite d ]

read-plain :
    (neg : Bool) (c : ℕ) (e : ℤ) → read (sign_of neg ++ plain c e) ≡ finite (by_digits neg c e)
read-plain neg c e =
    read-signed (sign_of neg ++ plain c e) (plain c e) neg (by_digits neg c e) (printed-All neg c e)
      (printed-signed neg (plain c e) (plain-Starts c e))
      (Starts-special (plain c e) (plain-Starts c e)) (unsigned-plain neg c e)

read-zero : read (codes "0") ≡ finite (of_nat 0)
unfolding read is_special unsigned mantissa break_at digits_value strip_left strip_right drop_prefix
    str_eq
read-zero = refl

pub encode_finite-All : (d : Decimal) → All is_numeric (encode_finite d)
unfolding encode_finite
encode_finite-All d = elim (Bool-cases (d.coeff == 0)) [
  | inl e ↦ rw e (refl, tt)
  | inr e ↦ rw e (printed-All d.neg (normalize d).coeff (normalize d).exp)
]

Starts-some : (s : Str) → Starts s → 0 < length s
Starts-some s (c, rest, e, h) = subst (λ s. 0 < length s) (sym e) (omega arith)

-- A written number has a character, and one that is not negative has no sign.
pub encode_finite-some : (d : Decimal) → 0 < length (encode_finite d)
unfolding encode_finite
encode_finite-some d = elim (Bool-cases (d.coeff == 0)) [
  | inl e ↦ rw e (omega arith)
  | inr e ↦ rw e (signed_some d.neg)
]
  where
    signed_some :
        (neg : Bool) → 0 < length (sign_of neg ++ plain (normalize d).coeff (normalize d).exp)
    signed_some true = omega arith
    signed_some false = Starts-some _ (plain-Starts (normalize d).coeff (normalize d).exp)

pub encode_finite-dotted :
    (d : Decimal) → d.neg ≡ false → All (λ c. is_digit c || (c == 46)) (encode_finite d)
unfolding encode_finite
encode_finite-dotted d h = elim (Bool-cases (d.coeff == 0)) [
  | inl e ↦ rw e (refl, tt)
  | inr e ↦ rw e (
      subst
        (λ neg.
          All (λ c. is_digit c || (c == 46))
            (sign_of neg ++ plain (normalize d).coeff (normalize d).exp))
        (sym h) (plain-All (normalize d).coeff (normalize d).exp))
]

pub read-encode_finite : (d : Decimal) → read (encode_finite d) ≡ finite (canonical d)
unfolding encode_finite canonical
read-encode_finite d = elim (Bool-cases (d.coeff == 0)) [
  | inl e ↦ ap read (if_true _ _ e) ∙ read-zero ∙ ap finite (sym (if_true _ _ e))
  | inr e ↦
      ap read (if_false _ _ e)
      ∙ read-plain d.neg (normalize d).coeff (normalize d).exp
      ∙ ap finite (sym (if_false _ _ e))
]

-- A finite number is written, and what is written is read again: the same number, in the digits of
-- the context and without the zeros at its end.
pub read-encode_decimal :
    (d : Decimal)
    → (s : Str) × (encode_decimal (AnyDecimal.finite d) ≡ ok s) × (read s ≡ finite (canonical d))
unfolding encode_decimal
read-encode_decimal d = (encode_finite d, refl, read-encode_finite d)
