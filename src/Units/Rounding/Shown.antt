-- ===== src/Units/Rounding/Shown.antt =====
-- What units/rounding.py shows of a number as a mixed number: the distance and the text, in the words
-- of the result.
use snap_cook.Common.{
  Str, codes, ℕ, suc, ◌==◌, ◌≡◌, ◌≢◌, refl, Bool, true, false, ◌++◌, Bool-cases, inl, inr, ◌⊎◌,
  arith,
}
use snap_cook.Decimal.{Decimal, of_nat}
use snap_cook.Decimal.Arith.{abs, sub, div}
use snap_cook.Canonical.Numbers.{text_of, sign_of}
use snap_cook.Units.Rounding.{Fraction, carry, mixed_text}

-- How far a fraction is from the rest of a number.
abbrev pub gap : Decimal → Fraction → Decimal
gap remainder f = abs (sub remainder (div (of_nat f.numerator) (of_nat f.denominator)))

-- The text without a sign: of a whole number and a fraction of 1 the next whole number, of no
-- fraction the whole number alone, of no whole number the fraction alone, else both.
abbrev pub Reads : ℕ → Fraction → Str → Type 0
Reads whole f text =
    ((f.numerator ≡ f.denominator) × (text ≡ text_of (suc whole)))
    ⊎ ((f.numerator ≢ f.denominator) × (f.numerator ≡ 0) × (text ≡ text_of whole))
    ⊎ ((f.numerator ≢ f.denominator)
        × (f.numerator ≢ 0)
        × (whole ≡ 0)
        × (text ≡ text_of f.numerator ++ codes "/" ++ text_of f.denominator))
    ⊎ ((f.numerator ≢ f.denominator)
        × (f.numerator ≢ 0)
        × (whole ≢ 0)
        × (text
            ≡ text_of whole
              ++ codes " "
              ++ (text_of f.numerator ++ codes "/" ++ text_of f.denominator)))

-- A minus sign in front of the text of a negative number.
abbrev pub Shown : (negative : Bool) → ℕ → Fraction → Str → Type 0
Shown true whole f text = (t : Str) × (text ≡ codes "-" ++ t) × Reads whole f t
Shown false whole f text = Reads whole f text

equal_of_test : (m n : ℕ) → (m == n) ≡ true → m ≡ n
equal_of_test m n h = ground arith

unequal_of_test : (m n : ℕ) → (m == n) ≡ false → m ≢ n
unequal_of_test m n h = ground arith

carry-Reads :
    (whole : ℕ) (f : Fraction) → Reads whole f (mixed_text (carry whole f).0 (carry whole f).1)
unfolding carry mixed_text
carry-Reads whole f = elim (Bool-cases (f.numerator == f.denominator)) [
  | inl one ↦ inl (equal_of_test _ _ one, rw (one, carry) refl)
  | inr part ↦ elim (Bool-cases (f.numerator == 0)) [
    | inl gone ↦ inr (
        inl (
          unequal_of_test _ _ part,
          equal_of_test _ _ gone,
          rw (part, gone, carry, mixed_text) refl,
        ))
    | inr left ↦ elim (Bool-cases (whole == 0)) [
      | inl below ↦ inr (
          inr (
            inl (
              unequal_of_test _ _ part,
              unequal_of_test _ _ left,
              equal_of_test _ _ below,
              rw (part, left, below, carry, mixed_text) refl,
            )))
      | inr above ↦ inr (
          inr (
            inr (
              unequal_of_test _ _ part,
              unequal_of_test _ _ left,
              unequal_of_test _ _ above,
              rw (part, left, above, carry, mixed_text) refl,
            )))
    ]
  ]
]

pub carry-Shown :
    (negative : Bool) (whole : ℕ) (f : Fraction)
    → Shown negative whole f (sign_of negative ++ mixed_text (carry whole f).0 (carry whole f).1)
carry-Shown true whole f =
    (mixed_text (carry whole f).0 (carry whole f).1, refl, carry-Reads whole f)
carry-Shown false whole f = carry-Reads whole f
