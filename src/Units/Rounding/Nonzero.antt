-- ===== src/Units/Rounding/Nonzero.antt =====
-- Rounding keeps a number that is not zero away from zero.
use snap_cook.Common.{
  ℕ, zero, suc, ◌+◌, ◌-◌, ◌*◌, ◌/◌, ◌^◌, ◌≤◌, ◌<◌, ltb, ◌==◌, ◌≡◌, ◌≢◌, refl, sym, ◌∙◌, subst, Bool,
  false, if_true, if_false, Bool-cases, inl, inr, arith,
}
use mathlib.Core.Path.{ap₂}
use snap_cook.Common.Int.{ℤ, pos, pos_part, ◌+ℤ◌, ◌-ℤ◌}
use snap_cook.Errors.{Error, Result, ok, err, ◌>>=◌, ◌>>◌, raise_if, invalid_operation}
use snap_cook.Decimal.Digits.{
  pow_suc, pow_positive, div_pos, div_short, digits_on_lower, digits_on_upper, digits_on-bound,
  digits_on-positive,
}
use snap_cook.Decimal.{Decimal, precision, digits, mul}
use snap_cook.Decimal.Arith.{half_up, quantize, adjusted, div}
use snap_cook.Units.Rounding.{round_significant, snap, snap_metric, metric_bands, last_step}

-- A number that is not zero, or the exception of a number too long for the context.
unfoldable pub IsNonzero : Result Decimal → Type 0
IsNonzero (err raised) = raised ≡ invalid_operation
IsNonzero (ok d) = d.coeff ≢ 0

half_up-lower : (n k : ℕ) → n / 10 ^ k ≤ half_up n k
unfolding half_up
half_up-lower n k = ground arith

half_up-upper : (n k : ℕ) → half_up n k ≤ n / 10 ^ k + 1
unfolding half_up
half_up-upper n k = ground arith

-- The shifts of a rounding to two digits.
shift_left : (e : ℤ) (m : ℕ) → pos_part (e -ℤ (e +ℤ pos m -ℤ pos 1)) ≡ 1 - m
shift_left e m = ground arith

shift_right : (e : ℤ) (m : ℕ) → pos_part ((e +ℤ pos m -ℤ pos 1) -ℤ e) ≡ m - 1
shift_right e m = ground arith

two_digits : ℕ → ℕ → ℕ
two_digits c m = half_up (c * 10 ^ (1 - m)) (m - 1)

nothing : (j : ℕ) → 1 - suc j ≡ 0
nothing j = omega arith

unshifted : (c j : ℕ) → c * 10 ^ (1 - suc j) ≡ c
unshifted c j = rw (nothing j) (omega arith)

two_digits-suc : (c j : ℕ) → two_digits c (suc j) ≡ half_up c j
unfolding two_digits
two_digits-suc c j = ap₂ half_up (unshifted c j) (omega arith)

two_digits-positive : (c m : ℕ) → 10 ^ m ≤ c → 0 < two_digits c m
unfolding two_digits
two_digits-positive c zero h = omega (arith, half_up-lower (c * 10 ^ 1) 0)
two_digits-positive c (suc j) h = rw (two_digits-suc c j) (
    omega
      (arith, half_up-lower c j, div_pos c (10 ^ j) (pow_positive j) (omega (arith, pow_suc j, h))))

two_digits-short : (c m : ℕ) → c < 10 ^ suc m → two_digits c m < 1000
unfolding two_digits
two_digits-short c zero h = omega (arith, half_up-upper (c * 10 ^ 1) 0)
two_digits-short c (suc j) h = rw (two_digits-suc c j) (
    omega (
      arith,
      half_up-upper c j,
      div_short c (10 ^ j) (pow_positive j) (omega (arith, pow_suc j, pow_suc (suc j), h)),
    ))

quantize-two_digits :
    (value : Decimal)
    → quantize half_up value (adjusted value -ℤ pos 1) ≡ (
        raise_if
          (ltb precision (digits (two_digits value.coeff (digits value.coeff - 1))))
          invalid_operation
        >> ok (record {
          neg = value.neg;
          coeff = two_digits value.coeff (digits value.coeff - 1);
          exp = adjusted value -ℤ pos 1;
        }))
unfolding quantize two_digits
quantize-two_digits value =
    rw
      (
        shift_left value.exp (digits value.coeff - 1),
        shift_right value.exp (digits value.coeff - 1),
      )
      refl

few_digits : (n : ℕ) → n < 1000 → ltb precision (digits n) ≡ false
few_digits n h = ground (arith, digits_on-bound 2 n n h)

unchecked : {B : Type 0} {c : Bool} (d : B) (e : Error) → c ≡ false → (raise_if c e >> ok d) ≡ ok d
unchecked d e h = rw h refl

pub nonzero_test : (c : ℕ) → c ≢ 0 → (c == 0) ≡ false
nonzero_test c h = ground arith

nonzero_of_positive : {n : ℕ} → 0 < n → n ≢ 0
nonzero_of_positive h = ground arith

above_power : (c : ℕ) → c ≢ 0 → 10 ^ (digits c - 1) ≤ c
above_power c h = digits_on_lower c c (omega arith) (ground arith)

below_power : (c : ℕ) → c ≢ 0 → c < 10 ^ suc (digits c - 1)
below_power c h =
    subst (λ k. c < 10 ^ k) (omega (arith, digits_on-positive c c))
      (digits_on_upper c c (omega arith))

-- Two significant digits never make a number vanish, and never fail.
pub round_significant-nonzero :
    (value : Decimal)
    → value.coeff ≢ 0
    → (d : Decimal) × (round_significant value ≡ ok d) × (d.coeff ≢ 0)
unfolding round_significant
round_significant-nonzero value h =
    let c = value.coeff in
    let m = digits c - 1 in
    let short = few_digits (two_digits c m) (two_digits-short c m (below_power c h)) in
    (
      _,
      if_false _ _ (nonzero_test c h)
          ∙ quantize-two_digits value
          ∙ unchecked _ invalid_operation short,
      nonzero_of_positive (two_digits-positive c m (above_power c h)),
    )

pub IsNonzero-ok : {r : Result Decimal} {d : Decimal} → r ≡ ok d → d.coeff ≢ 0 → IsNonzero r
unfolding IsNonzero
IsNonzero-ok e h = subst IsNonzero (sym e) h

-- Rounding to the digits of the context is the one thing that can fail.
pub quantize->>= :
    {A : Type 0} (P : Result A → Type 0) (value : Decimal) (e : ℤ) (next : Decimal → Result A)
    → P (err invalid_operation)
    → ((d : Decimal) → P (next d))
    → P (quantize half_up value e >>= next)
unfolding quantize
quantize->>= P value e next failed h =
    elim (Bool-cases (
      ltb precision (
        digits
          (half_up (value.coeff * 10 ^ pos_part (value.exp -ℤ e)) (pos_part (e -ℤ value.exp)))))) [
            | inl long ↦ rw long failed
            | inr short ↦ rw short (h _)
          ]

snap-IsNonzero : (value step : Decimal) → value.coeff ≢ 0 → IsNonzero (snap value step)
unfolding snap IsNonzero
snap-IsNonzero value step h = quantize->>= IsNonzero (div value step) (pos 0) _ refl (λ d.
    elim (Bool-cases ((mul d step).coeff == 0)) [
      | inl zero_product ↦
          let r = round_significant-nonzero value h in
          IsNonzero-ok (if_true _ _ zero_product ∙ r.1) r.2
      | inr other ↦ IsNonzero-ok (if_false _ _ other) (λ e. cc (rw e at other))
    ])

pub snap_metric-IsNonzero :
    (value : Decimal) → value.coeff ≢ 0 → IsNonzero (snap_metric value metric_bands)
unfolding snap_metric last_step
snap_metric-IsNonzero value h =
    subst IsNonzero (sym (if_false _ _ (nonzero_test value.coeff h))) (snap-IsNonzero value _ h)
