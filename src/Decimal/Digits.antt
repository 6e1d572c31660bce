-- ===== src/Decimal/Digits.antt =====
-- The digits of a number, and coefficients that stay above zero.
use snap_cook.Common.{
  ℕ, zero, suc, ◌-◌, ◌*◌, ◌/◌, ◌^◌, ◌≤◌, ◌<◌, ltb, ◌≡◌, ◌≢◌, Bool, Bool-cases, inl, inr, arith,
}
use snap_cook.Common.Int.{ℤ, pos, ◌+ℤ◌}
use snap_cook.Decimal.{Decimal, precision, digits_on, digits, finish, half_even}
use native.Mathlib.Nat.{div-lt_iff_lt-mul}
use snap_cook.Canonical.Numbers.{normalize, strip_zeros}

pub pow_suc : (k : ℕ) → 10 ^ suc k ≡ 10 * 10 ^ k
pow_suc k = omega arith

pub pow_positive : (k : ℕ) → 0 < 10 ^ k
pow_positive zero = omega arith
pow_positive (suc k) = omega (arith, pow_positive k, pow_suc k)

pub digits_on-positive : (fuel n : ℕ) → 0 < digits_on fuel n
unfolding digits_on
digits_on-positive zero n = omega arith
digits_on-positive (suc fuel) n = ground arith

pred_suc : (k : ℕ) → suc k - 1 ≡ k
pred_suc k = omega arith

at_pred : (k m : ℕ) → 10 ^ (suc k - 1) ≤ m → 10 ^ k ≤ m
at_pred k m h = rw (pred_suc k) at h

power_below : (k n m : ℕ) → 0 < k → 10 ^ (k - 1) ≤ m → 10 * m ≤ n → 10 ^ k ≤ n
power_below zero n m h l u = omega arith
power_below (suc k) n m h l u = omega (arith, pow_suc k, at_pred k m l)

-- The number reaches its first digit.
pub digits_on_lower : (fuel n : ℕ) → n ≤ fuel → 0 < n → 10 ^ (digits_on fuel n - 1) ≤ n
unfolding digits_on
digits_on_lower zero n h k = omega arith
digits_on_lower (suc fuel) n h k = elim (Bool-cases (ltb n 10)) [
  | inl short ↦ rw (short, digits_on) k
  | inr long ↦
      rw (long, digits_on, pred_suc (digits_on fuel (n / 10)))
        (power_below (digits_on fuel (n / 10)) n (n / 10) (digits_on-positive fuel (n / 10))
          (digits_on_lower fuel (n / 10) (ground arith) (ground arith)) (omega arith))
]

pub digits_on_upper : (fuel n : ℕ) → n ≤ fuel → n < 10 ^ digits_on fuel n
unfolding digits_on
digits_on_upper zero n h = omega arith
digits_on_upper (suc fuel) n h = elim (Bool-cases (ltb n 10)) [
  | inl short ↦ ground arith
  | inr long ↦
      rw (long, digits_on)
        (omega
          (arith, digits_on_upper fuel (n / 10) (ground arith), pow_suc (digits_on fuel (n / 10))))
]

-- A number below a power has no more digits than the power has zeros.
pub digits_on-bound : (k fuel n : ℕ) → n < 10 ^ suc k → digits_on fuel n ≤ suc k
unfolding digits_on
digits_on-bound k zero n h = omega arith
digits_on-bound zero (suc fuel) n h = ground arith
digits_on-bound (suc k) (suc fuel) n h =
    ground (arith, digits_on-bound k fuel (n / 10) (omega (arith, pow_suc (suc k))))

pow_le : (k j : ℕ) → k ≤ j → 10 ^ k ≤ 10 ^ j
pow_le zero j h = omega (arith, pow_positive j)
pow_le (suc k) zero h = omega arith
pow_le (suc k) (suc j) h = omega (arith, pow_suc k, pow_suc j, pow_le k j (omega arith))

positive : (n : ℕ) → n ≢ 0 → 0 < n
positive n h = ground arith

pub div_pos : (n m : ℕ) → 0 < m → m ≤ n → 0 < n / m
div_pos n m h k = grind (arith, h, k)

pub div_short : (n m : ℕ) → 0 < m → n < 100 * m → n / m < 100
div_short n m h k = (div-lt_iff_lt-mul h).1 k

shortened : (n k : ℕ) → k ≤ digits n - 1 → 0 < n → 0 < n / 10 ^ k
shortened n k h p = ground (
  arith,
  div_pos n (10 ^ k) (pow_positive k),
  digits_on_lower n n (omega arith) p,
  pow_le k (digits n - 1) h,
)

half_even-positive : (n k : ℕ) → 0 < n / 10 ^ k → 0 < half_even n k
unfolding half_even
half_even-positive n k h = ground arith

finish-nonzero : (neg : Bool) (n : ℕ) (e : ℤ) → n ≢ 0 → (finish neg n e).coeff ≢ 0
unfolding finish
finish-nonzero neg n e h = ground (
  arith,
  half_even-positive n (digits n - precision)
      (shortened n (digits n - precision) (omega arith) (positive n h)),
)

strip_zeros-nonzero : (fuel : ℕ) (d : Decimal) → d.coeff ≢ 0 → (strip_zeros fuel d).coeff ≢ 0
unfolding strip_zeros
strip_zeros-nonzero zero d h = h
strip_zeros-nonzero (suc fuel) d h =
    ground
      (arith, strip_zeros-nonzero fuel (record d { coeff = d.coeff / 10; exp = d.exp +ℤ pos 1 }))

pub normalize-nonzero : (d : Decimal) → d.coeff ≢ 0 → (normalize d).coeff ≢ 0
unfolding normalize
normalize-nonzero d h =
    strip_zeros-nonzero _ (finish d.neg d.coeff d.exp) (finish-nonzero d.neg d.coeff d.exp h)
