-- ===== src/Decimal/Order.antt =====
-- The order of the numbers that are not negative.
use snap_cook.Common.{
  ℕ, zero, suc, ◌+◌, ◌*◌, ◌^◌, ◌≤◌, ◌<◌, ltb, ◌≡◌, refl, sym, ap, ◌∙◌, Bool, true, false, arith,
  if◌then◌else◌,
}
use snap_cook.Common.Int.{ℤ, ◌+ℤ◌, pos_part, neg_part}
use snap_cook.Decimal.{Decimal, less, aligned, finish, mul, xor}
use snap_cook.Decimal.Digits.{pow_suc, pow_positive}
use native.Mathlib.Nat.{mul-le-mul_right, le_of_mul-le-mul_right, mul_assoc}

swap : (a b c : ℕ) → a * b * c ≡ a * c * b
swap a b c = grind arith

-- Fractions over common powers: x/A ≤ y/B and y/B ≤ z/C.
cross_trans : (x y z A B C : ℕ) → 0 < B → x * B ≤ y * A → y * C ≤ z * B → x * C ≤ z * A
cross_trans x y z A B C h k l =
    le_of_mul-le-mul_right {k = B}
      (omega
        (arith, mul-le-mul_right C k, mul-le-mul_right A l, swap x C B, swap z A B, swap y A C))
      h

suc_plus : (j k : ℕ) → suc j + k ≡ suc (j + k)
suc_plus j k = omega arith

zero_plus : (k : ℕ) → 0 + k ≡ k
zero_plus k = omega arith

pow_plus : (j k : ℕ) → 10 ^ (j + k) ≡ 10 ^ j * 10 ^ k
pow_plus zero k = rw (zero_plus k) (omega arith)
pow_plus (suc j) k = rw (suc_plus j k) (
    pow_suc (j + k)
    ∙ ap (λ n. 10 * n) (pow_plus j k)
    ∙ sym (mul_assoc 10 (10 ^ j) (10 ^ k))
    ∙ ap (λ n. n * 10 ^ k) (sym (pow_suc j)))

aligned-plus : (a b : Decimal) → aligned a b ≡ a.coeff * 10 ^ pos_part a.exp * 10 ^ neg_part b.exp
aligned-plus a b = grind (arith, pow_plus (pos_part a.exp) (neg_part b.exp))

leq_iff : (m n : ℕ) → ltb n m ≡ false → m ≤ n
leq_iff m n h = ground arith

leq_test : (m n : ℕ) → m ≤ n → ltb n m ≡ false
leq_test m n h = ground arith

less-plain :
    (a b : Decimal) → a.neg ≡ false → b.neg ≡ false → less a b ≡ ltb (aligned a b) (aligned b a)
unfolding less
less-plain a b p q = rw (p, q) refl

not_less-le :
    (a b : Decimal) → a.neg ≡ false → b.neg ≡ false → less b a ≡ false → aligned a b ≤ aligned b a
not_less-le a b p q h = leq_iff _ _ (sym (less-plain b a q p) ∙ h)

aligned_trans :
    (a b c : Decimal)
    → aligned a b ≤ aligned b a
    → aligned b c ≤ aligned c b
    → aligned a c ≤ aligned c a
aligned_trans a b c h k = omega (
  arith,
  cross_trans (a.coeff * 10 ^ pos_part a.exp) (b.coeff * 10 ^ pos_part b.exp)
      (c.coeff * 10 ^ pos_part c.exp) (10 ^ neg_part a.exp) (10 ^ neg_part b.exp)
      (10 ^ neg_part c.exp) (pow_positive (neg_part b.exp))
      (omega (arith, h, aligned-plus a b, aligned-plus b a))
      (omega (arith, k, aligned-plus b c, aligned-plus c b)),
  aligned-plus a c,
  aligned-plus c a,
)

-- a ≤ b and b ≤ c
pub not_less_trans :
    (a b c : Decimal)
    → a.neg ≡ false
    → b.neg ≡ false
    → c.neg ≡ false
    → less b a ≡ false
    → less c b ≡ false
    → less c a ≡ false
not_less_trans a b c p q r h k =
    less-plain c a r p
    ∙ leq_test _ _ (aligned_trans a b c (not_less-le a b p q h) (not_less-le b c q r k))

pub less-asym : (a b : Decimal) → a.neg ≡ false → b.neg ≡ false → less a b ≡ true → less b a ≡ false
unfolding less
less-asym a b p q h = ground arith

pub less_irrefl : (a : Decimal) → a.neg ≡ false → less a a ≡ false
unfolding less
less_irrefl a p = ground arith

one_sign :
    (c : Bool) (x y : Decimal) (n : Bool) → x.neg ≡ n → y.neg ≡ n → (if c then x else y).neg ≡ n
one_sign true x y n h k = h
one_sign false x y n h k = k

pub finish-neg : (neg : Bool) (n : ℕ) (e : ℤ) → (finish neg n e).neg ≡ neg
unfolding finish
finish-neg neg n e = one_sign _ _ _ neg (one_sign _ _ _ neg refl refl) refl

xor-false : (a b : Bool) → a ≡ false → b ≡ false → xor a b ≡ false
xor-false a b h k = ground arith

pub mul-neg : (a b : Decimal) → a.neg ≡ false → b.neg ≡ false → (mul a b).neg ≡ false
unfolding mul
mul-neg a b h k =
    finish-neg (xor a.neg b.neg) (a.coeff * b.coeff) (a.exp +ℤ b.exp) ∙ xor-false a.neg b.neg h k
