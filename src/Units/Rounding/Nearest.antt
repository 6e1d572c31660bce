-- ===== src/Units/Rounding/Nearest.antt =====
-- A mixed number shows the candidate nearest to the rest of the number, and nothing else will do if
-- it is refused.
use snap_cook.Common.{
  Str, ℕ, ◌==◌, ◌≡◌, ◌≢◌, refl, sym, subst, Bool, true, false, ◌||◌, ◌&&◌, Option, none, some, List,
  [], ◌∷◌, ◌++◌, if◌then◌else◌, if_true, if_false, Bool-cases, inl, inr, ◌⊎◌, arith,
}
use snap_cook.Decimal.{Decimal, less, mul, of_nat}
use snap_cook.Decimal.Arith.{abs, sub, truncate}
use snap_cook.Decimal.Order.{not_less_trans, less-asym, less_irrefl, finish-neg, mul-neg}
use snap_cook.Canonical.Numbers.{sign_of}
use snap_cook.Units.Rounding.{
  Fraction, fraction, distance, nearest, carry, mixed_text, settle, to_mixed_number,
}
use snap_cook.Units.Rounding.Shown.{gap, Shown, carry-Shown}
use snap_cook.Units.Rounding.Nonzero.{nonzero_test}

abbrev pub All : (Fraction → Type 0) → List Fraction → Type 0
All P [] = Unit
All P (f ∷ l) = P f × All P l

abbrev pub Among : Fraction → List Fraction → Type 0
Among f [] = ⊥
Among f (g ∷ l) = (f ≡ g) ⊎ Among f l

gap-neg : (remainder : Decimal) (f : Fraction) → (gap remainder f).neg ≡ false
gap-neg remainder f = finish-neg false _ _

module _ (remainder : Decimal) where
  -- `f` is at least as near as `g`.
  abbrev pub IsNearer : Fraction → Fraction → Type 0
  IsNearer f g = less (gap remainder g) (gap remainder f) ≡ false

  IsNearer-trans : (f g h : Fraction) → IsNearer f g → IsNearer g h → IsNearer f h
  IsNearer-trans f g h p q =
      not_less_trans (gap remainder f) (gap remainder g) (gap remainder h) (gap-neg remainder f)
        (gap-neg remainder g) (gap-neg remainder h) p q

  abbrev closer : Fraction → Fraction → Fraction
  closer best f = if less (gap remainder f) (gap remainder best) then f else best

  closer-both : (best f : Fraction) → IsNearer (closer best f) best × IsNearer (closer best f) f
  closer-both best f = elim (Bool-cases (less (gap remainder f) (gap remainder best))) [
    | inl e ↦ rw e (
      less-asym (gap remainder f) (gap remainder best) (gap-neg remainder f)
          (gap-neg remainder best) e,
      less_irrefl (gap remainder f) (gap-neg remainder f),
    )
    | inr e ↦ rw e (less_irrefl (gap remainder best) (gap-neg remainder best), e)
  ]

  nearest-IsNearer :
      (best : Fraction) (candidates : List Fraction)
      → All (λ f. IsNearer (nearest remainder best candidates) f) (best ∷ candidates)
  unfolding nearest distance
  nearest-IsNearer best [] = (less_irrefl (gap remainder best) (gap-neg remainder best), tt)
  nearest-IsNearer best (f ∷ candidates) =
      let rest = nearest-IsNearer (closer best f) candidates in
      let both = closer-both best f in
      let r = nearest remainder (closer best f) candidates in
      (
        IsNearer-trans r (closer best f) best rest.0 both.0,
        (IsNearer-trans r (closer best f) f rest.0 both.1, rest.1),
      )

  nearest-Among :
      (best : Fraction) (candidates : List Fraction)
      → Among (nearest remainder best candidates) (best ∷ candidates)
  unfolding nearest distance
  nearest-Among best [] = inl refl
  nearest-Among best (f ∷ candidates) =
      put_back (less (gap remainder f) (gap remainder best))
        (nearest-Among (closer best f) candidates)
    where
      put_back :
          {r : Fraction} (c : Bool)
          → Among r ((if c then f else best) ∷ candidates)
          → Among r (best ∷ (f ∷ candidates))
      put_back true (inl e) = inr (inl e)
      put_back false (inl e) = inl e
      put_back c (inr h) = inr (inr h)

or_left : (a b : Bool) → a ≡ true → (a || b) ≡ true
or_left a b h = ground arith

or_right : (a b : Bool) → b ≡ true → (a || b) ≡ true
or_right a b h = ground arith

neither : (a b : Bool) → a ≡ false → b ≡ false → (a || b) ≡ false
neither a b h k = ground arith

abbrev vanishes : ℕ → Fraction → Bool
vanishes whole best = ((carry whole best).0 == 0) && ((carry whole best).1.numerator == 0)

settle-none :
    (negative : Bool) (whole : ℕ) (best : Fraction) (is_far : Bool)
    → (is_far || vanishes whole best) ≡ true
    → settle negative whole best is_far ≡ none
unfolding settle
settle-none negative whole best is_far h = if_true _ _ h

settle-some :
    (negative : Bool) (whole : ℕ) (best : Fraction) (is_far : Bool)
    → (is_far || vanishes whole best) ≡ false
    → settle negative whole best is_far
      ≡ some (sign_of negative ++ mixed_text (carry whole best).0 (carry whole best).1)
unfolding settle
settle-some negative whole best is_far h = if_false _ _ h

carry-vanishes :
    (whole : ℕ) (best : Fraction) → vanishes whole best ≡ true → (whole ≡ 0) × (best.numerator ≡ 0)
unfolding carry
carry-vanishes whole best h = ground arith

All-map :
    {P Q : Fraction → Type 0} (l : List Fraction) → ((f : Fraction) → P f → Q f) → All P l → All Q l
All-map [] h all = tt
All-map (f ∷ l) h all = (h f all.0, All-map l h all.1)

module _ (value : Decimal) (ladder : List Fraction) (tolerance : Decimal) where
  abbrev whole : ℕ
  whole = truncate (abs value)

  abbrev rest_of : Decimal
  rest_of = sub (abs value) (of_nat whole)

  -- 0 and 1 are candidates too.
  abbrev candidates : List Fraction
  candidates = fraction 0 1 ∷ (ladder ++ fraction 1 1 ∷ [])

  abbrev is_far : Fraction → Bool
  is_far f = less (mul tolerance (abs value)) (gap rest_of f)

  -- What the text, or its absence, says of the candidates.
  pub Outcome : Option Str → Type 0
  Outcome none =
      All (λ f. is_far f ≡ true) candidates
      ⊎ ((whole ≡ 0)
          × ((best : Fraction) × (best.numerator ≡ 0) × All (IsNearer rest_of best) candidates))
  Outcome (some text) =
      (best : Fraction) × Among best candidates
      × All (IsNearer rest_of best) candidates
      × (is_far best ≡ false)
      × Shown (less value (of_nat 0)) whole best text

  far-further :
      (best f : Fraction)
      → tolerance.neg ≡ false
      → IsNearer rest_of best f
      → is_far best ≡ true
      → is_far f ≡ true
  far-further best f positive near far = elim (Bool-cases (is_far f)) [
    | inl e ↦ e
    | inr e ↦ cc (
      far,
      not_less_trans (gap rest_of best) (gap rest_of f) (mul tolerance (abs value))
          (gap-neg rest_of best) (gap-neg rest_of f)
          (mul-neg tolerance (abs value) positive (finish-neg false value.coeff value.exp)) near e,
    )
  ]

  settle-Outcome :
      (best : Fraction)
      → tolerance.neg ≡ false
      → Among best candidates
      → All (IsNearer rest_of best) candidates
      → Outcome (settle (less value (of_nat 0)) whole best (is_far best))
  unfolding settle Outcome
  settle-Outcome best positive among near = elim (Bool-cases (is_far best)) [
    | inl far ↦
        let refused : Outcome none =
          inl (All-map candidates (λ f n. far-further best f positive n far) near) in
        subst Outcome (sym (settle-none _ whole best _ (or_left _ _ far))) refused
    | inr close ↦ elim (Bool-cases (vanishes whole best)) [
      | inl gone ↦
          let zeros = carry-vanishes whole best gone in
          let refused : Outcome none = inr (zeros.0, (best, zeros.1, near)) in
          subst Outcome (sym (settle-none _ whole best (is_far best) (or_right _ _ gone))) refused
      | inr left ↦
          let shown : Outcome (
              some (
                sign_of (less value (of_nat 0))
                ++ mixed_text (carry whole best).0 (carry whole best).1)) =
            (best, among, near, close, carry-Shown (less value (of_nat 0)) whole best) in
          subst Outcome (sym (settle-some _ whole best (is_far best) (neither _ _ close left)))
            shown
    ]
  ]

  -- For a number that is not zero and a tolerance that is not negative, a text shows the whole number
  -- and the candidate nearest to the rest, within the tolerance: the next whole number for a candidate
  -- of 1, no fraction for a candidate of 0, else numerator, slash and denominator, behind the whole
  -- number if it is not 0, and all behind a minus sign if the number is negative; there is no text
  -- only if every candidate is beyond the tolerance, or the number is below 1 and 0 is a nearest
  -- candidate.
  pub to_mixed_number-Outcome :
      value.coeff ≢ 0 → tolerance.neg ≡ false → Outcome (to_mixed_number value ladder tolerance)
  unfolding to_mixed_number distance
  to_mixed_number-Outcome some_value positive =
      subst Outcome (sym (if_false _ _ (nonzero_test value.coeff some_value))) (
        settle-Outcome _ positive (nearest-Among rest_of (fraction 0 1) _)
          (nearest-IsNearer rest_of (fraction 0 1) _))
