-- ===== src/Units/Scaling/Policy.antt =====
-- What `scale_spec` does under each policy.
use snap_cook.Common.{
  Str, codes, none, some, List, [], ◌∷◌, ◌++◌, map, ◌≡◌, refl, ap, ◌∙◌, Bool, true, false, ◌||◌,
  Option, Bool-cases, inl, inr, if_true, if_false,
}
use snap_cook.Errors.{Result, ok, ◌>>=◌}
use snap_cook.Decimal.{Decimal, less, equal, of_nat, mul}
use snap_cook.Issues.{IssueCollector, warn, add}
use snap_cook.Schema.Quantity.{
  Quantity, QuantitySpec, ScalingPolicy, linear, invariant, manual, nonlinear, scalar, range, count,
  approx, approx_is_never_scaled,
}
use snap_cook.Units.Scaling.{scales_with_factor, multiply, scale_quantity, warned, scale_spec}

-- The numbers of a quantity that a reader sees, in their order; the nominal value of an
-- approximation is not one of them.
abbrev pub numbers : Quantity → List Decimal
numbers (scalar s) = s.value ∷ []
numbers (range r) = r.low ∷ r.high ∷ []
numbers (count c) = c.value ∷ elim c.high [ none ↦ [] | some h ↦ h ∷ [] ]
numbers (approx a) = []

-- All of a quantity but those numbers.
abbrev pub frame : Quantity → Quantity
frame (scalar s) = scalar (record s { value = of_nat 0 })
frame (range r) = range (record r { low = of_nat 0; high = of_nat 0 })
frame (count c) =
    count
      (record c { value = of_nat 0; high = elim c.high [ none ↦ none | some h ↦ some (of_nat 0) ] })
frame (approx a) = approx a

-- A linear quantity has its numbers multiplied and all else kept, unless the factor is 1; any other
-- is kept as it is.
abbrev pub ScaledBy : ScalingPolicy → (is_one : Bool) → Decimal → (q q' : Quantity) → Type 0
ScaledBy linear false factor q q' =
    (numbers q' ≡ map (λ (d : Decimal). mul d factor) (numbers q)) × (frame q' ≡ frame q)
ScaledBy linear true factor q q' = q' ≡ q
ScaledBy invariant is_one factor q q' = q' ≡ q
ScaledBy manual is_one factor q q' = q' ≡ q
ScaledBy nonlinear is_one factor q q' = q' ≡ q

-- The warning to check the value, behind the issues so far if they are collected.
abbrev pub noted :
    (message : Str) → (element_id : Option Str) → Option IssueCollector → Option IssueCollector
noted message element_id none = none
noted message element_id (some issues) = some (
    issues
    ++ record {
      code = codes "SCALING_MANUAL";
      severity = warn;
      message = message;
      path = none;
      element_id = element_id;
    }
      ∷ [])

-- A manual or nonlinear quantity gets that warning, unless the factor is 1; no other does.
abbrev pub Noted :
    ScalingPolicy
    → (is_one : Bool) → (message : Str) → (element_id : Option Str)
    → (issues issues' : Option IssueCollector) → Type 0
Noted linear is_one message element_id issues issues' = issues' ≡ issues
Noted invariant is_one message element_id issues issues' = issues' ≡ issues
Noted manual false message element_id issues issues' = issues' ≡ noted message element_id issues
Noted manual true message element_id issues issues' = issues' ≡ issues
Noted nonlinear false message element_id issues issues' = issues' ≡ noted message element_id issues
Noted nonlinear true message element_id issues issues' = issues' ≡ issues

kept-ScaledBy : (p : ScalingPolicy) (factor : Decimal) (q : Quantity) → ScaledBy p true factor q q
kept-ScaledBy linear factor q = refl
kept-ScaledBy invariant factor q = refl
kept-ScaledBy manual factor q = refl
kept-ScaledBy nonlinear factor q = refl

kept-Noted :
    (p : ScalingPolicy) (message : Str) (element_id : Option Str) (issues : Option IssueCollector)
    → Noted p true message element_id issues issues
kept-Noted linear message element_id issues = refl
kept-Noted invariant message element_id issues = refl
kept-Noted manual message element_id issues = refl
kept-Noted nonlinear message element_id issues = refl

high-numbers :
    (factor : Decimal) (high : Option Decimal)
    → ◌≡◌ {A = List Decimal}
        (elim (elim high as (λ x. Option Decimal) [ none ↦ none | some h ↦ some (mul h factor) ]) [
          | none ↦ []
          | some h ↦ h ∷ []
        ])
        (map
          (λ (d : Decimal). mul d factor)
          (elim high as (λ x. List Decimal) [ none ↦ [] | some h ↦ h ∷ [] ]))
high-numbers factor none = refl
high-numbers factor (some h) = refl

high-frame :
    (factor : Decimal) (high : Option Decimal)
    → ◌≡◌ {A = Option Decimal}
        (elim (elim high as (λ x. Option Decimal) [ none ↦ none | some h ↦ some (mul h factor) ]) [
          | none ↦ none
          | some h ↦ some (of_nat 0)
        ])
        (elim high as (λ x. Option Decimal) [ none ↦ none | some h ↦ some (of_nat 0) ])
high-frame factor none = refl
high-frame factor (some h) = refl

multiply-ScaledBy :
    (factor : Decimal) (q : Quantity) → ScaledBy linear false factor q (multiply q factor)
unfolding multiply
multiply-ScaledBy factor (scalar s) = (refl, refl)
multiply-ScaledBy factor (range r) = (refl, refl)
multiply-ScaledBy factor (count c) = (
  ap (λ (l : List Decimal). mul c.value factor ∷ l) (high-numbers factor c.high),
  ap (λ (h : Option Decimal). count (record c { value = of_nat 0; high = h }))
      (high-frame factor c.high),
)
multiply-ScaledBy factor (approx a) = (refl, refl)

module _ (message : ScalingPolicy → Decimal → Str) where
  -- The outcome of scaling `spec` by a factor.
  pub record Scaled (spec : QuantitySpec) (factor : Decimal) (issues : Option IssueCollector)
      (element_id : Option Str) : Type 0 where
    pub spec' : QuantitySpec
    pub issues' : Option IssueCollector
    pub runs : scale_spec message spec factor issues element_id ≡ ok (spec', issues')
    pub policy : spec'.scaling ≡ spec.scaling
    pub number : ScaledBy spec.scaling (equal factor (of_nat 1)) factor spec.quantity spec'.quantity
    pub warning :
        Noted spec.scaling
          (equal factor (of_nat 1))
          (message spec.scaling factor)
          element_id
          issues
          issues'
    pub valid : approx_is_never_scaled spec' ≡ approx_is_never_scaled spec

  scale_quantity-positive :
      (q : Quantity) (factor : Decimal)
      → (less factor (of_nat 0) || equal factor (of_nat 0)) ≡ false
      → scale_quantity q factor ≡ ok (multiply q factor)
  unfolding scale_quantity
  scale_quantity-positive q factor h = rw h refl

  kept_kind :
      (q : Quantity) (factor : Decimal) (p : ScalingPolicy)
      → approx_is_never_scaled (record { quantity = multiply q factor; scaling = p })
        ≡ approx_is_never_scaled (record { quantity = q; scaling = p })
  unfolding multiply approx_is_never_scaled
  kept_kind (scalar s) factor p = refl
  kept_kind (range r) factor p = refl
  kept_kind (count c) factor p = refl
  kept_kind (approx a) factor p = refl

  linear-Scaled :
      (q : Quantity) (factor : Decimal) (issues : Option IssueCollector) (element_id : Option Str)
      → equal factor (of_nat 1) ≡ false
      → (less factor (of_nat 0) || equal factor (of_nat 0)) ≡ false
      → Scaled (record { quantity = q; scaling = linear }) factor issues element_id
  unfolding scale_spec scales_with_factor
  linear-Scaled q factor issues element_id other positive = record {
    spec' = record { quantity = multiply q factor; scaling = linear };
    issues' = issues;
    runs =
        if_false _ _ other
        ∙ ap
            (λ (m : Result Quantity).
              m >>= λ scaled. ok (record { quantity = scaled; scaling = linear }, issues))
            (scale_quantity-positive q factor positive);
    policy = refl;
    number = rw other (multiply-ScaledBy factor q);
    warning = refl;
    valid = kept_kind q factor linear;
  }

  invariant-Scaled :
      (q : Quantity) (factor : Decimal) (issues : Option IssueCollector) (element_id : Option Str)
      → equal factor (of_nat 1) ≡ false
      → Scaled (record { quantity = q; scaling = invariant }) factor issues element_id
  unfolding scale_spec scales_with_factor
  invariant-Scaled q factor issues element_id other = record {
    spec' = record { quantity = q; scaling = invariant };
    issues' = issues;
    runs = if_false _ _ other;
    policy = refl;
    number = refl;
    warning = refl;
    valid = refl;
  }

  warned-noted :
      (q : Quantity) (p : ScalingPolicy) (factor : Decimal) (issues : Option IssueCollector)
      (element_id : Option Str)
      → warned message (record { quantity = q; scaling = p }) factor element_id issues
        ≡ noted (message p factor) element_id issues
  unfolding add
  warned-noted q p factor none element_id = refl
  warned-noted q p factor (some issues) element_id = refl

  manual-Scaled :
      (q : Quantity) (factor : Decimal) (issues : Option IssueCollector) (element_id : Option Str)
      → equal factor (of_nat 1) ≡ false
      → Scaled (record { quantity = q; scaling = manual }) factor issues element_id
  unfolding scale_spec scales_with_factor
  manual-Scaled q factor issues element_id other = record {
    spec' = record { quantity = q; scaling = manual };
    issues' = noted (message manual factor) element_id issues;
    runs =
        if_false _ _ other
        ∙ ap (λ (i : Option IssueCollector). ok (record { quantity = q; scaling = manual }, i))
            (warned-noted q manual factor issues element_id);
    policy = refl;
    number = refl;
    warning = rw other refl;
    valid = refl;
  }

  nonlinear-Scaled :
      (q : Quantity) (factor : Decimal) (issues : Option IssueCollector) (element_id : Option Str)
      → equal factor (of_nat 1) ≡ false
      → Scaled (record { quantity = q; scaling = nonlinear }) factor issues element_id
  unfolding scale_spec scales_with_factor
  nonlinear-Scaled q factor issues element_id other = record {
    spec' = record { quantity = q; scaling = nonlinear };
    issues' = noted (message nonlinear factor) element_id issues;
    runs =
        if_false _ _ other
        ∙ ap (λ (i : Option IssueCollector). ok (record { quantity = q; scaling = nonlinear }, i))
            (warned-noted q nonlinear factor issues element_id);
    policy = refl;
    number = refl;
    warning = rw other refl;
    valid = refl;
  }

  not_one :
      (q : Quantity) (p : ScalingPolicy) (factor : Decimal) (issues : Option IssueCollector)
      (element_id : Option Str)
      → equal factor (of_nat 1) ≡ false
      → (less factor (of_nat 0) || equal factor (of_nat 0)) ≡ false
      → Scaled (record { quantity = q; scaling = p }) factor issues element_id
  not_one q linear factor issues element_id other positive =
      linear-Scaled q factor issues element_id other positive
  not_one q invariant factor issues element_id other positive =
      invariant-Scaled q factor issues element_id other
  not_one q manual factor issues element_id other positive =
      manual-Scaled q factor issues element_id other
  not_one q nonlinear factor issues element_id other positive =
      nonlinear-Scaled q factor issues element_id other

  -- For a positive factor scaling succeeds and keeps the policy. If the factor is not 1 and the policy
  -- is linear, each number is multiplied by it and all else of the quantity is kept; else the quantity
  -- is kept. If the factor is not 1 and the policy is manual or nonlinear, one warning with the
  -- message and the element is added behind the issues, if they are collected; else the issues are
  -- kept. Whether the quantity is an approximation under a linear policy stays as it was.
  pub scale_spec-Scaled :
      (spec : QuantitySpec) (factor : Decimal) (issues : Option IssueCollector)
      (element_id : Option Str)
      → (less factor (of_nat 0) || equal factor (of_nat 0)) ≡ false
      → Scaled spec factor issues element_id
  unfolding scale_spec
  scale_spec-Scaled spec factor issues element_id positive =
      elim (Bool-cases (equal factor (of_nat 1))) [
        | inl one ↦ record {
          spec' = spec;
          issues' = issues;
          runs = if_true _ _ one;
          policy = refl;
          number = rw one (kept-ScaledBy spec.scaling factor spec.quantity);
          warning =
              rw one (kept-Noted spec.scaling (message spec.scaling factor) element_id issues);
          valid = refl;
        }
        | inr other ↦ not_one spec.quantity spec.scaling factor issues element_id other positive
      ]
