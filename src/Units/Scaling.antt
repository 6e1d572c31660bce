-- ===== src/Units/Scaling.antt =====
-- units/scaling.py: a quantity times a factor, as its policy says. The text of the warning is a
-- parameter.
pub mod Policy
use snap_cook.Common.{Str, codes, Bool, true, false, ◌||◌, Option, none, some, if◌then◌else◌}
use snap_cook.Errors.{Result, ok, err, ◌>>=◌, ◌>>◌, raise_if, value_error}
use snap_cook.Decimal.{Decimal, mul, less, equal, of_nat}
use snap_cook.Issues.{IssueCollector, Severity, warn, add}
use snap_cook.Schema.Quantity.{
  Quantity, QuantitySpec, ScalingPolicy, linear, invariant, manual, nonlinear, scalar, range, count,
  approx, Scalar, Range, Count,
}

unfoldable pub scales_with_factor : ScalingPolicy → Bool
scales_with_factor linear = true
scales_with_factor invariant = false
scales_with_factor manual = false
scales_with_factor nonlinear = false

-- The product of each number of a quantity with the factor.
unfoldable pub multiply : Quantity → Decimal → Quantity
multiply (scalar s) factor = scalar (record s { value = mul s.value factor })
multiply (range r) factor = range (record r { low = mul r.low factor; high = mul r.high factor })
multiply (count c) factor = count (record c {
  value = mul c.value factor;
  high = elim c.high [ none ↦ none | some h ↦ some (mul h factor) ];
})
multiply (approx a) factor = approx a

unfoldable pub scale_quantity : Quantity → Decimal → Result Quantity
unfolding multiply
scale_quantity quantity factor = do
  raise_if (less factor (of_nat 0) || equal factor (of_nat 0)) value_error
  ok (multiply quantity factor)

-- `spec.scaling in (MANUAL, NONLINEAR)`
abbrev pub is_checked : ScalingPolicy → Bool
is_checked linear = false
is_checked invariant = false
is_checked manual = true
is_checked nonlinear = true

module _ (message : ScalingPolicy → Decimal → Str) where
  abbrev pub warned :
      QuantitySpec → Decimal → Option Str → Option IssueCollector → Option IssueCollector
  warned spec factor element_id none = none
  warned spec factor element_id (some issues) =
      some (add (codes "SCALING_MANUAL") (message spec.scaling factor) warn none element_id issues)

  -- `scale_spec`, with the issues collected
  unfoldable pub scale_spec :
      QuantitySpec
      → Decimal
      → Option IssueCollector
      → Option Str
      → Result (QuantitySpec × Option IssueCollector)
  unfolding scales_with_factor scale_quantity add
  scale_spec spec factor issues element_id =
      if equal factor (of_nat 1)
      then ok (spec, issues)
      else if scales_with_factor spec.scaling
      then (do
        scaled ← scale_quantity spec.quantity factor
        ok (record spec { quantity = scaled }, issues))
      else ok
          (spec, if is_checked spec.scaling then warned spec factor element_id issues else issues)
