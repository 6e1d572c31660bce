-- ===== src/Schema/Quantity.antt =====
-- schema/quantity.py: the four shapes of a quantity, and how a quantity scales.
use snap_cook.Common.{Str, Option, none, some, Bool, true, false, not, ◌&&◌}
use snap_cook.Decimal.{Decimal, less}

pub data SizeGrade : Type 0 where
  tiny small medium large xlarge : SizeGrade

pub data ApproxToken : Type 0 where
  pinch dash splash drizzle handful knob : ApproxToken
  to_taste as_needed for_garnish for_frying to_cover : ApproxToken

pub data ScalingPolicy : Type 0 where
  linear invariant manual nonlinear : ScalingPolicy

pub record UnitRef : Type 0 where
  pub unit_id : Option Str
  pub surface : Str
  pub locale : Option Str

pub record Scalar : Type 0 where
  pub value : Decimal
  pub unit : Option UnitRef

pub record Range : Type 0 where
  pub low : Decimal
  pub high : Decimal
  pub unit : Option UnitRef

pub record Count : Type 0 where
  pub value : Decimal
  pub high : Option Decimal
  pub size : Option SizeGrade

pub record Approx : Type 0 where
  pub token : ApproxToken
  pub surface : Str
  pub nominal : Option Scalar

pub data Quantity : Type 0 where
  scalar : Scalar → Quantity
  range : Range → Quantity
  count : Count → Quantity
  approx : Approx → Quantity

pub record QuantitySpec : Type 0 where
  pub quantity : Quantity
  pub scaling : ScalingPolicy

abbrev is_approx : Quantity → Bool
is_approx (scalar s) = false
is_approx (range r) = false
is_approx (count c) = false
is_approx (approx a) = true

abbrev is_linear : ScalingPolicy → Bool
is_linear linear = true
is_linear invariant = false
is_linear manual = false
is_linear nonlinear = false

-- `QuantitySpec._approx_is_never_scaled` accepts
unfoldable pub approx_is_never_scaled : QuantitySpec → Bool
approx_is_never_scaled spec = not (is_approx spec.quantity && is_linear spec.scaling)

-- `Range._ordered` accepts
pub range_ordered : Range → Bool
range_ordered r = not (less r.high r.low)

-- `Count._ordered` accepts
pub count_ordered : Count → Bool
count_ordered c = elim c.high [ none ↦ true | some h ↦ not (less h c.value) ]

-- `approx_spec`
unfoldable pub approx_spec : ApproxToken → Str → Option Scalar → QuantitySpec
approx_spec token surface nominal = record {
  quantity = approx (record { token = token; surface = surface; nominal = nominal });
  scaling = invariant;
}

-- `UnitRef.resolved`
abbrev pub resolved : UnitRef → Bool
resolved u = elim u.unit_id [ none ↦ false | some unit_id ↦ true ]

-- `Count.is_range`
abbrev pub is_range : Count → Bool
is_range c = elim c.high [ none ↦ false | some high ↦ true ]
