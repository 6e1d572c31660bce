-- ===== src/Units.antt =====
-- packages/snapcook-core/src/snapcook_core/units: scaling, the table of units, conversions.
pub mod Scaling
pub mod Registry
pub mod Density
pub mod Rounding
