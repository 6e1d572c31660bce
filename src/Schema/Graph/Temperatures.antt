-- ===== src/Schema/Graph/Temperatures.antt =====
-- schema/graph.py: a temperature in the other unit.
use snap_cook.Common.{false}
use snap_cook.Common.Int.{negsuc}
use snap_cook.Decimal.{Decimal, mul, of_nat}
use snap_cook.Decimal.Arith.{sum, sub, div}
use snap_cook.Schema.Graph.{Temperature, TemperatureUnit, C, F}

-- 1.8
abbrev pub fahrenheit_per_celsius : Decimal
fahrenheit_per_celsius = record { neg = false; coeff = 18; exp = negsuc 0 }

-- `Temperature.value_in`
unfoldable pub value_in : Temperature → TemperatureUnit → Decimal
value_in t unit = elim t.unit [
  | C ↦ elim unit [ C ↦ t.value | F ↦ sum (mul t.value fahrenheit_per_celsius) (of_nat 32) ]
  | F ↦ elim unit [ C ↦ div (sub t.value (of_nat 32)) fahrenheit_per_celsius | F ↦ t.value ]
]
