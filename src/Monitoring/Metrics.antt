-- ===== src/Monitoring/Metrics.antt =====
-- monitoring_service/integral_metric.go, value_metric.go and velocity_metric.go. Each method is one
-- atomic operation.
use triggerhook.Base.{ℤ, pos, ◌+ℤ◌, int64}

-- The `MetricType` of contracts.go.
pub data MetricType : Type 0 where
  velocity_metric_type value_metric_type integral_metric_type : MetricType

-- The three implementations of MetricInterface, each with its `value`.
pub data Metric : Type 0 where
  integral velocity of_value : ℤ → Metric

-- IntegralMetric: `Set` adds to the value.
abbrev pub integral_set : ℤ → ℤ → ℤ
integral_set n value = int64 (value +ℤ n)

-- VelocityMetric: `Set` adds to the count, `Get` gives the count and starts again.
abbrev pub velocity_set : ℤ → ℤ → ℤ
velocity_set n count_items = int64 (count_items +ℤ n)

abbrev pub velocity_get : ℤ → ℤ × ℤ
velocity_get count_items = (count_items, pos 0)

-- ValueMetric: `Set` replaces the value.
abbrev pub value_set : ℤ → ℤ → ℤ
value_set n value = n

-- `Set` of the interface.
unfoldable pub set : ℤ → Metric → Metric
set n (integral value) = integral (integral_set n value)
set n (velocity value) = velocity (velocity_set n value)
set n (of_value value) = of_value (value_set n value)

-- `Get` of the interface, with the metric after it; the other two load their value.
unfoldable pub get : Metric → ℤ × Metric
get (integral value) = (value, integral value)
get (velocity value) = let (count, rest) = velocity_get value in (count, velocity rest)
get (of_value value) = (value, of_value value)

unfoldable pub new_metric : MetricType → Metric
new_metric integral_metric_type = integral (pos 0)
new_metric velocity_metric_type = velocity (pos 0)
new_metric value_metric_type = of_value (pos 0)
