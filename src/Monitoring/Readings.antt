-- ===== src/Monitoring/Readings.antt =====
-- What is read of a metric, against what was published to it.
use triggerhook.Base.{
  ℕ, ◌+◌, ◌<◌, ◌^◌, ℤ, pos, pos_part, ◌+ℤ◌, int64, int64_eq, List, [], ◌∷◌, ◌≡◌, refl, ◌∙◌, arith,
}
use triggerhook.Monitoring.Metrics.{Metric, velocity, set, get}

-- A measurement that is not negative, or a reading.
pub data Use : Type 0 where
  sets : ℕ → Use
  reads : Use

-- The readings, and the metric at the end.
unfoldable pub replay : List Use → Metric → List ℤ × Metric
unfolding set get
replay [] m = ([], m)
replay (sets n ∷ rest) m = replay rest (set (pos n) m)
replay (reads ∷ rest) m =
    let (value, m') = get m in let (values, end) = replay rest m' in (value ∷ values, end)

unfoldable pub measured : List Use → ℕ
measured [] = 0
measured (sets n ∷ rest) = n + measured rest
measured (reads ∷ rest) = measured rest

unfoldable pub sum_read : List ℤ → ℕ
sum_read [] = 0
sum_read (value ∷ rest) = pos_part value + sum_read rest

-- What has been read and what is left add up to `total`.
pub record Counted (total : ℕ) (r : List ℤ × Metric) : Type 0 where
  pub left : ℕ
  pub metric : r.1 ≡ velocity (pos left)
  pub counted : sum_read r.0 + left ≡ total

added : (v n : ℕ) → v + n < 2 ^ 63 → int64 (pos v +ℤ pos n) ≡ pos (v + n)
unfolding ◌+ℤ◌
added v n h = int64_eq (pos v +ℤ pos n) (ground arith) ∙ ground arith

-- For any interleaving of readings with measurements that are not negative, as long as the value
-- at the start and all measurements sum up to less than 2^63, the readings of a velocity metric
-- and what it still holds add up to exactly that sum: nothing that is published is lost or counted
-- twice.
pub velocity-Counted :
    (us : List Use) (v : ℕ)
    → v + measured us < 2 ^ 63
    → Counted (v + measured us) (replay us (velocity (pos v)))
unfolding replay measured sum_read set get
velocity-Counted [] v h = record { left = v; metric = refl; counted = omega arith }
velocity-Counted (sets n ∷ rest) v h =
    let c = velocity-Counted rest (v + n) (omega arith) in
    rw (added v n (omega arith))
      (record { left = c.left; metric = c.metric; counted = c.counted ∙ omega arith })
velocity-Counted (reads ∷ rest) v h =
    let c = velocity-Counted rest 0 (omega arith) in
    record { left = c.left; metric = c.metric; counted = let e = c.counted in omega arith }
