-- ===== src/Monitoring/Tests.antt =====
-- A monitoring with one topic, and the theorems on it.
use triggerhook.Base.{int64, ◌+ℤ◌, ◌≡◌, refl, pos, [], ◌∷◌, some, arith}
use triggerhook.Monitoring.Metrics.{velocity}
use triggerhook.Monitoring.Registry.{Monitoring, run_round, publish}
use triggerhook.Monitoring.Readings.{measured, sets, reads, replay, Counted, velocity-Counted}

abbrev monitoring : Monitoring
monitoring = record {
  metrics = λ _. some (velocity (pos 0));
  subscriptions = "sending_rate" ∷ [];
  sent = [];
}

-- Two measurements are read as one, and the next round reads zero.
rounds :
    (run_round (
      run_round
        (publish "sending_rate" (pos 2) (publish "sending_rate" (pos 1) monitoring).1).1)).sent
    ≡ ("sending_rate", pos 3) ∷ ("sending_rate", pos 0) ∷ []
unfolding run_round publish int64 ◌+ℤ◌
rounds = refl

velocity-Counted_example : Counted 7 (replay (sets 3 ∷ reads ∷ sets 4 ∷ []) (velocity (pos 0)))
unfolding measured
velocity-Counted_example = velocity-Counted (sets 3 ∷ reads ∷ sets 4 ∷ []) 0 (omega arith)
