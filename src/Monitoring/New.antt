-- ===== src/Monitoring/New.antt =====
-- monitoring_service/monitoring_service.go: the package's New.
use triggerhook.Base.{ℕ, ℤ, pos, String, List, [], ◌∷◌, Option, none, Run, ok, or_panic, ◌>>=◌}
use triggerhook.Settings.{Merge, fill_int, or_zero, make_chan}
use triggerhook.Monitoring.Registry.{Monitoring}

-- `subscriptions` are the topics that the map of callbacks has.
pub record Options : Type 0 where
  pub period_measure : ℤ
  pub event_cap : ℤ
  pub subscriptions : List String

-- The Monitoring with its settings, and the capacity of the channel of each subscription.
pub record MonitoringService : Type 0 where
  pub period_measure : ℤ
  pub event_cap : ℤ
  pub subscription_chs : List (String × ℕ)
  pub monitoring : Monitoring

abbrev pub zero_options : Options
zero_options = record { period_measure = pos 0; event_cap = pos 0; subscriptions = [] }

-- Ten seconds, in nanoseconds.
abbrev pub default_options : Options
default_options = record {
  period_measure = pos 10000000000;
  event_cap = pos 1000;
  subscriptions = [];
}

-- The loop over the subscriptions, which makes a channel for each.
unfoldable pub subscribe : ℤ → List String → Run (List (String × ℕ))
subscribe cap [] = ok []
subscribe cap (topic ∷ rest) = do
  event_ch ← make_chan cap
  chs ← subscribe cap rest
  ok ((topic, event_ch) ∷ chs)

unfoldable pub new : Merge Options → Option Options → Run MonitoringService
unfolding subscribe
new merge options = do
  o ← or_panic (merge (or_zero zero_options options) default_options)
  chs ← subscribe o.event_cap o.subscriptions
  ok (record {
    period_measure = o.period_measure;
    event_cap = o.event_cap;
    subscription_chs = chs;
    monitoring = record { metrics = λ _. none; subscriptions = o.subscriptions; sent = [] };
  })

-- What the merge does to these options, whose default has no subscriptions to add.
unfoldable pub filled : Options → Options → Options
unfolding fill_int
filled dst src = record {
  period_measure = fill_int dst.period_measure src.period_measure;
  event_cap = fill_int dst.event_cap src.event_cap;
  subscriptions = dst.subscriptions;
}
