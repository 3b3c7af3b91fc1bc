-- ===== src/Monitoring/Registry.antt =====
-- monitoring_service/monitoring_service.go: Init, Publish, Listen and the rounds of Run.
use triggerhook.Base.{ℤ, pos, String, List, [], ◌∷◌, ◌++◌, Option, none, some, update}
use triggerhook.Monitoring.Metrics.{MetricType, Metric, of_value, set, get, new_metric}

pub data MonitoringError : Type 0 where
  topic_is_not_initialized topic_exist : MonitoringError

-- The Monitoring: its metrics, the topics with a subscription, one channel for each, and what has
-- been sent to those channels. A topic is a string.
pub record Monitoring : Type 0 where
  pub metrics : String → Option Metric
  pub subscriptions : List String
  pub sent : List (String × ℤ)

unfoldable pub init : String → MetricType → Monitoring → Option MonitoringError × Monitoring
unfolding new_metric
init topic calc_type m = elim (m.metrics topic) [
  | some old ↦ (some topic_exist, m)
  | none ↦ (none, record m { metrics = update m.metrics topic (some (new_metric calc_type)) })
]

unfoldable pub publish : String → ℤ → Monitoring → Option MonitoringError × Monitoring
unfolding set
publish topic measurement m = elim (m.metrics topic) [
  | none ↦ (some topic_is_not_initialized, m)
  | some metric ↦
      (none, record m { metrics = update m.metrics topic (some (set measurement metric)) })
]

-- Listen registers a metric of values; `listened` is a turn of the goroutine that it starts.
unfoldable pub listen : String → Monitoring → Option MonitoringError × Monitoring
listen topic m = elim (m.metrics topic) [
  | some old ↦ (some topic_exist, m)
  | none ↦ (none, record m { metrics = update m.metrics topic (some (of_value (pos 0))) })
]

unfoldable pub listened : String → ℤ → Monitoring → Monitoring
unfolding set
listened topic measurement m = elim (m.metrics topic) [
  | none ↦ m
  | some metric ↦ record m { metrics = update m.metrics topic (some (set measurement metric)) }
]

-- A topic in a round of Run, one without a metric is passed over.
unfoldable pub report_topic : String → Monitoring → Monitoring
unfolding get
report_topic topic m = elim (m.metrics topic) [
  | none ↦ m
  | some metric ↦
      let (measure, metric') = get metric in
      record m {
        metrics = update m.metrics topic (some metric');
        sent = m.sent ++ (topic, measure) ∷ [];
      }
]

unfoldable pub report_topics : List String → Monitoring → Monitoring
unfolding report_topic
report_topics [] m = m
report_topics (topic ∷ rest) m = report_topics rest (report_topic topic m)

unfoldable pub run_round : Monitoring → Monitoring
unfolding report_topics
run_round m = report_topics m.subscriptions m
