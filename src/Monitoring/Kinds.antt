-- ===== src/Monitoring/Kinds.antt =====
-- What the calls of the monitoring leave of a metric that is registered.
use triggerhook.Base.{
  pos, ℤ, String, str_eq, eq_iff, List, [], ◌∷◌, Bool-cases, none, some, Option-cases, update, inl,
  inr, ◌≡◌, refl, sym, ap, ◌∙◌,
}
use triggerhook.Monitoring.Metrics.{
  MetricType, velocity_metric_type, value_metric_type, integral_metric_type, Metric, integral,
  velocity, of_value, set, get, new_metric,
}
use triggerhook.Monitoring.Registry.{
  Monitoring, init, publish, listen, listened, report_topic, report_topics, run_round,
}

abbrev pub kind : Metric → MetricType
kind (integral n) = integral_metric_type
kind (velocity n) = velocity_metric_type
kind (of_value n) = value_metric_type

-- A call of the monitoring, a turn of a listener, or a round of Run.
pub data Call : Type 0 where
  inits : String → MetricType → Call
  publishes : String → ℤ → Call
  listens : String → Call
  listener_turns : String → ℤ → Call
  runs_round : Call

unfoldable pub call : Call → Monitoring → Monitoring
unfolding init publish listen listened run_round
call (inits topic calc_type) m = (init topic calc_type m).1
call (publishes topic n) m = (publish topic n m).1
call (listens topic) m = (listen topic m).1
call (listener_turns topic n) m = listened topic n m
call runs_round m = run_round m

unfoldable pub calls : List Call → Monitoring → Monitoring
unfolding call
calls [] m = m
calls (c ∷ rest) m = calls rest (call c m)

-- The topic has a metric of that kind.
pub record HasKind (topic : String) (k : MetricType) (m : Monitoring) : Type 0 where
  pub metric : Metric
  pub registered : m.metrics topic ≡ some metric
  pub of_kind : kind metric ≡ k

set-kind : (n : ℤ) (x : Metric) → kind (set n x) ≡ kind x
unfolding set
set-kind n (integral v) = refl
set-kind n (velocity v) = refl
set-kind n (of_value v) = refl

get-kind : (x : Metric) → kind (get x).1 ≡ kind x
unfolding get
get-kind (integral v) = refl
get-kind (velocity v) = refl
get-kind (of_value v) = refl

some_inj : {x y : Metric} → some x ≡ some y → x ≡ y
some_inj {x} e = ap (λ o. elim o [ none ↦ x | some y ↦ y ]) e

-- A metric is replaced by one of its kind.
replaced :
    {topic : String} {k : MetricType} (other : String) {m m' : Monitoring} (old new : Metric)
    → m.metrics other ≡ some old
    → kind new ≡ kind old
    → m'.metrics ≡ update m.metrics other (some new)
    → HasKind topic k m
    → HasKind topic k m'
replaced {topic = topic} other {m = m} {m' = m'} old new e same q h =
    elim (Bool-cases (str_eq other topic)) [
      | inl b ↦ record {
        metric = new;
        registered = ap (λ f. f topic) q ∙ rw b refl;
        of_kind =
            same
            ∙ ap kind (some_inj (sym e ∙ ap m.metrics ((eq_iff other topic).0 b) ∙ h.registered))
            ∙ h.of_kind;
      }
      | inr b ↦ record {
        metric = h.metric;
        registered = ap (λ f. f topic) q ∙ rw b h.registered;
        of_kind = h.of_kind;
      }
    ]

-- A topic without a metric gets one.
added :
    {topic : String} {k : MetricType} (other : String) {m m' : Monitoring} (new : Metric)
    → m.metrics other ≡ none
    → m'.metrics ≡ update m.metrics other (some new)
    → HasKind topic k m
    → HasKind topic k m'
added {topic = topic} other {m = m} new e q h = elim (Bool-cases (str_eq other topic)) [
  | inl b ↦ cc (e, h.registered, (eq_iff other topic).0 b)
  | inr b ↦ record {
    metric = h.metric;
    registered = ap (λ f. f topic) q ∙ rw b h.registered;
    of_kind = h.of_kind;
  }
]

init-HasKind :
    (other : String) (t : MetricType) (m : Monitoring) {topic : String} {k : MetricType}
    → HasKind topic k m
    → HasKind topic k (init other t m).1
unfolding init
init-HasKind other t m h = elim (Option-cases (m.metrics other)) [
  | inl e ↦ rw (init, e) (added other (new_metric t) e refl h)
  | inr (x, e) ↦ rw (init, e) h
]

publish-HasKind :
    (other : String) (n : ℤ) (m : Monitoring) {topic : String} {k : MetricType}
    → HasKind topic k m
    → HasKind topic k (publish other n m).1
unfolding publish
publish-HasKind other n m h = elim (Option-cases (m.metrics other)) [
  | inl e ↦ rw (publish, e) h
  | inr (x, e) ↦ rw (publish, e) (replaced other x (set n x) e (set-kind n x) refl h)
]

listen-HasKind :
    (other : String) (m : Monitoring) {topic : String} {k : MetricType}
    → HasKind topic k m
    → HasKind topic k (listen other m).1
unfolding listen
listen-HasKind other m h = elim (Option-cases (m.metrics other)) [
  | inl e ↦ rw (listen, e) (added other (of_value (pos 0)) e refl h)
  | inr (x, e) ↦ rw (listen, e) h
]

listened-HasKind :
    (other : String) (n : ℤ) (m : Monitoring) {topic : String} {k : MetricType}
    → HasKind topic k m
    → HasKind topic k (listened other n m)
unfolding listened
listened-HasKind other n m h = elim (Option-cases (m.metrics other)) [
  | inl e ↦ rw (listened, e) h
  | inr (x, e) ↦ rw (listened, e) (replaced other x (set n x) e (set-kind n x) refl h)
]

report_topic-HasKind :
    (other : String) (m : Monitoring) {topic : String} {k : MetricType}
    → HasKind topic k m
    → HasKind topic k (report_topic other m)
unfolding report_topic
report_topic-HasKind other m h = elim (Option-cases (m.metrics other)) [
  | inl e ↦ rw (report_topic, e) h
  | inr (x, e) ↦ rw (report_topic, e) (replaced other x ((get x).1) e (get-kind x) refl h)
]

report_topics-HasKind :
    (others : List String) (m : Monitoring) {topic : String} {k : MetricType}
    → HasKind topic k m
    → HasKind topic k (report_topics others m)
unfolding report_topics
report_topics-HasKind [] m h = h
report_topics-HasKind (other ∷ rest) m h =
    report_topics-HasKind rest (report_topic other m) (report_topic-HasKind other m h)

call-HasKind :
    (c : Call) (m : Monitoring) {topic : String} {k : MetricType}
    → HasKind topic k m
    → HasKind topic k (call c m)
unfolding call run_round
call-HasKind (inits other t) m h = init-HasKind other t m h
call-HasKind (publishes other n) m h = publish-HasKind other n m h
call-HasKind (listens other) m h = listen-HasKind other m h
call-HasKind (listener_turns other n) m h = listened-HasKind other n m h
call-HasKind runs_round m h = report_topics-HasKind m.subscriptions m h

-- A topic that has a metric keeps one, and of the same type, over any sequence of calls of Init,
-- Publish and Listen, turns of listeners and rounds of Run, also when a call names the topic
-- again.
pub calls-HasKind :
    (cs : List Call) (m : Monitoring) {topic : String} {k : MetricType}
    → HasKind topic k m
    → HasKind topic k (calls cs m)
unfolding calls
calls-HasKind [] m h = h
calls-HasKind (c ∷ rest) m h = calls-HasKind rest (call c m) (call-HasKind c m h)
