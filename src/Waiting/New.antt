-- ===== src/Waiting/New.antt =====
-- waiting_service.go: the package's New.
use triggerhook.Base.{ℤ, pos, [], Option, Run, ok, or_panic, ◌>>=◌}
use triggerhook.Contracts.{preloaded, deleting_rate, topic_text}
use triggerhook.Settings.{Merge, fill_int, or_zero, or_panics}
use triggerhook.Monitoring.Metrics.{velocity_metric_type}
use triggerhook.Monitoring.Registry.{Monitoring, init, listen}
use triggerhook.Waiting.TaskHeap.{TaskHeap, new_prioritized_task}

-- Without the deprecated capacities, which nothing reads.
pub record Options : Type 0 where
  pub greedy_processing_limit : ℤ

-- The waitingService: its list and its setting.
pub record WaitingService : Type 0 where
  pub tasks_waiting_list : TaskHeap
  pub greedy_processing_limit : ℤ

abbrev pub zero_options : Options
zero_options = record { greedy_processing_limit = pos 0 }

abbrev pub default_options : Options
default_options = record { greedy_processing_limit = pos 10 }

unfoldable pub new : Merge Options → Option Options → Monitoring → Run (WaitingService × Monitoring)
unfolding init listen topic_text new_prioritized_task
new merge options m = do
  o ← or_panic (merge (or_zero zero_options options) default_options)
  list ← new_prioritized_task []
  m1 ← or_panics (listen (topic_text preloaded) m)
  m2 ← or_panics (init (topic_text deleting_rate) velocity_metric_type m1)
  ok (record { tasks_waiting_list = list; greedy_processing_limit = o.greedy_processing_limit }, m2)

-- What the merge does to these options.
unfoldable pub filled : Options → Options → Options
unfolding fill_int
filled dst src = record {
  greedy_processing_limit = fill_int dst.greedy_processing_limit src.greedy_processing_limit;
}
