-- ===== src/Sender/New.antt =====
-- sender_service.go: the package's New.
use triggerhook.Base.{ℕ, ℤ, pos, [], false, Option, Run, ok, or_panic, ◌>>=◌}
use triggerhook.Contracts.{confirmation_rate, sending_rate, waiting_for_confirmation, topic_text}
use triggerhook.Settings.{Merge, fill_int, or_zero, or_panics, make_chan}
use triggerhook.Monitoring.Metrics.{velocity_metric_type, integral_metric_type}
use triggerhook.Monitoring.Registry.{Monitoring, init}
use triggerhook.Sender.Handles.{Handles}

-- Without the deprecated capacities, which nothing reads.
pub record Options : Type 0 where
  pub batch_max_items : ℤ
  pub batch_timeout : ℤ
  pub confirmation_workers_count : ℤ
  pub ctx_timeout : ℤ

-- The senderService: its settings, the capacity of the channel of tasks to confirm, and the handles.
pub record SenderService : Type 0 where
  pub batch_max_items : ℤ
  pub batch_timeout : ℤ
  pub confirmation_workers_count : ℤ
  pub ctx_timeout : ℤ
  pub tasks_to_confirm : ℕ
  pub handles : Handles

abbrev pub zero_options : Options
zero_options = record {
  batch_max_items = pos 0;
  batch_timeout = pos 0;
  confirmation_workers_count = pos 0;
  ctx_timeout = pos 0;
}

-- The times are in nanoseconds.
abbrev pub default_options : Options
default_options = record {
  batch_max_items = pos 1000;
  batch_timeout = pos 50000000;
  confirmation_workers_count = pos 5;
  ctx_timeout = pos 5000000000;
}

-- A pool that lends fresh handles.
abbrev pub no_handles : Handles
no_handles = record {
  store = λ _. record { is_processed = false; task = record { id = ""; exec_time = pos 0 } };
  pool = [];
  next = 0;
  confirmed = [];
  rolled_back = [];
}

unfoldable pub of_options : Options → ℕ → SenderService
of_options o tasks_to_confirm = record {
  batch_max_items = o.batch_max_items;
  batch_timeout = o.batch_timeout;
  confirmation_workers_count = o.confirmation_workers_count;
  ctx_timeout = o.ctx_timeout;
  tasks_to_confirm = tasks_to_confirm;
  handles = no_handles;
}

unfoldable pub new : Merge Options → Option Options → Monitoring → Run (SenderService × Monitoring)
unfolding of_options init topic_text
new merge options m = do
  o ← or_panic (merge (or_zero zero_options options) default_options)
  m1 ← or_panics (init (topic_text confirmation_rate) velocity_metric_type m)
  m2 ← or_panics (init (topic_text sending_rate) velocity_metric_type m1)
  m3 ← or_panics (init (topic_text waiting_for_confirmation) integral_metric_type m2)
  tasks_to_confirm ← make_chan o.batch_max_items
  ok (of_options o tasks_to_confirm, m3)

-- What the merge does to these options.
unfoldable pub filled : Options → Options → Options
unfolding fill_int
filled dst src = record {
  batch_max_items = fill_int dst.batch_max_items src.batch_max_items;
  batch_timeout = fill_int dst.batch_timeout src.batch_timeout;
  confirmation_workers_count =
      fill_int dst.confirmation_workers_count src.confirmation_workers_count;
  ctx_timeout = fill_int dst.ctx_timeout src.ctx_timeout;
}
