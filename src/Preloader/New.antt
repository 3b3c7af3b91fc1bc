-- ===== src/Preloader/New.antt =====
-- preloader_service.go: the package's New.
use triggerhook.Base.{ℤ, pos, Option, Run, ok, or_panic, ◌>>=◌}
use triggerhook.Contracts.{creating_rate, preloading_rate, topic_text}
use triggerhook.Settings.{Merge, fill_int, or_zero, or_panics}
use triggerhook.Monitoring.Metrics.{velocity_metric_type}
use triggerhook.Monitoring.Registry.{Monitoring, init}
use triggerhook.Preloader.Service.{PreloadingService}

-- Without the deprecated PreloadedTaskCap, which nothing reads.
pub record Options : Type 0 where
  pub time_preload : ℤ
  pub coef_time_preload_of_new_task : ℤ
  pub task_number_in_one_search : ℤ
  pub workers_count : ℤ
  pub ctx_timeout : ℤ

-- The preloadingService: what a new task depends on, and the other settings.
pub record Preloader : Type 0 where
  pub service : PreloadingService
  pub task_number_in_one_search : ℤ
  pub workers_count : ℤ
  pub ctx_timeout : ℤ

abbrev pub zero_options : Options
zero_options = record {
  time_preload = pos 0;
  coef_time_preload_of_new_task = pos 0;
  task_number_in_one_search = pos 0;
  workers_count = pos 0;
  ctx_timeout = pos 0;
}

-- The times are in nanoseconds.
abbrev pub default_options : Options
default_options = record {
  time_preload = pos 5000000000;
  coef_time_preload_of_new_task = pos 2;
  task_number_in_one_search = pos 1000;
  workers_count = pos 10;
  ctx_timeout = pos 5000000000;
}

unfoldable pub of_options : Options → Preloader
of_options o = record {
  service = record {
    time_preload = o.time_preload;
    coef_time_preload_of_new_task = o.coef_time_preload_of_new_task;
  };
  task_number_in_one_search = o.task_number_in_one_search;
  workers_count = o.workers_count;
  ctx_timeout = o.ctx_timeout;
}

unfoldable pub new : Merge Options → Option Options → Monitoring → Run (Preloader × Monitoring)
unfolding of_options init topic_text
new merge options m = do
  o ← or_panic (merge (or_zero zero_options options) default_options)
  m1 ← or_panics (init (topic_text creating_rate) velocity_metric_type m)
  m2 ← or_panics (init (topic_text preloading_rate) velocity_metric_type m1)
  ok (of_options o, m2)

-- What the merge does to these options.
unfoldable pub filled : Options → Options → Options
unfolding fill_int
filled dst src = record {
  time_preload = fill_int dst.time_preload src.time_preload;
  coef_time_preload_of_new_task =
      fill_int dst.coef_time_preload_of_new_task src.coef_time_preload_of_new_task;
  task_number_in_one_search = fill_int dst.task_number_in_one_search src.task_number_in_one_search;
  workers_count = fill_int dst.workers_count src.workers_count;
  ctx_timeout = fill_int dst.ctx_timeout src.ctx_timeout;
}
