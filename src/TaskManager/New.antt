-- ===== src/TaskManager/New.antt =====
-- task_manager.go: the package's New.
use triggerhook.Base.{
  ℤ, pos, int64, String, Bool, is_some, Option, none, some, Run, ok, panic, or_panic, ◌>>=◌,
}
use triggerhook.Contracts.{Topic, all, topic_text}
use triggerhook.Contracts.Errors.{RepoError}
use triggerhook.Settings.{Merge, fill_int, or_zero, or_panics}
use triggerhook.Monitoring.Metrics.{integral_metric_type}
use triggerhook.Monitoring.Registry.{Monitoring, init, publish}
use triggerhook.TaskManager.Interface.{Repository}
use triggerhook.TaskManager.Operations.{TaskManager}

pub record Options : Type 0 where
  pub max_retry : ℤ
  pub time_gap_between_retry : ℤ

-- The two calls of the repository that only New makes: Up and Count.
pub record Startup (R : Type 0) : Type 0 where
  pub up : R → Option RepoError × R
  pub count : R → ℤ × Option RepoError × R

-- What New leaves: the settings, the repository and the monitoring.
pub record Started (R : Type 0) : Type 0 where
  pub max_retry : ℤ
  pub time_gap_between_retry : ℤ
  pub repo : R
  pub monitoring : Monitoring

abbrev pub zero_options : Options
zero_options = record { max_retry = pos 0; time_gap_between_retry = pos 0 }

-- Ten milliseconds, in nanoseconds.
abbrev pub default_options : Options
default_options = record { max_retry = pos 3; time_gap_between_retry = pos 10000000 }

-- The topics that are initialized.
abbrev pub is_known : Monitoring → Topic → Bool
is_known m topic = is_some (m.metrics (topic_text topic))

-- `if err := repository.Up(); err != nil { panic(err) }`
abbrev pub upped : {R : Type 0} → Option RepoError × R → Run R
upped (none, r) = ok r
upped (some e, r) = panic

abbrev pub counted : {R : Type 0} → ℤ × Option RepoError × R → Run (ℤ × R)
counted (count, none, r) = ok (count, r)
counted (count, some e, r) = panic

unfoldable pub new :
    {R : Type 0} → Merge Options → Startup R → Option Options → R → Monitoring → Run (Started R)
unfolding init publish topic_text
new merge startup options r m = do
  r1 ← upped (startup.up r)
  o ← or_panic (merge (or_zero zero_options options) default_options)
  (count, r2) ← counted (startup.count r1)
  m1 ← or_panics (init (topic_text all) integral_metric_type m)
  m2 ← or_panics (publish (topic_text all) (int64 count) m1)
  ok (record {
    max_retry = o.max_retry;
    time_gap_between_retry = o.time_gap_between_retry;
    repo = r2;
    monitoring = m2;
  })

-- The task manager over the repository, once the topics of `m` are initialized.
unfoldable pub of_started :
    {R C : Type 0} → Repository R C → (String → Bool) → Monitoring → Started R → TaskManager R C
unfolding topic_text
of_started repository is_id_valid m s = record {
  repository = repository;
  max_retry = s.max_retry;
  known = is_known m;
  is_id_valid = is_id_valid;
}

-- What the merge does to these options.
unfoldable pub filled : Options → Options → Options
unfolding fill_int
filled dst src = record {
  max_retry = fill_int dst.max_retry src.max_retry;
  time_gap_between_retry = fill_int dst.time_gap_between_retry src.time_gap_between_retry;
}
